-- ===== src/Ui/Tray/Tells.antt =====
-- The calls of lib/shell/tray.c that lib/ui/tray.c makes or sees, and the messages that they
-- post.
use mathlib.Core.Path.{subst}
use cereja.Prelude.{
  ℕ, ◌≤◌, ◌≡◌, Bool, true, false, not, ◌||◌, Option, none, some, ◌>>=◌, List, [], ◌∷◌, ◌++◌, length,
  length-append, ◌==◌, if◌then◌else◌, arith, refl, sym, ap, ◌⊎◌, inl, inr, Bool-cases,
}
use cereja.Prelude.Int.{ℤ}
use cereja.Tray.Notify.{
  CrjNotifyIconData, CrjTrayIcon, CrjTrayData, Effect, post_message, broadcast_taskbar_created,
  publish, free_icon, nim_add, nim_modify, nim_delete,
}
use cereja.Tray.Live.{live, IsWellFormed, length-live, published, has_key}
use cereja.Tray.Spec.{
  search_icon, add_last, remove_first, update_first, is_accepted, removed_change, added_change,
  updated_change,
}
use cereja.Tray.Window.{tray_message_proc, notify_icon_data_size}
use cereja.Tray.Window.Refines.{tray_message_proc-Replies, spec_message, spec_modify, told, Told}
use cereja.Tray.TrayIcon.Members.{new_icon}
use cereja.Tray.TrayData.{Change}
use cereja.Tray.TrayData.Cleans.{clean_icon-Cleans}
use cereja.Tray.Api
use cereja.Tray.Api.{Called, valid_index, adjust_index, slot}
use cereja.Tray.Api.Moves.{move_icon-Moves, length-Moves}
use cereja.Ui.Tray.{subscriber}

abbrev pub has_delete : List ℕ → Bool
has_delete [] = false
has_delete (event ∷ events) = event == nim_delete || has_delete events

pub has_delete-append : (xs ys : List ℕ) → has_delete (xs ++ ys) ≡ (has_delete xs || has_delete ys)
has_delete-append [] ys = refl
has_delete-append (x ∷ xs) ys = ground (arith, has_delete-append xs ys)

pub subscriber-append :
    (es fs : List Effect) → subscriber (es ++ fs) ≡ subscriber es ++ subscriber fs
unfolding subscriber
subscriber-append [] fs = refl
subscriber-append (publish event icon_index flags ∷ es) fs = rw (subscriber-append es fs)
subscriber-append (post_message w m a b ∷ es) fs = subscriber-append es fs
subscriber-append (broadcast_taskbar_created ∷ es) fs = subscriber-append es fs
subscriber-append (free_icon x ∷ es) fs = subscriber-append es fs

-- The messages posted are the events of what was published.
abbrev events_of : List (ℕ × ℕ × ℕ) → List ℕ
events_of [] = []
events_of ((event, _, _) ∷ ts) = event ∷ events_of ts

subscriber-published : (es : List Effect) → subscriber es ≡ events_of (published es)
unfolding subscriber
subscriber-published [] = refl
subscriber-published (publish event icon_index flags ∷ es) = rw (subscriber-published es)
subscriber-published (post_message w m a b ∷ es) = subscriber-published es
subscriber-published (broadcast_taskbar_created ∷ es) = subscriber-published es
subscriber-published (free_icon x ∷ es) = subscriber-published es

-- A call of `shell.tray` that takes icons away tells so.
pub record Tells (d : CrjTrayData) (run : Option Called) : Type 0 where
  pub called : Called
  pub ran : run ≡ some called
  pub well_formed : IsWellFormed called.tray
  pub told_so : (d.count ≤ called.tray.count) ⊎ (has_delete (subscriber called.effects) ≡ true)

same_of : {b e : Bool} → b ≡ false → b ≡ not e → e ≡ true
same_of h k = ground arith

pub clean_Tells :
    (is_window : ℕ → Bool) (d : CrjTrayData) (index : ℤ)
    → IsWellFormed d
    → Tells d (Api.clean_icon is_window d index)
unfolding Api.clean_icon subscriber
clean_Tells is_window d index w = elim (Bool-cases (valid_index index d.count)) [
  | inr invalid ↦ record {
    called = record { tray = d; effects = [] };
    ran = rw invalid refl;
    well_formed = w;
    told_so = inl (omega arith);
  }
  | inl valid ↦
      let c = clean_icon-Cleans is_window d w (adjust_index index d.count) in
      let effects = c.freed ++ (if c.cleaned then publish nim_delete 0 0 ∷ [] else []) in
      record {
        called = record { tray = c.self; effects = effects };
        ran = rw (valid, c.ran) refl;
        well_formed = c.well_formed;
        told_so = elim (Bool-cases c.cleaned) [
          | inl told ↦ inr (
              rw
                (
                  told,
                  subscriber-append c.freed (publish nim_delete 0 0 ∷ []),
                  has_delete-append (subscriber c.freed) (nim_delete ∷ []),
                )
                (ground arith))
          | inr none_gone ↦ inl (
              let same : (length (live d) == length (live c.self)) ≡ true =
                same_of none_gone c.cleaned_is in
              ground (arith, length-live d w.allocated, length-live c.self c.well_formed.allocated))
        ];
      }
]

pub move_Tells :
    (d : CrjTrayData) (index dest : ℤ) → IsWellFormed d → Tells d (Api.move_icon d index dest)
move_Tells d index dest w =
    let m = move_icon-Moves d w index dest in
    record {
      called = m.called;
      ran = m.ran;
      well_formed = m.well_formed;
      told_so = inl (omega (arith, length-Moves d w index dest m));
    }

-- The list of icons after a message is as long as before, or NIM_DELETE is told.
abbrev Shows : List CrjTrayIcon → Told → Type 0
Shows xs t = (length xs ≤ length t.0) ⊎ (has_delete (events_of t.1) ≡ true)

told_long :
    (event : ℕ) (xs ys : List CrjTrayIcon) (c : Option Change)
    → length xs ≤ length ys
    → Shows xs (told event ys c)
told_long event xs ys none h = inl h
told_long event xs ys (some c) h = inl h

length-add_last :
    (nid : CrjNotifyIconData) (xs : List CrjTrayIcon) → length xs ≤ length (add_last nid xs)
length-add_last nid xs = elim (Bool-cases (is_accepted nid xs)) [
  | inl taken ↦ rw taken (omega (arith, length-append xs (new_icon nid ∷ [])))
  | inr left ↦ rw left (omega arith)
]

length-update_first :
    (nid : CrjNotifyIconData) (xs : List CrjTrayIcon) → length xs ≤ length (update_first nid xs)
length-update_first nid [] = omega arith
length-update_first nid (x ∷ xs) = ground (arith, length-update_first nid xs)

module _ (nid : CrjNotifyIconData) (xs : List CrjTrayIcon) where
  add_Shows : Shows xs (told nim_add (add_last nid xs) (added_change nid xs))
  add_Shows = told_long nim_add xs (add_last nid xs) (added_change nid xs) (length-add_last nid xs)

  modify_Shows : Shows xs (spec_modify xs nid)
  modify_Shows = elim (Bool-cases (has_key nid.h_wnd nid.u_id xs)) [
    | inl known ↦ rw known (
        told_long nim_modify xs (update_first nid xs) (updated_change nid xs)
          (length-update_first nid xs))
    | inr new_one ↦
        subst
          (λ b. Shows xs (
            if b
            then told nim_modify (update_first nid xs) (updated_change nid xs)
            else told nim_add (add_last nid xs) (added_change nid xs)))
          (sym new_one) add_Shows
  ]

  delete_Shows : Shows xs (told nim_delete (remove_first nid xs) (removed_change nid xs))
  delete_Shows = elim (search_icon nid xs) [
    | inl m ↦
        told_long nim_delete xs (remove_first nid xs) (removed_change nid xs)
          (omega (arith, ap length m.removed))
    | inr f ↦ inr (rw f.present refl)
  ]

  message_Shows : (message : ℕ) → Shows xs (spec_message xs message nid)
  message_Shows message = elim (Bool-cases (nid.cb_size == notify_icon_data_size)) [
    | inr odd ↦ rw odd (inl (omega arith))
    | inl sized ↦ elim (Bool-cases (message == nim_add)) [
      | inl add ↦ rw (sized, add) add_Shows
      | inr not_add ↦ elim (Bool-cases (message == nim_delete)) [
        | inl delete ↦ rw (sized, not_add, delete) delete_Shows
        | inr not_delete ↦ elim (Bool-cases (message == nim_modify)) [
          | inl modify ↦ rw (sized, not_add, not_delete, modify) modify_Shows
          | inr other ↦ rw (sized, not_add, not_delete, other) (inl (omega arith))
        ]
      ]
    ]
  ]

module _ (d : CrjTrayData) (nid : CrjNotifyIconData) (w : IsWellFormed d) where
  pub message_Tells :
      (message : ℕ)
      → Tells d (
          tray_message_proc d message nid >>= λ r.
          some (record { tray = r.tray; effects = r.effects }))
  message_Tells message =
      let r = tray_message_proc-Replies d nid w message in
      let size = length-live r.reply.tray r.well_formed.allocated in
      record {
        called = record { tray = r.reply.tray; effects = r.reply.effects };
        ran = rw r.ran refl;
        well_formed = r.well_formed;
        told_so = elim (message_Shows nid (live d) message) [
          | inl long ↦
              inl (omega (arith, long, size, length-live d w.allocated, ap length r.live_is))
          | inr told ↦ inr (rw (subscriber-published r.reply.effects, r.published_is) told)
        ];
      }
