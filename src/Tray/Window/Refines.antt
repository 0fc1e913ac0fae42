-- ===== src/Tray/Window/Refines.antt =====
-- What the messages that reach the tray window of lib/shell/tray.c do to the list of icons, and
-- what the subscribers are told of it.
use cereja.Prelude.{
  ℕ, ◌≡◌, Bool, true, false, not, ◌&&◌, ◌||◌, Option, none, some, ◌>>=◌, List, [], ◌∷◌, ◌==◌,
  if◌then◌else◌, refl, ◌∙◌, Bool-cases, inl, inr,
}
use cereja.Tray.Notify.{
  CrjNotifyIconData, CrjTrayIcon, CrjTrayData, nim_add, nim_modify, nim_delete,
}
use cereja.Tray.TrayData
use cereja.Tray.TrayData.{Change, Outcome}
use cereja.Tray.TrayData.Refines.{
  Refines, add_icon-Refines, remove_icon-Refines, update_icon-Refines,
}
use cereja.Tray.Live.{live, has_key, IsWellFormed, published, published-append}
use cereja.Tray.Spec.{
  remove_first, update_first, add_last, removed_change, updated_change, added_change, search_icon,
}
use cereja.Tray.Window.{Reply, tray_message_proc, notify_icon_data_size, finish, modify_or_add}

-- What the list of icons becomes, and the event with the change that is told.
abbrev pub Told : Type 0
Told = List CrjTrayIcon × List (ℕ × ℕ × ℕ)

abbrev pub told : ℕ → List CrjTrayIcon → Option Change → Told
told event xs none = (xs, [])
told event xs (some c) = (xs, (event, c.icon_index, c.flags) ∷ [])

abbrev pub spec_modify : List CrjTrayIcon → CrjNotifyIconData → Told
spec_modify xs nid =
    if has_key nid.h_wnd nid.u_id xs
    then told nim_modify (update_first nid xs) (updated_change nid xs)
    else told nim_add (add_last nid xs) (added_change nid xs)

-- The abstract tray service: a notification of another size, or another message, changes nothing.
abbrev pub spec_message : List CrjTrayIcon → ℕ → CrjNotifyIconData → Told
spec_message xs message nid =
    if not (nid.cb_size == notify_icon_data_size)
    then (xs, [])
    else if message == nim_add
    then told nim_add (add_last nid xs) (added_change nid xs)
    else if message == nim_delete
    then told nim_delete (remove_first nid xs) (removed_change nid xs)
    else if message == nim_modify
    then spec_modify xs nid
    else (xs, [])

abbrev pub is_handled : ℕ → CrjNotifyIconData → Bool
is_handled message nid =
    nid.cb_size == notify_icon_data_size
    && (message == nim_add || message == nim_delete || message == nim_modify)

-- A reply that leaves this list of icons well formed, and these events told.
pub record Replies (run : Option Reply) (what : Told) (returned : Bool) : Type 0 where
  pub reply : Reply
  pub ran : run ≡ some reply
  pub well_formed : IsWellFormed reply.tray
  pub live_is : live reply.tray ≡ what.0
  pub published_is : published reply.effects ≡ what.1
  pub returned_is : reply.returned ≡ returned

finish-Replies :
    (message : ℕ) {run : Option Outcome} {xs : List CrjTrayIcon} {c : Option Change}
    → Refines run xs c
    → Replies (run >>= λ o. some (finish message o)) (told message xs c) true
unfolding finish
finish-Replies message {c = none} r = record {
  reply = finish message r.outcome;
  ran = rw r.ran;
  well_formed = r.well_formed;
  live_is = r.live_is;
  published_is = rw r.result_is r.quiet;
  returned_is = refl;
}
finish-Replies message {c = some c} r = record {
  reply = finish message r.outcome;
  ran = rw r.ran;
  well_formed = r.well_formed;
  live_is = r.live_is;
  published_is = rw r.result_is (rw (published-append r.outcome.effects, r.quiet));
  returned_is = refl;
}

module _ (d : CrjTrayData) (nid : CrjNotifyIconData) (w : IsWellFormed d) where
  add-Replies :
      Replies
        (TrayData.add_icon d nid >>= λ o. some (finish nim_add o))
        (told nim_add (add_last nid (live d)) (added_change nid (live d)))
        true
  add-Replies = finish-Replies nim_add (add_icon-Refines d nid w)

  modify-Replies :
      Replies
        (TrayData.update_icon d nid >>= λ o. modify_or_add o nid)
        (spec_modify (live d) nid)
        true
  unfolding modify_or_add
  modify-Replies =
      let u = update_icon-Refines d nid w in
      elim (search_icon nid (live d)) [
        | inl m ↦
            let same : live u.outcome.self ≡ live d = u.live_is ∙ m.updated in
            let again =
              finish-Replies nim_add (add_icon-Refines u.outcome.self nid u.well_formed) in
            rw (u.ran, m.absent, modify_or_add, u.result_is, m.change)
              (rw (same, m.absent) at again)
        | inr f ↦
            let done = finish-Replies nim_modify u in
            rw (f.present, u.ran, modify_or_add, u.result_is, f.change)
              (rw (u.ran, f.change) at done)
      ]

  unhandled :
      Replies (some (record { tray = d; returned = false; effects = [] })) (live d, []) false
  unhandled = record {
    reply = record { tray = d; returned = false; effects = [] };
    ran = refl;
    well_formed = w;
    live_is = refl;
    published_is = refl;
    returned_is = refl;
  }

  -- A message to the tray window does to the icons of a well-formed tray what the abstract service
  -- says, publishes just that change, answers whether the message is known, and never reads or
  -- writes outside the array.
  pub tray_message_proc-Replies :
      (message : ℕ)
      → Replies
          (tray_message_proc d message nid)
          (spec_message (live d) message nid)
          (is_handled message nid)
  unfolding tray_message_proc
  tray_message_proc-Replies message = elim (Bool-cases (nid.cb_size == notify_icon_data_size)) [
    | inr odd ↦ rw odd unhandled
    | inl sized ↦ elim (Bool-cases (message == nim_add)) [
      | inl add ↦ rw (sized, add) add-Replies
      | inr not_add ↦ elim (Bool-cases (message == nim_delete)) [
        | inl delete ↦
            rw (sized, not_add, delete) (finish-Replies nim_delete (remove_icon-Refines d nid w))
        | inr not_delete ↦ elim (Bool-cases (message == nim_modify)) [
          | inl modify ↦ rw (sized, not_add, not_delete, modify) modify-Replies
          | inr other ↦ rw (sized, not_add, not_delete, other) unhandled
        ]
      ]
    ]
  ]
