-- ===== src/Tray/TrayData/Refines.antt =====
-- `TrayData_AddIcon`, `TrayData_RemoveIcon` and `TrayData_UpdateIcon` of lib/shell/tray.c on a
-- well-formed array, against the list of icons.
use cereja.Prelude.{
  ◌+◌, ◌-◌, ◌≡◌, false, ◌||◌, Option, none, some, List, [], ◌∷◌, ◌++◌, take, length, set, ◌==◌,
  arith, refl, sym, ◌∙◌, Bool-cases, inl, inr,
}
use cereja.Prelude.Slices.{set-append, take-pieces, length-pieces, take-all, length-snoc}
use cereja.Tray.Notify.{
  CrjNotifyIconData, CrjTrayIcon, CrjTrayData, free_icon, is_hidden, is_shared_icon,
}
use cereja.Tray.TrayIcon.Members.{
  updated_icon, updated_flags, new_icon, update-Members, new-Members,
}
use cereja.Tray.TrayData.{Outcome, Change, all_flags, add_icon, remove_icon, update_icon}
use cereja.Tray.TrayData.Slots.{
  spare, find-Missing, find-Found, count-found, read-found, shift-found, slots,
}
use cereja.Tray.Live.{published, live, has_key, IsWellFormed, length-live}
use cereja.Tray.Spec.{
  removed_change, updated_change, added_change, add_last, remove_first, update_first, Found,
  Missing, search_icon, append-Distinct, new-key, remove_first-Distinct, update_first-Distinct,
}

-- A run that ends well, in a well-formed array of these icons, with this result.
pub record Refines (run : Option Outcome) (xs : List CrjTrayIcon) (result : Option Change)
    : Type 0 where
  pub outcome : Outcome
  pub ran : run ≡ some outcome
  pub well_formed : IsWellFormed outcome.self
  pub live_is : live outcome.self ≡ xs
  pub result_is : outcome.result ≡ result
  pub quiet : published outcome.effects ≡ []

module _ (d : CrjTrayData) (nid : CrjNotifyIconData) (w : IsWellFormed d) where
  remove-Missing :
      Missing nid (live d)
      → Refines (remove_icon d nid) (remove_first nid (live d)) (removed_change nid (live d))
  unfolding remove_icon
  remove-Missing m = record {
    outcome = record { self = d; result = none; effects = [] };
    ran = rw (find-Missing d nid w.allocated m);
    well_formed = w;
    live_is = sym m.removed;
    result_is = rw m.absent;
    quiet = refl;
  }

  remove-Found :
      Found nid (live d)
      → Refines (remove_icon d nid) (remove_first nid (live d)) (removed_change nid (live d))
  unfolding remove_icon
  remove-Found f =
      let (y, shifted) = shift-found d nid w.allocated f in
      let icons = f.pre ++ (f.post ++ (y ∷ spare d nid w.allocated f)) in
      let kept : take (d.count - 1) icons ≡ remove_first nid (live d) =
        take-pieces f.pre f.post _ (d.count - 1) (omega (arith, count-found d nid w.allocated f))
        ∙ sym f.removed in
      record {
        outcome = record {
          self = record { count = d.count - 1; icons = icons };
          result = some (record { icon_index = 0; flags = 0 });
          effects = free_icon f.at ∷ [];
        };
        ran =
            rw (
              find-Found d nid w.allocated f,
              remove_icon,
              read-found d nid w.allocated f,
              shifted,
            );
        well_formed = record {
          allocated = omega (
            arith,
            count-found d nid w.allocated f,
            length-pieces f.pre f.post (y ∷ spare d nid w.allocated f),
          );
          distinct = rw kept (remove_first-Distinct nid (live d) w.distinct);
        };
        live_is = kept;
        result_is = rw f.present;
        quiet = refl;
      }

  -- On a well-formed tray TrayData_RemoveIcon removes the icon that is named and leaves the others
  -- as they were, in their order; the tray stays well formed.
  pub remove_icon-Refines :
      Refines (remove_icon d nid) (remove_first nid (live d)) (removed_change nid (live d))
  remove_icon-Refines = elim (search_icon nid (live d)) [
    | inl m ↦ remove-Missing m
    | inr f ↦ remove-Found f
  ]

  update-Found :
      Found nid (live d)
      → Refines (update_icon d nid) (update_first nid (live d)) (updated_change nid (live d))
  unfolding update_icon
  update-Found f =
      let h = w.allocated in
      let updated = updated_icon f.at nid in
      let icons = f.pre ++ (updated ∷ (f.post ++ spare d nid h f)) in
      let written : set d.icons (length f.pre) updated ≡ icons =
        rw (slots d nid h f) (set-append f.pre f.at _ (length f.pre) updated refl) in
      let kept : take d.count icons ≡ update_first nid (live d) =
        take-pieces f.pre (updated ∷ f.post) _ d.count (omega (arith, count-found d nid h f))
        ∙ sym f.updated in
      record {
        outcome = record {
          self = record { count = d.count; icons = icons };
          result = some (record { icon_index = length f.pre + 1; flags = updated_flags f.at nid });
          effects = [];
        };
        ran = rw (
          find-Found d nid h f,
          update_icon,
          read-found d nid h f,
          update-Members f.at nid,
          written,
        );
        well_formed = record {
          allocated = omega (
            arith,
            count-found d nid h f,
            length-pieces f.pre (updated ∷ f.post) (spare d nid h f),
          );
          distinct = rw kept (update_first-Distinct nid (live d) w.distinct);
        };
        live_is = kept;
        result_is = sym f.change;
        quiet = refl;
      }

  -- On a well-formed tray TrayData_UpdateIcon changes the one icon that is named, in its place;
  -- the tray stays well formed.
  pub update_icon-Refines :
      Refines (update_icon d nid) (update_first nid (live d)) (updated_change nid (live d))
  unfolding update_icon
  update_icon-Refines = elim (search_icon nid (live d)) [
    | inl m ↦ record {
      outcome = record { self = d; result = none; effects = [] };
      ran = rw (find-Missing d nid w.allocated m);
      well_formed = w;
      live_is = sym m.updated;
      result_is = sym m.change;
      quiet = refl;
    }
    | inr f ↦ update-Found f
  ]

  -- The array that an icon is appended to.
  appended : CrjTrayData
  appended = record { count = d.count + 1; icons = take d.count d.icons ++ new_icon nid ∷ [] }

  appended-IsWellFormed :
      has_key nid.h_wnd nid.u_id (live d) ≡ false
      → IsWellFormed appended × (live appended ≡ live d ++ new_icon nid ∷ [])
  unfolding appended
  appended-IsWellFormed absent =
      let size = length-live d w.allocated in
      let whole : live appended ≡ live d ++ new_icon nid ∷ [] =
        take-all (d.count + 1) _ (omega (arith, length-snoc (live d) (new_icon nid), size)) in
      (
        record {
          allocated = omega (arith, length-snoc (live d) (new_icon nid), size);
          distinct = rw whole (
              append-Distinct (live d) (new_icon nid) w.distinct
                (rw ((new-key nid).0, (new-key nid).1) absent));
        },
        whole,
      )

  rejected : Refines (some (record { self = d; result = none; effects = [] })) (live d) none
  rejected = record {
    outcome = record { self = d; result = none; effects = [] };
    ran = refl;
    well_formed = w;
    live_is = refl;
    result_is = refl;
    quiet = refl;
  }

  add-Missing :
      Missing nid (live d)
      → Refines (add_icon d nid) (add_last nid (live d)) (added_change nid (live d))
  unfolding add_icon appended
  add-Missing m =
      let (formed, whole) = appended-IsWellFormed m.absent in
      elim (Bool-cases (nid.h_icon == 0)) [
        | inl null ↦ rw null rejected
        | inr image ↦ elim (Bool-cases (is_hidden nid || is_shared_icon nid)) [
          | inl ignored ↦ rw (image, ignored) rejected
          | inr plain ↦
              rw
                (
                  image,
                  plain,
                  find-Missing d nid w.allocated m,
                  m.absent,
                  length-live d w.allocated,
                  new-Members nid,
                )
                (record {
                  outcome = record {
                    self = appended;
                    result = some (record { icon_index = d.count + 1; flags = all_flags });
                    effects = _;
                  };
                  ran = refl;
                  well_formed = formed;
                  live_is = whole;
                  result_is = refl;
                  quiet = refl;
                })
        ]
      ]

  add-Found :
      Found nid (live d)
      → Refines (add_icon d nid) (add_last nid (live d)) (added_change nid (live d))
  unfolding add_icon
  add-Found f = elim (Bool-cases (nid.h_icon == 0)) [
    | inl null ↦ rw null rejected
    | inr image ↦ elim (Bool-cases (is_hidden nid || is_shared_icon nid)) [
      | inl ignored ↦ rw (image, ignored) rejected
      | inr plain ↦ rw (image, plain, find-Found d nid w.allocated f, f.present) rejected
    ]
  ]

  -- On a well-formed tray TrayData_AddIcon puts an accepted icon last and leaves any other out;
  -- the tray stays well formed.
  pub add_icon-Refines :
      Refines (add_icon d nid) (add_last nid (live d)) (added_change nid (live d))
  add_icon-Refines = elim (search_icon nid (live d)) [ inl m ↦ add-Missing m | inr f ↦ add-Found f ]
