-- ===== src/Tray/Spec.antt =====
-- The tray as a list of icons: what a client of lib/shell/tray.c may rely on, without the array.
use cereja.Prelude.{
  ℕ, suc, ◌+◌, Option, ◌≡◌, Bool, true, false, not, ◌&&◌, ◌||◌, none, some, List, [], ◌∷◌, ◌++◌,
  length, ◌==◌, if◌then◌else◌, arith, refl, ap, inl, inr, ◌⊎◌, Bool-cases,
}
use cereja.Tray.Notify.{CrjNotifyIconData, CrjTrayIcon, is_hidden, is_shared_icon}
use cereja.Tray.TrayIcon.Members.{updated_icon, updated_flags, new_icon}
use cereja.Tray.TrayData.{Change, all_flags, matches}
use cereja.Tray.Live.{has_key, Distinct, position}

-- An icon that NIM_ADD takes: it has an image, it is neither hidden nor shared, and it is new.
abbrev pub is_accepted : CrjNotifyIconData → List CrjTrayIcon → Bool
is_accepted nid xs =
    not (nid.h_icon == 0)
    && not (is_hidden nid || is_shared_icon nid)
    && not (has_key nid.h_wnd nid.u_id xs)

abbrev pub remove_first : CrjNotifyIconData → List CrjTrayIcon → List CrjTrayIcon
remove_first nid [] = []
remove_first nid (x ∷ xs) = if matches x nid then xs else x ∷ remove_first nid xs

abbrev pub update_first : CrjNotifyIconData → List CrjTrayIcon → List CrjTrayIcon
update_first nid [] = []
update_first nid (x ∷ xs) =
    if matches x nid then updated_icon x nid ∷ xs else x ∷ update_first nid xs

-- The result and the icons of `TrayData_RemoveIcon`, by the list.
abbrev pub removed_change : CrjNotifyIconData → List CrjTrayIcon → Option Change
removed_change nid xs =
    if has_key nid.h_wnd nid.u_id xs then some (record { icon_index = 0; flags = 0 }) else none

-- The result of `TrayData_UpdateIcon`: the place of the icon from 1, and the members changed.
abbrev pub updated_change : CrjNotifyIconData → List CrjTrayIcon → Option Change
updated_change nid [] = none
updated_change nid (x ∷ xs) =
    if matches x nid
    then some (record { icon_index = 1; flags = updated_flags x nid })
    else elim (updated_change nid xs) [
      | none ↦ none
      | some c ↦ some (record c { icon_index = suc c.icon_index })
    ]

-- The result of `TrayData_AddIcon`.
abbrev pub added_change : CrjNotifyIconData → List CrjTrayIcon → Option Change
added_change nid xs =
    if is_accepted nid xs
    then some (record { icon_index = length xs + 1; flags = all_flags })
    else none

abbrev pub add_last : CrjNotifyIconData → List CrjTrayIcon → List CrjTrayIcon
add_last nid xs = if is_accepted nid xs then xs ++ new_icon nid ∷ [] else xs

-- The list around the first icon that a notification names.
pub record Found (nid : CrjNotifyIconData) (xs : List CrjTrayIcon) : Type 0 where
  pub pre : List CrjTrayIcon
  pub at : CrjTrayIcon
  pub post : List CrjTrayIcon
  pub splits : xs ≡ pre ++ at ∷ post
  pub index : position nid xs ≡ some (length pre)
  pub present : has_key nid.h_wnd nid.u_id xs ≡ true
  pub removed : remove_first nid xs ≡ pre ++ post
  pub updated : update_first nid xs ≡ pre ++ updated_icon at nid ∷ post
  pub change :
      updated_change nid xs
      ≡ some (record { icon_index = length pre + 1; flags = updated_flags at nid })

pub record Missing (nid : CrjNotifyIconData) (xs : List CrjTrayIcon) : Type 0 where
  pub index : position nid xs ≡ none
  pub absent : has_key nid.h_wnd nid.u_id xs ≡ false
  pub removed : remove_first nid xs ≡ xs
  pub updated : update_first nid xs ≡ xs
  pub change : updated_change nid xs ≡ none

pub search_icon : (nid : CrjNotifyIconData) (xs : List CrjTrayIcon) → Missing nid xs ⊎ Found nid xs
search_icon nid [] =
    inl (record { index = refl; absent = refl; removed = refl; updated = refl; change = refl })
search_icon nid (x ∷ xs) = elim (Bool-cases (matches x nid)) [
  | inl hit ↦ inr (record {
    pre = [];
    at = x;
    post = xs;
    splits = refl;
    index = rw hit;
    present = ground arith;
    removed = rw hit;
    updated = rw hit;
    change = rw hit (ground arith);
  })
  | inr miss ↦ elim (search_icon nid xs) [
    | inl m ↦ inl (record {
      index = rw (miss, m.index);
      absent = rw (miss, m.absent);
      removed = rw (miss, m.removed);
      updated = rw (miss, m.updated);
      change = rw (miss, m.change);
    })
    | inr f ↦ inr (record {
      pre = x ∷ f.pre;
      at = f.at;
      post = f.post;
      splits = ap (◌∷◌ x) f.splits;
      index = rw (miss, f.index);
      present = rw (miss, f.present);
      removed = rw (miss, f.removed);
      updated = rw (miss, f.updated);
      change = rw (miss, f.change) (ground arith);
    })
  ]
]

pub update-key :
    (x : CrjTrayIcon) (nid : CrjNotifyIconData)
    → ((updated_icon x nid).h_wnd ≡ x.h_wnd) × ((updated_icon x nid).u_id ≡ x.u_id)
unfolding updated_icon
update-key x nid = (refl, refl)

pub new-key :
    (nid : CrjNotifyIconData)
    → ((new_icon nid).h_wnd ≡ nid.h_wnd) × ((new_icon nid).u_id ≡ nid.u_id)
unfolding new_icon updated_icon
new-key nid = (refl, refl)

pub has_key-append :
    (w i : ℕ) (xs ys : List CrjTrayIcon)
    → has_key w i (xs ++ ys) ≡ (has_key w i xs || has_key w i ys)
has_key-append w i [] ys = refl
has_key-append w i (x ∷ xs) ys = ground (arith, has_key-append w i xs ys)

pub has_key-remove_first :
    (w i : ℕ) (nid : CrjNotifyIconData) (xs : List CrjTrayIcon)
    → has_key w i xs ≡ false
    → has_key w i (remove_first nid xs) ≡ false
has_key-remove_first w i nid [] h = refl
has_key-remove_first w i nid (x ∷ xs) h = ground (arith, has_key-remove_first w i nid xs)

pub has_key-update_first :
    (w i : ℕ) (nid : CrjNotifyIconData) (xs : List CrjTrayIcon)
    → has_key w i (update_first nid xs) ≡ has_key w i xs
has_key-update_first w i nid [] = refl
has_key-update_first w i nid (x ∷ xs) =
    ground (arith, has_key-update_first w i nid xs, update-key x nid)

pub remove_first-Distinct :
    (nid : CrjNotifyIconData) (xs : List CrjTrayIcon) → Distinct xs → Distinct (remove_first nid xs)
remove_first-Distinct nid [] d = tt
remove_first-Distinct nid (x ∷ xs) d =
    ground (arith, remove_first-Distinct nid xs d.1, has_key-remove_first x.h_wnd x.u_id nid xs d.0)

pub update_first-Distinct :
    (nid : CrjNotifyIconData) (xs : List CrjTrayIcon) → Distinct xs → Distinct (update_first nid xs)
update_first-Distinct nid [] d = tt
update_first-Distinct nid (x ∷ xs) d = ground (
  arith,
  update_first-Distinct nid xs d.1,
  has_key-update_first x.h_wnd x.u_id nid xs,
  update-key x nid,
)

pub append-Distinct :
    (xs : List CrjTrayIcon) (x : CrjTrayIcon)
    → Distinct xs
    → has_key x.h_wnd x.u_id xs ≡ false
    → Distinct (xs ++ x ∷ [])
append-Distinct [] x d h = (refl, tt)
append-Distinct (y ∷ xs) x d h =
    ground (arith, append-Distinct xs x d.1, has_key-append y.h_wnd y.u_id xs (x ∷ []))
