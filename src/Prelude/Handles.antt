-- ===== src/Prelude/Handles.antt =====
-- Handles in a list: whether one is there, and the list without its first occurrence.
use Prim.Native.Nat.{ℕ}
use mathlib.Core.Bool.{Bool, true, false}
use mathlib.Core.List.{List, [], ◌∷◌}
use cereja.Prelude.Tests.{◌==◌, if◌then◌else◌}

abbrev pub remove : ℕ → List ℕ → List ℕ
remove h [] = []
remove h (k ∷ ks) = if k == h then ks else k ∷ remove h ks

abbrev pub member : ℕ → List ℕ → Bool
member h [] = false
member h (k ∷ ks) = if k == h then true else member h ks
