-- ===== src/Utf8/Texts.antt =====
-- The texts that src/utf8api.c gives.
use cereja.Prelude.{ℕ, ◌+◌, ◌≤◌, ◌<◌, ◌≡◌, some, List, length, arith}
use cereja.Utf8.{Converter, Converts, from_native, get_env_a}

module _ (C : Converter) (encode : List ℕ → List ℕ) (converts : Converts C encode) where
  -- A text comes with its length, the NUL included, where a buffer has room for both, else the result is 0.
  pub from_native-fits :
      (size : ℕ) (src : List ℕ)
      → length (encode src) + 1 ≤ size
      → from_native C size src ≡ (length (encode src) + 1, encode src)
  unfolding from_native
  from_native-fits size src h = converts.fits size src h

  pub from_native-too_small :
      (size : ℕ) (src : List ℕ)
      → 0 < size
      → size < length (encode src) + 1
      → (from_native C size src).0 ≡ 0
  unfolding from_native
  from_native-too_small size src h k = converts.too_small size src h k

  pub get_env_a-value : (value : List ℕ) → get_env_a C (some value) ≡ some (encode value)
  unfolding get_env_a from_native
  get_env_a-value value =
      let n = length (encode value) in
      rw (converts.asked value, converts.fits (n + 1) value (omega arith)) (ground arith)
