-- ===== src/Ui/Window/Names/Fits.antt =====
-- The buffers for the names of windows in lib/ui/window.c.
use cereja.Prelude.{
  ℕ, zero, suc, ltb, ◌+◌, ◌*◌, ◌≤◌, ◌≡◌, refl, sym, ap, true, false, some, List, [], ◌∷◌, length,
  take, length-take, arith,
}
use cereja.Utf8.{Converter, Converts, from_native}
use cereja.Utf8.Texts.{from_native-fits}
use cereja.Ui.Window.Names.{name, converted_name, get_class_name, get_title_name}

no_text : (text : List ℕ) → length text ≤ 0 → text ≡ []
no_text [] h = refl
no_text (c ∷ cs) h = absurd (omega (arith, h))

module _ (C : Converter) (encode : List ℕ → List ℕ) (converts : Converts C encode) where
  -- A text of at most `n` characters, in a buffer for `n + 1` characters.
  converted_name-fits :
      ((src : List ℕ) → length (encode src) ≤ 3 * length src)
      → (n : ℕ) (src : List ℕ) → length src ≤ n
      → converted_name (from_native C ((n + 1) * 3) src) ≡ name (encode src)
  converted_name-fits ratio n src h =
      rw (from_native-fits C encode converts ((n + 1) * 3) src (omega (arith, ratio src, h)))
        (ground arith)

  title_fits :
      ((src : List ℕ) → length (encode src) ≤ 3 * length src)
      → (n : ℕ) (title : List ℕ)
      → get_title_name C n false (some title) ≡ name (encode (take n title))
  unfolding get_title_name
  title_fits ratio zero title = ap name (sym (no_text (encode []) (omega (arith, ratio []))))
  title_fits ratio (suc n) title =
      let positive : ltb 0 (suc n) ≡ true = ground arith in
      rw positive (
        converted_name-fits ratio (suc n) (take (suc n) title)
          (omega (arith, length-take (suc n) title)))

  -- Where the conversion works as documented and a text in UTF-8 has at most three bytes for each
  -- character in UTF-16, ui.window.get_class_name and get_title_name have room for every name:
  -- they give the class name, up to 255 characters, and the title, up to the length that was asked
  -- before, whatever the title is by then.
  pub names-fit :
      ((src : List ℕ) → length (encode src) ≤ 3 * length src)
      → (n : ℕ) (class title : List ℕ)
      → (get_class_name C (some class) ≡ name (encode (take 255 class)))
        × (get_title_name C n false (some title) ≡ name (encode (take n title)))
  unfolding get_class_name
  names-fit ratio n class title = (
    converted_name-fits ratio 255 (take 255 class) (omega (arith, length-take 255 class)),
    title_fits ratio n title,
  )
