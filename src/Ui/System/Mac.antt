-- ===== src/Ui/System/Mac.antt =====
-- The texts of hardware addresses in lib/ui/system.c.
use mathlib.Core.List.{append_assoc}
use cereja.Prelude.{
  ℕ, ◌+◌, ◌-◌, ◌*◌, ◌/◌, ◌%◌, ◌≡◌, refl, sym, ap, ◌∙◌, true, false, not, some, List, [], ◌∷◌, ◌++◌,
  length, length-append, length-drop, drop, ◌==◌, arith, all_true,
}
use cereja.Prelude.Slices.{drop-all}
use cereja.Directories.{Char}
use cereja.Directories.Writes.{write_at-behind, is_text, string_in-text}
use cereja.Ui.System.{hex_digit, hex_byte, mac_loop, mac_text}

-- The bytes in hexadecimal, with colons between them.
abbrev pub joined : List ℕ → List Char
joined [] = []
joined (b ∷ []) = hex_byte b
joined (b ∷ c ∷ bs) = hex_byte b ++ (b':' ∷ joined (c ∷ bs))

hex_digit-nonzero : (d : ℕ) → not (hex_digit d == 0) ≡ true
hex_digit-nonzero d = ground arith

joined-is_text : (bs : List ℕ) → is_text (joined bs) ≡ true
joined-is_text [] = refl
joined-is_text (b ∷ []) =
    all_true (hex_digit-nonzero (b / 16)) (all_true (hex_digit-nonzero (b % 16)) refl)
joined-is_text (b ∷ c ∷ bs) =
    all_true (hex_digit-nonzero (b / 16))
      (all_true (hex_digit-nonzero (b % 16)) (joined-is_text (c ∷ bs)))

mac_loop-writes :
    (bs : List ℕ) (b n j : ℕ) (pre rest : List Char)
    → length pre ≡ j * 3
    → length rest ≡ length (b ∷ bs) * 3
    → n ≡ j + length (b ∷ bs)
    → mac_loop n (b ∷ bs) j (pre ++ rest) ≡ some (pre ++ (joined (b ∷ bs) ++ (0 ∷ [])))
unfolding mac_loop
mac_loop-writes [] b n j pre rest p q e =
    let last : (j == n - 1) ≡ true = ground (arith, e) in
    rw (last, write_at-behind pre (hex_byte b ++ (0 ∷ [])) rest (j * 3) (sym p) (omega (arith, q)))
      (ap (λ x. some (pre ++ (hex_byte b ++ (0 ∷ x)))) (drop-all 3 rest (omega (arith, q))))
mac_loop-writes (c ∷ bs) b n j pre rest p q e =
    let more : (j == n - 1) ≡ false = ground (arith, e) in
    let done = pre ++ (hex_byte b ++ (b':' ∷ [])) in
    let left = drop 4 rest in
    rw
      (
        more,
        write_at-behind pre (hex_byte b ++ (b':' ∷ 0 ∷ [])) rest (j * 3) (sym p) (omega (arith, q)),
        ← append_assoc pre (hex_byte b ++ (b':' ∷ [])) (0 ∷ left),
      )
      (mac_loop-writes bs c n (j + 1) done (0 ∷ left)
          (omega (arith, p, length-append pre (hex_byte b ++ (b':' ∷ []))))
          (omega (arith, q, length-drop 4 rest)) (omega (arith, e))
        ∙ ap some (append_assoc pre (hex_byte b ++ (b':' ∷ [])) (joined (c ∷ bs) ++ (0 ∷ []))))

pub mac_text-joined :
    (block : (size : ℕ) → List Char) (b : ℕ) (bs : List ℕ)
    → length (block (length (b ∷ bs) * 3)) ≡ length (b ∷ bs) * 3
    → mac_text block (b ∷ bs) ≡ some (joined (b ∷ bs))
unfolding mac_text
mac_text-joined block b bs e =
    rw
      (mac_loop-writes bs b (length (b ∷ bs)) 0 [] (block (length (b ∷ bs) * 3)) refl e
        (omega arith))
      (string_in-text (joined (b ∷ bs)) [] (joined-is_text (b ∷ bs)))
