-- ===== src/Ui/Sound/Returns.antt =====
-- The functions of ui.sound return where the bounds of the controls are of 16 bits.
use cereja.Prelude.{ℕ, ◌≤◌, ◌≡◌, refl, Option, none, some, >>=-eq-some, >>=-returns, List, [], ◌∷◌}
use cereja.Prelude.Int.{ℤ, pos_part, neg_part}
use cereja.Ui.Sound.Volumes.{IsShort, percent_of-fits}
use cereja.Ui.Sound.{
  ControlType, MixerControl, Mixer, SoundResult, percent_of, last_char, World, mixer_get_control,
  on_control, with_mixer, order_volume,
}

module _ (M : Mixer) where
  abbrev pub Body : Type 0
  Body = (mixer : ℕ) → MixerControl → World M → Option (SoundResult × World M)

-- Every control that the mixer gives has bounds of 16 bits.
abbrev pub HasShortControls : Mixer → Type 0
HasShortControls M =
    (mixer line controls : ℕ) (type : ControlType) (s : M.State) (mc : MixerControl)
    → M.get_line_controls mixer line controls type s ≡ some mc
    → IsShort mc

module _ (M : Mixer) (short : HasShortControls M) where
  abbrev pub Returns : Option (SoundResult × World M) → Type 0
  Returns o = (p : SoundResult × World M) × (o ≡ some p)

  abbrev pub ReturnsWhereShort : Body M → Type 0
  ReturnsWhereShort body =
      (mixer : ℕ) (mc : MixerControl) (v : World M) → IsShort mc → Returns (body mixer mc v)

  on_control-Returns :
      (found : Option MixerControl) (mixer : ℕ) (body : Body M) (v : World M)
      → ((mc : MixerControl) → found ≡ some mc → IsShort mc)
      → ReturnsWhereShort body
      → Returns (on_control M found mixer (body mixer) v)
  unfolding on_control
  on_control-Returns none mixer body v s total = (_, refl)
  on_control-Returns (some mc) mixer body v s total =
      >>=-returns (body mixer mc v) _ (total mixer mc v (s mc refl)) (λ p. (_, refl))

  mixer_get_control-IsShort :
      (mixer : ℕ) (type : ControlType) (s : M.State) (mc : MixerControl)
      → mixer_get_control M mixer type s ≡ some mc
      → IsShort mc
  unfolding mixer_get_control
  mixer_get_control-IsShort mixer type s mc h =
      let ((line, controls), e, found) = >>=-eq-some (M.get_line_info mixer s) _ h in
      short mixer line controls type s mc found

  pub with_mixer-Returns :
      (start : Option ℕ × M.State) (type : ControlType) (body : Body M) (w : World M)
      → ReturnsWhereShort body
      → Returns (with_mixer M start type body w)
  unfolding with_mixer
  with_mixer-Returns (none, s) type body w total = (_, refl)
  with_mixer-Returns (some mixer, s) type body w total =
      on_control-Returns (mixer_get_control M mixer type s) mixer body _
        (λ mc e. mixer_get_control-IsShort mixer type s mc e) total

module _ (M : Mixer) (atoi : List ℕ → ℤ) where
  pub order_volume-returns :
      (order : List ℕ) (mixer : ℕ) (mc : MixerControl) (v : World M)
      → pos_part (atoi order) ≤ 32767
      → neg_part (atoi order) ≤ 32767
      → IsShort mc
      → (p : SoundResult × World M) × (order_volume M atoi order mixer mc v ≡ some p)
  unfolding order_volume
  order_volume-returns [] mixer mc v p q s = (_, refl)
  order_volume-returns (c ∷ cs) mixer mc v p q s =
      >>=-returns (percent_of mc (last_char c cs) (atoi (c ∷ cs))) _
        (percent_of-fits mc (last_char c cs) (atoi (c ∷ cs)) s p q) (λ a. (_, refl))
