-- ===== src/Ui/Sound/Volumes.antt =====
-- The volumes that ui.sound.set_volume sets.
use cereja.Prelude.{
  ℕ, ◌-◌, ◌*◌, ◌^◌, ◌≤◌, ◌<◌, ◌≡◌, refl, Option, none, some, ◌>>=◌, >>=-eq-some, some_pair, sym,
  ◌∙◌, List, ◌∷◌, ◌==◌, arith, inl, inr, ap, Bool-cases,
}
use cereja.Prelude.Int.{ℤ, pos, negsuc, pos_part, neg_part, ◌+ℤ◌, ◌-ℤ◌, ◌*ℤ◌, ◌≤ℤ◌}
use cereja.Ui.Sound.{
  volume_control, MixerControl, Mixer, opened, set_value, closed, SoundResult, volume_is, unsigned,
  checked, round_percent, percent_of, relative_to, clamp, last_char, World, mixer_get_control,
  on_control, with_mixer, order_volume, set_volume,
}

-- The value lies between the bounds of the control.
clamp_bounds :
    (mc : MixerControl) (v : ℤ)
    → mc.minimum ≤ℤ mc.maximum
    → (mc.minimum ≤ℤ clamp mc v) × (clamp mc v ≤ℤ mc.maximum)
unfolding clamp
clamp_bounds mc v h = ground arith

-- The control of a mixer whose bounds are unsigned numbers of 16 bits.
pub record IsShort (mc : MixerControl) : Type 0 where
  pub low : ℕ
  pub high : ℕ
  pub minimum_is : mc.minimum ≡ pos low
  pub maximum_is : mc.maximum ≡ pos high
  pub ordered : low ≤ high
  pub short : high < 2 ^ 16

mul_le : (n r a b : ℕ) → n ≤ a → r ≤ b → n * r ≤ a * b
mul_le n r a b p q = grind arith

-- An integer below 32768 times a range of 16 bits is an int.
product_parts :
    (v range : ℤ) (r : ℕ)
    → range ≡ pos r
    → r ≤ 65535
    → pos_part v ≤ 32767
    → neg_part v ≤ 32767
    → (pos_part (v *ℤ range) ≤ 32767 * 65535) × (neg_part (v *ℤ range) ≤ 32767 * 65535)
unfolding ◌*ℤ◌
product_parts v range r e h p q =
    rw e
      (ground (arith, mul_le (pos_part v) r 32767 65535 p h, mul_le (neg_part v) r 32767 65535 q h))

checked-small : (z : ℤ) → pos_part z < 2 ^ 31 → neg_part z < 2 ^ 31 → checked z ≡ some z
checked-small (pos n) h k = ground arith
checked-small (negsuc n) h k = ground arith

round_percent_parts :
    (z : ℤ)
    → pos_part z ≤ 32767 * 65535
    → neg_part z ≤ 32767 * 65535
    → (pos_part (round_percent z) ≤ 21473854) × (neg_part (round_percent z) ≤ 21473854)
unfolding round_percent
round_percent_parts (pos n) h k = (omega arith, omega arith)
round_percent_parts (negsuc n) h k = (ground arith, ground arith)

range_is :
    (high_end low_end : ℤ) (high low : ℕ)
    → high_end ≡ pos high
    → low_end ≡ pos low
    → low ≤ high
    → high_end -ℤ low_end ≡ pos (high - low)
unfolding ◌-ℤ◌
range_is high_end low_end high low e f h = rw (e, f) (ground arith)

sum_small :
    (a b : ℤ) (n : ℕ)
    → b ≡ pos n
    → pos_part a ≤ 21473854
    → neg_part a ≤ 21473854
    → n < 2 ^ 16
    → (pos_part (a +ℤ b) < 2 ^ 31) × (neg_part (a +ℤ b) < 2 ^ 31)
unfolding ◌+ℤ◌
sum_small a b n e p q h = rw e (ground arith, ground arith)

-- An order of at most 32767 percent is no overflow.
pub percent_of-fits :
    (mc : MixerControl) (last : ℕ) (v : ℤ)
    → IsShort mc
    → pos_part v ≤ 32767
    → neg_part v ≤ 32767
    → (absolute : ℤ) × (percent_of mc last v ≡ some absolute)
unfolding percent_of
percent_of-fits mc last v s p q =
    let range = mc.maximum -ℤ mc.minimum in
    let product = v *ℤ range in
    let value = round_percent product +ℤ mc.minimum in
    let e : range ≡ pos (s.high - s.low) =
      range_is mc.maximum mc.minimum s.high s.low s.maximum_is s.minimum_is s.ordered in
    let parts = product_parts v range (s.high - s.low) e (omega (arith, s.short)) p q in
    let rounded = round_percent_parts product parts.0 parts.1 in
    let sums =
      sum_small (round_percent product) mc.minimum s.low s.minimum_is rounded.0 rounded.1
        (omega (arith, s.ordered, s.short)) in
    let made : (checked range >>= λ r.
    checked (v *ℤ r) >>= λ x. checked (round_percent x +ℤ mc.minimum))
        ≡ some value =
      rw
        (
          checked-small range (ground (arith, e, s.short)) (ground (arith, e)),
          checked-small product (omega (arith, parts)) (omega (arith, parts)),
          checked-small value sums.0 sums.1,
        )
        refl in
    elim (Bool-cases (last == b'%')) [ inl t ↦ (value, rw t made) | inr f ↦ (v, rw f) ]

-- The parts of a result.
abbrev parts_of : SoundResult → ℤ × ℤ × ℤ
parts_of (volume_is value low high) = (value, low, high)
parts_of _ = (pos 0, pos 0, pos 0)

module _ (M : Mixer) (atoi : List ℕ → ℤ) where
  on_control-sets :
      (mc : MixerControl) (mixer c : ℕ) (cs : List ℕ) (v u : World M) (value low high : ℤ)
      → on_control M (some mc) mixer (order_volume M atoi (c ∷ cs) mixer) v
        ≡ some (volume_is value low high, u)
      → (absolute : ℤ) × (value ≡ clamp mc absolute)
        × (low ≡ mc.minimum)
        × (high ≡ mc.maximum)
        × (u.calls ≡ closed mixer ∷ set_value mixer mc.id (unsigned (clamp mc absolute)) ∷ v.calls)
  unfolding on_control order_volume
  on_control-sets mc mixer c cs v u value low high h =
      let ((result, after), made, rest) =
        >>=-eq-some (order_volume M atoi (c ∷ cs) mixer mc v) _ h in
      let (absolute, e, body) =
        >>=-eq-some (percent_of mc (last_char c cs) (atoi (c ∷ cs))) _ made in
      let same = ap parts_of (some_pair body).0 ∙ ap parts_of (some_pair rest).0 in
      (
        relative_to (M.get_details mixer mc.id v.state) c absolute,
        sym (ap (λ (x : ℤ × ℤ × ℤ). x.0) same),
        sym (ap (λ (x : ℤ × ℤ × ℤ). x.1) same),
        sym (ap (λ (x : ℤ × ℤ × ℤ). x.2) same),
        sym (ap (λ (x : World M). x.calls) (some_pair rest).1)
            ∙ ap (λ (x : World M). closed mixer ∷ x.calls) (sym (some_pair body).1),
      )

  -- What a call of set_volume that returns a volume has done.
  pub record Sets (w u : World M) (value low high : ℤ) : Type 0 where
    pub mixer : ℕ
    pub control_id : ℕ
    pub above : low ≤ℤ value
    pub below : value ≤ℤ high
    pub calls :
        u.calls
        ≡ closed mixer ∷ set_value mixer control_id (unsigned value) ∷ opened mixer ∷ w.calls

  on_control-Sets :
      (mc : Option MixerControl) (mixer c : ℕ) (cs : List ℕ) (w v u : World M) (value low high : ℤ)
      → v.calls ≡ opened mixer ∷ w.calls
      → on_control M mc mixer (order_volume M atoi (c ∷ cs) mixer) v
        ≡ some (volume_is value low high, u)
      → low ≤ℤ high
      → Sets w u value low high
  on_control-Sets none mixer c cs w v u value low high before h o =
      absurd (unfold on_control in cc h)
  on_control-Sets (some mc) mixer c cs w v u value low high before h o =
      let (absolute, e, f, g, calls) = on_control-sets mc mixer c cs v u value low high h in
      let ordered : mc.minimum ≤ℤ mc.maximum = rw (← f, ← g) o in
      let inside = clamp_bounds mc absolute ordered in
      record {
        mixer = mixer;
        control_id = mc.id;
        above = rw (e, f) inside.0;
        below = rw (e, g) inside.1;
        calls =
            calls
            ∙ ap (λ x. closed mixer ∷ set_value mixer mc.id (unsigned x) ∷ v.calls) (sym e)
            ∙ ap (λ l. closed mixer ∷ set_value mixer mc.id (unsigned value) ∷ l) before;
      }

  with_mixer-Sets :
      (start : Option ℕ × M.State) (c : ℕ) (cs : List ℕ) (w u : World M) (value low high : ℤ)
      → with_mixer M start volume_control (order_volume M atoi (c ∷ cs)) w
        ≡ some (volume_is value low high, u)
      → low ≤ℤ high
      → Sets w u value low high
  unfolding with_mixer
  with_mixer-Sets (none, s) c cs w u value low high h o = absurd (cc h)
  with_mixer-Sets (some mixer, s) c cs w u value low high h o =
      on_control-Sets (mixer_get_control M mixer volume_control s) mixer c cs w
        (record { state = s; calls = opened mixer ∷ w.calls }) u value low high refl h o

  -- Where ui.sound.set_volume of an order that is not empty returns a volume and bounds in order,
  -- the volume lies between the bounds, whatever the order is, and just this volume has been set,
  -- once, on the mixer that was opened before and is closed after.
  pub set_volume-Sets :
      (c : ℕ) (cs : List ℕ) (w u : World M) (value low high : ℤ)
      → set_volume M atoi (c ∷ cs) w ≡ some (volume_is value low high, u)
      → low ≤ℤ high
      → Sets w u value low high
  unfolding set_volume
  set_volume-Sets c cs w u value low high h o =
      with_mixer-Sets (M.open_mixer w.state) c cs w u value low high h o
