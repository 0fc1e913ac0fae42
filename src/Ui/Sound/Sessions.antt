-- ===== src/Ui/Sound/Sessions.antt =====
-- Sequences of calls of ui.sound, and the volumes that are set.
use cereja.Prelude.{
  remove, member, ℕ, ◌≤◌, ◌≡◌, refl, ◌⊎◌, inl, inr, Bool, true, not, ◌&&◌, Option, none, some,
  ◌>>=◌, >>=-eq-some, some_pair, List, [], ◌∷◌, ◌==◌, if◌then◌else◌, arith, ap, sym, ◌∙◌,
}
use cereja.Prelude.Int.{ℤ, pos_part, neg_part}
use cereja.Ui.Sound.{
  ControlType, MixerControl, Mixer, MixerCall, opened, set_value, closed, SoundResult, unsigned,
  percent_of, relative_to, clamp, last_char, World, mixer_get_control, on_control, with_mixer,
  get_volume, get_mute, order_volume, set_volume, set_mute, toggle_mute,
}
use cereja.Ui.Sound.Returns.{Body, HasShortControls, with_mixer-Returns, order_volume-returns}

-- The mixers that are open after the calls, the last call first.
pub still_open : List MixerCall → List ℕ
still_open [] = []
still_open (opened m ∷ cs) = m ∷ still_open cs
still_open (set_value m i v ∷ cs) = still_open cs
still_open (closed m ∷ cs) = remove m (still_open cs)

-- Only a mixer that is open is changed or closed.
pub is_proper : List MixerCall → Bool
unfolding still_open
is_proper [] = true
is_proper (opened m ∷ cs) = is_proper cs
is_proper (set_value m i v ∷ cs) = member m (still_open cs) && is_proper cs
is_proper (closed m ∷ cs) = member m (still_open cs) && is_proper cs

pub record IsTidy (cs : List MixerCall) : Type 0 where
  pub proper : is_proper cs ≡ true
  pub all_closed : still_open cs ≡ []

pub nil-IsTidy : IsTidy []
unfolding still_open is_proper
nil-IsTidy = record { proper = refl; all_closed = refl }

-- The calls of a function between the opening and the closing.
abbrev Changes : (mixer : ℕ) → (before after : List MixerCall) → Type 0
Changes mixer before after =
    (after ≡ before) ⊎ ((i : ℕ) × (v : ℕ) × (after ≡ set_value mixer i v ∷ before))

IsTidy-closed :
    (mixer : ℕ) (cs after : List MixerCall)
    → IsTidy cs
    → Changes mixer (opened mixer ∷ cs) after
    → IsTidy (closed mixer ∷ after)
unfolding still_open is_proper
IsTidy-closed mixer cs after t (inl e) =
    rw e (record { proper = ground (arith, t.proper); all_closed = ground (arith, t.all_closed) })
IsTidy-closed mixer cs after t (inr (i, v, e)) =
    rw e (record { proper = ground (arith, t.proper); all_closed = ground (arith, t.all_closed) })

module _ (M : Mixer) where
  abbrev ChangesMixer : Body M → Type 0
  ChangesMixer body =
      (mixer : ℕ) (mc : MixerControl) (v : World M) (result : SoundResult) (u : World M)
      → body mixer mc v ≡ some (result, u)
      → Changes mixer v.calls u.calls

  on_control-IsTidy :
      (mc : Option MixerControl) (mixer : ℕ) (body : Body M) (v : World M) (cs : List MixerCall)
      (result : SoundResult) (u : World M)
      → ChangesMixer body
      → v.calls ≡ opened mixer ∷ cs
      → IsTidy cs
      → on_control M mc mixer (body mixer) v ≡ some (result, u)
      → IsTidy u.calls
  unfolding on_control
  on_control-IsTidy none mixer body v cs result u changes e t h =
      let same : u.calls ≡ closed mixer ∷ v.calls = cc h in
      rw same (IsTidy-closed mixer cs v.calls t (inl e))
  on_control-IsTidy (some mc) mixer body v cs result u changes e t h =
      let ((r, after), made, rest) = >>=-eq-some (body mixer mc v) _ h in
      let same : u.calls ≡ closed mixer ∷ after.calls = cc rest in
      rw same (
        IsTidy-closed mixer cs after.calls t (elim (changes mixer mc v r after made) [
          | inl p ↦ inl (p ∙ e)
          | inr (i, x, p) ↦ inr (i, x, p ∙ ap (λ l. set_value mixer i x ∷ l) e)
        ]))

  with_mixer-IsTidy :
      (start : Option ℕ × M.State) (type : ControlType) (body : Body M) (w : World M)
      (result : SoundResult) (u : World M)
      → ChangesMixer body
      → IsTidy w.calls
      → with_mixer M start type body w ≡ some (result, u)
      → IsTidy u.calls
  unfolding with_mixer
  with_mixer-IsTidy (none, s) type body w result u changes t h =
      let same : u.calls ≡ w.calls = cc h in rw same t
  with_mixer-IsTidy (some mixer, s) type body w result u changes t h =
      on_control-IsTidy (mixer_get_control M mixer type s) mixer body
        (record { state = s; calls = opened mixer ∷ w.calls }) w.calls result u changes refl t h

  order_volume-changes :
      (atoi : List ℕ → ℤ) (order : List ℕ) → ChangesMixer (order_volume M atoi order)
  unfolding order_volume
  order_volume-changes atoi [] mixer mc v result u h = inl (cc h)
  order_volume-changes atoi (c ∷ cs) mixer mc v result u h =
      let (absolute, e, rest) = >>=-eq-some (percent_of mc (last_char c cs) (atoi (c ∷ cs))) _ h in
      inr (
        mc.id,
        unsigned (clamp mc (relative_to (M.get_details mixer mc.id v.state) c absolute)),
        ap (λ (x : World M). x.calls) (sym (some_pair rest).1),
      )

-- A call of one of the functions of ui.sound that use the mixer.
pub data SoundCall : Type 0 where
  gets_volume gets_mute toggles_mute : SoundCall
  sets_volume : (order : List ℕ) → SoundCall
  sets_mute : Bool → SoundCall

module _ (M : Mixer) (atoi : List ℕ → ℤ) where
  pub call : SoundCall → World M → Option (SoundResult × World M)
  unfolding get_volume get_mute set_volume set_mute toggle_mute
  call gets_volume w = get_volume M w
  call gets_mute w = get_mute M w
  call toggles_mute w = toggle_mute M w
  call (sets_volume order) w = set_volume M atoi order w
  call (sets_mute is_mute) w = set_mute M is_mute w

  pub call_all : List SoundCall → World M → Option (World M)
  unfolding call
  call_all [] w = some w
  call_all (c ∷ cs) w = call c w >>= λ (result, after). call_all cs after

  -- An order is below 32768, whether or not it is in percent.
  abbrev pub IsSmall : SoundCall → Type 0
  IsSmall (sets_volume order) = (pos_part (atoi order) ≤ 32767) × (neg_part (atoi order) ≤ 32767)
  IsSmall c = Unit {0}

  abbrev pub AreSmall : List SoundCall → Type 0
  AreSmall [] = Unit {0}
  AreSmall (c ∷ cs) = IsSmall c × AreSmall cs

  call-returns :
      (c : SoundCall) (w : World M)
      → HasShortControls M
      → IsSmall c
      → (p : SoundResult × World M) × (call c w ≡ some p)
  unfolding call
  call-returns gets_volume w short small =
      with_mixer-Returns M short _ _ _ w (λ mixer mc v s. (_, refl))
  call-returns gets_mute w short small =
      with_mixer-Returns M short _ _ _ w (λ mixer mc v s. (_, refl))
  call-returns toggles_mute w short small =
      with_mixer-Returns M short _ _ _ w (λ mixer mc v s. (_, refl))
  call-returns (sets_volume order) w short small =
      with_mixer-Returns M short _ _ _ w
        (λ mixer mc v s. order_volume-returns M atoi order mixer mc v small.0 small.1 s)
  call-returns (sets_mute is_mute) w short small =
      with_mixer-Returns M short _ _ _ w (λ mixer mc v s. (_, refl))

  call-IsTidy :
      (c : SoundCall) (w : World M) (result : SoundResult) (u : World M)
      → IsTidy w.calls
      → call c w ≡ some (result, u)
      → IsTidy u.calls
  unfolding call
  call-IsTidy gets_volume w result u t h =
      with_mixer-IsTidy M _ _ _ w result u (λ mixer mc v r x e. inl (cc e)) t h
  call-IsTidy gets_mute w result u t h =
      with_mixer-IsTidy M _ _ _ w result u (λ mixer mc v r x e. inl (cc e)) t h
  call-IsTidy toggles_mute w result u t h =
      with_mixer-IsTidy M _ _ _ w result u
        (λ mixer mc v r x e.
          inr (mc.id, (if not (not (M.get_details mixer mc.id v.state == 0)) then 1 else 0), cc e))
        t h
  call-IsTidy (sets_volume order) w result u t h =
      with_mixer-IsTidy M _ _ _ w result u (order_volume-changes M atoi order) t h
  call-IsTidy (sets_mute is_mute) w result u t h =
      with_mixer-IsTidy M _ _ _ w result u
        (λ mixer mc v r x e. inr (mc.id, (if is_mute then 1 else 0), cc e)) t h

  -- Where the bounds of the controls are unsigned numbers of 16 bits and the orders are below
  -- 32768, any sequence of calls of ui.sound runs to its end without an overflow, on every answer
  -- of Windows: no mixer stays open, also where a call raises its error, and only a mixer that is
  -- open is changed or closed.
  pub call_all-IsTidy :
      (cs : List SoundCall) (w : World M)
      → HasShortControls M
      → AreSmall cs
      → IsTidy w.calls
      → (u : World M) × (call_all cs w ≡ some u) × IsTidy u.calls
  unfolding call_all
  call_all-IsTidy [] w short small t = (w, refl, t)
  call_all-IsTidy (c ∷ cs) w short small t =
      let ((result, after), e) = call-returns c w short small.0 in
      rw e (call_all-IsTidy cs after short small.1 (call-IsTidy c w result after t e))
