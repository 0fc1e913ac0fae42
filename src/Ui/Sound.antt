-- ===== src/Ui/Sound.antt =====
-- The volume and the muting of lib/ui/sound.c, over the mixer of Windows, which is a parameter.
pub mod Returns
pub mod Sessions
pub mod Volumes
use cereja.Prelude.{
  ℕ, ◌+◌, ◌-◌, ◌*◌, ◌/◌, ◌%◌, ◌^◌, Bool, true, false, not, ◌||◌, Option, none, some, ◌>>=◌, List,
  [], ◌∷◌, ltb, leb, ◌==◌, if◌then◌else◌, ◌&&◌,
}
use cereja.Prelude.Int.{
  ℤ, pos, negsuc, pos_part, neg_part, sub_ℕ, ◌+ℤ◌, ◌-ℤ◌, ◌*ℤ◌, leb_ℤ, ltb_ℤ, neg,
}

-- The two kinds of control, MIXERCONTROL_CONTROLTYPE_VOLUME and _MUTE.
pub data ControlType : Type 0 where
  volume_control mute_control : ControlType

-- `dwControlID` and `Bounds` of MIXERCONTROL.
pub record MixerControl : Type 0 where
  pub id : ℕ
  pub minimum : ℤ
  pub maximum : ℤ

-- The calls of Windows. `get_details` gives the value that the call has written, over the zero that was
-- there before; `none` is a failure.
pub record Mixer : Type 1 where
  pub State : Type 0
  pub open_mixer : State → Option ℕ × State
  pub close_mixer : (mixer : ℕ) → State → State
  pub get_line_info : (mixer : ℕ) → State → Option (ℕ × ℕ)
  pub get_line_controls : (mixer line controls : ℕ) → ControlType → State → Option MixerControl
  pub get_details : (mixer control_id : ℕ) → State → ℕ
  pub set_details : (mixer control_id value : ℕ) → State → State

-- The calls that open, change and close a mixer.
pub data MixerCall : Type 0 where
  opened : (mixer : ℕ) → MixerCall
  set_value : (mixer control_id value : ℕ) → MixerCall
  closed : (mixer : ℕ) → MixerCall

-- The value that a function of ui.sound returns, or its error.
pub data SoundResult : Type 0 where
  volume_is : (value minimum maximum : ℤ) → SoundResult
  mute_is : Bool → SoundResult
  open_failed : SoundResult
  get_control_failed : SoundResult

-- int and unsigned int of 32 bits.
abbrev pub unsigned : ℤ → ℕ
unsigned (pos n) = n % 2 ^ 32
unsigned (negsuc n) = 2 ^ 32 - 1 - n % 2 ^ 32

abbrev pub signed : ℕ → ℤ
signed w = if ltb w (2 ^ 31) then pos w else sub_ℕ w (2 ^ 32)

abbrev pub is_int : ℤ → Bool
is_int z = leb_ℤ (neg (2 ^ 31)) z && ltb_ℤ z (pos (2 ^ 31))

-- The result of an operation on int, undefined where it overflows.
abbrev pub checked : ℤ → Option ℤ
checked z = if is_int z then some z else none

-- round(z / 100.0): to the next integer, a half away from zero.
pub round_percent : ℤ → ℤ
round_percent (pos n) = pos ((n + 50) / 100)
round_percent (negsuc n) = neg ((n + 1 + 50) / 100)

-- The macros max and min.
abbrev pub max_int : ℤ → ℤ → ℤ
max_int a b = if ltb_ℤ b a then a else b

abbrev pub min_int : ℤ → ℤ → ℤ
min_int a b = if ltb_ℤ a b then a else b

-- The last character of a text that is not empty.
abbrev pub last_char : (c : ℕ) → List ℕ → ℕ
last_char c [] = c
last_char c (d ∷ ds) = last_char d ds

-- An order in percent of the range of the control.
pub percent_of : MixerControl → (last : ℕ) → ℤ → Option ℤ
unfolding round_percent
percent_of mc last volume =
    if last == b'%'
    then (checked (mc.maximum -ℤ mc.minimum) >>= λ range.
        checked (volume *ℤ range) >>= λ product. checked (round_percent product +ℤ mc.minimum))
    else some volume

-- An order that begins with a sign is relative: int and UINT are added as unsigned numbers.
pub relative_to : (current : ℕ) → (first : ℕ) → ℤ → ℤ
relative_to current first volume =
    if first == b'-' || first == b'+' then signed ((unsigned volume + current) % 2 ^ 32) else volume

pub clamp : MixerControl → ℤ → ℤ
clamp mc volume = max_int mc.minimum (min_int volume mc.maximum)

module _ (M : Mixer) where
  pub record World : Type 0 where
    pub state : M.State
    pub calls : List MixerCall

  abbrev close : (mixer : ℕ) → World → World
  close mixer w = record {
    state = M.close_mixer mixer w.state;
    calls = MixerCall.closed mixer ∷ w.calls;
  }

  abbrev set_to : (mixer control_id value : ℕ) → World → World
  set_to mixer control_id value w = record {
    state = M.set_details mixer control_id value w.state;
    calls = MixerCall.set_value mixer control_id value ∷ w.calls;
  }

  -- `mixer_get_cotrol`.
  pub mixer_get_control : (mixer : ℕ) → ControlType → M.State → Option MixerControl
  mixer_get_control mixer type s =
      M.get_line_info mixer s >>= λ (line, controls). M.get_line_controls mixer line controls type s

  -- What the functions share: the mixer is opened and closed, on the errors too.
  pub on_control :
      Option MixerControl
      → (mixer : ℕ) → (MixerControl → World → Option (SoundResult × World))
      → World
      → Option (SoundResult × World)
  on_control none mixer body w = some (get_control_failed, close mixer w)
  on_control (some mc) mixer body w =
      body mc w >>= λ (result, after). some (result, close mixer after)

  pub with_mixer :
      (Option ℕ × M.State)
      → ControlType
      → ((mixer : ℕ) → MixerControl → World → Option (SoundResult × World))
      → World
      → Option (SoundResult × World)
  unfolding on_control mixer_get_control
  with_mixer (none, s) type body w = some (open_failed, record w { state = s })
  with_mixer (some mixer, s) type body w =
      on_control (mixer_get_control mixer type s) mixer (body mixer)
        (record { state = s; calls = MixerCall.opened mixer ∷ w.calls })

  unfoldable pub get_volume : World → Option (SoundResult × World)
  unfolding with_mixer
  get_volume w =
      with_mixer (M.open_mixer w.state) volume_control
        (λ mixer mc v.
          some (volume_is (signed (M.get_details mixer mc.id v.state)) mc.minimum mc.maximum, v))
        w

  unfoldable pub get_mute : World → Option (SoundResult × World)
  unfolding with_mixer
  get_mute w =
      with_mixer (M.open_mixer w.state) mute_control
        (λ mixer mc v. some (mute_is (not (M.get_details mixer mc.id v.state == 0)), v)) w

  -- The change that ui_sound_set_volume makes for an order, a text without NUL.
  pub order_volume :
      (atoi : List ℕ → ℤ)
      → (order : List ℕ) → (mixer : ℕ) → MixerControl
      → World
      → Option (SoundResult × World)
  unfolding percent_of relative_to clamp
  order_volume atoi [] mixer mc v = some (volume_is (pos 0) mc.minimum mc.maximum, v)
  order_volume atoi (c ∷ cs) mixer mc v =
      percent_of mc (last_char c cs) (atoi (c ∷ cs)) >>= λ absolute.
      let value = clamp mc (relative_to (M.get_details mixer mc.id v.state) c absolute) in
      some (volume_is value mc.minimum mc.maximum, set_to mixer mc.id (unsigned value) v)

  unfoldable pub set_volume :
      (atoi : List ℕ → ℤ) → (order : List ℕ) → World → Option (SoundResult × World)
  unfolding with_mixer order_volume
  set_volume atoi order w =
      with_mixer (M.open_mixer w.state) volume_control (order_volume atoi order) w

  abbrev bool_value : Bool → ℕ
  bool_value b = if b then 1 else 0

  unfoldable pub set_mute : Bool → World → Option (SoundResult × World)
  unfolding with_mixer
  set_mute is_mute w =
      with_mixer (M.open_mixer w.state) mute_control
        (λ mixer mc v. some (mute_is is_mute, set_to mixer mc.id (bool_value is_mute) v)) w

  unfoldable pub toggle_mute : World → Option (SoundResult × World)
  unfolding with_mixer
  toggle_mute w =
      with_mixer (M.open_mixer w.state) mute_control
        (λ mixer mc v.
          let is_mute = not (M.get_details mixer mc.id v.state == 0) in
          some (mute_is (not is_mute), set_to mixer mc.id (bool_value (not is_mute)) v))
        w
