-- ===== src/Utf8/Messages.antt =====
-- The memory of FormatMessageU in src/utf8api.c.
use cereja.Prelude.{
  remove, member, ℕ, ◌+◌, ◌<◌, ◌≡◌, refl, Bool, true, false, ◌&&◌, ◌||◌, Option, none, some, List,
  [], ◌∷◌, length, leb, leb→le, if◌then◌else◌, arith, inl, inr, Bool-cases,
}
use cereja.Utf8.{
  Converter, Converts, Block, system_buffer, local_buffer, stack_buffer, BlockCall, allocated,
  freed, from_native, allocated_message, written_message, format_message_u,
}

-- The blocks as handles.
abbrev pub handle : Block → ℕ
handle stack_buffer = 0
handle system_buffer = 1
handle local_buffer = 2

-- The blocks that stay allocated after the calls.
abbrev pub left : List BlockCall → List ℕ
left [] = []
left (allocated b ∷ calls) = handle b ∷ left calls
left (freed b ∷ calls) = remove (handle b) (left calls)

-- Only blocks that are allocated are freed.
abbrev pub frees_own : List BlockCall → Bool
frees_own [] = true
frees_own (allocated b ∷ calls) = frees_own calls
frees_own (freed b ∷ calls) = member (handle b) (left calls) && frees_own calls

abbrev pub has_room : (List ℕ → List ℕ) → (size : ℕ) → Option (List ℕ) → Bool
has_room encode size none = true
has_room encode size (some message) = leb (length (encode message) + 1) size

-- The block that the caller gets with a text.
abbrev pub handed_over : (allocatep : Bool) → Option (List ℕ) → List ℕ
handed_over allocatep none = []
handed_over allocatep (some text) = if allocatep then handle local_buffer ∷ [] else []

module _ (C : Converter) (encode : List ℕ → List ℕ) (converts : Converts C encode) where
  pub allocated_message-converted :
      (message : List ℕ)
      → allocated_message C true message ≡ (record {
        result = length (encode message);
        text = some (encode message);
        calls = freed system_buffer ∷ allocated local_buffer ∷ allocated system_buffer ∷ [];
      })
  unfolding allocated_message from_native
  allocated_message-converted message =
      let n = length (encode message) in
      let e = converts.asked message in
      let f = converts.fits (n + 1) message (omega arith) in rw (e, f) (ground arith)

  written_message-converted :
      (size : ℕ) (message : List ℕ)
      → 0 < size
      → (frees_own (written_message C size message).calls ≡ leb (length (encode message) + 1) size)
        × (left (written_message C size message).calls
            ≡ handed_over false (written_message C size message).text)
  unfolding written_message from_native
  written_message-converted size message h =
      elim (Bool-cases (leb (length (encode message) + 1) size)) [
        | inl room ↦
            let f = converts.fits size message (leb→le _ _ room) in
            rw (room, f) (ground arith, ground arith)
        | inr small ↦
            let f = converts.too_small size message h (ground (arith, small)) in
            rw (small, f) (refl, refl)
      ]

  -- Where the conversion works as documented and the size is not 0, FormatMessageU leaves no block
  -- allocated but the one that it hands to the caller with the text, and frees only blocks that it
  -- has allocated, except just where, without FORMAT_MESSAGE_ALLOCATE_BUFFER, a message has no
  -- room in the caller's buffer: there it frees a buffer that is on the stack.
  pub format_message_u-frees :
      (allocatep : Bool) (size : ℕ) (local_alloc : Bool) (message : Option (List ℕ))
      → 0 < size
      → let m = format_message_u C allocatep size local_alloc message in
        (frees_own m.calls ≡ (allocatep || has_room encode size message))
        × (left m.calls ≡ handed_over allocatep m.text)
  unfolding format_message_u
  format_message_u-frees true size local_alloc none h = (refl, refl)
  format_message_u-frees false size local_alloc none h = (refl, refl)
  format_message_u-frees true size true (some message) h =
      rw (allocated_message-converted message) (refl, refl)
  format_message_u-frees true size false (some message) h = unfold allocated_message in (refl, refl)
  format_message_u-frees false size local_alloc (some message) h =
      written_message-converted size message h
