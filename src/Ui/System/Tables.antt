-- ===== src/Ui/System/Tables.antt =====
-- The table of the network adapters in lib/ui/system.c, and the memory that is allocated for it.
use cereja.Prelude.{
  remove, ℕ, ◌+◌, ◌*◌, ◌≡◌, ◌≢◌, refl, ◌∙◌, some, List, [], ◌∷◌, length, ◌==◌, if◌then◌else◌, arith,
}
use cereja.Ui.System.{
  Adapter, AdapterTable, MemoryCall, allocated, freed, Heap, table_of, mac_text, adapter_loop,
  returned, get_network_adapter,
}
use cereja.Ui.System.Mac.{joined, mac_text-joined}

-- The blocks that are allocated after the calls; free(NULL) does nothing.
pub live_blocks : List MemoryCall → List ℕ
live_blocks [] = []
live_blocks (allocated b ∷ calls) = b ∷ live_blocks calls
live_blocks (freed b ∷ calls) = if b == 0 then live_blocks calls else remove b (live_blocks calls)

-- Malloc succeeds, with blocks of the size that is wanted.
pub record Allocates (heap : Heap) : Type 0 where
  pub placed : (i : ℕ) → heap.place i ≢ 0
  pub sized : (size : ℕ) → length (heap.block size) ≡ size

-- Each adapter has an address.
abbrev pub HaveAddresses : List Adapter → Type 0
HaveAddresses [] = Unit {0}
HaveAddresses (a ∷ rest) = (length a.address ≢ 0) × HaveAddresses rest

abbrev pub numbered : List Adapter → (i : ℕ) → List (ℕ × AdapterTable)
numbered [] i = []
numbered (a ∷ rest) i = (i + 1, table_of a (joined a.address)) ∷ numbered rest (i + 1)

mac_text-address :
    (heap : Heap) (address : List ℕ)
    → Allocates heap
    → length address ≢ 0
    → mac_text heap.block address ≡ some (joined address)
mac_text-address heap [] h ne = absurd (ne refl)
mac_text-address heap (b ∷ bs) h ne =
    mac_text-joined heap.block b bs (h.sized (length (b ∷ bs) * 3))

freed_again :
    (b : ℕ) (calls : List MemoryCall)
    → b ≢ 0
    → live_blocks (freed b ∷ allocated b ∷ calls) ≡ live_blocks calls
unfolding live_blocks
freed_again b calls ne = ground arith

-- The entries of the loop, and its calls, which leave no block.
adapter_loop-gives :
    (heap : Heap) (adapters : List Adapter) (i : ℕ) (calls : List MemoryCall)
    → Allocates heap
    → HaveAddresses adapters
    → (after : List MemoryCall) × (adapter_loop heap adapters i calls
        ≡ some (numbered adapters i, after))
      × (live_blocks after ≡ live_blocks calls)
unfolding adapter_loop
adapter_loop-gives heap [] i calls h a = (calls, refl, refl)
adapter_loop-gives heap (x ∷ rest) i calls h a =
    let p = heap.place (i + 1) in
    let (after, e, same) =
      adapter_loop-gives heap rest (i + 1) (freed p ∷ allocated p ∷ calls) h a.1 in
    (
      after,
      rw (mac_text-address heap x.address h a.0, e) refl,
      same ∙ freed_again p calls (h.placed (i + 1)),
    )

-- Where malloc succeeds and each adapter has an address, get_network_adapter returns a table of
-- each adapter under its number, from 1, with the bytes of its address in hexadecimal between
-- colons; it writes inside its buffers, and frees them, but the block that holds the adapters
-- stays allocated.
pub get_network_adapter-gives :
    (heap : Heap) (place : ℕ) (adapters : List Adapter) (calls : List MemoryCall)
    → Allocates heap
    → HaveAddresses adapters
    → (after : List MemoryCall) × (get_network_adapter heap place (some adapters) calls
        ≡ some (returned (numbered adapters 0), after))
      × (live_blocks after ≡ place ∷ live_blocks calls)
unfolding get_network_adapter live_blocks
get_network_adapter-gives heap place adapters calls h a =
    let (after, e, same) = adapter_loop-gives heap adapters 0 (allocated place ∷ calls) h a in
    (freed 0 ∷ after, rw e refl, same)
