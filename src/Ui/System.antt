-- ===== src/Ui/System.antt =====
-- The network adapters and parameters that lib/ui/system.c gives, as tables. A text is the list of its
-- characters, and a block of memory is the list of its bytes.
pub mod Mac
pub mod Tables
use cereja.Prelude.{
  ℕ, ◌+◌, ◌-◌, ◌*◌, ◌/◌, ◌%◌, Bool, Option, none, some, ◌>>=◌, List, [], ◌∷◌, ◌++◌, length, ltb,
  ◌==◌, if◌then◌else◌,
}
use cereja.Directories.{Char, write_at, string_in}

abbrev pub hex_digit : ℕ → Char
hex_digit d = if ltb d 10 then b'0' + d else b'a' + d - 10

-- "%02x" of a byte.
abbrev pub hex_byte : ℕ → List Char
hex_byte b = hex_digit (b / 16) ∷ hex_digit (b % 16) ∷ []

-- What sprintf writes for a byte of an address, with its NUL.
abbrev pub mac_part : (is_last : Bool) → (b : ℕ) → List Char
mac_part is_last b = hex_byte b ++ (if is_last then 0 ∷ [] else b':' ∷ 0 ∷ [])

-- The loop over the bytes from the place `j` on, of `address_length` in all.
pub mac_loop : (address_length : ℕ) → List ℕ → (j : ℕ) → (mac : List Char) → Option (List Char)
mac_loop address_length [] j mac = some mac
mac_loop address_length (b ∷ bs) j mac =
    write_at mac (j * 3) (mac_part (j == address_length - 1) b) >>= λ next.
    mac_loop address_length bs (j + 1) next

-- The text in the block that malloc gives, of three bytes for each byte of the address.
pub mac_text : (block : (size : ℕ) → List Char) → (address : List ℕ) → Option (List Char)
unfolding mac_loop string_in
mac_text block address =
    mac_loop (length address) address 0 (block (length address * 3)) >>= λ mac. string_in mac

-- An IP_ADAPTER_INFO, and the fields of its table.
pub record Adapter : Type 0 where
  pub adapter_name : List Char
  pub description : List Char
  pub address : List ℕ
  pub ip_address : List Char
  pub ip_mask : List Char
  pub gateway : List Char
  pub dhcp_server : List Char

pub record AdapterTable : Type 0 where
  pub name : List Char
  pub description : List Char
  pub mac : List Char
  pub ip : List Char
  pub mask : List Char
  pub gateway : List Char
  pub dhcp : List Char

-- The calls of malloc and free, the last one first; NULL is 0.
pub data MemoryCall : Type 0 where
  allocated : (block : ℕ) → MemoryCall
  freed : (block : ℕ) → MemoryCall

-- What malloc gives: the place of a block of the adapter `i`, and what stands in a block.
pub record Heap : Type 0 where
  pub place : (i : ℕ) → ℕ
  pub block : (size : ℕ) → List Char

abbrev pub table_of : Adapter → (mac : List Char) → AdapterTable
table_of a mac = record {
  name = a.adapter_name;
  description = a.description;
  mac = mac;
  ip = a.ip_address;
  mask = a.ip_mask;
  gateway = a.gateway;
  dhcp = a.dhcp_server;
}

-- The loop over the adapters: the entries with their numbers, from `i + 1` on.
pub adapter_loop :
    Heap
    → List Adapter
    → (i : ℕ) → List MemoryCall
    → Option (List (ℕ × AdapterTable) × List MemoryCall)
unfolding mac_text
adapter_loop heap [] i calls = some ([], calls)
adapter_loop heap (a ∷ rest) i calls = mac_text heap.block a.address >>= λ mac.
    adapter_loop heap rest (i + 1)
      (freed (heap.place (i + 1)) ∷ allocated (heap.place (i + 1)) ∷ calls)
    >>= λ (entries, after). some ((i + 1, table_of a mac) ∷ entries, after)

-- A table that is returned, or the error that is raised.
pub data TableResult (A : Type 0) : Type 0 where
  returned : A → TableResult A
  raised : TableResult A

-- `adapters` is the list that GetAdaptersInfo writes to `place`, `none` where it fails, as it does where
-- there is no adapter, so the list has one at least. The pointer that is
-- freed has walked to the end of the list.
unfoldable pub get_network_adapter :
    Heap
    → (place : ℕ) → (adapters : Option (List Adapter)) → List MemoryCall
    → Option (TableResult (List (ℕ × AdapterTable)) × List MemoryCall)
unfolding adapter_loop
get_network_adapter heap place none calls = some (raised, allocated place ∷ calls)
get_network_adapter heap place (some adapters) calls =
    adapter_loop heap adapters 0 (allocated place ∷ calls) >>= λ (entries, after).
    some (returned entries, freed 0 ∷ after)

-- A FIXED_INFO: `dns_server` is the address in DnsServerList, and `more_servers` the list behind it.
pub record FixedInfo : Type 0 where
  pub host_name : List Char
  pub domain_name : List Char
  pub dns_server : List Char
  pub more_servers : List (List Char)

pub record ParamTable : Type 0 where
  pub host : List Char
  pub domain : List Char
  pub dns : List (ℕ × List Char)

pub server_loop : List (List Char) → (i : ℕ) → List (ℕ × List Char)
server_loop [] i = []
server_loop (s ∷ ss) i = (i + 1, s) ∷ server_loop ss (i + 1)

unfoldable pub get_network_param :
    (place : ℕ)
    → (info : Option FixedInfo) → List MemoryCall
    → TableResult ParamTable × List MemoryCall
unfolding server_loop
get_network_param place none calls = (raised, allocated place ∷ calls)
get_network_param place (some info) calls = (
  returned (record {
    host = info.host_name;
    domain = info.domain_name;
    dns = (1, info.dns_server) ∷ server_loop info.more_servers 1;
  }),
  freed place ∷ allocated place ∷ calls,
)
