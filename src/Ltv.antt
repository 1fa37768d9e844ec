-- ===== src/Ltv.antt =====
-- common/ltventry.hpp and common/ltventry.cpp: entries of length, type and value, and containers of
-- them. An entry's data is an address of the memory; `int` results are 32-bit words, so -1 is
-- 2^32 - 1. A byte of the memory is a number below 256 where it matters.
pub mod Format
pub mod Unpack
pub mod Steps
pub mod Pack
pub mod Roundtrip
pub mod Search
pub mod Build
mod Tests
use socle.Prelude.{
  ℕ, zero, suc, ◌+◌, ◌-◌, ◌*◌, ◌/◌, ◌%◌, ◌^◌, Bool, true, false, ◌&&◌, List, [], ◌∷◌, ◌++◌, ltb,
  leb, ◌==◌, if◌then◌else◌, length, take, drop, add_u32,
}
use socle.MemPool.Buckets.{Heap, new_array}
use socle.Memory.{Memory, read, memcpy}

mutual
  -- `len_`, `id_`, `type_`, `data_`, `owner_`, `contains_`
  pub data LtvEntry : Type 0 where
    ltv_entry : ℕ → ℕ → ℕ → ℕ → Bool → Entries → LtvEntry

  pub data Entries : Type 0 where
    nil : Entries
    cons : LtvEntry → Entries → Entries

abbrev pub ltv_header_size : ℕ
ltv_header_size = 6

-- `typ::cont`, `typ::num`
abbrev pub cont : ℕ
cont = 6

abbrev pub num : ℕ
num = 3

abbrev pub len : LtvEntry → ℕ
len (ltv_entry l i t d o es) = l

abbrev pub id : LtvEntry → ℕ
id (ltv_entry l i t d o es) = i

abbrev pub contains : LtvEntry → Entries
contains (ltv_entry l i t d o es) = es

-- `LTVEntry()`, followed by `owner(o)`
abbrev pub new_entry : Bool → LtvEntry
new_entry o = ltv_entry 0 0 0 0 o nil

abbrev pub push_back : Entries → LtvEntry → Entries
push_back nil e = cons e nil
push_back (cons x es) e = cons x (push_back es e)

-- `add`
unfoldable pub add : LtvEntry → LtvEntry → LtvEntry
add (ltv_entry l i t d o es) e = ltv_entry l i t d o (push_back es e)

-- `htonl` as the bytes in memory
abbrev pub be32 : ℕ → List ℕ
be32 n = n / 2 ^ 24 % 256 ∷ n / 2 ^ 16 % 256 ∷ n / 2 ^ 8 % 256 ∷ n % 256 ∷ []

unfoldable pub ltv_get_length : Memory → ℕ → ℕ
ltv_get_length m a = m a * 2 ^ 24 + m (a + 1) * 2 ^ 16 + m (a + 2) * 2 ^ 8 + m (a + 3)

abbrev pub ltv_get_id : Memory → ℕ → ℕ
ltv_get_id m a = m (a + 4)

abbrev pub ltv_get_type : Memory → ℕ → ℕ
ltv_get_type m a = m (a + 5)

-- the memory and the heap
abbrev pub Store : Type 0
Store = Memory × Heap

-- `data_ = new uint8_t[len_]` and the copy, or the buffer itself
unfoldable pub take_data : Store → Bool → ℕ → ℕ → ℕ × Store
take_data (m, h) true a n = let (d, h') = new_array h n in (d, (memcpy m d a n, h'))
take_data s false a n = (a, s)

-- What the unpacking of a sub-entry at an address yields: the result, the entry, the store.
abbrev pub Unpack : Type 0
Unpack = Store → ℕ → ℕ → ℕ × LtvEntry × Store

-- The loop over the sub-entries of the payload of `payload_len` bytes at `p`. Each round but the
-- last advances by a byte at least: `payload_len` rounds are enough, as long as the index does not
-- wrap.
unfoldable pub dig : Unpack → ℕ → Store → ℕ → ℕ → ℕ → Entries → Entries × Store
dig sub zero s p index payload_len es = (es, s)
dig sub (suc rounds) s p index payload_len es =
    let (sub_red, l, s') = sub s (p + index) payload_len in
    elim (sub_red == 0) [
      | true ↦ (es, s')
      | false ↦ elim (leb payload_len (add_u32 index sub_red)) [
        | true ↦ (push_back es l, s')
        | false ↦ dig sub rounds s' p (add_u32 index sub_red) payload_len (push_back es l)
      ]
    ]

-- the part of `unpack` that digs into a container
unfoldable pub unpack_contents : Unpack → Store → ℕ → ℕ → ℕ → Entries → Entries × Store
unpack_contents sub s t l d es =
    if t == cont && ltb ltv_header_size l
    then dig sub (l - ltv_header_size) s (d + 6) 0 (l - ltv_header_size) es
    else (es, s)

-- the part of `unpack` for a buffer that has the whole entry
unfoldable pub unpack_whole : Unpack → Store → LtvEntry → ℕ → ℕ → ℕ × LtvEntry × Store
unpack_whole sub (m, h) (ltv_entry l i t d o es) l' a =
    let (d', s) = take_data (m, h) o a l' in
    let (es', s') = unpack_contents sub s (ltv_get_type m a) l' d' es in
    (l', ltv_entry l' (ltv_get_id m a) (ltv_get_type m a) d' o es', s')

-- `unpack` of the buffer at `a`. The fuel bounds the depth of the containers.
unfoldable pub unpack_fuel : ℕ → LtvEntry → Unpack
unpack_fuel zero e s a buflen = (0, e, s)
unpack_fuel (suc fuel) (ltv_entry l i t d o es) (m, h) a buflen =
    let l' = ltv_get_length m a in
    if ltb buflen 4
    then (2 ^ 32 - 1, ltv_entry l i t d o es, (m, h))
    else if ltb buflen l'
    then (0, ltv_entry l' i t d o es, (m, h))
    else unpack_whole (unpack_fuel fuel (new_entry false)) (m, h) (ltv_entry l i t d o es) l' a

-- A container holds entries that are at least a header shorter: `buflen` is enough fuel.
unfoldable pub unpack : LtvEntry → Unpack
unpack e s a buflen = unpack_fuel (suc buflen) e s a buflen

-- `ltv_set_length` in the bytes of a `buffer`, at a position in it
abbrev pub set_length : List ℕ → ℕ → ℕ → List ℕ
set_length bs at_pos l = take at_pos bs ++ be32 l ++ drop (at_pos + 4) bs

-- `pack(buf)`: the result, the entry after it, and the bytes of `buf`.
unfoldable mutual
  pub pack_into : Memory → LtvEntry → List ℕ → ℕ × LtvEntry × List ℕ
  pack_into m (ltv_entry l i t d o es) buf =
      let (sub_bytes, es', buf') = pack_all m es (buf ++ read m d l) in
      if t == cont
      then (
        add_u32 l sub_bytes,
        ltv_entry (add_u32 l sub_bytes) i t d o es',
        set_length buf' (length buf) (add_u32 l sub_bytes),
      )
      else if ltb 0 l
      then (l, ltv_entry l i t d o es, buf ++ read m d l)
      else (0, ltv_entry l i t d o es, buf)

  pub pack_all : Memory → Entries → List ℕ → ℕ × Entries × List ℕ
  pack_all m nil buf = (0, nil, buf)
  pack_all m (cons e es) buf =
      let (n, e', buf') = pack_into m e buf in
      let (k, es', buf'') = pack_all m es buf' in (add_u32 n k, cons e' es', buf'')

-- `pack(nullptr)`, where the entry takes over the bytes of a new buffer: the result, `len_` after
-- it, the entries, and the bytes at the new `data_`. A scalar's bytes are there twice, since the
-- buffer that is attached to them has them appended once more.
unfoldable pub pack : Memory → LtvEntry → ℕ × ℕ × Entries × List ℕ
pack m (ltv_entry l i t d o es) =
    let (sub_bytes, es', buf) = pack_all m es (read m d l) in
    if t == cont
    then (add_u32 l sub_bytes, add_u32 l sub_bytes, es', set_length buf 0 (add_u32 l sub_bytes))
    else if ltb 0 l
    then (l, l, es, read m d l ++ read m d l)
    else (0, l, es, read m d l)
