-- ===== src/Buffer.antt =====
-- common/buffer.hpp and common/buffer.cpp: the class `buffer`, over the memory and the pool.
-- The private members keep their names. A method that changes the buffer returns the new world and
-- the new buffer; one that may throw returns a `Throws`.
pub mod State
pub mod Construct
pub mod Frame
pub mod Giving
pub mod Growth
pub mod Append
pub mod Content
pub mod View
pub mod Search
pub mod Copying
pub mod Refine
mod Tests
use socle.Prelude.{
  ℕ, zero, suc, ◌+◌, ◌-◌, ◌^◌, Bool, true, false, not, ◌&&◌, ◌||◌, Option, none, some, List, ltb,
  leb, ◌==◌, if◌then◌else◌, length, add_u64, sub_u64,
}
use socle.Buffer.State.{
  Buffer, World, counter_alloc, counter_free, pool_acquire, pool_release, new_bytes, delete_bytes,
  fresh_memory,
}
use socle.MemPool.Buckets.{mem_chunk}
use socle.Memory.{Memory, read, write, memcpy, memset}

-- A method that returns normally, or the exception that it throws.
pub data Error : Type 0 where
  invalid_argument out_of_range : Error

pub data Throws {ℓ} (A : Type ℓ) : Type ℓ where
  returns : A → Throws A
  throws : Error → Throws A

-- `static_cast<size_type>(-1)`
abbrev pub npos : ℕ
npos = 2 ^ 64 - 1

unfoldable pub dealloc : World → Buffer → World
dealloc w b =
    if b.free_ && ltb 0 b.capacity_
    then (if w.use_pool
        then pool_release w (mem_chunk b.data_ b.capacity_)
        else counter_free (delete_bytes w b.data_) b.capacity_)
    else w

unfoldable pub release : World → Buffer → World × Buffer
release w b = (dealloc w b, record { data_ = 0; size_ = 0; capacity_ = 0; free_ = false })

-- `swap`: the new `*this`, and the new `x`
unfoldable pub swap : Buffer → Buffer → Buffer × Buffer
swap b x = (
  record { data_ = x.data_; size_ = x.size_; capacity_ = x.capacity_; free_ = x.free_ },
  record { data_ = b.data_; size_ = b.size_; capacity_ = b.capacity_; free_ = b.free_ },
)

unfoldable pub detach : Buffer → ℕ × Buffer
detach b = (b.data_, record b { data_ = 0; size_ = 0; capacity_ = 0 })

-- The memory of `assign(const void*, size_type)` where the old memory is too small.
unfoldable pub assign_grow : World → Buffer → ℕ → World × Buffer
assign_grow w b s =
    let w₁ = dealloc w b in
    if w.use_pool
    then (let (mch, w₂) = pool_acquire w₁ s in
        (w₂, record b { data_ = mch.ptr; capacity_ = s; free_ = true }))
    else (let (d, w₂) = new_bytes w₁ s in
        (counter_alloc w₂ s, record b { data_ = d; capacity_ = s; free_ = true }))

unfoldable pub assign : World → Buffer → ℕ → ℕ → World × Buffer
assign w b d s =
    let (w', b') = if ltb b.capacity_ s then assign_grow w b s else (w, b) in
    let w'' =
      if not (s == 0) && not (d == 0) then record w' { mem = memcpy w'.mem b'.data_ d s } else w' in
    (w'', record b' { size_ = s })

-- `assign(void*, size_type, size_type, bool)`
unfoldable pub assign_own : World → Buffer → ℕ → ℕ → ℕ → Bool → World × Buffer
assign_own w b d s c own =
    let w₁ = dealloc w b in
    (
      if own && not w.use_pool then counter_alloc w₁ c else w₁,
      record { data_ = d; size_ = s; capacity_ = c; free_ = own },
    )

unfoldable pub attach : World → Buffer → ℕ → ℕ → World × Buffer
attach w b d s = assign_own w b d s s true

-- `capacity(size_type)`: the flag says whether the memory was exchanged.
unfoldable pub set_capacity : World → Buffer → ℕ → Bool × World × Buffer
set_capacity w b c =
    if leb c b.capacity_
    then (false, w, b)
    else (let (d, cd, w₁) = fresh_memory w c in
        let w₂ =
          if not (b.size_ == 0) then record w₁ { mem = memcpy w₁.mem d b.data_ b.size_ } else w₁ in
        (true, dealloc w₂ b, record b { data_ = d; capacity_ = cd; free_ = true }))

-- `size(size_type)`
unfoldable pub set_size : World → Buffer → ℕ → Bool × World × Buffer
set_size w b s =
    let (r, w', b') = if ltb b.capacity_ s then set_capacity w b s else (false, w, b) in
    (r, w', record b' { size_ = s })

unfoldable pub append : World → Buffer → ℕ → ℕ → World × Buffer
append w b d s =
    if not (s == 0)
    then (let ns = add_u64 b.size_ s in
        let (r, w', b') = if ltb b.capacity_ ns then set_capacity w b ns else (false, w, b) in
        (record w' { mem = memcpy w'.mem (b'.data_ + b'.size_) d s }, record b' { size_ = ns }))
    else (w, b)

-- `append(const buffer&)`
unfoldable pub append_buffer : World → Buffer → Buffer → World × Buffer
append_buffer w b x = append w b x.data_ x.size_

unfoldable pub fill : World → Buffer → ℕ → World
fill w b v = if ltb 0 b.size_ then record w { mem = memset w.mem b.data_ v b.size_ } else w

unfoldable pub empty : Buffer → Bool
empty b = b.size_ == 0

unfoldable pub clear : Buffer → Buffer
clear b = record b { size_ = 0 }

-- `at(size_type)`
unfoldable pub at_index : World → Buffer → ℕ → Throws ℕ
at_index w b i = if leb b.size_ i then throws out_of_range else returns (w.mem (b.data_ + i))

-- `copy_from<SZ>(start)`, and with `sz = sizeof(T)` the bytes of `get_at<T>(start)`
unfoldable pub copy_from : World → Buffer → ℕ → ℕ → Throws (List ℕ)
copy_from w b sz start =
    if ltb b.size_ (add_u64 start sz)
    then throws out_of_range
    else returns (read w.mem (b.data_ + start) sz)

-- `set_at<T>(idx, val)`, with the bytes of `val`
unfoldable pub set_at : World → Buffer → ℕ → List ℕ → Throws World
set_at w b idx val =
    if ltb b.size_ (add_u64 idx (length val))
    then throws out_of_range
    else returns (record w { mem = write w.mem (b.data_ + idx) val })

-- `std::memchr`: the offset of the first `v` among the `n` bytes at `p`
unfoldable pub memchr : Memory → ℕ → ℕ → ℕ → Option ℕ
memchr m p v zero = none
memchr m p v (suc n) =
    let rest : Option ℕ = elim (memchr m (suc p) v n) [ none ↦ none | some i ↦ some (suc i) ] in
    if m p == v then some 0 else rest

unfoldable pub find : World → Buffer → ℕ → ℕ → ℕ
find w b v from =
    if b.size_ == 0 || leb b.size_ from
    then npos
    else elim (memchr w.mem (b.data_ + from) v (b.size_ - from)) [ none ↦ npos | some i ↦ from + i ]

-- `for (++n; n-- != 0; ) if (data_[n] == v) return n;`, from the value of `n` before the test
unfoldable pub rfind_from : Memory → ℕ → ℕ → ℕ → ℕ
rfind_from m p v zero = npos
rfind_from m p v (suc n) = let rest = rfind_from m p v n in if m (p + n) == v then n else rest

unfoldable pub rfind : World → Buffer → ℕ → ℕ → ℕ
rfind w b v from =
    if not (b.size_ == 0)
    then (let n = if ltb from (b.size_ - 1) then from else b.size_ - 1 in
        rfind_from w.mem b.data_ v (n + 1))
    else npos

-- `std::memcmp(p, q, n) == 0`
unfoldable pub memcmp_eq : Memory → ℕ → ℕ → ℕ → Bool
memcmp_eq m p q zero = true
memcmp_eq m p q (suc n) = (m p == m q) && memcmp_eq m (suc p) (suc q) n

-- `operator==`
unfoldable pub equals : World → Buffer → Buffer → Bool
equals w a b = (a.size_ == b.size_) && memcmp_eq w.mem a.data_ b.data_ a.size_

-- `flush`. Its last branch, which throws, is under the test that the branch above it makes.
unfoldable pub flush : World → Buffer → ℕ → Throws (World × Buffer)
flush w b bytes =
    if bytes == 0 || leb b.size_ bytes
    then returns (w, clear b)
    else if ltb bytes b.size_
    then returns (
      record w { mem = memcpy w.mem b.data_ (b.data_ + bytes) (b.size_ - bytes) },
      record b { size_ = b.size_ - bytes },
    )
    else throws out_of_range

abbrev pub view_of : ℕ → ℕ → Buffer
view_of d s = record { data_ = d; size_ = s; capacity_ = s; free_ = false }

unfoldable pub view : Buffer → ℕ → ℕ → Throws Buffer
view b from len =
    if ltb from b.size_
    then (if leb (add_u64 from len) b.size_
        then returns (view_of (b.data_ + from) len)
        else returns (view_of (b.data_ + from) (b.size_ - from)))
    else throws out_of_range

-- `view(size_type pos)`
unfoldable pub view_from : Buffer → ℕ → Throws Buffer
view_from b from = view b from (sub_u64 b.size_ from)

-- `view()`
unfoldable pub view_all : Buffer → Throws Buffer
view_all b = view b 0 b.size_

-- `str`, `string_view` and `operator<<`: the bytes of the buffer
unfoldable pub str : World → Buffer → List ℕ
str w b = read w.mem b.data_ b.size_
