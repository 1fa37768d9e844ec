-- ===== src/MemPool/Buckets.antt =====
-- `mem_chunk` and `memPool::Bucket`, over the heap that `new[]`, `delete[]` and `malloc` manage.
use socle.Prelude.{
  ℕ, zero, suc, ◌+◌, Bool, true, false, List, [], ◌∷◌, Option, none, some, ltb, leb, if◌then◌else◌,
  ◌&&◌, mul_u64,
}

-- The heap hands out addresses that it never handed out before, with a byte between two blocks,
-- and logs what was given back. Address 0 is below every block.
pub record Heap : Type 0 where
  pub brk : ℕ
  pub freed : List ℕ

-- `new unsigned char[n]` and `malloc(n)`
abbrev pub new_array : Heap → ℕ → ℕ × Heap
new_array h n = (suc h.brk, record h { brk = suc h.brk + n })

-- `delete[] p`
abbrev pub delete_array : Heap → ℕ → Heap
delete_array h p = record h { freed = p ∷ h.freed }

pub data PoolType : Type 0 where
  pool_type heap_type : PoolType

pub record Chunk : Type 0 where
  pub ptr : ℕ
  pub capacity : ℕ
  pub in_pool : Bool
  pub origin : PoolType

-- `mem_chunk(p, c)`: the origin is the pool unless it is set later.
abbrev pub mem_chunk : ℕ → ℕ → Chunk
mem_chunk p c = record { ptr = p; capacity = c; in_pool = false; origin = pool_type }

abbrev pub null_chunk : Chunk
null_chunk = mem_chunk 0 0

-- The head of `bucket` is the top of the stack.
pub record Bucket : Type 0 where
  pub sz : ℕ
  pub bucket : List Chunk
  pub allocated : ℕ
  pub bigptr : ℕ
  pub endptr : ℕ
  pub count : ℕ

-- `Bucket(SZ)`
abbrev pub empty_bucket : ℕ → Bucket
empty_bucket sz = record { sz = sz; bucket = []; allocated = 0; bigptr = 0; endptr = 0; count = 0 }

-- The loop of `init_memory`. The fuel is the number of rounds that are left at most.
unfoldable pub stockpile : ℕ → ℕ → ℕ → ℕ → List Chunk → List Chunk
stockpile zero sz cur stop stack = stack
stockpile (suc fuel) sz cur stop stack =
    let rest = stockpile fuel sz (cur + sz) stop (mem_chunk cur sz ∷ stack) in
    if ltb cur stop then rest else stack

unfoldable pub init_memory : Heap → Bucket → ℕ → Bucket × Heap
init_memory h b cnt =
    let size = mul_u64 cnt b.sz in
    let (ptr, h') = new_array h size in
    (
      record b {
        count = cnt;
        allocated = size;
        bigptr = ptr;
        endptr = ptr + size;
        bucket = stockpile (suc cnt) b.sz ptr (ptr + size) b.bucket;
      },
      h',
    )

unfoldable pub is_mine : Bucket → ℕ → Bool
is_mine b ptr = leb b.bigptr ptr && ltb ptr b.endptr

unfoldable pub bucket_acquire : Bucket → Option (Chunk × Bucket)
bucket_acquire b = elim b.bucket [ [] ↦ none | c ∷ cs ↦ some (c, record b { bucket = cs }) ]

unfoldable pub bucket_release : Bucket → Chunk → Bucket
unfolding is_mine
bucket_release b c =
    if is_mine b c.ptr then record b { bucket = record c { in_pool = true } ∷ b.bucket } else b
