-- ===== src/Buffer/Construct.antt =====
-- The constructors and the assignment operators of `buffer`. Each returns the new world and the new
-- buffer; a moved-from buffer comes with it.
use socle.Prelude.{ℕ, Bool, true, false, not, ◌&&◌, ◌||◌, ltb, ◌==◌, if◌then◌else◌}
use socle.Buffer.{invalid_argument, Throws, returns, throws, dealloc}
use socle.Buffer.State.{
  Buffer, World, counter_alloc, counter_free, pool_acquire, pool_release, new_bytes, delete_bytes,
  fresh_memory,
}
use socle.MemPool.Buckets.{mem_chunk}
use socle.Memory.{memcpy}

-- the default member initialisers
abbrev pub initial : Buffer
initial = record { data_ = 0; size_ = 0; capacity_ = 0; free_ = true }

-- The allocation of `buffer(size_type)` and `buffer(size_type, size_type)`.
unfoldable pub make_memory : World → ℕ → World × Buffer
make_memory w s =
    if w.use_pool
    then (let (mch, w') = pool_acquire w s in
        (w', record initial { data_ = mch.ptr; capacity_ = mch.capacity }))
    else (let (d, w') = if not (s == 0) then new_bytes w s else (0, w) in
        (counter_alloc w' s, record initial { data_ = d; capacity_ = s }))

-- `buffer(size_type)`
unfoldable pub make : World → ℕ → World × Buffer
make w s = let (w', b) = make_memory w s in (w', record b { size_ = 0 })

-- `buffer(size_type, size_type)`
unfoldable pub make_sized : World → ℕ → ℕ → Throws (World × Buffer)
make_sized w s c =
    if ltb c s
    then throws invalid_argument
    else returns (let (w', b) = make_memory w c in (w', record b { size_ = s }))

-- `buffer(const void*, size_type)`
unfoldable pub make_copy : World → ℕ → ℕ → World × Buffer
make_copy w d s =
    if not (s == 0)
    then (let (p, c, w') = fresh_memory w s in
        (
          record w' { mem = memcpy w'.mem p d s },
          record initial { data_ = p; capacity_ = c; size_ = s },
        ))
    else (w, initial)

-- `buffer(const void*, size_type, size_type)`
unfoldable pub make_copy_within : World → ℕ → ℕ → ℕ → Throws (World × Buffer)
make_copy_within w d s c =
    if ltb c s
    then throws invalid_argument
    else if not (c == 0)
    then returns (
        let (p, c', w') = fresh_memory w c in
        (
          if not (s == 0) then record w' { mem = memcpy w'.mem p d s } else w',
          record initial { data_ = p; size_ = s; capacity_ = c' },
        ))
    else returns (w, record initial { size_ = s; capacity_ = c })

-- `buffer(void*, size_type, size_type, bool)`
unfoldable pub make_over : World → ℕ → ℕ → ℕ → Bool → Throws (World × Buffer)
make_over w d s c own =
    if ltb c s
    then throws invalid_argument
    else returns (
      if own && not w.use_pool then counter_alloc w c else w,
      record { data_ = d; size_ = s; capacity_ = c; free_ = own },
    )

-- The memory of `buffer(const buffer&)`. In pool mode a copy of a buffer that does not own its
-- memory keeps the initial capacity.
unfoldable pub copy_memory : World → Buffer → World × Buffer
copy_memory w x =
    if not (x.capacity_ == 0)
    then (if x.free_
        then (let (p, c, w') = fresh_memory w x.capacity_ in
            (
              if not (x.size_ == 0)
                  then record w' { mem = memcpy w'.mem p x.data_ x.size_ }
                  else w',
              record initial { data_ = p; capacity_ = if w.use_pool then c else 0 },
            ))
        else (w, record initial { data_ = x.data_ }))
    else (w, initial)

-- `buffer(const buffer&)`
unfoldable pub copy : World → Buffer → World × Buffer
copy w x =
    let (w', b) = copy_memory w x in
    (
      w',
      record b {
        free_ = x.free_;
        size_ = x.size_;
        capacity_ = if not w.use_pool then x.capacity_ else b.capacity_;
      },
    )

-- The new memory of `operator=(const buffer&)`.
unfoldable pub reassign_memory : World → Buffer → Buffer → World × Buffer
reassign_memory w b x =
    let w₁ = dealloc w b in
    if x.free_
    then (let (p, c, w₂) = fresh_memory w₁ x.capacity_ in
        (w₂, record b { data_ = p; capacity_ = c; free_ = true }))
    else (w₁, record b { capacity_ = x.capacity_; data_ = x.data_; free_ = false })

-- `operator=(const buffer&)`, where `x` is another object
unfoldable pub assign_from : World → Buffer → Buffer → World × Buffer
assign_from w b x =
    let (w', b') =
      if ltb b.capacity_ x.size_ || (b.data_ == 0) then reassign_memory w b x else (w, b) in
    (
      if not (x.size_ == 0) && x.free_
          then record w' { mem = memcpy w'.mem b'.data_ x.data_ x.size_ }
          else w',
      record b' { size_ = x.size_ },
    )

-- `buffer(buffer&&)`: the new buffer, and `ref`
unfoldable pub move : Buffer → Buffer × Buffer
move ref = (ref, record ref { free_ = false })

-- `operator=(buffer&&)`, where `ref` is another object
unfoldable pub move_from : World → Buffer → Buffer → World × Buffer × Buffer
move_from w b ref = (
  if b.free_ && not (b.data_ == 0)
      then (if w.use_pool
          then pool_release w (mem_chunk b.data_ b.capacity_)
          else counter_free (delete_bytes w b.data_) b.capacity_)
      else w,
  ref,
  record ref { free_ = false },
)
