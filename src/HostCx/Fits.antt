-- ===== src/HostCx/Fits.antt =====
-- The read buffer of a host context never holds more bytes than its capacity, so that a read stays
-- in the memory of the buffer.
use socle.Prelude.{
  ℕ, zero, suc, ◌+◌, ◌-◌, ◌^◌, ◌≤◌, ◌<◌, ◌≡◌, refl, sym, subst, Option, none, some, List, [], ◌∷◌,
  ◌++◌, arith, if◌then◌else◌, length, length-append, length-drop, sub_u64, mul_u64, ℤ, pos, negsuc,
}
use socle.HostCx.{ByteBuffer, HostCx, size, flush_bytes, shutdown}
use socle.HostCx.Io.{
  read, read_waiting_for_peercom, write_waiting_for_peercom, finish, max_bytes_left, grow_buffer,
  read_received, to_write, to_write_buffer,
}
use socle.HostCx.Out.{write, process, offered, watch, count_write, written}
use socle.HostCx.Received.{got_bytes, after_read-readbuf}
use socle.HostCx.Runs.{
  Event, to_writes, moves, writes, reads, finishes, peers, waits, closes_after_write, step, run,
}

abbrev pub HasRoom : ByteBuffer → Type 0
HasRoom b = (size b ≤ b.capacity_) × (b.capacity_ < 2 ^ 64)

-- A buffer gets at least the capacity that it asks for, below 2^64.
pub record Rooms (room : ℕ → ℕ) : Type 0 where
  pub enough : (n : ℕ) → n ≤ room n
  pub bounded : (n : ℕ) → n < 2 ^ 63 → room n < 2 ^ 64

-- The Com returns at most what it is asked for.
abbrev pub IsBounded : (ℕ → Option (List ℕ)) → Type 0
IsBounded io_read = (n : ℕ) → length (got_bytes (io_read n)) ≤ n

abbrev pub AreBounded : List Event → Type 0
AreBounded [] = Unit
AreBounded (reads process_in io_read now ∷ es) = IsBounded io_read × AreBounded es
AreBounded (e ∷ es) = AreBounded es

AreBounded-split :
    (e : Event) (es : List Event) → AreBounded (e ∷ es) → AreBounded (e ∷ []) × AreBounded es
AreBounded-split (to_writes bs) es h = (tt, h)
AreBounded-split (moves b) es h = (tt, h)
AreBounded-split (writes io_write now) es h = (tt, h)
AreBounded-split (reads process_in io_read now) es h = ((h.0, tt), h.1)
AreBounded-split finishes es h = (tt, h)
AreBounded-split (peers p) es h = (tt, h)
AreBounded-split (waits b) es h = (tt, h)
AreBounded-split (closes_after_write b) es h = (tt, h)

max_bytes_left-le :
    (cx : HostCx)
    → HasRoom cx.readbuf_
    → max_bytes_left cx + size cx.readbuf_ ≤ cx.readbuf_.capacity_
unfolding max_bytes_left
max_bytes_left-le cx f =
    let b = cx.readbuf_ in
    let e : sub_u64 b.capacity_ (size b) ≡ b.capacity_ - size b = omega arith in ground (arith, e)

finish-HasRoom : (cx : HostCx) → HasRoom cx.readbuf_ → HasRoom (finish cx).1.readbuf_
unfolding finish
finish-HasRoom cx f = ground (
  arith,
  length-drop cx.processed_in_ cx.readbuf_.bytes,
  length-drop (size cx.readbuf_) cx.readbuf_.bytes,
)

waiting-readbuf : (cx : HostCx) → (read_waiting_for_peercom cx).1.readbuf_ ≡ cx.readbuf_
unfolding read_waiting_for_peercom
waiting-readbuf cx = ground arith

process-readbuf :
    (process_out : List ℕ → ℕ × List ℕ) (cx : HostCx)
    → (process process_out cx).readbuf_ ≡ cx.readbuf_
unfolding process
process-readbuf process_out cx = ground arith

watch-readbuf : (l : ℕ) (cx : HostCx) → (watch l cx).readbuf_ ≡ cx.readbuf_
unfolding watch
watch-readbuf l cx = ground arith

shutdown-readbuf : (cx : HostCx) → (shutdown cx).readbuf_ ≡ cx.readbuf_
unfolding shutdown
shutdown-readbuf cx = ground arith

written-readbuf : (l : ℤ) (now : ℕ) (cx : HostCx) → (written l now cx).readbuf_ ≡ cx.readbuf_
unfolding written
written-readbuf (negsuc n) now cx = refl
written-readbuf (pos zero) now cx = ground arith
written-readbuf (pos (suc n)) now cx =
    let c = count_write (suc n) now cx in
    let w = watch (suc n) c in
    ground (
      arith,
      watch-readbuf (suc n) c,
      shutdown-readbuf (record w { writebuf_ = flush_bytes (suc n) w.writebuf_ }),
    )

not_ready-readbuf : (cx : HostCx) → (write_waiting_for_peercom cx).1.readbuf_ ≡ cx.readbuf_
unfolding write_waiting_for_peercom
not_ready-readbuf cx = ground arith

write-readbuf :
    (process_out : List ℕ → ℕ × List ℕ) (io_write : List ℕ → ℤ) (now : ℕ) (cx : HostCx)
    → (write process_out io_write now cx).1.readbuf_ ≡ cx.readbuf_
unfolding write
write-readbuf process_out io_write now cx =
    let w = (write_waiting_for_peercom cx).1 in
    let c = process process_out w in
    ground (
      arith,
      not_ready-readbuf cx,
      process-readbuf process_out w,
      written-readbuf (io_write (offered c)) now c,
    )

module _ (room : ℕ → ℕ) (rooms : Rooms room) where
  grow_buffer-HasRoom : (cx : HostCx) → HasRoom cx.readbuf_ → HasRoom (grow_buffer room cx).readbuf_
  unfolding grow_buffer
  grow_buffer-HasRoom cx f =
      let c = mul_u64 cx.readbuf_.capacity_ 2 in ground (arith, rooms.enough c, rooms.bounded c)

  received-HasRoom :
      (process_in : List ℕ → ℕ) (got : Option (List ℕ)) (now : ℕ) (cx : HostCx)
      → HasRoom cx.readbuf_
      → length (got_bytes got) + size cx.readbuf_ ≤ cx.readbuf_.capacity_
      → HasRoom (read_received room process_in got now cx).1.readbuf_
  unfolding read_received
  received-HasRoom process_in none now cx f le = f
  received-HasRoom process_in (some []) now cx f le = f
  received-HasRoom process_in (some (x ∷ xs)) now cx f le =
      let b = cx.readbuf_ in
      let cx₁ = record cx { readbuf_ = record b { bytes = b.bytes ++ x ∷ xs } } in
      ground (
        arith,
        length-append b.bytes (x ∷ xs),
        grow_buffer-HasRoom cx₁,
        after_read-readbuf room process_in (length (x ∷ xs)) now cx₁,
        after_read-readbuf room process_in (length (x ∷ xs)) now (grow_buffer room cx₁),
      )

  read-HasRoom :
      (process_in : List ℕ → ℕ) (io_read : ℕ → Option (List ℕ)) (now : ℕ) (cx : HostCx)
      → IsBounded io_read
      → HasRoom cx.readbuf_
      → HasRoom (read room process_in io_read now cx).1.readbuf_
  unfolding read
  read-HasRoom process_in io_read now cx h f =
      let w = (read_waiting_for_peercom cx).1 in
      let c = if w.auto_finish_ then (finish w).1 else w in
      let fw : HasRoom w.readbuf_ = subst HasRoom (sym (waiting-readbuf cx)) f in
      let fc : HasRoom c.readbuf_ = ground (arith, finish-HasRoom w fw) in
      let asked = max_bytes_left c in
      ground (
        arith,
        received-HasRoom process_in (io_read asked) now c fc
            (omega (arith, h asked, max_bytes_left-le c fc)),
      )

  step-HasRoom :
      (process_out : List ℕ → ℕ × List ℕ) (cx : HostCx) (wire : List ℕ) (e : Event)
      → AreBounded (e ∷ [])
      → HasRoom cx.readbuf_
      → HasRoom (step room process_out (cx, wire) e).0.readbuf_
  unfolding step to_write to_write_buffer
  step-HasRoom process_out cx wire (to_writes bs) h f = f
  step-HasRoom process_out cx wire (moves b) h f = ground arith
  step-HasRoom process_out cx wire (writes io_write now) h f =
      subst HasRoom (sym (write-readbuf process_out io_write now cx)) f
  step-HasRoom process_out cx wire (reads process_in io_read now) h f =
      read-HasRoom process_in io_read now cx h.0 f
  step-HasRoom process_out cx wire finishes h f = finish-HasRoom cx f
  step-HasRoom process_out cx wire (peers p) h f = f
  step-HasRoom process_out cx wire (waits b) h f = f
  step-HasRoom process_out cx wire (closes_after_write b) h f = f

  -- Where a buffer gets the capacity that it asks for, and the Com returns at most as many bytes as
  -- a read asks for, any sequence of calls on a context keeps the bytes of the read buffer within
  -- its capacity, and the capacity below 2^64.
  pub run_fits :
      (process_out : List ℕ → ℕ × List ℕ) (cx : HostCx) (wire : List ℕ) (es : List Event)
      → AreBounded es
      → HasRoom cx.readbuf_
      → HasRoom (run room process_out (cx, wire) es).0.readbuf_
  unfolding run
  run_fits process_out cx wire [] h f = f
  run_fits process_out cx wire (e ∷ es) h f =
      let (cx', wire') = step room process_out (cx, wire) e in
      let (first, rest) = AreBounded-split e es h in
      run_fits process_out cx' wire' es rest (step-HasRoom process_out cx wire e first f)
