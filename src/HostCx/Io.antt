-- ===== src/HostCx/Io.antt =====
-- hostcx.cpp: read, write, finish and to_write of baseHostCX. The hooks pre_read, post_read,
-- pre_write and post_write do nothing, as in this class; process_in and process_out, which
-- subclasses override, are parameters.
use socle.Prelude.{
  ℕ, ◌+◌, ◌%◌, ◌^◌, Bool, true, false, ◌&&◌, Option, none, some, List, [], ◌∷◌, ◌++◌, ltb, leb,
  ◌==◌, if◌then◌else◌, length, add_u64, sub_u64, mul_u64, add_u32, ℤ, pos, negsuc,
}
use socle.HostCx.{
  ByteBuffer, this_com, peercom, ComCall, set_monitor, set_write_monitor, rescan_read, rescan_write,
  HostCx, max_buffsize, write_full, com_not_ready_slowdown, fast_copy_start, size, flush_bytes,
  call,
}

abbrev pub add_read : ℕ → ℕ → HostCx → HostCx
add_read n now cx = record cx {
  meter_read_bytes = add_u64 cx.meter_read_bytes n;
  meter_read_count = add_u32 cx.meter_read_count 1;
  r_activity = now;
  processed_in_ = 0;
}

-- How often the peer was not ready, and the call that follows from it: another look at once, or a
-- later one after more than the limit.
abbrev pub not_ready : ComCall → ComCall → HostCx → HostCx
not_ready slow quick cx =
    let n = (cx.com_not_ready_counter + 1) % 2 ^ 16 in
    call (if ltb com_not_ready_slowdown n then slow else quick)
      (record cx { com_not_ready_counter = n })

unfoldable pub read_waiting_for_peercom : HostCx → Bool × HostCx
read_waiting_for_peercom cx =
    if cx.read_waiting_for_peercom_
    then elim cx.peer_ [
      | none ↦ (true, cx)
      | some p ↦
          if p.com_status
          then (false, record cx { read_waiting_for_peercom_ = false; com_not_ready_counter = 0 })
          else (
            true,
            not_ready (rescan_read peercom p.peer_socket) (set_monitor peercom p.peer_socket) cx,
          )
    ]
    else (false, cx)

unfoldable pub write_waiting_for_peercom : HostCx → Bool × HostCx
write_waiting_for_peercom cx =
    if cx.write_waiting_for_peercom_
    then elim cx.peer_ [
      | none ↦ (true, record cx { error_ = true })
      | some p ↦
          if p.com_status
          then (false, record cx { write_waiting_for_peercom_ = false; com_not_ready_counter = 0 })
          else (
            true,
            not_ready (rescan_write peercom p.peer_socket) (set_write_monitor peercom p.peer_socket)
                cx,
          )
    ]
    else (false, cx)

-- Does the peer have much to write?
abbrev pub peer_full : HostCx → Bool
peer_full cx = elim cx.peer_ [ none ↦ false | some p ↦ ltb write_full p.pending ]

unfoldable pub finish : HostCx → ℕ × HostCx
finish cx =
    let n = size cx.readbuf_ in
    if leb (cx.processed_in_ % 2 ^ 32) n && ltb 0 cx.processed_in_
    then (cx.processed_in_, record cx { readbuf_ = flush_bytes cx.processed_in_ cx.readbuf_ })
    else if n == 0
    then (0, cx)
    else (n, record cx { readbuf_ = flush_bytes n cx.readbuf_ })

abbrev pub read_eagain : HostCx → Bool
read_eagain cx = elim cx.read_limit_ [ none ↦ false | some n ↦ n == 0 ]

abbrev pub read_unlimited : HostCx → HostCx
read_unlimited cx = record cx { read_limit_ = none }

-- `read_limit(size_t)`
abbrev pub read_limit : ℕ → HostCx → HostCx
read_limit s cx = record cx { read_limit_ = if s == 0 then none else some s }

abbrev pub limit_value : HostCx → ℕ
limit_value cx = elim cx.read_limit_ [ none ↦ 0 | some n ↦ n ]

-- How many bytes a read asks for.
unfoldable pub max_bytes_left : HostCx → ℕ
max_bytes_left cx =
    let left = sub_u64 cx.readbuf_.capacity_ (size cx.readbuf_) in
    let limit = limit_value cx in if ltb 0 limit && ltb limit left then limit else left

-- `down_cast<int>(l).value_or(max_of<int>())`
abbrev pub to_int : ℤ → ℤ
to_int (pos n) = if ltb n (2 ^ 31) then pos n else pos 2147483647
to_int (negsuc n) = if ltb n (2 ^ 31) then negsuc n else pos 2147483647

module _ (room : ℕ → ℕ) where
  unfoldable pub grow_buffer : HostCx → HostCx
  grow_buffer cx =
      let b = cx.readbuf_ in
      if leb (mul_u64 b.capacity_ 2) max_buffsize
      then (if leb (mul_u64 b.capacity_ 2) b.capacity_
          then cx
          else record cx { readbuf_ = record b { capacity_ = room (mul_u64 b.capacity_ 2) } })
      else cx

  unfoldable pub after_read : (List ℕ → ℕ) → ℕ → ℕ → HostCx → HostCx
  after_read process_in n now cx =
      let cx' = record (add_read n now cx) { opening_ = false } in
      if ltb cx'.processed_in_total_ cx'.meter_read_bytes
      then (let p = process_in cx'.readbuf_.bytes in
          record cx' { processed_in_ = p; processed_in_total_ = add_u64 cx'.processed_in_total_ p })
      else cx'

  -- The one round of the loop of `read`, and what follows it. `got` is what the Com returned:
  -- nothing where the call failed, and no byte at the end of the stream.
  unfoldable pub read_received : (List ℕ → ℕ) → Option (List ℕ) → ℕ → HostCx → ℤ × HostCx
  read_received process_in none now cx =
      (negsuc 0, read_unlimited (record cx { processed_in_ = 0 }))
  read_received process_in (some []) now cx = (pos 0, read_unlimited (record cx { error_ = true }))
  read_received process_in (some (x ∷ xs)) now cx =
      let n = length (x ∷ xs) in
      let b = cx.readbuf_ in
      let cx₁ = record cx { readbuf_ = record b { bytes = b.bytes ++ x ∷ xs } } in
      let hit = ltb 0 (limit_value cx) && leb (limit_value cx) n in
      let cx₂ =
        if hit
        then cx₁
        else if leb cx₁.readbuf_.capacity_ (size cx₁.readbuf_)
        then grow_buffer cx₁
        else cx₁ in
      (to_int (pos n), read_unlimited (after_read process_in n now cx₂))

  -- `io_read n` is what the Com returns when it is asked for `n` bytes.
  unfoldable pub read : (List ℕ → ℕ) → (ℕ → Option (List ℕ)) → ℕ → HostCx → ℤ × HostCx
  read process_in io_read now cx₀ =
      let (waiting, cx) = read_waiting_for_peercom cx₀ in
      if waiting
      then (negsuc 0, cx)
      else if peer_full cx
      then (negsuc 0, call (rescan_read this_com cx.fds_) cx)
      else if read_eagain cx
      then (negsuc 0, read_unlimited cx)
      else (let cx₁ = if cx.auto_finish_ then (finish cx).1 else cx in
          read_received process_in (io_read (max_bytes_left cx₁)) now cx₁)

  -- `buffer::append`
  abbrev pub append_bytes : List ℕ → ByteBuffer → ByteBuffer
  append_bytes bs b = record {
    bytes = b.bytes ++ bs;
    capacity_ =
        if ltb b.capacity_ (length b.bytes + length bs)
        then room (length b.bytes + length bs)
        else b.capacity_;
  }

  -- `to_write` of bytes
  unfoldable pub to_write : List ℕ → HostCx → HostCx
  to_write bs cx =
      call (set_write_monitor this_com cx.fds_)
        (record cx { writebuf_ = append_bytes bs cx.writebuf_ })

  -- `to_write(buffer&)`: the buffer that the caller is left with, and the context
  unfoldable pub to_write_buffer : ByteBuffer → HostCx → ByteBuffer × HostCx
  to_write_buffer b cx =
      let w = cx.writebuf_ in
      let done = λ (c : HostCx). call (set_write_monitor this_com c.fds_) c in
      if size w == 0 && ltb fast_copy_start cx.meter_write_bytes
      then (
        record {
          bytes = [];
          capacity_ = if leb b.capacity_ w.capacity_ then w.capacity_ else room b.capacity_;
        },
        done (record cx { writebuf_ = b }),
      )
      else (b, done (record cx { writebuf_ = append_bytes b.bytes w }))
