-- ===== src/HostCx/Counts.antt =====
-- What the counters of a host context make of a read buffer without space, and of bytes that are
-- written in parts.
use socle.Prelude.{
  ℕ, zero, suc, ◌+◌, ◌-◌, ◌^◌, ◌≤◌, ◌<◌, ◌≡◌, refl, ap, ◌∙◌, true, false, Option, some, List, [],
  ◌++◌, arith, ◌==◌, if◌then◌else◌, length, length-append, take_all, length-drop, add_u64, sub_u64,
  ℤ, pos, negsuc, pos_part,
}
use socle.HostCx.{HostCx, size, flush_bytes, shutdown}
use socle.HostCx.Drain.{write-runs}
use socle.HostCx.Io.{read, peer_full, read_eagain, max_bytes_left, read_received, to_write}
use socle.HostCx.Out.{write, has_unseen, process, offered, watch, count_write, written, all_out}
use socle.HostCx.Received.{not_waiting}
use socle.HostCx.Stream.{IsHonest, written-bytes}

max_bytes_left-full :
    (cx : HostCx) → size cx.readbuf_ ≡ cx.readbuf_.capacity_ → max_bytes_left cx ≡ 0
unfolding max_bytes_left
max_bytes_left-full cx full =
    let b = cx.readbuf_ in
    let e : sub_u64 b.capacity_ (size b) ≡ 0 = omega arith in ground (arith, e)

-- The read buffer is full and is not finished by itself. A Com that returns no byte when it is asked
-- for none, as recv does, then makes `read` return 0 and report an error, though the stream has not
-- come to its end.
pub read_full :
    (room : ℕ → ℕ) (process_in : List ℕ → ℕ) (io_read : ℕ → Option (List ℕ)) (now : ℕ) (cx : HostCx)
    → cx.read_waiting_for_peercom_ ≡ false
    → peer_full cx ≡ false
    → read_eagain cx ≡ false
    → cx.auto_finish_ ≡ false
    → size cx.readbuf_ ≡ cx.readbuf_.capacity_
    → io_read 0 ≡ some []
    → let (r, cx') = read room process_in io_read now cx in
      (r ≡ pos 0) × (cx'.error_ ≡ true) × (cx'.readbuf_ ≡ cx.readbuf_)
unfolding read read_received
read_full room process_in io_read now cx running peer limit auto full recv =
    let none_left : max_bytes_left cx ≡ 0 = max_bytes_left-full cx full in
    let e : io_read (max_bytes_left cx) ≡ some [] = ap io_read none_left ∙ recv in
    rw (not_waiting cx running, peer, limit) (ground (arith, auto, e))

-- The counters of what was passed to process_out and of what was written.
abbrev counters : HostCx → ℕ × ℕ
counters cx = (cx.processed_out_total_, cx.meter_write_bytes)

watch-counters : (l : ℕ) (cx : HostCx) → counters (watch l cx) ≡ counters cx
unfolding watch
watch-counters l cx = ground arith

shutdown-counters : (cx : HostCx) → counters (shutdown cx) ≡ counters cx
unfolding shutdown
shutdown-counters cx = ground arith

written-counts :
    (l : ℤ) (now : ℕ) (cx : HostCx)
    → let cx' = written l now cx in
      (cx'.processed_out_total_ ≡ cx.processed_out_total_)
      × (cx'.meter_write_bytes ≡ (
          if pos_part l == 0
          then cx.meter_write_bytes
          else add_u64 cx.meter_write_bytes (pos_part l)))
unfolding written
written-counts (negsuc n) now cx = (refl, refl)
written-counts (pos zero) now cx = ground arith
written-counts (pos (suc n)) now cx =
    let c = count_write (suc n) now cx in
    let w = watch (suc n) c in
    let e = watch-counters (suc n) c in
    let f = shutdown-counters (record w { writebuf_ = flush_bytes (suc n) w.writebuf_ }) in
    ground (arith, ap (λ x. x.0) e, ap (λ x. x.1) e, ap (λ x. x.0) f, ap (λ x. x.1) f)

-- A context whose counters say that `seen` of the pending bytes were passed to process_out, and not
-- all of them.
pub record HasSeen (seen : ℕ) (cx : HostCx) : Type 0 where
  pub running : cx.write_waiting_for_peercom_ ≡ false
  pub total : cx.processed_out_total_ ≡ cx.meter_write_bytes + seen
  pub new : seen < size cx.writebuf_
  pub small : cx.processed_out_total_ + size cx.writebuf_ < 2 ^ 64

process-all :
    (process_out : List ℕ → ℕ × List ℕ) (seen : ℕ) (cx : HostCx)
    → HasSeen seen cx
    → process_out cx.writebuf_.bytes ≡ all_out cx.writebuf_.bytes
    → process process_out cx ≡ record cx {
      processed_out_ = size cx.writebuf_;
      processed_out_total_ = cx.processed_out_total_ + size cx.writebuf_;
    }
unfolding process
process-all process_out seen cx s all =
    let u : has_unseen cx ≡ true = ground (arith, s.total, s.new, s.small) in
    let e : add_u64 cx.processed_out_total_ (size cx.writebuf_)
        ≡ cx.processed_out_total_ + size cx.writebuf_ =
      omega (arith, s.small) in
    rw (u, all, e) refl

process-nothing :
    (process_out : List ℕ → ℕ × List ℕ) (cx : HostCx)
    → has_unseen cx ≡ false
    → process process_out cx ≡ record cx { processed_out_ = size cx.writebuf_ }
unfolding process
process-nothing process_out cx u = rw u refl

offered-all :
    (cx : HostCx) (t : ℕ)
    → offered (record cx { processed_out_ = size cx.writebuf_; processed_out_total_ = t })
      ≡ cx.writebuf_.bytes
unfolding offered
offered-all cx t = take_all (size cx.writebuf_) cx.writebuf_.bytes (omega arith)

module _ (process_out : List ℕ → ℕ × List ℕ) (io_write : List ℕ → ℤ) (now seen : ℕ)
    (cx : HostCx) where
  counts_twice :
      HasSeen seen cx
      → process_out cx.writebuf_.bytes ≡ all_out cx.writebuf_.bytes
      → IsHonest io_write
      → let cx' = (write process_out io_write now cx).1 in
        (cx'.processed_out_total_ ≡ cx'.meter_write_bytes + size cx'.writebuf_ + seen)
        × (cx'.processed_out_total_ < 2 ^ 64)
  counts_twice s all honest =
      let c = process process_out cx in
      let bs = cx.writebuf_.bytes in
      let e = process-all process_out seen cx s all in
      let o : offered c ≡ bs =
        rw e (offered-all cx (cx.processed_out_total_ + size cx.writebuf_)) in
      let l = io_write bs in
      let (total, meter) = written-counts l now c in
      let left = written-bytes l now c in
      let r : (write process_out io_write now cx).1 ≡ written l now c =
        write-runs process_out io_write now cx s.running ∙ ap (λ x. written (io_write x) now c) o in
      let sizes : size (written l now c).writebuf_ ≡ size c.writebuf_ - pos_part l =
        ap length left ∙ length-drop (pos_part l) c.writebuf_.bytes in
      rw r (
        ground (
          arith,
          s.total,
          s.new,
          s.small,
          total,
          meter,
          sizes,
          honest bs,
          ap (λ x. x.processed_out_total_) e,
          ap (λ x. x.meter_write_bytes) e,
          ap (λ x. size x.writebuf_) e,
        ))

-- After a write of the Com in parts, `seen` of the pending bytes count as passed to process_out. The
-- next write passes all pending bytes to it, and counts them all; from then on that many bytes that
-- the owner adds go out without a look of process_out at them: whatever process_out would do with
-- them, the bytes that are offered to the Com are those of the buffer.
pub write_unseen :
    (room : ℕ → ℕ) (process_out process_out' : List ℕ → ℕ × List ℕ) (io_write : List ℕ → ℤ)
    (now seen : ℕ) (cx : HostCx) (bs : List ℕ)
    → HasSeen seen cx
    → process_out cx.writebuf_.bytes ≡ all_out cx.writebuf_.bytes
    → IsHonest io_write
    → length bs ≤ seen
    → let cx₁ = (write process_out io_write now cx).1 in
      let cx₂ = to_write room bs cx₁ in
      offered (process process_out' cx₂) ≡ cx₁.writebuf_.bytes ++ bs
unfolding to_write
write_unseen room process_out process_out' io_write now seen cx bs s all honest le =
    let cx₁ = (write process_out io_write now cx).1 in
    let cx₂ = to_write room bs cx₁ in
    let (total, small) = counts_twice process_out io_write now seen cx s all honest in
    let n = length-append cx₁.writebuf_.bytes bs in
    let u : has_unseen cx₂ ≡ false = ground (arith, total, small, n, le) in
    rw (process-nothing process_out' cx₂ u) (offered-all cx₂ cx₂.processed_out_total_)
