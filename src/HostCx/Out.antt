-- ===== src/HostCx/Out.antt =====
-- hostcx.cpp: write of baseHostCX, with process_out as a parameter that may change the bytes.
use socle.Prelude.{
  ℕ, zero, suc, Bool, true, false, ◌&&◌, List, ltb, ◌==◌, if◌then◌else◌, length, take, add_u64,
  add_u32, ℤ, pos, negsuc,
}
use socle.HostCx.{
  this_com, set_write_monitor, rescan_write, change_monitor_read, HostCx, size, flush_bytes, call,
  shutdown,
}
use socle.HostCx.Io.{write_waiting_for_peercom, to_int}

-- What process_out is called for: the bytes that it has not seen, as the counters tell.
abbrev pub has_unseen : HostCx → Bool
has_unseen cx = ltb cx.processed_out_total_ (add_u64 cx.meter_write_bytes (size cx.writebuf_))

unfoldable pub process : (List ℕ → ℕ × List ℕ) → HostCx → HostCx
process process_out cx =
    if has_unseen cx
    then (let (p, bs) = process_out cx.writebuf_.bytes in
        record cx {
          writebuf_ = record cx.writebuf_ { bytes = bs };
          processed_out_ = p;
          processed_out_total_ = add_u64 cx.processed_out_total_ p;
        })
    else record cx { processed_out_ = size cx.writebuf_ }

-- The bytes that go to the Com.
unfoldable pub offered : HostCx → List ℕ
offered cx = take cx.processed_out_ cx.writebuf_.bytes

-- The monitor of the socket after `l` bytes went out.
unfoldable pub watch : ℕ → HostCx → HostCx
watch l cx =
    if ltb l (size cx.writebuf_)
    then record (call (set_write_monitor this_com cx.fds_) cx) { rescan_out_flag_ = true }
    else if cx.rescan_out_flag_
    then call (change_monitor_read cx.fds_) (record cx { rescan_out_flag_ = false })
    else cx

abbrev pub count_write : ℕ → ℕ → HostCx → HostCx
count_write l now cx = record cx {
  meter_write_bytes = add_u64 cx.meter_write_bytes l;
  meter_write_count = add_u32 cx.meter_write_count 1;
  w_activity = now;
  opening_ = false;
}

-- What follows a call of the Com that returned `l`.
unfoldable pub written : ℤ → ℕ → HostCx → HostCx
written (negsuc n) now cx = cx
written (pos zero) now cx =
    if size cx.writebuf_ == 0
    then cx
    else record (call (rescan_write this_com cx.fds_) cx) { rescan_out_flag_ = true }
written (pos (suc n)) now cx =
    let cx₁ = watch (suc n) (count_write (suc n) now cx) in
    let cx₂ = record cx₁ { writebuf_ = flush_bytes (suc n) cx₁.writebuf_ } in
    if cx₂.close_after_write_ && size cx₂.writebuf_ == 0 then shutdown cx₂ else cx₂

unfoldable pub write : (List ℕ → ℕ × List ℕ) → (List ℕ → ℤ) → ℕ → HostCx → ℤ × HostCx
write process_out io_write now cx₀ =
    let (waiting, cx) = write_waiting_for_peercom cx₀ in
    if waiting
    then (pos 0, cx)
    else (let cx₁ = process process_out cx in
        let l = io_write (offered cx₁) in (to_int l, written l now cx₁))

-- `process_out` and `process_in` of this class
abbrev pub all_out : List ℕ → ℕ × List ℕ
all_out bs = (length bs, bs)

abbrev pub all_in : List ℕ → ℕ
all_in bs = length bs
