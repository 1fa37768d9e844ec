-- ===== src/HostCx/Drain.antt =====
-- Repeated calls of `write` bring the write buffer to its end, and close the socket if it is to be
-- closed then.
use native.Mathlib.Decide.{dec_lt}
use socle.Prelude.{
  ℕ, zero, suc, ◌-◌, ◌≤◌, ◌<◌, ◌≡◌, refl, sym, ap, ◌∙◌, subst, true, false, List, [], ◌∷◌, arith,
  length, take, drop, All, take_all, length-drop, length_zero, same, ℤ, pos, negsuc, is_zero,
  pos_part,
}
use socle.Buffer.{empty}
use socle.HostCx.{HostCx, flush_bytes, shutdown}
use socle.HostCx.Io.{write_waiting_for_peercom}
use socle.HostCx.Out.{write, process, offered, watch, count_write, written, all_out}

-- Calls at the time `now`, with what the Com answers to each.
unfoldable pub write_each : List (List ℕ → ℤ) → ℕ → HostCx → HostCx
write_each [] now cx = cx
write_each (io_write ∷ ios) now cx = write_each ios now (write all_out io_write now cx).1

abbrev pub MakesProgress : (List ℕ → ℤ) → Type 0
MakesProgress io_write = (bs : List ℕ) → 0 < length bs → 0 < pos_part (io_write bs)

-- What a call of `write` does to a context that does not wait for its peer.
record Writes (cx cx' : HostCx) (n : ℕ) : Type 0 where
  bytes : cx'.writebuf_.bytes ≡ drop n cx.writebuf_.bytes
  running : cx'.write_waiting_for_peercom_ ≡ false
  closes : cx'.close_after_write_ ≡ cx.close_after_write_
  stays_shut : cx.fds_ ≡ pos 0 → cx'.fds_ ≡ pos 0
  shuts : cx.close_after_write_ ≡ true → 0 < n → length cx'.writebuf_.bytes ≡ 0 → cx'.fds_ ≡ pos 0

take-length : (bs : List ℕ) → take (length bs) bs ≡ bs
take-length bs = take_all (length bs) bs (omega arith)

offered-process : (cx : HostCx) → offered (process all_out cx) ≡ cx.writebuf_.bytes
unfolding offered process
offered-process cx = ground (arith, take-length cx.writebuf_.bytes)

-- A socket that is shut stays shut, and the flags stay.
record Kept (cx cx' : HostCx) : Type 0 where
  bytes : cx'.writebuf_ ≡ cx.writebuf_
  waiting : cx'.write_waiting_for_peercom_ ≡ cx.write_waiting_for_peercom_
  closes : cx'.close_after_write_ ≡ cx.close_after_write_

watch-Kept : (l : ℕ) (cx : HostCx) → Kept cx (watch l cx) × ((watch l cx).fds_ ≡ cx.fds_)
unfolding watch
watch-Kept l cx = ground arith

is_zero-eq : (s : ℤ) → is_zero s ≡ true → s ≡ pos 0
is_zero-eq (pos zero) h = refl
is_zero-eq (pos (suc n)) h = absurd (cc)
is_zero-eq (negsuc n) h = absurd (cc)

shutdown-Kept : (cx : HostCx) → Kept cx (shutdown cx) × ((shutdown cx).fds_ ≡ pos 0)
unfolding shutdown
shutdown-Kept cx = ground (arith, is_zero-eq cx.fds_)

written-Writes :
    (l : ℤ) (now : ℕ) (cx : HostCx)
    → cx.write_waiting_for_peercom_ ≡ false
    → Writes cx (written l now cx) (pos_part l)
unfolding written
written-Writes (negsuc n) now cx h = ground arith
written-Writes (pos zero) now cx h = ground arith
written-Writes (pos (suc n)) now cx h =
    let c = count_write (suc n) now cx in
    let w = watch (suc n) c in
    ground (
      arith,
      watch-Kept (suc n) c,
      shutdown-Kept (record w { writebuf_ = flush_bytes (suc n) w.writebuf_ }),
    )

process-Kept : (cx : HostCx) → Kept cx (process all_out cx) × ((process all_out cx).fds_ ≡ cx.fds_)
unfolding process
process-Kept cx = ground arith

not_waiting :
    (cx : HostCx)
    → cx.write_waiting_for_peercom_ ≡ false
    → write_waiting_for_peercom cx ≡ (false, cx)
unfolding write_waiting_for_peercom
not_waiting cx h = ground arith

pub write-runs :
    (process_out : List ℕ → ℕ × List ℕ) (io_write : List ℕ → ℤ) (now : ℕ) (cx : HostCx)
    → cx.write_waiting_for_peercom_ ≡ false
    → (write process_out io_write now cx).1
      ≡ written (io_write (offered (process process_out cx))) now (process process_out cx)
unfolding write
write-runs process_out io_write now cx h = rw (not_waiting cx h) refl

write-Writes :
    (io_write : List ℕ → ℤ) (now : ℕ) (cx : HostCx)
    → cx.write_waiting_for_peercom_ ≡ false
    → Writes cx (write all_out io_write now cx).1 (pos_part (io_write cx.writebuf_.bytes))
write-Writes io_write now cx h =
    let c = process all_out cx in
    let (k, same) = process-Kept cx in
    let r = written-Writes (io_write cx.writebuf_.bytes) now c (k.waiting ∙ h) in
    let e : (write all_out io_write now cx).1 ≡ written (io_write cx.writebuf_.bytes) now c =
      write-runs all_out io_write now cx h
      ∙ ap (λ bs. written (io_write bs) now c) (offered-process cx) in
    subst (λ x. Writes cx x (pos_part (io_write cx.writebuf_.bytes))) (sym e)
      (record {
        bytes = r.bytes ∙ ap (λ b. drop (pos_part (io_write cx.writebuf_.bytes)) b.bytes) k.bytes;
        running = r.running;
        closes = r.closes ∙ k.closes;
        stays_shut = λ z. r.stays_shut (same ∙ z);
        shuts = λ t. r.shuts (k.closes ∙ t);
      })

stays_shut :
    (ios : List (List ℕ → ℤ)) (now : ℕ) (cx : HostCx)
    → cx.write_waiting_for_peercom_ ≡ false
    → cx.fds_ ≡ pos 0
    → (write_each ios now cx).fds_ ≡ pos 0
unfolding write_each
stays_shut [] now cx h z = z
stays_shut (io_write ∷ ios) now cx h z =
    let r = write-Writes io_write now cx h in
    stays_shut ios now (write all_out io_write now cx).1 r.running (r.stays_shut z)

-- Where each call of the Com takes at least one byte if it is offered any, a context that does not
-- wait for its peer and processes all bytes has an empty write buffer after as many calls of
-- `write` as there were bytes; and if it is to close after the write, and had bytes, its socket is
-- shut by then.
pub write_each_drains :
    (ios : List (List ℕ → ℤ)) (now : ℕ) (cx : HostCx)
    → cx.write_waiting_for_peercom_ ≡ false
    → All MakesProgress ios
    → length cx.writebuf_.bytes ≤ length ios
    → let cx' = write_each ios now cx in
      (cx'.writebuf_.bytes ≡ [])
      × (cx.close_after_write_ ≡ true → 0 < length cx.writebuf_.bytes → cx'.fds_ ≡ pos 0)
unfolding write_each
write_each_drains [] now cx h p le =
    (length_zero cx.writebuf_.bytes (omega arith), λ c lt. absurd (omega arith))
write_each_drains (io_write ∷ ios) now cx h (p, ps) le =
    let bs = cx.writebuf_.bytes in
    let r = write-Writes io_write now cx h in
    let cx' = (write all_out io_write now cx).1 in
    let n = pos_part (io_write bs) in
    let left : length cx'.writebuf_.bytes ≡ length bs - n = ap length r.bytes ∙ length-drop n bs in
    let (empty, shut) =
      write_each_drains ios now cx' r.running ps
        (elim (dec_lt 0 (length bs)) [ yes lt ↦ omega (arith, p bs lt) | no ge ↦ omega arith ]) in
    (
      empty,
      λ c lt. elim (dec_lt 0 (length cx'.writebuf_.bytes)) [
        | yes some_left ↦ shut (r.closes ∙ c) some_left
        | no last ↦ stays_shut ios now cx' r.running (r.shuts c (p bs lt) (omega arith))
      ],
    )
