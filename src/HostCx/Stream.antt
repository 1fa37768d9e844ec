-- ===== src/HostCx/Stream.antt =====
-- The stream of bytes that a host context writes: nothing is lost, doubled or put out of order,
-- however the Com takes the bytes.
use socle.Prelude.{
  ℕ, zero, suc, ◌≤◌, ◌≡◌, refl, ap, ◌∙◌, inl, inr, List, [], ◌∷◌, ◌++◌, arith, if◌then◌else◌,
  Bool-cases, length, take, drop, take-append-drop, ℤ, pos, negsuc, pos_part,
}
use socle.HostCx.{HostCx, flush_bytes, unhandle, shutdown}
use socle.HostCx.Io.{write_waiting_for_peercom}
use socle.HostCx.Out.{write, process, offered, watch, count_write, written}

-- The bytes that a call of `write` passes to the system.
-- The bytes that a call of `write` passes to the system.
unfoldable pub sent : (List ℕ → ℕ × List ℕ) → (List ℕ → ℤ) → HostCx → List ℕ
sent process_out io_write cx₀ =
    let (waiting, cx) = write_waiting_for_peercom cx₀ in
    let bs = offered (process process_out cx) in
    if waiting then [] else take (pos_part (io_write bs)) bs

-- A `process_out` that looks at the bytes only, and a Com that takes at most what it is offered.
abbrev pub Inspects : (List ℕ → ℕ × List ℕ) → Type 0
Inspects process_out = (bs : List ℕ) → (process_out bs).1 ≡ bs

abbrev pub IsHonest : (List ℕ → ℤ) → Type 0
IsHonest io_write = (bs : List ℕ) → pos_part (io_write bs) ≤ length bs

take-take {ℓ} :
    {A : Type ℓ} (n p : ℕ) (xs : List A) → n ≤ length (take p xs) → take n (take p xs) ≡ take n xs
take-take zero p xs h = refl
take-take (suc n) zero xs h = absurd (omega arith)
take-take (suc n) (suc p) [] h = refl
take-take (suc n) (suc p) (x ∷ xs) h = ap (◌∷◌ x) (take-take n p xs (omega arith))

pub process-bytes :
    (process_out : List ℕ → ℕ × List ℕ) (cx : HostCx)
    → Inspects process_out
    → (process process_out cx).writebuf_.bytes ≡ cx.writebuf_.bytes
unfolding process
process-bytes process_out cx h = ground (arith, h cx.writebuf_.bytes)

waiting-bytes : (cx : HostCx) → (write_waiting_for_peercom cx).1.writebuf_ ≡ cx.writebuf_
unfolding write_waiting_for_peercom
waiting-bytes cx = ground arith

shutdown-bytes : (cx : HostCx) → (shutdown cx).writebuf_ ≡ cx.writebuf_
unfolding shutdown unhandle
shutdown-bytes cx = ground arith

watch-bytes : (l : ℕ) (cx : HostCx) → (watch l cx).writebuf_ ≡ cx.writebuf_
unfolding watch
watch-bytes l cx = ground arith

pub written-bytes :
    (l : ℤ) (now : ℕ) (cx : HostCx)
    → (written l now cx).writebuf_.bytes ≡ drop (pos_part l) cx.writebuf_.bytes
unfolding written
written-bytes (negsuc n) now cx = refl
written-bytes (pos zero) now cx = ground arith
written-bytes (pos (suc n)) now cx =
    let c = count_write (suc n) now cx in
    let w = watch (suc n) c in
    ground (
      arith,
      watch-bytes (suc n) c,
      shutdown-bytes (record w { writebuf_ = flush_bytes (suc n) w.writebuf_ }),
    )

out-sent :
    (process_out : List ℕ → ℕ × List ℕ) (io_write : List ℕ → ℤ) (now : ℕ) (cx : HostCx)
    → Inspects process_out
    → IsHonest io_write
    → let c = process process_out cx in
      let l = io_write (offered c) in
      take (pos_part l) (offered c) ++ (written l now c).writebuf_.bytes ≡ cx.writebuf_.bytes
unfolding offered
out-sent process_out io_write now cx h honest =
    let c = process process_out cx in
    let l = io_write (offered c) in
    rw
      (
        written-bytes l now c,
        take-take (pos_part l) c.processed_out_ c.writebuf_.bytes (honest (offered c)),
        take-append-drop (pos_part l) c.writebuf_.bytes,
      )
      (process-bytes process_out cx h)

-- What goes out and what stays make up what was there.
pub write-sent :
    (process_out : List ℕ → ℕ × List ℕ) (io_write : List ℕ → ℤ) (now : ℕ) (cx : HostCx)
    → Inspects process_out
    → IsHonest io_write
    → sent process_out io_write cx ++ (write process_out io_write now cx).1.writebuf_.bytes
      ≡ cx.writebuf_.bytes
unfolding write sent
write-sent process_out io_write now cx h honest =
    elim (Bool-cases (write_waiting_for_peercom cx).0) [
      | inl e ↦ rw e (ap (λ b. b.bytes) (waiting-bytes cx))
      | inr e ↦ rw e (
          out-sent process_out io_write now (write_waiting_for_peercom cx).1 h honest
          ∙ ap (λ b. b.bytes) (waiting-bytes cx))
    ]
