-- ===== src/HostCx/Runs.antt =====
-- Any sequence of calls on a host context, and the bytes that its socket carries.
use mathlib.Core.List.{append_assoc, append-nil}
use socle.Prelude.{
  ℕ, ◌≡◌, refl, ap, ◌∙◌, inl, inr, Bool, Option, none, some, List, [], ◌∷◌, ◌++◌, arith, ◌==◌,
  if◌then◌else◌, Bool-cases, length_zero, ℤ,
}
use socle.HostCx.{ByteBuffer, Peer, HostCx, size}
use socle.HostCx.Io.{
  read, read_waiting_for_peercom, finish, max_bytes_left, grow_buffer, after_read, read_received,
  to_write, to_write_buffer,
}
use socle.HostCx.Out.{write}
use socle.HostCx.Stream.{sent, Inspects, IsHonest, write-sent}

-- The calls of its owner and of the event loop. The peer and what `waiting_for_peercom` says may
-- change at any time.
pub data Event : Type 0 where
  to_writes : List ℕ → Event
  moves : ByteBuffer → Event
  writes : (List ℕ → ℤ) → ℕ → Event
  reads : (List ℕ → ℕ) → (ℕ → Option (List ℕ)) → ℕ → Event
  finishes : Event
  peers : Option Peer → Event
  waits : Bool → Event
  closes_after_write : Bool → Event

module _ (room : ℕ → ℕ) (process_out : List ℕ → ℕ × List ℕ) where
  -- The context after a call, and the bytes that went out so far.
  unfoldable pub step : HostCx × List ℕ → Event → HostCx × List ℕ
  step (cx, wire) (to_writes bs) = (to_write room bs cx, wire)
  step (cx, wire) (moves b) = ((to_write_buffer room b cx).1, wire)
  step (cx, wire) (writes io_write now) =
      ((write process_out io_write now cx).1, wire ++ sent process_out io_write cx)
  step (cx, wire) (reads process_in io_read now) = ((read room process_in io_read now cx).1, wire)
  step (cx, wire) finishes = ((finish cx).1, wire)
  step (cx, wire) (peers p) = (record cx { peer_ = p }, wire)
  step (cx, wire) (waits b) =
      (record cx { read_waiting_for_peercom_ = b; write_waiting_for_peercom_ = b }, wire)
  step (cx, wire) (closes_after_write b) = (record cx { close_after_write_ = b }, wire)

  unfoldable pub run : HostCx × List ℕ → List Event → HostCx × List ℕ
  run s [] = s
  run s (e ∷ es) = run (step s e) es

-- What the owner wrote.
abbrev pub appended_by : Event → List ℕ
appended_by (to_writes bs) = bs
appended_by (moves b) = b.bytes
appended_by e = []

abbrev pub appended : List Event → List ℕ
appended [] = []
appended (e ∷ es) = appended_by e ++ appended es

abbrev pub AreHonest : List Event → Type 0
AreHonest [] = Unit
AreHonest (writes io_write now ∷ es) = IsHonest io_write × AreHonest es
AreHonest (e ∷ es) = AreHonest es

AreHonest-split :
    (e : Event) (es : List Event) → AreHonest (e ∷ es) → AreHonest (e ∷ []) × AreHonest es
AreHonest-split (to_writes bs) es h = (tt, h)
AreHonest-split (moves b) es h = (tt, h)
AreHonest-split (writes io_write now) es h = ((h.0, tt), h.1)
AreHonest-split (reads process_in io_read now) es h = (tt, h)
AreHonest-split finishes es h = (tt, h)
AreHonest-split (peers p) es h = (tt, h)
AreHonest-split (waits b) es h = (tt, h)
AreHonest-split (closes_after_write b) es h = (tt, h)

module _ (room : ℕ → ℕ) where
  to_write_buffer-bytes :
      (b : ByteBuffer) (cx : HostCx)
      → (to_write_buffer room b cx).1.writebuf_.bytes ≡ cx.writebuf_.bytes ++ b.bytes
  unfolding to_write_buffer
  to_write_buffer-bytes b cx = elim (Bool-cases (size cx.writebuf_ == 0)) [
    | inl e ↦ ground (arith, length_zero cx.writebuf_.bytes)
    | inr e ↦ rw e refl
  ]

  read_waiting-writebuf : (cx : HostCx) → (read_waiting_for_peercom cx).1.writebuf_ ≡ cx.writebuf_
  unfolding read_waiting_for_peercom
  read_waiting-writebuf cx = ground arith

  finish-writebuf : (cx : HostCx) → (finish cx).1.writebuf_ ≡ cx.writebuf_
  unfolding finish
  finish-writebuf cx = ground arith

  received-writebuf :
      (process_in : List ℕ → ℕ) (got : Option (List ℕ)) (now : ℕ) (cx : HostCx)
      → (read_received room process_in got now cx).1.writebuf_ ≡ cx.writebuf_
  unfolding read_received grow_buffer after_read
  received-writebuf process_in none now cx = refl
  received-writebuf process_in (some []) now cx = refl
  received-writebuf process_in (some (x ∷ xs)) now cx = ground arith

  pub read-writebuf :
      (process_in : List ℕ → ℕ) (io_read : ℕ → Option (List ℕ)) (now : ℕ) (cx : HostCx)
      → (read room process_in io_read now cx).1.writebuf_ ≡ cx.writebuf_
  unfolding read
  read-writebuf process_in io_read now cx =
      let w = (read_waiting_for_peercom cx).1 in
      let c = if w.auto_finish_ then (finish w).1 else w in
      ground (
        arith,
        read_waiting-writebuf cx,
        finish-writebuf w,
        received-writebuf process_in (io_read (max_bytes_left c)) now c,
      )

  step-bytes :
      (process_out : List ℕ → ℕ × List ℕ) (cx : HostCx) (wire : List ℕ) (e : Event)
      → Inspects process_out
      → AreHonest (e ∷ [])
      → let (cx', wire') = step room process_out (cx, wire) e in
        wire' ++ cx'.writebuf_.bytes ≡ wire ++ cx.writebuf_.bytes ++ appended_by e
  unfolding step to_write
  step-bytes process_out cx wire (to_writes bs) i h = simp append_assoc
  step-bytes process_out cx wire (moves b) i h = simp (append_assoc, to_write_buffer-bytes b cx)
  step-bytes process_out cx wire (writes io_write now) i h =
      simp (append_assoc, append-nil, write-sent process_out io_write now cx i h.0)
  step-bytes process_out cx wire (reads process_in io_read now) i h =
      rw (read-writebuf process_in io_read now cx) (simp append-nil)
  step-bytes process_out cx wire finishes i h = rw (finish-writebuf cx) (simp append-nil)
  step-bytes process_out cx wire (peers p) i h = simp append-nil
  step-bytes process_out cx wire (waits b) i h = simp append-nil
  step-bytes process_out cx wire (closes_after_write b) i h = simp append-nil

  -- Over any sequence of calls on a host context, where `process_out` looks at the bytes only and
  -- the Com never takes more than it is offered, the bytes that went out and those that wait in the
  -- write buffer are the bytes that waited before and those that the calls added, in their order.
  pub run_in_order :
      (process_out : List ℕ → ℕ × List ℕ) (cx : HostCx) (wire : List ℕ) (es : List Event)
      → Inspects process_out
      → AreHonest es
      → let (cx', wire') = run room process_out (cx, wire) es in
        wire' ++ cx'.writebuf_.bytes ≡ wire ++ cx.writebuf_.bytes ++ appended es
  unfolding run
  run_in_order process_out cx wire [] i h = simp append-nil
  run_in_order process_out cx wire (e ∷ es) i h =
      let (cx', wire') = step room process_out (cx, wire) e in
      let (first, rest) = AreHonest-split e es h in
      run_in_order process_out cx' wire' es i rest
      ∙ ap (λ bs. bs ++ appended es) (step-bytes process_out cx wire e i first)
      ∙ simp append_assoc
