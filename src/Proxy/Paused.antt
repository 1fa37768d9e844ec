-- ===== src/Proxy/Paused.antt =====
-- A side reads nothing while the other side has a bottleneck.
use socle.Prelude.{
  ℕ, ◌≡◌, refl, sym, ap, ◌∙◌, inl, inr, Bool, true, false, List, [], ◌∷◌, arith, ◌==◌,
  if◌then◌else◌, ==_iff, Bool-cases, same, ℤ, is_zero,
}
use socle.HostCx.{HostCx, opening, opening_timeout, idle_timeout, connect, shutdown, reconnect}
use socle.HostCx.Io.{read_waiting_for_peercom}
use socle.Proxy.{
  CxSide, left, right, left_pc, right_pc, Outside, on_error, on_message, BaseProxy, tell, at, live,
  has_error, put_context, set_cx, shutdown_cx, is_left, reconnect_cx, error_hook,
}
use socle.Proxy.Handlers.{
  with_hook, errored, dont_read, failed_cx, handle_cx_events, read_part, handle_cx_read_once,
}
use socle.Proxy.Rounds.{each_cx}

-- Nothing was read, and the bottlenecks are the same.
abbrev pub ReadsNothing : BaseProxy → BaseProxy → Type 0
ReadsNothing p q =
    ((j : ℕ) → (at q j).readbuf_ ≡ (at p j).readbuf_)
    × (q.last_read ≡ p.last_read)
    × (q.write_left_neck_ ≡ p.write_left_neck_)
    × (q.write_right_neck_ ≡ p.write_right_neck_)

ReadsNothing-trans : (p q r : BaseProxy) → ReadsNothing p q → ReadsNothing q r → ReadsNothing p r
ReadsNothing-trans p q r (a, b, c, d) (a', b', c', d') = (λ j. a' j ∙ a j, b' ∙ b, c' ∙ c, d' ∙ d)

-- the same, of both branches of a test
if-ReadsNothing :
    (b : Bool) (p : BaseProxy) (q r : Bool × BaseProxy)
    → ReadsNothing p q.1
    → ReadsNothing p r.1
    → ReadsNothing p (if b then q else r).1
if-ReadsNothing true p q r x y = x
if-ReadsNothing false p q r x y = y

set_cx-ReadsNothing :
    (i : ℕ) (h : HostCx) (p : BaseProxy)
    → h.readbuf_ ≡ (at p i).readbuf_
    → ReadsNothing p (set_cx i h p)
unfolding put_context
set_cx-ReadsNothing i h p same =
    let c = record (p.contexts i) { cx = h } in
    let of_test = λ (j : ℕ) (b : Bool). (if b then c else p.contexts j).cx.readbuf_ in
    (
      λ j. elim (Bool-cases (j == i)) [
        | inl e ↦ ap (of_test j) e ∙ same ∙ ap (λ k. (at p k).readbuf_) (sym ((==_iff j i).0 e))
        | inr e ↦ ap (of_test j) e
      ],
      refl,
      refl,
      refl,
    )

shutdown-readbuf : (h : HostCx) → (shutdown h).readbuf_ ≡ h.readbuf_
unfolding shutdown
shutdown-readbuf h = elim (Bool-cases (is_zero h.fds_)) [ inl e ↦ rw e refl | inr e ↦ rw e refl ]

connect-readbuf :
    (fd : ℤ) (blocking : Bool) (now : ℕ) (h : HostCx)
    → (connect fd blocking now h).1.readbuf_ ≡ h.readbuf_
unfolding connect opening
connect-readbuf fd true now h = refl
connect-readbuf fd false now h = refl

reconnect-readbuf :
    (fd : ℤ) (blocking : Bool) (now : ℕ) (h : HostCx)
    → (reconnect fd blocking now h).1.readbuf_ ≡ h.readbuf_
unfolding reconnect
reconnect-readbuf fd blocking now h =
    ground (arith, connect-readbuf fd blocking now (shutdown h), shutdown-readbuf h)

waiting-readbuf : (h : HostCx) → (read_waiting_for_peercom h).1.readbuf_ ≡ h.readbuf_
unfolding read_waiting_for_peercom
waiting-readbuf h = ground arith

module _ (w : Outside) where
  reconnect_cx-ReadsNothing : (i : ℕ) (p : BaseProxy) → ReadsNothing p (reconnect_cx w i p)
  reconnect_cx-ReadsNothing i p =
      let h = (reconnect (w.answers i).connect_fd w.blocking w.now (at p i)).1 in
      set_cx-ReadsNothing i h p
        (reconnect-readbuf (w.answers i).connect_fd w.blocking w.now (at p i))

  error_hook-ReadsNothing :
      (side : CxSide) (i : ℕ) (p : BaseProxy) → ReadsNothing p (error_hook w side i p)
  unfolding error_hook
  error_hook-ReadsNothing left i p = (λ j. refl, refl, refl, refl)
  error_hook-ReadsNothing right i p = (λ j. refl, refl, refl, refl)
  error_hook-ReadsNothing left_pc i p =
      let p' = tell (on_error left_pc i) p in
      let change = reconnect_cx-ReadsNothing i p' in
      elim (at p' i).opening_ as (λ b. ReadsNothing p (if b then p' else reconnect_cx w i p')) [
        | true ↦ (λ j. refl, refl, refl, refl)
        | false ↦ change
      ]
  error_hook-ReadsNothing right_pc i p = reconnect_cx-ReadsNothing i (tell (on_error right_pc i) p)

  failed_cx-ReadsNothing :
      (side : CxSide) (i : ℕ) (p : BaseProxy) → ReadsNothing p (failed_cx w side i p).1
  failed_cx-ReadsNothing side i p =
      let q = error_hook w side i p in
      ReadsNothing-trans p q (shutdown_cx i q) (error_hook-ReadsNothing side i p)
        (set_cx-ReadsNothing i (shutdown (at q i)) q (shutdown-readbuf (at q i)))

  handle_cx_events-ReadsNothing :
      (side : CxSide) (i : ℕ) (p : BaseProxy) → ReadsNothing p (handle_cx_events w side i p).1
  unfolding handle_cx_events
  handle_cx_events-ReadsNothing side i p =
      let failed = failed_cx w side i p in
      let told : Bool × BaseProxy = (false, tell (on_message (with_hook side) i) p) in
      let same : Bool × BaseProxy = (true, p) in
      let keeps = failed_cx-ReadsNothing side i p in
      let last = if (w.answers i).new_message then told else same in
      let errors = if has_error w i p then failed else last in
      let idles = if idle_timeout (at p i) w.now then failed else errors in
      if-ReadsNothing (opening_timeout (at p i) w.now) p failed idles keeps (
        if-ReadsNothing (idle_timeout (at p i) w.now) p failed errors keeps (
          if-ReadsNothing (has_error w i p) p failed last keeps (
            if-ReadsNothing (w.answers i).new_message p told same (λ j. refl, refl, refl, refl)
              (λ j. refl, refl, refl, refl))))

  read_part-ReadsNothing :
      (side : CxSide) (i : ℕ) (p : BaseProxy)
      → dont_read side p ≡ true
      → ReadsNothing p (read_part w side i p).1
  unfolding read_part
  read_part-ReadsNothing side i p neck =
      let h = (read_waiting_for_peercom (live w p i)).1 in
      let change = set_cx-ReadsNothing i h p (waiting-readbuf (live w p i)) in
      elim (Bool-cases (read_waiting_for_peercom (live w p i)).0) [
        | inl e ↦ rw e change
        | inr e ↦ rw (e, neck) change
      ]

  read_once-ReadsNothing :
      (side : CxSide) (i : ℕ) (p : BaseProxy)
      → dont_read side p ≡ true
      → ReadsNothing p (handle_cx_read_once w side i p).1
  unfolding handle_cx_read_once
  read_once-ReadsNothing side i p neck =
      let failed : Bool × BaseProxy = (false, errored i p) in
      let part = read_part w side i p in
      let first = if is_zero (at p i).fds_ then failed else part in
      ReadsNothing-trans p first.1 (handle_cx_events w side i first.1).1
        (if-ReadsNothing (is_zero (at p i).fds_) p failed part
          (set_cx-ReadsNothing i (record (at p i) { error_ = true }) p refl)
          (read_part-ReadsNothing side i p neck))
        (handle_cx_events-ReadsNothing side i first.1)

  dont_read-kept :
      (side : CxSide) (p q : BaseProxy) → ReadsNothing p q → dont_read side q ≡ dont_read side p
  dont_read-kept left p q (buffers, red, lefts, rights) = rights
  dont_read-kept right p q (buffers, red, lefts, rights) = lefts
  dont_read-kept left_pc p q (buffers, red, lefts, rights) = rights
  dont_read-kept right_pc p q (buffers, red, lefts, rights) = lefts

  each-ReadsNothing :
      (side : CxSide) (is : List ℕ) (p : BaseProxy)
      → dont_read side p ≡ true
      → ReadsNothing p (each_cx (handle_cx_read_once w side) is p)
  unfolding each_cx
  each-ReadsNothing side [] p neck = (λ j. refl, refl, refl, refl)
  each-ReadsNothing side (i ∷ is) p neck =
      let (ok, p') = handle_cx_read_once w side i p in
      let rest = each_cx (handle_cx_read_once w side) is p' in
      let first = read_once-ReadsNothing side i p neck in
      let next = each-ReadsNothing side is p' (dont_read-kept side p p' first ∙ neck) in
      elim ok as (λ b. ReadsNothing p (if b then rest else p')) [
        | true ↦ ReadsNothing-trans p p' rest first next
        | false ↦ first
      ]

  -- The loop that reads the sockets of a side, while the other side has a bottleneck: no byte comes
  -- into the read buffer of any context, whatever the sockets have, the count of bytes read does not
  -- change, and the bottlenecks of both sides are as they were. The loops that write are not part of
  -- this.
  pub reads_paused :
      (side : CxSide) (is : List ℕ) (p : BaseProxy) (j : ℕ)
      → (if is_left side then p.write_right_neck_ else p.write_left_neck_) ≡ true
      → let q = each_cx (handle_cx_read_once w side) is p in
        ((at q j).readbuf_ ≡ (at p j).readbuf_)
        × (q.last_read ≡ p.last_read)
        × (q.write_left_neck_ ≡ p.write_left_neck_)
        × (q.write_right_neck_ ≡ p.write_right_neck_)
  reads_paused side is p j neck =
      let (buffers, red, lefts, rights) = each-ReadsNothing side is p neck in
      (buffers j, red, lefts, rights)
