-- ===== src/Proxy/Delayed.antt =====
-- Which of the delayed contexts a round accepts.
use mathlib.Core.List.{append_assoc, append-nil}
use socle.Prelude.{
  ℕ, ◌≡◌, refl, sym, ap, ◌∙◌, inl, inr, Bool, true, false, not, ◌&&◌, Option, none, some, List, [],
  ◌∷◌, ◌++◌, arith, ◌==◌, if◌then◌else◌, ==_iff, Bool-cases, same, ℤ,
}
use socle.HostCx.{HostCx, reduced}
use socle.HostCx.Io.{read_waiting_for_peercom}
use socle.Proxy.{
  Context, Outside, cx_accept_socket, BaseProxy, tell, at, peer_of, live, put_context, set_cx,
}
use socle.Proxy.Rounds.{on_accept_socket, accepted, accept_from}
use socle.Proxy.Sides.{ladd}

-- Does the context wait for its peer?
abbrev pub waits_for_peer : Outside → BaseProxy → ℕ → Bool
waits_for_peer w p i = (read_waiting_for_peercom (live w p i)).0

-- Is there a peer, and is its Com ready?
abbrev peer_ready : Outside → Option ℕ → Bool
peer_ready w none = false
peer_ready w (some k) = (w.answers k).com_status

-- the elements that pass a test, in their order
unfoldable pub kept_if : (ℕ → Bool) → List ℕ → List ℕ
kept_if test [] = []
kept_if test (i ∷ is) = let rest = kept_if test is in if test i then i ∷ rest else rest

-- what a context that waits with the flag does, for a peer
abbrev waits_with : Outside → Bool → Option ℕ → Bool
waits_with w flag m = flag && not (peer_ready w m)

waits-flag :
    (w : Outside) (p : BaseProxy) (h : HostCx) (m : Option ℕ)
    → let (waiting, h') = read_waiting_for_peercom (record h { peer_ = peer_of w p m }) in
      (waiting ≡ waits_with w h.read_waiting_for_peercom_ m)
      × (waits_with w h'.read_waiting_for_peercom_ m ≡ waits_with w h.read_waiting_for_peercom_ m)
unfolding read_waiting_for_peercom
waits-flag w p h none = ground arith
waits-flag w p h (some k) = ground arith

kept_if-cong : (f g : ℕ → Bool) (is : List ℕ) → ((i : ℕ) → f i ≡ g i) → kept_if f is ≡ kept_if g is
unfolding kept_if
kept_if-cong f g [] e = refl
kept_if-cong f g (i ∷ is) e = rw (e i, kept_if-cong f g is e) refl

module _ (w : Outside) where
  waits_by :
      (p : BaseProxy) (i : ℕ)
      → waits_for_peer w p i ≡ waits_with w (at p i).read_waiting_for_peercom_ (p.contexts i).peer
  waits_by p i = (waits-flag w p (at p i) (p.contexts i).peer).0

  set_cx-waits :
      (i j : ℕ) (h : HostCx) (p : BaseProxy)
      → waits_with w h.read_waiting_for_peercom_ (p.contexts i).peer
        ≡ waits_with w (at p i).read_waiting_for_peercom_ (p.contexts i).peer
      → waits_for_peer w (set_cx i h p) j ≡ waits_for_peer w p j
  unfolding put_context
  set_cx-waits i j h p same =
      let c = record (p.contexts i) { cx = h } in
      let of_context = λ (x : Context). waits_with w x.cx.read_waiting_for_peercom_ x.peer in
      let of_test = λ (b : Bool). of_context (if b then c else p.contexts j) in
      waits_by (set_cx i h p) j
      ∙ elim (Bool-cases (j == i)) [
        | inl e ↦ ap of_test e ∙ same ∙ ap (λ k. of_context (p.contexts k)) (sym ((==_iff j i).0 e))
        | inr e ↦ ap of_test e
      ]
      ∙ sym (waits_by p j)

  on_accept_socket-keeps :
      (i j : ℕ) (s : ℤ) (p : BaseProxy)
      → ((on_accept_socket w i s p).left_sockets ≡ p.left_sockets)
        × (waits_for_peer w (on_accept_socket w i s p) j ≡ waits_for_peer w p j)
  unfolding on_accept_socket
  on_accept_socket-keeps i j s p =
      let (h, q) = (w.answers i).resolved_src in
      let p' = tell (cx_accept_socket i s) p in
      elim (Bool-cases (reduced (at p i))) [
        | inl e ↦ rw e (refl, set_cx-waits i j (record (at p i) { host_ = h; port_ = q }) p' refl)
        | inr e ↦ rw e (refl, refl)
      ]

  ladd-waits : (i j : ℕ) (p : BaseProxy) → waits_for_peer w (ladd w i p) j ≡ waits_for_peer w p j
  unfolding ladd
  ladd-waits i j p = set_cx-waits i j (record (at p i) { has_parent_proxy = true }) p refl

  accepted-sockets :
      (i : ℕ) (p : BaseProxy)
      → let (done, p') = accepted w (ladd w) i p in
        (done ≡ not (waits_for_peer w p i))
        × (p'.left_sockets
            ≡ (if waits_for_peer w p i then p.left_sockets else p.left_sockets ++ i ∷ []))
  unfolding accepted ladd
  accepted-sockets i p =
      let p₁ = set_cx i (read_waiting_for_peercom (live w p i)).1 p in
      elim (Bool-cases (waits_for_peer w p i)) [
        | inl e ↦ rw e (refl, refl)
        | inr e ↦
            rw e (refl, ap (λ is. is ++ i ∷ []) (on_accept_socket-keeps i i (at p₁ i).fds_ p₁).0)
      ]

  accepted-waits :
      (i j : ℕ) (p : BaseProxy)
      → waits_for_peer w (accepted w (ladd w) i p).1 j ≡ waits_for_peer w p j
  unfolding accepted
  accepted-waits i j p =
      let p₁ = set_cx i (read_waiting_for_peercom (live w p i)).1 p in
      let same =
        set_cx-waits i j (read_waiting_for_peercom (live w p i)).1 p
          (waits-flag w p (at p i) (p.contexts i).peer).1 in
      elim (Bool-cases (waits_for_peer w p i)) [
        | inl e ↦ rw e same
        | inr e ↦ rw e (
            ladd-waits i j (on_accept_socket w i (at p₁ i).fds_ p₁)
            ∙ (on_accept_socket-keeps i j (at p₁ i).fds_ p₁).1
            ∙ same)
      ]

  -- The delayed contexts of the left side that do not wait for their peer any more are added to its
  -- sockets, behind those that it has, and the others stay delayed, both in their order.
  pub delayed_accepted :
      (is : List ℕ) (p : BaseProxy)
      → let (rest, p') = accept_from w (ladd w) is p in
        (rest ≡ kept_if (waits_for_peer w p) is)
        × (p'.left_sockets ≡ p.left_sockets ++ kept_if (λ i. not (waits_for_peer w p i)) is)
  unfolding accept_from kept_if
  delayed_accepted [] p = (refl, sym (append-nil p.left_sockets))
  delayed_accepted (i ∷ is) p =
      let p₁ = (accepted w (ladd w) i p).1 in
      let (done, sockets) = accepted-sockets i p in
      let (rest, more_sockets) = delayed_accepted is p₁ in
      let waiting =
        kept_if-cong (waits_for_peer w p₁) (waits_for_peer w p) is (λ j. accepted-waits i j p) in
      let ready =
        kept_if-cong (λ j. not (waits_for_peer w p₁ j)) (λ j. not (waits_for_peer w p j)) is
          (λ j. ap not (accepted-waits i j p)) in
      elim (Bool-cases (waits_for_peer w p i)) [
        | inl e ↦
            rw (done, e)
              (
                ap (◌∷◌ i) (rest ∙ waiting),
                more_sockets
                    ∙ ap (λ is. p₁.left_sockets ++ is) ready
                    ∙ ap (λ ss. ss ++ kept_if (λ j. not (waits_for_peer w p j)) is)
                        (sockets
                          ∙ ap (λ b. if b then p.left_sockets else p.left_sockets ++ i ∷ []) e),
              )
        | inr e ↦
            rw (done, e)
              (
                rest ∙ waiting,
                more_sockets
                    ∙ ap (λ is. p₁.left_sockets ++ is) ready
                    ∙ ap (λ ss. ss ++ kept_if (λ j. not (waits_for_peer w p j)) is)
                        (sockets
                          ∙ ap (λ b. if b then p.left_sockets else p.left_sockets ++ i ∷ []) e)
                    ∙ append_assoc p.left_sockets (i ∷ [])
                        (kept_if (λ j. not (waits_for_peer w p j)) is),
              )
      ]
