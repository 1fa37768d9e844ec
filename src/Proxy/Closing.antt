-- ===== src/Proxy/Closing.antt =====
-- What a shutdown of a proxy does to its contexts.
use mathlib.Core.List.{append_assoc, append-nil}
use socle.Prelude.{
  ℕ, zero, suc, ◌≡◌, refl, sym, ap, ◌∙◌, subst, inl, inr, true, false, ◌||◌, none, List, [], ◌∷◌,
  ◌++◌, arith, ◌==◌, ==_iff, Bool-cases, ℤ, pos, negsuc, is_zero,
}
use socle.Epoll.Sets.{find}
use socle.HostCx.{HostCx, shutdown}
use socle.Proxy.{Context, BaseProxy, put_context, shutdown_cx}
use socle.Proxy.Sides.{
  drop_cx, shutdown_each, drop_each, left_shutdown, right_shutdown, shutdown_proxy, lsize, rsize,
}

abbrev pub left_contexts : BaseProxy → List ℕ
left_contexts p =
    p.left_bind_sockets ++ (p.left_sockets ++ (p.left_pc_cx ++ p.left_delayed_accepts))

abbrev pub right_contexts : BaseProxy → List ℕ
right_contexts p =
    p.right_bind_sockets ++ (p.right_sockets ++ (p.right_pc_cx ++ p.right_delayed_accepts))

abbrev shut_context : Context → Context
shut_context c = record c { cx = shutdown c.cx }

abbrev drop_context : Context → Context
drop_context c = record c { peer = none }

-- The contexts after a change of those behind some pointers.
abbrev changed : (Context → Context) → List ℕ → (ℕ → Context) → ℕ → Context
changed f [] cs = cs
changed f (i ∷ is) cs = changed f is (put_context i (f (cs i)) cs)

changed-append :
    (f : Context → Context) (is js : List ℕ) (cs : ℕ → Context)
    → changed f (is ++ js) cs ≡ changed f js (changed f is cs)
changed-append f [] js cs = refl
changed-append f (i ∷ is) js cs = changed-append f is js (put_context i (f (cs i)) cs)

shutdown_each-changed :
    (is : List ℕ) (p : BaseProxy)
    → shutdown_each is p ≡ record p { contexts = changed shut_context is p.contexts }
unfolding shutdown_each
shutdown_each-changed [] p = refl
shutdown_each-changed (i ∷ is) p = shutdown_each-changed is (shutdown_cx i p)

drop_each-changed :
    (is : List ℕ) (p : BaseProxy)
    → drop_each is p
      ≡ record p { contexts = changed drop_context is p.contexts; trashcan = p.trashcan ++ is }
unfolding drop_each drop_cx
drop_each-changed [] p = ap (λ ts. record p { trashcan = ts }) (sym (append-nil p.trashcan))
drop_each-changed (i ∷ is) p =
    drop_each-changed is (drop_cx i p)
    ∙ ap (λ ts. record p { contexts = changed drop_context (i ∷ is) p.contexts; trashcan = ts })
        (append_assoc p.trashcan (i ∷ []) is)

is_zero-pos : (s : ℤ) → is_zero s ≡ true → s ≡ pos 0
is_zero-pos (pos zero) h = refl
is_zero-pos (pos (suc n)) h = absurd (ground (arith, h))
is_zero-pos (negsuc n) h = absurd (ground (arith, h))

shutdown-fds : (h : HostCx) → (shutdown h).fds_ ≡ pos 0
unfolding shutdown
shutdown-fds h = elim (Bool-cases (is_zero h.fds_)) [
  | inl e ↦ rw e (is_zero-pos h.fds_ e)
  | inr e ↦ rw e refl
]

module _ (f : Context → Context) (Q : Context → Type 0) where
  put_context-holds :
      (i j : ℕ) (c : Context) (cs : ℕ → Context)
      → ((j == i) ≡ true → Q c)
      → ((j == i) ≡ false → Q (cs j))
      → Q (put_context i c cs j)
  unfolding put_context
  put_context-holds i j c cs same_place other = elim (Bool-cases (j == i)) [
    | inl e ↦ rw e (same_place e)
    | inr e ↦ rw e (other e)
  ]

  changed-kept :
      ((c : Context) → Q c → Q (f c))
      → (is : List ℕ) (j : ℕ) (cs : ℕ → Context) → Q (cs j)
      → Q (changed f is cs j)
  changed-kept keeps [] j cs q = q
  changed-kept keeps (i ∷ is) j cs q = changed-kept keeps is j (put_context i (f (cs i)) cs) (
      put_context-holds i j (f (cs i)) cs
        (λ e. keeps (cs i) (subst (λ k. Q (cs k)) ((==_iff j i).0 e) q)) (λ e. q))

  changed-holds :
      ((c : Context) → Q (f c))
      → (is : List ℕ) (j : ℕ) (cs : ℕ → Context) → find j is ≡ true
      → Q (changed f is cs j)
  unfolding find
  changed-holds holds [] j cs h = absurd (ground (arith, h))
  changed-holds holds (i ∷ is) j cs h = elim (Bool-cases (find j is)) [
    | inl e ↦ changed-holds holds is j (put_context i (f (cs i)) cs) e
    | inr e ↦
        changed-kept (λ c q. holds c) is j (put_context i (f (cs i)) cs)
          (put_context-holds i j (f (cs i)) cs (λ e'. holds (cs i))
            (λ e'. absurd (ground (arith, h, e, e'))))
  ]

changed-other :
    (f : Context → Context) (is : List ℕ) (j : ℕ) (cs : ℕ → Context)
    → find j is ≡ false
    → changed f is cs j ≡ cs j
unfolding find put_context
changed-other f [] j cs h = refl
changed-other f (i ∷ is) j cs h =
    changed-other f is j (put_context i (f (cs i)) cs) (ground (arith, h)) ∙ ground (arith, h)

abbrev closed_contexts : List ℕ → (ℕ → Context) → ℕ → Context
closed_contexts is cs = changed drop_context is (changed shut_context is cs)

left_shutdown-closed :
    (p : BaseProxy)
    → left_shutdown p ≡ record p {
      contexts = closed_contexts (left_contexts p) p.contexts;
      trashcan = p.trashcan ++ left_contexts p;
      left_bind_sockets = [];
      left_sockets = [];
      left_pc_cx = [];
      left_delayed_accepts = [];
    }
unfolding left_shutdown
left_shutdown-closed p =
    simp (shutdown_each-changed, drop_each-changed, changed-append, append_assoc)

right_shutdown-closed :
    (p : BaseProxy)
    → right_shutdown p ≡ record p {
      contexts = closed_contexts (right_contexts p) p.contexts;
      trashcan = p.trashcan ++ right_contexts p;
      right_bind_sockets = [];
      right_sockets = [];
      right_pc_cx = [];
      right_delayed_accepts = [];
    }
unfolding right_shutdown
right_shutdown-closed p =
    simp (shutdown_each-changed, drop_each-changed, changed-append, append_assoc)

abbrev pub IsClosed : Context → Type 0
IsClosed c = (c.cx.fds_ ≡ pos 0) × (c.peer ≡ none)

closed_contexts-IsClosed :
    (is : List ℕ) (i : ℕ) (cs : ℕ → Context) → find i is ≡ true → IsClosed (closed_contexts is cs i)
closed_contexts-IsClosed is i cs h = (
  changed-kept drop_context (λ c. c.cx.fds_ ≡ pos 0) (λ c q. q) is i (changed shut_context is cs)
      (changed-holds shut_context (λ c. c.cx.fds_ ≡ pos 0) (λ c. shutdown-fds c.cx) is i cs h),
  changed-holds drop_context (λ c. c.peer ≡ none) (λ c. refl) is i (changed shut_context is cs) h,
)

closed_contexts-kept :
    (is : List ℕ) (i : ℕ) (cs : ℕ → Context) → IsClosed (cs i) → IsClosed (closed_contexts is cs i)
closed_contexts-kept is i cs (fds, peer) = (
  changed-kept drop_context (λ c. c.cx.fds_ ≡ pos 0) (λ c q. q) is i (changed shut_context is cs)
      (changed-kept shut_context (λ c. c.cx.fds_ ≡ pos 0) (λ c q. shutdown-fds c.cx) is i cs fds),
  changed-kept drop_context (λ c. c.peer ≡ none) (λ c q. refl) is i (changed shut_context is cs)
      (changed-kept shut_context (λ c. c.peer ≡ none) (λ c q. q) is i cs peer),
)

find-append : (i : ℕ) (is js : List ℕ) → find i (is ++ js) ≡ (find i is || find i js)
unfolding find
find-append i [] js = refl
find-append i (k ∷ is) js = ground (arith, find-append i is js)

-- `shutdown` of a proxy puts the contexts of both sides in the trashcan, behind what is there, each
-- as often as the proxy has it, and leaves no context on a side; a context of the proxy then has no
-- socket and no peer.
pub shutdown_drops_all :
    (p : BaseProxy) (i : ℕ)
    → find i (left_contexts p ++ right_contexts p) ≡ true
    → let p' = shutdown_proxy p in
      (p'.trashcan ≡ p.trashcan ++ (left_contexts p ++ right_contexts p))
      × (lsize p' ≡ 0)
      × (rsize p' ≡ 0)
      × IsClosed (p'.contexts i)
unfolding lsize rsize
shutdown_drops_all p i h = rw (right_shutdown-closed (left_shutdown p)) (
    rw (left_shutdown-closed p) (
      append_assoc p.trashcan (left_contexts p) (right_contexts p),
      refl,
      refl,
      elim (Bool-cases (find i (right_contexts p))) [
        | inl e ↦
            closed_contexts-IsClosed (right_contexts p) i
              (closed_contexts (left_contexts p) p.contexts) e
        | inr e ↦
            closed_contexts-kept (right_contexts p) i (closed_contexts (left_contexts p) p.contexts)
              (closed_contexts-IsClosed (left_contexts p) i p.contexts
                (ground (arith, h, e, find-append i (left_contexts p) (right_contexts p))))
      ],
    ))
