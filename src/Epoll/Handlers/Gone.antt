-- ===== src/Epoll/Handlers/Gone.antt =====
-- A handler that was destroyed is no handler any more, if it was only ever set in one epoller.
use socle.Prelude.{
  ℕ, ◌≡◌, refl, sym, ap, ◌∙◌, subst, ◌≢◌, inl, inr, true, false, Option, none, some, List, [], ◌∷◌,
  arith, ◌==◌, if◌then◌else◌, ==_iff, Bool-cases, Option-cases, nat_key, same, find_key, store,
  find_key-store, find_key-erase_key,
}
use socle.Epoll.Handlers.{
  update, Registry, get_handler, clear_handler, is_other, set_handler, is_handler, clear_each,
  destroy_handler,
}
use socle.Epoll.Sets.{find, insert, find-insert}

-- The calls on an epoller.
pub data Call : Type 0 where
  sets : ℕ → ℕ → Call
  clears : ℕ → Call
  destroys : ℕ → Call

unfoldable pub serve : ℕ → Registry → Call → Registry
serve p r (sets s h) = set_handler r p s (some h)
serve p r (clears s) = set_handler r p s none
serve p r (destroys h) = destroy_handler r h

unfoldable pub serve_all : ℕ → Registry → List Call → Registry
serve_all p r [] = r
serve_all p r (c ∷ cs) = serve_all p (serve p r c) cs

abbrev pub empty : Registry
empty = record {
  poller = λ p. none;
  handler_db = λ p. [];
  registrant = λ h. none;
  registered_sockets = λ h. [];
}

-- Each handler of `p` knows `p` and its socket, and no handler knows another epoller.
record IsTracked (p : ℕ) (r : Registry) : Type 0 where
  knows : (s h : ℕ) → get_handler r p s ≡ some h → find s (r.registered_sockets h) ≡ true
  registered : (s h : ℕ) → get_handler r p s ≡ some h → r.registrant h ≡ some p
  only : (h q : ℕ) → r.registrant h ≡ some q → q ≡ p

clear_handler-get :
    (r : Registry) (p s t : ℕ)
    → get_handler (clear_handler r p s) p t ≡ (if same t s then none else get_handler r p t)
unfolding clear_handler
clear_handler-get r p s t = ground (arith, find_key-erase_key t s (r.handler_db p))

clear_handler-IsTracked :
    (r : Registry) (p s : ℕ) → IsTracked p r → IsTracked p (clear_handler r p s)
unfolding clear_handler
clear_handler-IsTracked r p s t = record {
  knows = λ u h e. t.knows u h (ground (arith, clear_handler-get r p s u));
  registered = λ u h e. t.registered u h (ground (arith, clear_handler-get r p s u));
  only = t.only;
}

not_other : (p : ℕ) (o : Option ℕ) → ((q : ℕ) → o ≡ some q → q ≡ p) → is_other p o ≡ false
not_other p none h = refl
not_other p (some q) h = ground (arith, h q refl)

set_handler-fields :
    (r : Registry) (p s h : ℕ)
    → IsTracked p r
    → let r' = set_handler r p s (some h) in
      (r'.handler_db p ≡ store s h (r.handler_db p))
      × (r'.registrant ≡ update r.registrant h (some p))
      × (r'.registered_sockets ≡ update r.registered_sockets h (insert s (r.registered_sockets h)))
unfolding set_handler
set_handler-fields r p s h t =
    let other = not_other p (r.registrant h) (t.only h) in (ground (arith, other), refl, refl)

set-IsTracked :
    (r : Registry) (p s h : ℕ) → IsTracked p r → IsTracked p (set_handler r p s (some h))
set-IsTracked r p s h t =
    let (db, reg, socks) = set_handler-fields r p s h t in
    let r' = set_handler r p s (some h) in
    let got : (u : ℕ) → get_handler r' p u ≡ (if same u s then some h else get_handler r p u) =
      λ u. ap (find_key u) db ∙ find_key-store u s h (r.handler_db p) in
    record {
      knows = λ u g e. ground (
        arith,
        got u,
        e,
        ap (λ f. find u (f g)) socks,
        find-insert u s (r.registered_sockets h),
        t.knows u g,
      );
      registered = λ u g e. ground (arith, got u, e, ap (λ f. f g) reg, t.registered u g);
      only = λ g q e. ground (arith, ap (λ f. f g) reg, e, t.only g q);
    }

module _ (p h : ℕ) where
  -- One round of the loop.
  abbrev cleared : Registry → ℕ → Registry
  cleared r s = if is_handler h (get_handler r p s) then clear_handler r p s else r

  cleared-get :
      (r : Registry) (s u g : ℕ)
      → get_handler (cleared r s) p u ≡ some g
      → get_handler r p u ≡ some g
  cleared-get r s u g e = ground (arith, e, clear_handler-get r p s u)

  cleared-gone : (r : Registry) (s : ℕ) → get_handler (cleared r s) p s ≢ some h
  cleared-gone r s e = ground (arith, e, clear_handler-get r p s s)

  clear_each-get :
      (ss : List ℕ) (r : Registry) (u g : ℕ)
      → get_handler (clear_each r p h ss) p u ≡ some g
      → get_handler r p u ≡ some g
  unfolding clear_each
  clear_each-get [] r u g e = e
  clear_each-get (s ∷ ss) r u g e = cleared-get r s u g (clear_each-get ss (cleared r s) u g e)

  -- The loop clears the sockets whose handler is `h`.
  clear_each-gone :
      (ss : List ℕ) (r : Registry) (u : ℕ)
      → get_handler (clear_each r p h ss) p u ≡ some h
      → find u ss ≡ false
  unfolding clear_each find
  clear_each-gone [] r u e = refl
  clear_each-gone (s ∷ ss) r u e =
      let rest = clear_each-gone ss (cleared r s) u e in
      let still = clear_each-get ss (cleared r s) u h e in
      elim (Bool-cases (u == s)) [
        | inl eq ↦ absurd (
            cleared-gone r s
              (subst (λ v. get_handler (cleared r s) p v ≡ some h) ((==_iff u s).0 eq) still))
        | inr ne ↦ rw (ne, rest) refl
      ]

  clear_each-IsTracked :
      (ss : List ℕ) (r : Registry) → IsTracked p r → IsTracked p (clear_each r p h ss)
  unfolding clear_each
  clear_each-IsTracked [] r t = t
  clear_each-IsTracked (s ∷ ss) r t =
      clear_each-IsTracked ss (cleared r s) (elim (Bool-cases (is_handler h (get_handler r p s))) [
        | inl e ↦ rw e (clear_handler-IsTracked r p s t)
        | inr e ↦ rw e t
      ])

destroy_handler-runs :
    (r : Registry) (h p : ℕ)
    → r.registrant h ≡ some p
    → destroy_handler r h ≡ clear_each r p h (r.registered_sockets h)
unfolding destroy_handler
destroy_handler-runs r h p e = rw (e, destroy_handler) refl

destroy_handler-none : (r : Registry) (h : ℕ) → r.registrant h ≡ none → destroy_handler r h ≡ r
unfolding destroy_handler
destroy_handler-none r h e = rw (e, destroy_handler) refl

destroy_handler-IsTracked :
    (r : Registry) (p h : ℕ) → IsTracked p r → IsTracked p (destroy_handler r h)
destroy_handler-IsTracked r p h t = elim (Option-cases (r.registrant h)) [
  | inl e ↦ rw (destroy_handler-none r h e) t
  | inr (q, e) ↦
      let e' : r.registrant h ≡ some p = e ∙ ap some (t.only h q e) in
      rw (destroy_handler-runs r h p e') (clear_each-IsTracked p h (r.registered_sockets h) r t)
]

serve-IsTracked : (p : ℕ) (r : Registry) (c : Call) → IsTracked p r → IsTracked p (serve p r c)
unfolding serve set_handler
serve-IsTracked p r (sets s h) t = unfold set_handler in set-IsTracked r p s h t
serve-IsTracked p r (clears s) t = clear_handler-IsTracked r p s t
serve-IsTracked p r (destroys h) t = destroy_handler-IsTracked r p h t

serve_all-IsTracked :
    (p : ℕ) (cs : List Call) (r : Registry) → IsTracked p r → IsTracked p (serve_all p r cs)
unfolding serve_all
serve_all-IsTracked p [] r t = t
serve_all-IsTracked p (c ∷ cs) r t =
    serve_all-IsTracked p cs (serve p r c) (serve-IsTracked p r c t)

tracked-gone :
    (r : Registry) (p h s : ℕ) → IsTracked p r → get_handler (destroy_handler r h) p s ≢ some h
tracked-gone r p h s t e = elim (Option-cases (r.registrant h)) [
  | inl n ↦
      let e' : get_handler r p s ≡ some h =
        ap (λ x. get_handler x p s) (sym (destroy_handler-none r h n)) ∙ e in
      ground (arith, n, t.registered s h e')
  | inr (q, k) ↦
      let k' : r.registrant h ≡ some p = k ∙ ap some (t.only h q k) in
      let e' = ap (λ x. get_handler x p s) (sym (destroy_handler-runs r h p k')) ∙ e in
      let lost = clear_each-gone p h (r.registered_sockets h) r s e' in
      let held = clear_each-get p h (r.registered_sockets h) r s h e' in
      ground (arith, lost, t.knows s h held)
]

-- Where handlers are only ever set in one epoller, that was empty first, a handler that was
-- destroyed is the handler of no socket, whatever was set, replaced, cleared and destroyed before.
pub destroyed_handler_gone :
    (p h s : ℕ) (cs : List Call)
    → get_handler (destroy_handler (serve_all p empty cs) h) p s ≢ some h
destroyed_handler_gone p h s cs = tracked-gone (serve_all p empty cs) p h s (
    serve_all-IsTracked p cs empty (record {
      knows = λ s h e. absurd (cc);
      registered = λ s h e. absurd (cc);
      only = λ h q e. absurd (cc);
    }))

clear_each-other :
    (p q h : ℕ)
    → p ≢ q
    → (ss : List ℕ) (r : Registry) → (clear_each r q h ss).handler_db p ≡ r.handler_db p
unfolding clear_each clear_handler
clear_each-other p q h ne [] r = refl
clear_each-other p q h ne (s ∷ ss) r =
    clear_each-other p q h ne ss (cleared q h r s) ∙ ground (arith, ne)

set_handler-moved :
    (r : Registry) (p q h u : ℕ)
    → p ≢ q
    → let r' = set_handler r q u (some h) in
      (r'.registrant h ≡ some q) × (r'.handler_db p ≡ r.handler_db p)
unfolding set_handler
set_handler-moved r p q h u ne = ground (arith, ne)

-- A handler of a socket in one epoller that is then set in another: the first keeps it as the
-- handler of the socket, also after the handler was destroyed.
pub moved_handler_dangles :
    (r : Registry) (p q h s u : ℕ)
    → p ≢ q
    → get_handler r p s ≡ some h
    → get_handler (destroy_handler (set_handler r q u (some h)) h) p s ≡ some h
moved_handler_dangles r p q h s u ne e =
    let r' = set_handler r q u (some h) in
    let (reg, db) = set_handler-moved r p q h u ne in
    ap (λ x. get_handler x p s) (destroy_handler-runs r' h q reg)
    ∙ ap (find_key s) (clear_each-other p q h ne (r'.registered_sockets h) r' ∙ db)
    ∙ e
