-- ===== src/Proxy/Pauses.antt =====
-- What a bottleneck changes: the contexts that are paused, and the mark of the side.
use socle.Prelude.{
  ℕ, ◌≡◌, refl, sym, ap, ◌∙◌, inl, inr, Bool, true, false, not, ◌||◌, List, [], ◌∷◌, arith, ◌==◌,
  if◌then◌else◌, ==_iff, Bool-cases, same,
}
use socle.Epoll.Sets.{find}
use socle.HostCx.{HostCx}
use socle.Proxy.{
  CxSide, left, right, left_pc, right_pc, cx_change_monitor, cx_set_write_monitor, BaseProxy, tell,
  at, put_context, set_cx, is_left,
}
use socle.Proxy.Handlers.{dont_read}
use socle.Proxy.Monitors.{
  Pause, keep, pause, unpause, paused, pause_cx, change_monitor_for_cx_vec, change_side_monitoring,
}
use socle.Proxy.Writes.{own_neck, set_neck, start_neck, stop_neck}

-- The contexts of the sides and the bottlenecks are the same.
abbrev pub SameSides : BaseProxy → BaseProxy → Type 0
SameSides p q =
    (q.left_sockets ≡ p.left_sockets)
    × (q.right_sockets ≡ p.right_sockets)
    × (q.left_bind_sockets ≡ p.left_bind_sockets)
    × (q.right_bind_sockets ≡ p.right_bind_sockets)
    × (q.write_left_neck_ ≡ p.write_left_neck_)
    × (q.write_right_neck_ ≡ p.write_right_neck_)

pub SameSides-trans : (p q r : BaseProxy) → SameSides p q → SameSides q r → SameSides p r
SameSides-trans p q r (a, b, c, d, e, f) (a', b', c', d', e', f') =
    (a' ∙ a, b' ∙ b, c' ∙ c, d' ∙ d, e' ∙ e, f' ∙ f)

pub SameSides-refl : (p : BaseProxy) → SameSides p p
SameSides-refl p = (refl, refl, refl, refl, refl, refl)

-- Is the context of a pointer paused?
abbrev pub is_paused : BaseProxy → ℕ → Bool
is_paused p j = (at p j).read_waiting_for_peercom_

set_cx-field :
    {A : Type 0} (f : HostCx → A) (i j : ℕ) (h : HostCx) (p : BaseProxy)
    → f (at (set_cx i h p) j) ≡ (if j == i then f h else f (at p j))
unfolding put_context
set_cx-field f i j h p =
    let c = record (p.contexts i) { cx = h } in
    elim (j == i) as (λ b. f (if b then c else p.contexts j).cx ≡ (if b then f h else f (at p j))) [
      | true ↦ refl
      | false ↦ refl
    ]

if-same_place :
    {A : Type 0} (f : ℕ → A) (i j : ℕ) (x : A)
    → (if j == i then f i else x) ≡ (if j == i then f j else x)
if-same_place f i j x = elim (Bool-cases (j == i)) [
  | inl e ↦ rw e (ap f (sym ((==_iff j i).0 e)))
  | inr e ↦ rw e refl
]

if-both : {A : Type 0} (b : Bool) (x : A) → (if b then x else x) ≡ x
if-both true x = refl
if-both false x = refl

pause-twice :
    (pr : Pause) (a b x : Bool)
    → (let y = if a then paused pr x else x in if b then paused pr y else y)
      ≡ (if a || b then paused pr x else x)
pause-twice keep true true x = refl
pause-twice pause true true x = refl
pause-twice unpause true true x = refl
pause-twice pr true false x = refl
pause-twice pr false b x = refl

change_monitor-sides :
    (is : List ℕ) (ifread ifwrite : Bool) (pr pw : Pause) (p : BaseProxy) (j : ℕ)
    → let q = change_monitor_for_cx_vec is ifread ifwrite pr pw p in
      SameSides p q
      × ((at q j).writebuf_ ≡ (at p j).writebuf_)
      × (is_paused q j ≡ (if find j is then paused pr (is_paused p j) else is_paused p j))
unfolding change_monitor_for_cx_vec find
change_monitor-sides [] ifread ifwrite pr pw p j = (SameSides-refl p, refl, refl)
change_monitor-sides (i ∷ is) ifread ifwrite pr pw p j =
    let told = tell (cx_change_monitor i ifread ifwrite) p in
    let h = pause_cx pr pw (at told i) in
    let p' = set_cx i h told in
    let q = change_monitor_for_cx_vec is ifread ifwrite pr pw p' in
    let (sides, same, flag) = change_monitor-sides is ifread ifwrite pr pw p' j in
    let here : is_paused p' j ≡ (if j == i then paused pr (is_paused p j) else is_paused p j) =
      set_cx-field (λ c. c.read_waiting_for_peercom_) i j h told
      ∙ if-same_place (λ k. paused pr (is_paused p k)) i j (is_paused p j) in
    (
      SameSides-trans p p' q (SameSides-refl p) sides,
      same
          ∙ set_cx-field (λ c. c.writebuf_) i j h told
          ∙ if-same_place (λ k. (at p k).writebuf_) i j (at p j).writebuf_
          ∙ if-both (j == i) (at p j).writebuf_,
      flag
          ∙ ap (λ y. if find j is then paused pr y else y) here
          ∙ pause-twice pr (j == i) (find j is) (is_paused p j),
    )

-- Is the context among the sockets or the bound sockets of a side?
abbrev pub on_side : Bool → BaseProxy → ℕ → Bool
on_side of_left p j =
    find j (if of_left then p.left_sockets else p.right_sockets)
    || find j (if of_left then p.left_bind_sockets else p.right_bind_sockets)

pub change_side-sides :
    (of_left ifread ifwrite : Bool) (pr pw : Pause) (p : BaseProxy) (j : ℕ)
    → let q = change_side_monitoring of_left ifread ifwrite pr pw p in
      SameSides p q
      × ((at q j).writebuf_ ≡ (at p j).writebuf_)
      × (is_paused q j ≡ (if on_side of_left p j then paused pr (is_paused p j) else is_paused p j))
unfolding change_side_monitoring
change_side-sides of_left ifread ifwrite pr pw p j =
    let normal = if of_left then p.left_sockets else p.right_sockets in
    let bound = if of_left then p.left_bind_sockets else p.right_bind_sockets in
    let p' = change_monitor_for_cx_vec normal ifread ifwrite pr pw p in
    let q = change_monitor_for_cx_vec bound ifread ifwrite pr pw p' in
    let (sides, same, flag) = change_monitor-sides normal ifread ifwrite pr pw p j in
    let (sides', same', flag') = change_monitor-sides bound ifread ifwrite pr pw p' j in
    (
      SameSides-trans p p' q sides sides',
      same' ∙ same,
      flag'
          ∙ ap (λ y. if find j bound then paused pr y else y) flag
          ∙ pause-twice pr (find j normal) (find j bound) (is_paused p j),
    )

pub SameSides-necks :
    (side : CxSide) (p q : BaseProxy)
    → SameSides p q
    → (own_neck side q ≡ own_neck side p) × (dont_read side q ≡ dont_read side p)
SameSides-necks left p q (a, b, c, d, e, f) = (e, f)
SameSides-necks right p q (a, b, c, d, e, f) = (f, e)
SameSides-necks left_pc p q (a, b, c, d, e, f) = (e, f)
SameSides-necks right_pc p q (a, b, c, d, e, f) = (f, e)

pub SameSides-on_side :
    (of_left : Bool) (p q : BaseProxy) (j : ℕ)
    → SameSides p q
    → on_side of_left q j ≡ on_side of_left p j
SameSides-on_side true p q j (a, b, c, d, e, f) = rw (a, c) refl
SameSides-on_side false p q j (a, b, c, d, e, f) = rw (b, d) refl

pub set_neck-sets :
    (side : CxSide) (of_left b : Bool) (p : BaseProxy) (i j : ℕ)
    → let q = set_neck side b p in
      (own_neck side q ≡ b)
      × (dont_read side q ≡ dont_read side p)
      × ((at q i).writebuf_ ≡ (at p i).writebuf_)
      × (on_side of_left q j ≡ on_side of_left p j)
set_neck-sets left of_left b p i j = (refl, refl, refl, refl)
set_neck-sets right of_left b p i j = (refl, refl, refl, refl)
set_neck-sets left_pc of_left b p i j = (refl, refl, refl, refl)
set_neck-sets right_pc of_left b p i j = (refl, refl, refl, refl)

pub start_neck-sets :
    (side : CxSide) (i j : ℕ) (p : BaseProxy)
    → let q = start_neck side i p in
      (own_neck side q ≡ true)
      × (dont_read side q ≡ dont_read side p)
      × ((at q i).writebuf_ ≡ (at p i).writebuf_)
      × (on_side (not (is_left side)) p j ≡ true
          → on_side (is_left side) p j ≡ false
          → is_paused q j ≡ true)
unfolding start_neck
start_neck-sets side i j p =
    let l = is_left side in
    let p₁ = set_neck side true (tell (cx_set_write_monitor i) p) in
    let p₂ = change_side_monitoring (not l) false false pause keep p₁ in
    let q = change_side_monitoring l true true unpause unpause p₂ in
    let (own, other, buffer, on_own) =
      set_neck-sets side l true (tell (cx_set_write_monitor i) p) i j in
    let (own', other', buffer', on_other) =
      set_neck-sets side (not l) true (tell (cx_set_write_monitor i) p) i j in
    let (sides₁, same₁, flag₁) = change_side-sides (not l) false false pause keep p₁ j in
    let (sides₂, same₂, flag₂) = change_side-sides l true true unpause unpause p₂ j in
    let (sides, same, flag) = change_side-sides (not l) false false pause keep p₁ i in
    let (sides', same', flag') = change_side-sides l true true unpause unpause p₂ i in
    let (owns, others) = SameSides-necks side p₁ q (SameSides-trans p₁ p₂ q sides₁ sides₂) in
    (
      owns ∙ own,
      others ∙ other,
      same' ∙ same ∙ buffer,
      λ on off.
          flag₂
          ∙ ap (λ b. if b then false else is_paused p₂ j)
              (SameSides-on_side l p₁ p₂ j sides₁ ∙ on_own ∙ off)
          ∙ flag₁
          ∙ ap (λ b. if b then true else is_paused p₁ j) (on_other ∙ on),
    )

stopped-sets :
    (side : CxSide) (i j : ℕ) (p : BaseProxy)
    → let q =
        change_side_monitoring
          (not (is_left side))
          true
          false
          unpause
          keep
          (set_neck side false p) in
      (own_neck side q ≡ false)
      × (dont_read side q ≡ dont_read side p)
      × ((at q i).writebuf_ ≡ (at p i).writebuf_)
      × (on_side (not (is_left side)) p j ≡ true → is_paused q j ≡ false)
stopped-sets side i j p =
    let l = is_left side in
    let p₁ = set_neck side false p in
    let q = change_side_monitoring (not l) true false unpause keep p₁ in
    let (own, other, buffer, on_other) = set_neck-sets side (not l) false p i j in
    let (sides₁, same₁, flag₁) = change_side-sides (not l) true false unpause keep p₁ j in
    let (sides, same, flag) = change_side-sides (not l) true false unpause keep p₁ i in
    let (owns, others) = SameSides-necks side p₁ q sides₁ in
    (
      owns ∙ own,
      others ∙ other,
      same ∙ buffer,
      λ on. flag₁ ∙ ap (λ b. if b then false else is_paused p₁ j) (on_other ∙ on),
    )

pub stop_neck-sets :
    (side : CxSide) (i j : ℕ) (p : BaseProxy)
    → let q = stop_neck side p in
      (own_neck side q ≡ false)
      × (dont_read side q ≡ dont_read side p)
      × ((at q i).writebuf_ ≡ (at p i).writebuf_)
      × (own_neck side p ≡ true → on_side (not (is_left side)) p j ≡ true → is_paused q j ≡ false)
unfolding stop_neck
stop_neck-sets side i j p = elim (Bool-cases (own_neck side p)) [
  | inl e ↦
      let (own, other, buffer, flag) = stopped-sets side i j p in
      rw e (own, other, buffer, λ h on. flag on)
  | inr e ↦ rw e (e, refl, refl, λ h. absurd (ground (arith, h)))
]
