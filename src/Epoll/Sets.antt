-- ===== src/Epoll/Sets.antt =====
-- Sets of sockets, `std::set<int>` behind a lock: a list in which a socket stands once.
use socle.Prelude.{
  ℕ, ◌≡◌, refl, ap, Bool, true, false, not, ◌&&◌, ◌||◌, List, [], ◌∷◌, arith, ◌==◌, if◌then◌else◌,
  ==_iff,
}

unfoldable pub find : ℕ → List ℕ → Bool
find s [] = false
find s (x ∷ xs) = s == x || find s xs

unfoldable pub insert : ℕ → List ℕ → List ℕ
insert s xs = if find s xs then xs else s ∷ xs

unfoldable pub erase : ℕ → List ℕ → List ℕ
erase s [] = []
erase s (x ∷ xs) = let rest = erase s xs in if s == x then rest else x ∷ rest

unfoldable pub insert_all : List ℕ → List ℕ → List ℕ
insert_all [] ys = ys
insert_all (x ∷ xs) ys = insert_all xs (insert x ys)

abbrev pub is_empty : List ℕ → Bool
is_empty [] = true
is_empty (x ∷ xs) = false

find-same : (i s : ℕ) (xs : List ℕ) → (i == s) ≡ true → find i xs ≡ find s xs
find-same i s xs h = ap (λ j. find j xs) ((==_iff i s).0 h)

pub find-insert : (i s : ℕ) (xs : List ℕ) → find i (insert s xs) ≡ (i == s || find i xs)
unfolding find insert
find-insert i s xs = ground (arith, find-same i s xs)

pub find-erase : (i s : ℕ) (xs : List ℕ) → find i (erase s xs) ≡ (not (i == s) && find i xs)
unfolding find erase
find-erase i s [] = ground arith
find-erase i s (x ∷ xs) = ground (arith, find-erase i s xs)

pub find-insert_all :
    (i : ℕ) (xs ys : List ℕ) → find i (insert_all xs ys) ≡ (find i xs || find i ys)
unfolding find insert_all
find-insert_all i [] ys = refl
find-insert_all i (x ∷ xs) ys =
    ground (arith, find-insert_all i xs (insert x ys), find-insert i x ys)

pub find-empty : (i : ℕ) → find i [] ≡ false
unfolding find
find-empty i = refl
