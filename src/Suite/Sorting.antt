-- ===== src/Suite/Sorting.antt =====
-- The order that the tests of test/test-scheduler.c expect: sorting, as a reference.
use ssm_runtime.Base.{
  ℕ, ◌+◌, ◌≤◌, ◌≡◌, refl, List, [], ◌∷◌, arith, leb, if◌then◌else◌, one_if, inl, inr, Bool-cases,
}

abbrev pub insert_sorted : ℕ → List ℕ → List ℕ
insert_sorted x [] = x ∷ []
insert_sorted x (y ∷ ys) = let rest = insert_sorted x ys in if leb x y then x ∷ y ∷ ys else y ∷ rest

abbrev pub sort : List ℕ → List ℕ
sort [] = []
sort (x ∷ xs) = insert_sorted x (sort xs)

abbrev pub occurrences : (t : ℕ) → List ℕ → ℕ
occurrences t [] = 0
occurrences t (x ∷ xs) = one_if x t + occurrences t xs

-- from `least` on, no item is below the one before it
abbrev pub Ascending : (least : ℕ) → List ℕ → Type 0
Ascending least [] = Unit {0}
Ascending least (x ∷ xs) = (least ≤ x) × Ascending x xs

Ascending-insert_sorted :
    (least x : ℕ) (ys : List ℕ)
    → least ≤ x
    → Ascending least ys
    → Ascending least (insert_sorted x ys)
Ascending-insert_sorted least x [] low h = (low, tt)
Ascending-insert_sorted least x (y ∷ ys) low h = elim (Bool-cases (leb x y)) [
  | inl e ↦ rw e (low, (ground arith, h.1))
  | inr e ↦ rw e (h.0, Ascending-insert_sorted y x ys (ground arith) h.1)
]

pub Ascending-sort : (xs : List ℕ) → Ascending 0 (sort xs)
Ascending-sort [] = tt
Ascending-sort (x ∷ xs) = Ascending-insert_sorted 0 x (sort xs) (omega arith) (Ascending-sort xs)

occurrences-insert_sorted :
    (t x : ℕ) (ys : List ℕ) → occurrences t (insert_sorted x ys) ≡ one_if x t + occurrences t ys
occurrences-insert_sorted t x [] = refl
occurrences-insert_sorted t x (y ∷ ys) = ground (arith, occurrences-insert_sorted t x ys)

pub occurrences-sort : (t : ℕ) (xs : List ℕ) → occurrences t (sort xs) ≡ occurrences t xs
occurrences-sort t [] = refl
occurrences-sort t (x ∷ xs) =
    omega (arith, occurrences-insert_sorted t x (sort xs), occurrences-sort t xs)

Ascending-least :
    (least t : ℕ) (xs : List ℕ) → Ascending least xs → 1 ≤ occurrences t xs → least ≤ t
Ascending-least least t [] h once = absurd (omega arith)
Ascending-least least t (x ∷ xs) h once = ground (arith, h.0, Ascending-least x t xs h.1)

-- lists in order are the same where every number occurs in both as often
pub Ascending-unique :
    (b c : ℕ) (xs ys : List ℕ)
    → Ascending b xs
    → Ascending c ys
    → ((t : ℕ) → occurrences t xs ≡ occurrences t ys)
    → xs ≡ ys
Ascending-unique b c [] [] h k same = refl
Ascending-unique b c [] (y ∷ ys) h k same = absurd (ground (arith, same y))
Ascending-unique b c (x ∷ xs) [] h k same = absurd (ground (arith, same x))
Ascending-unique b c (x ∷ xs) (y ∷ ys) h k same =
    let low : y ≤ x = ground (arith, same x, Ascending-least y x ys k.1) in
    let high : x ≤ y = ground (arith, same y, Ascending-least x y xs h.1) in
    let here : x ≡ y = omega arith in
    let rest = Ascending-unique x y xs ys h.1 k.1 (λ t. ground (arith, same t)) in
    ground (arith, here, rest)
