-- ===== src/Scheduling/Pct/Limits.antt =====
-- Counting: how many distinct numbers there are below a bound.
use dstest.Prelude.{
  ℕ, zero, suc, ◌+◌, ◌==◌, ◌≡◌, ◌≢◌, ◌<◌, ◌≤◌, refl, true, false, ◌||◌, List, [], ◌∷◌, ◌++◌, length,
  All, if◌then◌else◌, arith, Bool-cases, inl, inr, ◌⊎◌, ℕ_discrete, ◌∙◌,
}
use dstest.Scheduling.Pct.{contains}

-- No number comes twice.
abbrev pub IsDistinct : List ℕ → Type 0
IsDistinct [] = Unit
IsDistinct (x ∷ l) = (contains x l ≡ false) × IsDistinct l

-- Distinct numbers below the bound.
pub record AreDrawn (max : ℕ) (l : List ℕ) : Type 0 where
  pub distinct : IsDistinct l
  pub bounded : All (λ x. x < max) l

pub contains-append : (x : ℕ) (l r : List ℕ) → contains x (l ++ r) ≡ (contains x l || contains x r)
unfolding contains
contains-append x [] r = refl
contains-append x (y ∷ l) r = ground (arith, contains-append x l r)

pub IsDistinct-snoc :
    (l : List ℕ) (x : ℕ) → IsDistinct l → contains x l ≡ false → IsDistinct (l ++ x ∷ [])
unfolding contains
IsDistinct-snoc [] x d h = (refl, tt)
IsDistinct-snoc (y ∷ l) x d h =
    (ground (arith, contains-append y l (x ∷ [])), IsDistinct-snoc l x d.1 (ground arith))

-- The list without the first place of a number.
drop_first : ℕ → List ℕ → List ℕ
drop_first n [] = []
drop_first n (x ∷ l) = if x == n then l else x ∷ drop_first n l

contains-drop_first : (n i : ℕ) (l : List ℕ) → i ≢ n → contains i (drop_first n l) ≡ contains i l
unfolding drop_first contains
contains-drop_first n i [] ne = refl
contains-drop_first n i (x ∷ l) ne = ground (arith, contains-drop_first n i l ne)

length-drop_first :
    (n : ℕ) (l : List ℕ) → contains n l ≡ true → length l ≡ length (drop_first n l) + 1
unfolding drop_first contains
length-drop_first n [] h = cc
length-drop_first n (x ∷ l) h = ground (arith, length-drop_first n l)

-- A list that holds every number below `n` has `n` entries at least.
covering : (n : ℕ) (l : List ℕ) → ((i : ℕ) → i < n → contains i l ≡ true) → n ≤ length l
covering zero l h = omega arith
covering (suc n) l h = omega (
  arith,
  length-drop_first n l (h n (omega arith)),
  covering n (drop_first n l) (λ i li. contains-drop_first n i l (omega arith) ∙ h i (omega arith)),
)

-- Distinct numbers below `n` are `n` at most.
absent_bounded :
    (n : ℕ) (l : List ℕ) → contains n l ≡ false → All (λ x. x < suc n) l → All (λ x. x < n) l
unfolding contains
absent_bounded n [] h b = tt
absent_bounded n (x ∷ l) h b = (ground arith, absent_bounded n l (ground arith) b.1)

drop_first-AreDrawn :
    (n : ℕ) (l : List ℕ)
    → IsDistinct l
    → All (λ x. x < suc n) l
    → IsDistinct (drop_first n l) × All (λ x. x < n) (drop_first n l)
unfolding drop_first contains
drop_first-AreDrawn n [] d b = (tt, tt)
drop_first-AreDrawn n (x ∷ l) d b = elim (ℕ_discrete x n) [
  | yes e ↦ rw (same e) (d.1, absent_bounded n l (rw e at d.0) b.1)
  | no e ↦
      let (d', b') = drop_first-AreDrawn n l d.1 b.1 in
      rw (other e) ((contains-drop_first n x l e ∙ d.0, d'), (omega arith, b'))
]
  where
    same : x ≡ n → (x == n) ≡ true
    same e = ground arith

    other : x ≢ n → (x == n) ≡ false
    other e = ground arith

length-drop_first_le : (n : ℕ) (l : List ℕ) → length l ≤ length (drop_first n l) + 1
unfolding drop_first
length-drop_first_le n [] = omega arith
length-drop_first_le n (x ∷ l) = ground (arith, length-drop_first_le n l)

pub length-le_bound : (n : ℕ) (l : List ℕ) → IsDistinct l → All (λ x. x < n) l → length l ≤ n
length-le_bound zero [] d b = omega arith
length-le_bound zero (x ∷ l) d b = absurd (omega arith)
length-le_bound (suc n) l d b =
    let (d', b') = drop_first-AreDrawn n l d b in
    omega (arith, length-drop_first_le n l, length-le_bound n (drop_first n l) d' b')

-- In a list that is short enough some number below `n` is missing.
find_missing :
    (n : ℕ) (l : List ℕ)
    → ((i : ℕ) → i < n → contains i l ≡ true) ⊎ ((i : ℕ) × (i < n) × (contains i l ≡ false))
find_missing zero l = inl (λ i li. absurd (omega arith))
find_missing (suc n) l = elim (Bool-cases (contains n l)) [
  | inr new ↦ inr (n, omega arith, new)
  | inl old ↦ elim (find_missing n l) [
    | inr (i, li, new) ↦ inr (i, omega arith, new)
    | inl all ↦ inl (λ i li. last all old i li)
  ]
]
  where
    last :
        ((i : ℕ) → i < n → contains i l ≡ true)
        → contains n l ≡ true
        → (i : ℕ) → i < suc n
        → contains i l ≡ true
    last all old i li = elim (ℕ_discrete i n) [ yes e ↦ rw e old | no e ↦ all i (omega arith) ]

pub missing : (n : ℕ) (l : List ℕ) → length l < n → (i : ℕ) × (i < n) × (contains i l ≡ false)
missing n l short = elim (find_missing n l) [
  | inl all ↦ absurd (omega (arith, covering n l all))
  | inr found ↦ found
]
