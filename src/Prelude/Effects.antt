-- ===== src/Prelude/Effects.antt =====
-- How a Go call ends: it returns, it panics, or `log.Fatalf` ends the process; `out_of_fuel` stands for
-- a loop that has not ended after as many rounds as its fuel. With it, slices that
-- are indexed by an `int`, and counted loops with their rule of total correctness.
use Prim.Native.Nat.{ℕ, zero, suc, ◌+◌, ◌<◌}
use mathlib.Core.Path.{◌≡◌, refl}
use mathlib.Core.Option.{Option, none, some}
use mathlib.Core.List.{List, [], ◌∷◌}
use native.Mathlib.Omega.{arith}
use dstest.Prelude.Tests.{if◌then◌else◌, ltb}
use dstest.Prelude.Lists.{length, get_elem?, get_or, set, get_elem?-get_or}
use dstest.Prelude.Int.{ℤ, pos, negsuc}

pub data Panic : Type 0 where
  index_out_of_range nil_dereference type_assertion : Panic
  negative_wait_group close_of_closed_channel invalid_argument : Panic

pub data Outcome {ℓ} (A : Type ℓ) : Type ℓ where
  ok : A → Outcome A
  panic : Panic → Outcome A
  fatal : Outcome A
  out_of_fuel : Outcome A

infixl 5 ◌>>=◌
abbrev pub ◌>>=◌ {ℓ κ} : {A : Type ℓ} {B : Type κ} → Outcome A → (A → Outcome B) → Outcome B
ok a >>= f = f a
panic p >>= f = panic p
fatal >>= f = fatal
out_of_fuel >>= f = out_of_fuel

infixl 5 ◌>>◌
abbrev pub ◌>>◌ {ℓ κ} : {A : Type ℓ} {B : Type κ} → Outcome A → Outcome B → Outcome B
m >> k = m >>= λ _. k

-- The call returns, with a result that satisfies `P`.
abbrev pub Returns {ℓ} : {A : Type ℓ} → Outcome A → (A → Type 0) → Type 0
Returns (ok a) P = P a
Returns (panic p) P = ⊥
Returns fatal P = ⊥
Returns out_of_fuel P = ⊥

pub Returns-bind {ℓ κ} :
    {A : Type ℓ} {B : Type κ} (m : Outcome A) (f : A → Outcome B) (P : A → Type 0) (Q : B → Type 0)
    → Returns m P
    → ((a : A) → P a → Returns (f a) Q)
    → Returns (m >>= f) Q
Returns-bind (ok a) f P Q h k = k a h
Returns-bind (panic p) f P Q h k = absurd h
Returns-bind fatal f P Q h k = absurd h
Returns-bind out_of_fuel f P Q h k = absurd h

pub Returns-ok {ℓ} :
    {A : Type ℓ} (m : Outcome A) (P : A → Type 0) → Returns m P → (a : A) × (m ≡ ok a) × P a
Returns-ok (ok a) P h = (a, refl, h)
Returns-ok (panic p) P h = absurd h
Returns-ok fatal P h = absurd h
Returns-ok out_of_fuel P h = absurd h

pub Returns-map {ℓ} :
    {A : Type ℓ} (m : Outcome A) (P Q : A → Type 0)
    → Returns m P
    → ((a : A) → P a → Q a)
    → Returns m Q
Returns-map (ok a) P Q h k = k a h
Returns-map (panic p) P Q h k = h
Returns-map fatal P Q h k = h
Returns-map out_of_fuel P Q h k = h

-- A chain of calls that returned: its first call did, and so did the rest from there.
pub >>=-eq-ok {ℓ κ} :
    {A : Type ℓ} {B : Type κ} (first : Outcome A) (rest : A → Outcome B) {last : B}
    → (first >>= rest) ≡ ok last
    → (mid : A) × (first ≡ ok mid) × (rest mid ≡ ok last)
>>=-eq-ok (ok mid) rest returned = (mid, refl, returned)
>>=-eq-ok (panic p) rest returned = cc
>>=-eq-ok fatal rest returned = cc
>>=-eq-ok out_of_fuel rest returned = cc

-- To return a call's result is to make the call.
pub >>=_ok {ℓ} : {A : Type ℓ} (m : Outcome A) → (m >>= λ a. ok a) ≡ m
>>=_ok (ok a) = refl
>>=_ok (panic p) = refl
>>=_ok fatal = refl
>>=_ok out_of_fuel = refl

-- `x[i]` and `x[i] = v`, with Go's bounds check.
module _ {ℓ} {A : Type ℓ} where
  abbrev pub or_panic : Panic → Option A → Outcome A
  or_panic p none = panic p
  or_panic p (some a) = ok a

  abbrev pub at : List A → ℤ → Outcome A
  at xs (pos n) = or_panic index_out_of_range (get_elem? xs n)
  at xs (negsuc n) = panic index_out_of_range

  abbrev pub put : List A → ℤ → A → Outcome (List A)
  put xs (pos n) v = if ltb n (length xs) then ok (set xs n v) else panic index_out_of_range
  put xs (negsuc n) v = panic index_out_of_range

  pub at-lt : (xs : List A) (n : ℕ) (d : A) → n < length xs → at xs (pos n) ≡ ok (get_or xs n d)
  at-lt xs n d h = ground (arith, get_elem?-get_or xs n d h)

  pub put-lt : (xs : List A) (n : ℕ) (v : A) → n < length xs → put xs (pos n) v ≡ ok (set xs n v)
  put-lt xs n v h = ground arith

-- `for i := first; i < first + rounds; i++ { s = body(i, s) }`
unfoldable pub for_range {ℓ} : {S : Type ℓ} → ℕ → ℕ → (ℕ → S → Outcome S) → S → Outcome S
for_range zero i body s = ok s
for_range (suc rounds) i body s = body i s >>= for_range rounds (i + 1) body

-- A loop returns, with its invariant at the end, if every round does.
pub for_range-Returns {ℓ} :
    {S : Type ℓ} (P : ℕ → S → Type 0) (body : ℕ → S → Outcome S) (last : ℕ)
    → ((i : ℕ) (s : S) → i < last → P i s → Returns (body i s) (P (i + 1)))
    → (rounds i : ℕ) (s : S) → i + rounds ≡ last
    → P i s
    → Returns (for_range rounds i body s) (P last)
unfolding for_range
for_range-Returns P body last keep zero i s e h = let e' : i ≡ last = omega arith in rw (← e') h
for_range-Returns P body last keep (suc rounds) i s e h =
    Returns-bind (body i s) (for_range rounds (i + 1) body) (P (i + 1)) (P last)
      (keep i s (omega arith) h)
      (λ t p. for_range-Returns P body last keep rounds (i + 1) t (omega arith) p)

-- `for i, x := range xs { s = body(i, x, s) }`, from the index `i` on.
unfoldable pub for_each {ℓ κ} :
    {A : Type ℓ} {S : Type κ} → ℕ → List A → (ℕ → A → S → Outcome S) → S → Outcome S
for_each i [] body s = ok s
for_each i (x ∷ xs) body s = body i x s >>= for_each (i + 1) xs body
