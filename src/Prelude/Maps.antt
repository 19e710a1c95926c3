-- ===== src/Prelude/Maps.antt =====
-- Go's maps with keys of type `int`, as association lists in some order of iteration.
use Prim.Native.Nat.{ℕ, suc}
use mathlib.Core.Path.{◌≡◌, refl, ap}
use mathlib.Core.Logic.{inl, inr}
use mathlib.Core.Option.{Option, none, some}
use mathlib.Core.List.{List, [], ◌∷◌}
use native.Mathlib.Omega.{arith}
use dstest.Prelude.Tests.{◌==◌, if◌then◌else◌, if-eq, Bool-cases}
use dstest.Prelude.Lists.{length, All}

module _ {ℓ} {V : Type ℓ} where
  -- `v, ok := m[k]`
  abbrev pub find : ℕ → List (ℕ × V) → Option V
  find k [] = none
  find k ((j, v) ∷ m) = if j == k then some v else find k m

  -- `m[k] = v`
  abbrev pub assign : ℕ → V → List (ℕ × V) → List (ℕ × V)
  assign k v [] = (k, v) ∷ []
  assign k v ((j, w) ∷ m) = if j == k then (k, v) ∷ m else (j, w) ∷ assign k v m

  pub find-assign :
      (k j : ℕ) (v : V) (m : List (ℕ × V))
      → find j (assign k v m) ≡ (if k == j then some v else find j m)
  find-assign k j v [] = refl
  find-assign k j v ((i, w) ∷ m) = ground (arith, find-assign k j v m)

  -- A key that is new makes the map one entry longer.
  pub length-assign_new :
      (k : ℕ) (v : V) (m : List (ℕ × V)) → find k m ≡ none → length (assign k v m) ≡ suc (length m)
  length-assign_new k v [] e = refl
  length-assign_new k v ((i, w) ∷ m) e = elim (if-eq (i == k) _ _ _ e) [
    | inl (same, there) ↦ cc
    | inr (other, rest) ↦ rw other (ap suc (length-assign_new k v m rest))
  ]

  module _ {κ} (P : ℕ × V → Type κ) where
    pub All-assign : (k : ℕ) (v : V) (m : List (ℕ × V)) → P (k, v) → All P m → All P (assign k v m)
    All-assign k v [] p h = (p, tt)
    All-assign k v ((i, w) ∷ m) p h = elim (Bool-cases (i == k)) [
      | inl same ↦ rw same (p, h.1)
      | inr other ↦ rw other (h.0, All-assign k v m p h.1)
    ]

    -- What holds of all entries holds of the one that is found.
    pub All-find :
        (k : ℕ) (v : V) (m : List (ℕ × V)) → find k m ≡ some v → All P m → (j : ℕ) × P (j, v)
    All-find k v [] e h = cc
    All-find k v ((i, w) ∷ m) e h = elim (if-eq (i == k) _ _ _ e) [
      | inl (same, here) ↦ let there : w ≡ v = cc in rw (← there) (i, h.0)
      | inr (other, rest) ↦ All-find k v m rest h.1
    ]
