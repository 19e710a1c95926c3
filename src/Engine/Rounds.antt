-- ===== src/Engine/Rounds.antt =====
-- The rule for the loop over the steps: what every round keeps holds at the end, and the loop ends by
-- one of its two tests.
use dstest.Prelude.{
  ℕ, ◌≡◌, ◌⊎◌, true, false, List, [], ◌∷◌, ok, >>=-eq-ok, ltb, if-eq, inl, inr, All, arith,
}
use dstest.Prelude.Text.{Text}
use dstest.Prelude.Machine.{Floats, Generator}
use dstest.Network.Translator.{Frame}
use dstest.Scheduling.Strategy.{Outside}
use dstest.Engine.{TestEngine, Round, Loop, happen_all, run_round, run_steps}

-- For a rule that asks nothing of the rounds.
pub any_round :
    (fl : Floats) (g : Generator fl.F) (rounds : List (Round fl g))
    → All (λ (round : Round fl g). Unit {0}) rounds
any_round fl g [] = tt
any_round fl g (round ∷ rounds) = (tt, any_round fl g rounds)

module _ (fl : Floats) (g : Generator fl.F) (out : Outside fl g) (frames : List ℕ → List Frame)
    (decimal : ℕ → Text) (te : TestEngine fl g) where
  -- All steps are done, or there is a bug candidate.
  abbrev pub IsOver : Loop fl g → Type 0
  IsOver l = (ltb l.s te.steps ≡ false) ⊎ (l.processes.bug_candidate ≡ true)

  module _ (Q : Round fl g → Type 0) (P : Loop fl g → Type 0)
      (keeps_before : (round : Round fl g) (l m : Loop fl g)
        → Q round
        → P l
        → happen_all fl g frames round.before l ≡ ok m
        → P m)
      (keeps : (round : Round fl g) (l l' : Loop fl g)
        → Q round
        → P l
        → run_round fl g out frames decimal te round l ≡ ok l'
        → P l') where
    pub run_steps-keeps :
        (rounds : List (Round fl g)) (l l' : Loop fl g)
        → All Q rounds
        → P l
        → run_steps fl g out frames decimal te rounds l ≡ ok l'
        → P l' × IsOver l'
    unfolding run_steps
    run_steps-keeps [] l l' q p e = elim (if-eq (ltb l.s te.steps) _ _ _ e) [
      | inl (more, stuck) ↦ cc
      | inr (over, same) ↦ let here : l ≡ l' = ground arith in rw (← here) (p, inl over)
    ]
    run_steps-keeps (round ∷ rounds) l l' q p e = elim (if-eq (ltb l.s te.steps) _ _ _ e) [
      | inr (over, same) ↦ let here : l ≡ l' = ground arith in rw (← here) (p, inl over)
      | inl (more, rest) ↦
          let (m, first, rest') = >>=-eq-ok (happen_all fl g frames round.before l) _ rest in
          let pm = keeps_before round l m q.0 p first in
          elim (if-eq m.processes.bug_candidate _ _ _ rest') [
            | inl (bug, same) ↦ let here : m ≡ l' = ground arith in rw (← here) (pm, inr bug)
            | inr (fine, going) ↦
                let (n, second, last) =
                  >>=-eq-ok (run_round fl g out frames decimal te round m) _ going in
                run_steps-keeps rounds n l' q.1 (keeps round m n q.0 pm second) last
          ]
    ]
