-- ===== src/Scheduling/Replay.antt =====
-- cmd/dstest/scheduling/ReplayScheduler.go. `file` is what the operating system answers to the reading
-- of the named file: its text, or `none` for an error.
use dstest.Prelude.{
  ℕ, zero, suc, ◌+◌, ◌-◌, ◌≡◌, refl, ltb, List, [], ◌∷◌, Option, none, some, Outcome, ok, panic,
  type_assertion, ◌>>=◌, ℤ, minus_one, length, if◌then◌else◌, arith, Bool-cases, inl, inr, ap, ◌∙◌,
}
use dstest.Prelude.Text.{Text, codes, lookup, split, text_eq}
use dstest.Config.{Value, Config, text}
use dstest.Network.Message.{Message}
use dstest.Scheduling.Decision.{SchedulerDecision, nothing, sending}

pub record ReplayScheduler : Type 0 where
  pub actions : List Text
  pub index : ℕ

abbrev text_of : {F : Type 0} → Option (Value F) → Outcome Text
text_of none = panic type_assertion
text_of (some v) = elim v [ text t ↦ ok t | _ ↦ panic type_assertion ]

unfoldable pub init :
    {F : Type 0} → Config F → (Text → Option Text) → ReplayScheduler → Outcome ReplayScheduler
init config file s = do
  filename ← text_of (lookup (codes "filename") config.scheduler_config.params)
  if text_eq filename []
      then ok s
      else ok (elim (file filename) [
        | none ↦ s
        | some content ↦ record { actions = split 10 content; index = 0 }
      ])

unfoldable pub next_iteration : ReplayScheduler → ReplayScheduler
next_iteration s = s

unfoldable pub reset : ReplayScheduler → ReplayScheduler
reset s = s

-- The action is read for the log alone.
unfoldable pub next : List Message → ReplayScheduler → SchedulerDecision × ReplayScheduler
next messages s =
    if ltb s.index (length s.actions)
    then (sending 0, record s { index = s.index + 1 })
    else (nothing, s)

unfoldable pub get_client_request : ReplayScheduler → ℤ × ReplayScheduler
get_client_request s = (minus_one, s)

-- The decisions of the calls with the given messages, the iterations of a run between them.
unfoldable pub decisions : List (List (List Message)) → ReplayScheduler → List SchedulerDecision
decisions [] s = []
decisions ([] ∷ iterations) s = decisions iterations (next_iteration s)
decisions ((messages ∷ rounds) ∷ iterations) s =
    let (d, s') = next messages s in d ∷ decisions (rounds ∷ iterations) s'

-- One decision a call: a message for each action that is left, then nothing.
abbrev pub planned : ℕ → ℕ → List SchedulerDecision
planned left zero = []
planned zero (suc calls) = nothing ∷ planned zero calls
planned (suc left) (suc calls) = sending 0 ∷ planned left calls

abbrev pub calls_of : List (List (List Message)) → ℕ
calls_of [] = 0
calls_of ([] ∷ iterations) = calls_of iterations
calls_of ((messages ∷ rounds) ∷ iterations) = suc (calls_of (rounds ∷ iterations))

-- Whatever the messages and the iterations, the calls of `Next` choose index 0 once for each action of
-- the file, also where there is no message, and from then on nothing: no iteration rewinds the actions.
pub decisions-planned :
    (iterations : List (List (List Message))) (s : ReplayScheduler)
    → decisions iterations s ≡ planned (length s.actions - s.index) (calls_of iterations)
unfolding decisions next next_iteration
decisions-planned [] s = refl
decisions-planned ([] ∷ iterations) s = decisions-planned iterations s
decisions-planned ((messages ∷ rounds) ∷ iterations) s =
    elim (Bool-cases (ltb s.index (length s.actions))) [
      | inl more ↦
          let left : length s.actions - s.index ≡ suc (length s.actions - (s.index + 1)) =
            ground arith in
          rw (more, left)
            (ap (λ ds. sending 0 ∷ ds)
              (decisions-planned (rounds ∷ iterations) (record s { index = s.index + 1 })))
      | inr over ↦
          let left : length s.actions - s.index ≡ 0 = ground arith in
          rw (over, left)
            (ap (λ ds. nothing ∷ ds) (decisions-planned (rounds ∷ iterations) s ∙ rw left))
    ]
