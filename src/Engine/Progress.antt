-- ===== src/Engine/Progress.antt =====
-- The loop over the steps while a message waits in every round.
use dstest.Prelude.{
  ok, Returns-ok, Returns-map, ap, ℕ, ◌+◌, ◌^◌, ◌≡◌, ◌<◌, ◌≤◌, ap, false, List, [], ◌∷◌, Returns,
  Returns-bind, Returns-map, length, All, arith, ltb, Bool-cases, inl, inr,
}
use dstest.Prelude.Text.{Text}
use dstest.Prelude.Machine.{Floats, Generator}
use dstest.Network.Translator.{Frame}
use dstest.Network.Manager.Pending.{pending}
use dstest.Scheduling.Strategy.{Outside}
use dstest.Engine.{TestEngine, Round, Loop, happen_all, run_steps}
use dstest.Engine.Arrivals.{IsArrival, Received, happen_all-Received}
use dstest.Engine.Busy.{IsBusy, arrivals, Ready, Stepped, IsDone, Received-Ready, run_round-Stepped}

module _ (fl : Floats) (g : Generator fl.F) (out : Outside fl g) (frames : List ℕ → List Frame)
    (decimal : ℕ → Text) (te : TestEngine fl g) (n : ℕ) where
  -- `W` holds of the rounds that are left, and makes a message wait after what happens before a round.
  module _ (W : List (Round fl g) → Loop fl g → Type 0)
      (waits : (round : Round fl g) (rounds : List (Round fl g)) (l m : Loop fl g)
        → l.s < te.steps
        → Ready fl g out frames decimal te n l
        → All IsArrival round.before
        → l.network.index + length round.before < 2 ^ 64
        → W (round ∷ rounds) l
        → happen_all fl g frames round.before l ≡ ok m
        → Received fl g frames n (length round.before) l m
        → 0 < length (pending m.network.message_queues))
      (goes : (round : Round fl g) (rounds : List (Round fl g)) (l m l' : Loop fl g)
        → Ready fl g out frames decimal te n l
        → W (round ∷ rounds) l
        → Received fl g frames n (length round.before) l m
        → Stepped fl g out frames decimal te n (length round.meanwhile) m l'
        → W rounds l') where
    pub run_steps-IsDone :
        (rounds : List (Round fl g)) (l : Loop fl g)
        → 0 < length te.config.process_config.client_scripts
        → Ready fl g out frames decimal te n l
        → All (IsBusy fl g) rounds
        → l.network.index + arrivals fl g rounds < 2 ^ 64
        → l.s ≤ te.steps
        → te.steps ≤ l.s + length rounds
        → W rounds l
        → Returns
            (run_steps fl g out frames decimal te rounds l)
            (IsDone fl g out frames decimal te n l)
    unfolding run_steps
    run_steps-IsDone [] l some_scripts ready busy small le enough w =
        let done : ltb l.s te.steps ≡ false = ground arith in
        rw done (omega arith, omega arith, ready)
    run_steps-IsDone (round ∷ rounds) l some_scripts ready busy small le enough w =
        elim (Bool-cases (ltb l.s te.steps)) [
          | inr over ↦
              let last : l.s ≡ te.steps = ground arith in rw over (last, omega arith, ready)
          | inl more ↦
              let before : l.s < te.steps = ground arith in
              let (m, happened, received) =
                Returns-ok (happen_all fl g frames round.before l)
                  (Received fl g frames n (length round.before) l)
                  (happen_all-Received fl g frames n round.before l busy.0.0 ready.consistent
                    (omega arith)) in
              let ready' =
                Received-Ready fl g out frames decimal te n (length round.before) l m ready
                  received in
              let waiting =
                waits round rounds l m before ready busy.0.0 (omega arith) w happened received in
              let numbered = received.grown.numbered in
              let s : m.s ≡ l.s = ap (λ (x : Loop fl g). x.s) received.rest in
              let closed = ap length received.grown.channels in
              rw (more, happened)
                (simp ready'.no_bug (
                  Returns-bind _ _ (Stepped fl g out frames decimal te n (length round.meanwhile) m)
                    _
                    (run_round-Stepped fl g out frames decimal te n round m some_scripts ready'
                      busy.0.1 waiting (omega arith))
                    λ m' t.
                      let s' = t.s in
                      let index = t.index in
                      let released = t.channels in
                      Returns-map _ (λ l'. IsDone fl g out frames decimal te n m' l') _
                        (run_steps-IsDone rounds m' some_scripts t.ready busy.1 (omega arith)
                          (omega arith) (omega arith) (goes round rounds l m m' ready w received t))
                        λ l' (done, count, last). (done, omega arith, last)))
        ]
