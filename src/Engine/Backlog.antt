-- ===== src/Engine/Backlog.antt =====
-- The loop over the steps while enough messages wait.
use dstest.Prelude.{ℕ, ◌+◌, ◌^◌, ◌≡◌, ◌<◌, ◌≤◌, ap, List, Returns, length, All, arith}
use dstest.Prelude.Text.{Text}
use dstest.Prelude.Machine.{Floats, Generator}
use dstest.Network.Translator.{Frame}
use dstest.Network.Manager.Pending.{pending}
use dstest.Scheduling.Strategy.{Outside}
use dstest.Engine.{TestEngine, Round, Loop, run_steps}
use dstest.Engine.Arrivals.{Grown-pending}
use dstest.Engine.Busy.{IsBusy, arrivals, Ready, IsDone}
use dstest.Engine.Progress.{run_steps-IsDone}

module _ (fl : Floats) (g : Generator fl.F) (out : Outside fl g) (frames : List ℕ → List Frame)
    (decimal : ℕ → Text) (te : TestEngine fl g) (n : ℕ) where
  -- As many messages wait as steps are left.
  abbrev Enough : List (Round fl g) → Loop fl g → Type 0
  Enough rounds l = te.steps ≤ l.s + length (pending l.network.message_queues)

  -- With the random or the Q-learning strategy and a client script, from a consistent manager: while only
  -- requests arrive, in any order between and during the steps, and while at least as many messages
  -- wait as steps are left, as many rounds as steps are left are enough: the loop
  -- returns with all steps done, each of which released one message.
  pub run_steps_backlog :
      (rounds : List (Round fl g)) (l : Loop fl g)
      → 0 < length te.config.process_config.client_scripts
      → Ready fl g out frames decimal te n l
      → All (IsBusy fl g) rounds
      → l.network.index + arrivals fl g rounds < 2 ^ 64
      → l.s ≤ te.steps
      → te.steps ≤ l.s + length rounds
      → te.steps ≤ l.s + length (pending l.network.message_queues)
      → Returns
          (run_steps fl g out frames decimal te rounds l)
          (IsDone fl g out frames decimal te n l)
  run_steps_backlog =
      run_steps-IsDone fl g out frames decimal te n Enough
        (λ round rounds l m more ready a small enough happened received.
          let grown = Grown-pending n _ l.network m.network ready.consistent received.grown in
          omega arith)
        (λ round rounds l m l' ready enough received t.
          let grown = Grown-pending n _ l.network m.network ready.consistent received.grown in
          let s : m.s ≡ l.s = ap (λ (x : Loop fl g). x.s) received.rest in
          let s' = t.s in let left = t.left in omega arith)
