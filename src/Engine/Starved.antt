-- ===== src/Engine/Starved.antt =====
-- cmd/dstest/engine/TestEngine.go with the strategy "pct": the loop over the steps while the replica that has
-- the priority sends nothing.
use dstest.Prelude.{
  ℕ, ◌≡◌, ◌<◌, ◌≤◌, ◌⊎◌, ◌∙◌, refl, sym, ap, subst, false, List, Returns, Returns-map, Returns-ok,
  Returns-bind, out_of_fuel, length, get_or, All, arith, inl, inr,
}
use dstest.Prelude.Text.{Text}
use dstest.Prelude.Machine.{Floats, Generator}
use dstest.Network.Message.{Message}
use dstest.Network.Translator.{Frame}
use dstest.Network.Manager.{get_actions}
use dstest.Scheduling.Decision.{nothing}
use dstest.Scheduling.Requests.{InRange}
use dstest.Scheduling.Pct
use dstest.Scheduling.Pct.{Pct}
use dstest.Scheduling.Pct.Choice.{IsReady, Chosen, NoneFrom, Decided, moved_on, next-Chosen}
use dstest.Scheduling.Strategy
use dstest.Scheduling.Strategy.{Outside, Scheduler, random, ql, pct, replay}
use dstest.Engine.{TestEngine, Round, Loop, run_steps}
use dstest.Engine.Stuck.{IsQuiet, pct_asks, pct_types, run_steps_stuck}

module _ (fl : Floats) (g : Generator fl.F) (out : Outside fl g) where
  -- No change of the priority is left, or the next change point is behind the step.
  abbrev pub IsPassed : Pct fl g → Type 0
  IsPassed s =
      (s.depth ≤ s.num_priority_change)
      ⊎ (get_or s.priority_change_points s.num_priority_change 0 < s.step)

  -- The priority is settled, and no message is from the replica that has it.
  pub record IsStarved (messages : List Message) (s : Pct fl g) : Type 0 where
    pub ready : IsReady fl g s
    pub passed : IsPassed s
    pub starved : NoneFrom (get_or s.initial_priorities s.num_priority_change 0) messages

  -- With `k` client scripts.
  abbrev pub Starves : ℕ → List Message → Scheduler fl g → Type 0
  Starves k messages (pct s) = IsStarved messages s × (s.client.num_client_types ≡ k)
  Starves k messages (random s) = ⊥
  Starves k messages (ql s) = ⊥
  Starves k messages (replay s) = ⊥

  passed-moved_on : (s : Pct fl g) → IsPassed s → moved_on fl g s ≡ s.num_priority_change
  passed-moved_on s (inl done) = ground arith
  passed-moved_on s (inr behind) = ground arith

  later-IsPassed :
      (s t : Pct fl g)
      → t.num_priority_change ≡ s.num_priority_change
      → t.depth ≡ s.depth
      → t.priority_change_points ≡ s.priority_change_points
      → s.step ≤ t.step
      → IsPassed s
      → IsPassed t
  later-IsPassed s t num depth points step (inl done) = inl (omega arith)
  later-IsPassed s t num depth points step (inr behind) =
      let same : get_or t.priority_change_points t.num_priority_change 0
          ≡ get_or s.priority_change_points s.num_priority_change 0 =
        ap (λ k. get_or t.priority_change_points k 0) num
        ∙ ap (λ l. get_or l s.num_priority_change 0) points in
      inr (omega arith)

  next-IsStarved :
      (messages : List Message) (s : Pct fl g)
      → IsStarved messages s
      → Returns
          (Pct.next fl g messages s)
          λ result. (result.0 ≡ nothing) × IsStarved messages result.1
  next-IsStarved messages s i =
      Returns-map _ (Chosen fl g messages s) _ (next-Chosen fl g messages s i.ready) λ result c.
        let stays : result.1.num_priority_change ≡ s.num_priority_change =
          c.num ∙ passed-moved_on s i.passed in
        let holder : get_or result.1.initial_priorities result.1.num_priority_change 0
            ≡ get_or s.initial_priorities s.num_priority_change 0 =
          ap (λ k. get_or result.1.initial_priorities k 0) stays
          ∙ ap (λ l. get_or l s.num_priority_change 0) c.order in
        (
          elim (subst (λ k. Decided fl g (get_or s.initial_priorities k 0) messages result.0)
              (passed-moved_on s i.passed) c.decided) [
                | inl (none_chosen, absent) ↦ none_chosen
                | inr (k, chosen, last) ↦ absurd (i.starved k last.message last.found last.sender)
              ],
          record {
            ready = c.ready;
            passed =
                later-IsPassed s result.1 stays c.depth c.points (ground (arith, c.step)) i.passed;
            starved = subst (λ p. NoneFrom p messages) (sym holder) i.starved;
          },
        )

  request-Starves :
      (k : ℕ) (messages : List Message) (s : Scheduler fl g)
      → 0 < k
      → Starves k messages s
      → Returns
          (Strategy.get_client_request fl g s)
          λ result. InRange k result.0 × Starves k messages result.1
  unfolding Strategy.get_client_request
  request-Starves k messages (pct s) some_scripts (i, types) =
      Returns-bind _ _
        (λ result.
          InRange s.client.num_client_types result.0
          × (result.1.client.num_client_types ≡ s.client.num_client_types)
          × (result.1 ≡ record s { client = result.1.client }))
        _ (pct_asks fl g s (rw types some_scripts))
        λ (answer, s') (in_range, kept, same). (
          rw (← types) in_range,
          (
            subst (IsStarved messages) (sym same) (record {
              ready = record {
                points = i.ready.points;
                priorities = i.ready.priorities;
                counted = i.ready.counted;
              };
              passed = i.passed;
              starved = i.starved;
            }),
            kept ∙ types,
          ),
        )
  request-Starves k messages (random s) some_scripts i = absurd i
  request-Starves k messages (ql s) some_scripts i = absurd i
  request-Starves k messages (replay s) some_scripts i = absurd i

  decide-Starves :
      (k : ℕ) (messages : List Message) (draw : fl.F) (s : Scheduler fl g)
      → Starves k messages s
      → Returns
          (Strategy.next fl g out draw messages s)
          λ result. (result.0 ≡ nothing) × Starves k messages result.1
  unfolding Strategy.next
  decide-Starves k messages draw (pct s) (i, types) =
      let ((d, s'), e, (none_chosen, again)) =
        Returns-ok (Pct.next fl g messages s)
          (λ result. (result.0 ≡ nothing) × IsStarved messages result.1)
          (next-IsStarved messages s i) in
      rw e (none_chosen, (again, pct_types fl g messages s s' d e ∙ types))
  decide-Starves k messages draw (random s) i = absurd i
  decide-Starves k messages draw (ql s) i = absurd i
  decide-Starves k messages draw (replay s) i = absurd i

  module _ (frames : List ℕ → List Frame) (decimal : ℕ → Text) (te : TestEngine fl g) where
    -- With client scripts, of which the scheduler knows the number, no bug so far and a step to do: once the
    -- priority is settled on a replica from which no message waits, and where nothing happens in any round,
    -- the loop over the steps with the PCT strategy goes through all the rounds it is given without a panic,
    -- and has not ended, whatever messages of other replicas wait.
    pub run_steps_starved :
        (rounds : List (Round fl g)) (l : Loop fl g) (s : Pct fl g)
        → 0 < length te.config.process_config.client_scripts
        → All (IsQuiet fl g) rounds
        → l.scheduler ≡ pct s
        → s.client.num_client_types ≡ length te.config.process_config.client_scripts
        → IsStarved (get_actions l.network.message_queues) s
        → l.processes.bug_candidate ≡ false
        → l.s < te.steps
        → run_steps fl g out frames decimal te rounds l ≡ out_of_fuel
    run_steps_starved rounds l s some_scripts quiet is_pct types starved no_bug more =
        let messages = get_actions l.network.message_queues in
        let k = length te.config.process_config.client_scripts in
        run_steps_stuck fl g out frames decimal te messages (Starves k messages)
          (λ s' p. request-Starves k messages s' some_scripts p) (decide-Starves k messages) rounds
          l quiet
          (record {
            fronts = refl;
            steps_done = refl;
            no_bug = no_bug;
            strategy = subst (Starves k messages) (sym is_pct) (starved, types);
          })
          more
