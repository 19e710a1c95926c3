-- ===== src/Scheduling/Pct/Progress.antt =====
-- The change points are not sorted: a point that is drawn behind a larger one never comes.
use dstest.Prelude.{
  ◌+◌, ◌≡◌, ◌<◌, ◌≤◌, refl, ◌∙◌, List, [], ◌∷◌, Outcome, ok, ◌>>=◌, get_or, arith, Returns,
  Returns-bind, Returns-map,
}
use dstest.Prelude.Machine.{Floats, Generator}
use dstest.Network.Message.{Message}
use dstest.Scheduling.Pct.{Pct, next}
use dstest.Scheduling.Pct.Choice.{IsReady, Chosen, next-Chosen}

module _ (fl : Floats) (g : Generator fl.F) where
  -- The calls of `Next` in an iteration, each with the messages that it is given.
  unfoldable pub next_all : List (List Message) → Pct fl g → Outcome (Pct fl g)
  next_all [] s = ok s
  next_all (messages ∷ rounds) s = do (decision, s') ← next fl g messages s; next_all rounds s'

  -- The step is past the point that the scheduler waits for.
  pub record IsPast (s : Pct fl g) : Type 0 where
    pub ready : IsReady fl g s
    pub waiting : s.num_priority_change < s.depth
    pub past : get_or s.priority_change_points s.num_priority_change 0 < s.step

  next-IsPast :
      (messages : List Message) (s : Pct fl g)
      → IsPast s
      → Returns
          (next fl g messages s)
          λ result. IsPast result.1 × (result.1.num_priority_change ≡ s.num_priority_change)
  next-IsPast messages s p =
      Returns-map _ (Chosen fl g messages s) _ (next-Chosen fl g messages s p.ready) λ result c.
        let same : result.1.num_priority_change ≡ s.num_priority_change =
          c.num ∙ ground (arith, p.past) in
        let later : s.step ≤ result.1.step = ground (arith, c.step) in
        (
          record {
            ready = c.ready;
            waiting = omega (arith, same, c.depth, p.waiting);
            past = rw (c.points, same) (omega (arith, later, p.past));
          },
          same,
        )

  next_all-IsPast :
      (rounds : List (List Message)) (s : Pct fl g)
      → IsPast s
      → Returns (next_all rounds s) λ t. t.num_priority_change ≡ s.num_priority_change
  unfolding next_all
  next_all-IsPast [] s p = refl
  next_all-IsPast (messages ∷ rounds) s p =
      Returns-bind _ _
        (λ result. IsPast result.1 × (result.1.num_priority_change ≡ s.num_priority_change)) _
        (next-IsPast messages s p)
        λ (decision, s') (p', same).
          Returns-map _ (λ t. t.num_priority_change ≡ s'.num_priority_change) _
            (next_all-IsPast rounds s' p') (λ t e. e ∙ same)

  -- When the priority moves on at a point behind which a smaller one was drawn, it never moves on
  -- again, whatever messages come.
  pub unsorted_points :
      (messages : List Message) (rounds : List (List Message)) (s : Pct fl g)
      → IsReady fl g s
      → s.num_priority_change + 1 < s.depth
      → s.step ≡ get_or s.priority_change_points s.num_priority_change 0
      → get_or s.priority_change_points (s.num_priority_change + 1) 0 < s.step
      → Returns
          (next_all (messages ∷ rounds) s)
          λ t. t.num_priority_change ≡ s.num_priority_change + 1
  unfolding next_all
  unsorted_points messages rounds s r room at_point smaller =
      Returns-bind _ _ (Chosen fl g messages s) _ (next-Chosen fl g messages s r)
        λ (decision, s') c.
          let moved : s'.num_priority_change ≡ s.num_priority_change + 1 =
            c.num ∙ ground (arith, at_point) in
          Returns-map _ (λ t. t.num_priority_change ≡ s'.num_priority_change) _
            (next_all-IsPast rounds s' (record {
              ready = c.ready;
              waiting = omega (arith, moved, c.depth);
              past = rw (c.points, moved) (ground (arith, c.step));
            }))
            (λ t e. e ∙ moved)
