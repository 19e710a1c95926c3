-- ===== src/Scheduling/Quota.antt =====
-- The quota of client requests over the iterations of an experiment: `NextIteration` of
-- RandomScheduler.go fills it up again.
use dstest.Prelude.{
  ℕ, zero, suc, ◌+◌, ◌≡◌, ◌≤◌, ◌<◌, ◌∙◌, refl, true, List, [], ◌∷◌, Outcome, ok, ◌>>=◌, ℤ, pos,
  negsuc, ltb, leb, lt→ltb, if◌then◌else◌, Returns, Returns-bind, Returns-ok, >>=-eq-ok, arith,
  Bool-cases, inl, inr,
}
use dstest.Prelude.Machine.{Floats, Generator, intn}
use dstest.Scheduling.Requests.{
  Client, Answered, requested, hits, get_client_request, get_client_request-Returns, ask,
}
use dstest.Scheduling.RandomScheduler.{RandomScheduler, next_iteration}

-- The requests of iterations with so many calls each, where every call makes one while the quota lasts.
abbrev pub all_within : ℕ → List ℕ → ℕ
all_within quota [] = 0
all_within quota (calls ∷ later) =
    (if leb calls quota then calls else quota) + all_within quota later

module _ (fl : Floats) (g : Generator fl.F) where
  -- Every number drawn passes the test against the probability.
  abbrev pub IsCertain : Client fl g → Type 0
  IsCertain s = fl.eq s.client_request_probability (fl.of_int (pos 1)) ≡ true

  -- The iterations of an experiment with so many calls of `GetClientRequest` each, and how many of all the
  -- calls chose a client.
  unfoldable pub ask_iterations : List ℕ → RandomScheduler fl g → Outcome (ℕ × RandomScheduler fl g)
  ask_iterations [] s = ok (0, s)
  ask_iterations (calls ∷ later) s = do
    (count, client) ← ask fl g calls s.client
    (rest, s') ← ask_iterations later (next_iteration fl g (record s { client = client }))
    ok (count + rest, s')

  -- A certain request is made while the quota lasts.
  get_client_request-IsCertain :
      (s : Client fl g) (result : ℤ × Client fl g)
      → 0 < s.request_quota
      → IsCertain s
      → get_client_request fl g s ≡ ok result
      → requested result.0 ≡ 1
  unfolding get_client_request intn
  get_client_request-IsCertain s result quota certain e =
      let hit : hits fl g (g.float64 s.rand).0 s.client_request_probability ≡ true =
        ground (arith, certain) in
      let ((k, rand), _, last) =
        >>=-eq-ok (intn g s.num_client_types (g.float64 s.rand).1) _
          (rw (lt→ltb 0 s.request_quota quota, hit) at e) in
      let chosen : pos k ≡ result.0 = ground arith in rw (← chosen) refl

  -- How many of the calls chose a client, and what is left of the quota.
  record Spent (calls : ℕ) (s : Client fl g) (result : ℕ × Client fl g) : Type 0 where
    paid : result.0 + result.1.request_quota ≡ s.request_quota
    few : result.0 ≤ calls
    all_made :
        IsCertain s → result.0 ≡ (if leb calls s.request_quota then calls else s.request_quota)
    types : result.1.num_client_types ≡ s.num_client_types
    probability : result.1.client_request_probability ≡ s.client_request_probability

  requested_le : (answer : ℤ) → requested answer ≤ 1
  requested_le (pos k) = omega arith
  requested_le (negsuc k) = omega arith

  -- The first call and the others.
  join-Spent :
      (calls : ℕ) (s : Client fl g) (result : ℤ × Client fl g) (rest : ℕ × Client fl g)
      → get_client_request fl g s ≡ ok result
      → Answered fl g s result
      → Spent calls result.1 rest
      → Spent (suc calls) s (requested result.0 + rest.0, rest.1)
  join-Spent calls s result rest e a later =
      let bound = requested_le result.0 in
      let first = a.paid in
      let others = later.paid in
      let few = later.few in
      record {
        paid = omega arith;
        few = omega arith;
        all_made = λ certain.
            let made = later.all_made (rw a.probability certain) in
            elim (Bool-cases (ltb 0 s.request_quota)) [
              | inl left ↦
                  let one =
                    get_client_request-IsCertain s result (ground (arith, left)) certain e in
                  ground arith
              | inr empty ↦ ground arith
            ];
        types = later.types ∙ a.types;
        probability = later.probability ∙ a.probability;
      }

  ask-Spent :
      (calls : ℕ) (s : Client fl g)
      → 0 < s.num_client_types
      → Returns (ask fl g calls s) (Spent calls s)
  unfolding ask
  ask-Spent zero s some_types = record {
    paid = omega arith;
    few = omega arith;
    all_made = λ certain. ground arith;
    types = refl;
    probability = refl;
  }
  ask-Spent (suc calls) s some_types =
      let (result, e, a) =
        Returns-ok (get_client_request fl g s) (Answered fl g s)
          (get_client_request-Returns fl g s some_types) in
      let (rest, e', later) =
        Returns-ok (ask fl g calls result.1) (Spent calls result.1)
          (ask-Spent calls result.1 (rw a.types some_types)) in
      rw (e, e') (join-Spent calls s result rest e a later)

  -- With the random strategy, a client script and a full quota at the start: in each iteration of an experiment at most the quota of requests is
  -- made, and at most one by a call, so all of them are at most what the iterations allow together;
  -- where the probability is 1, they are exactly that. Each iteration has the quota anew.
  pub ask_iterations-Returns :
      (iterations : List ℕ) (s : RandomScheduler fl g)
      → 0 < s.num_client_types
      → s.request_quota ≡ s.config.scheduler_config.client_requests
      → Returns (ask_iterations iterations s) λ result.
        (result.0 ≤ all_within s.config.scheduler_config.client_requests iterations)
        × (IsCertain s.client
            → result.0 ≡ all_within s.config.scheduler_config.client_requests iterations)
  unfolding ask_iterations next_iteration
  ask_iterations-Returns [] s some_types full = (omega arith, λ certain. refl)
  ask_iterations-Returns (calls ∷ later) s some_types full =
      let quota = s.config.scheduler_config.client_requests in
      Returns-bind _ _ (Spent calls s.client) _ (ask-Spent calls s.client some_types)
        λ (count, client) spent.
          Returns-bind _ _
            (λ result.
              (result.0 ≤ all_within quota later)
              × (IsCertain client → result.0 ≡ all_within quota later))
            _
            (ask_iterations-Returns later (next_iteration fl g (record s { client = client }))
              (rw spent.types some_types) refl)
            λ (rest, s') (few, all_made).
              let here = spent.few in
              let paid = spent.paid in
              (
                ground arith,
                λ certain.
                    let now = spent.all_made certain in
                    let then_all = all_made (rw spent.probability certain) in ground arith,
              )
