-- ===== src/Scheduling/Requests.antt =====
-- The client requests: `GetClientRequest`, the same text in RandomScheduler.go, PCT.go and
-- QLScheduler.go, and its quota.
use dstest.Prelude.{
  ℕ, zero, suc, ◌+◌, ◌-◌, ◌≡◌, refl, ◌<◌, ◌||◌, Bool, true, ok, Outcome, ◌>>=◌, ℤ, pos, negsuc,
  minus_one, ltb, if◌then◌else◌, Returns, arith, Bool-cases, inl, inr, lt→ltb, panic,
  invalid_argument,
}
use dstest.Prelude.Machine.{Floats, Generator, intn}

-- The request that an answer stands for: none is -1.
abbrev pub requested : ℤ → ℕ
requested (pos n) = 1
requested (negsuc n) = 0

-- An answer is -1 or the index of a client script.
abbrev pub InRange : ℕ → ℤ → Type 0
InRange n (pos k) = k < n
InRange n (negsuc k) = negsuc k ≡ minus_one

module _ (fl : Floats) (g : Generator fl.F) where
  -- The fields that the method reads and writes.
  pub record Client : Type 0 where
    pub request_quota : ℕ
    pub num_client_types : ℕ
    pub client_request_probability : fl.F
    pub rand : g.State

  -- The test of a draw against the probability.
  abbrev pub hits : fl.F → fl.F → Bool
  hits r p = fl.le r p || fl.eq p (fl.of_int (pos 1))

  unfoldable pub get_client_request : Client → Outcome (ℤ × Client)
  get_client_request s =
      if ltb 0 s.request_quota
      then (let (r, rand) = g.float64 s.rand in
          if hits r s.client_request_probability
          then (do
            (client_type, rand') ← intn g s.num_client_types rand
            ok (pos client_type, record s { request_quota = s.request_quota - 1; rand = rand' }))
          else ok (minus_one, record s { rand = rand }))
      else ok (minus_one, s)

  -- The calls of a run, and how many of them chose a client.
  unfoldable pub ask : ℕ → Client → Outcome (ℕ × Client)
  ask zero s = ok (0, s)
  ask (suc calls) s = do
    (answer, s') ← get_client_request s
    (count, s'') ← ask calls s'
    ok (requested answer + count, s'')

  pub record Answered (s : Client) (result : ℤ × Client) : Type 0 where
    pub in_range : InRange s.num_client_types result.0
    pub paid : requested result.0 + result.1.request_quota ≡ s.request_quota
    pub types : result.1.num_client_types ≡ s.num_client_types
    pub probability : result.1.client_request_probability ≡ s.client_request_probability

  draw_type :
      (s : Client) (rand : g.State)
      → 0 < s.num_client_types
      → (k : ℕ) × (rand' : g.State) × (intn g s.num_client_types rand ≡ ok (k, rand'))
        × (k < s.num_client_types)
  unfolding intn
  draw_type s rand h = draw_below s.num_client_types h
    where
      draw_below :
          (n : ℕ) → 0 < n → (k : ℕ) × (rand' : g.State) × (intn g n rand ≡ ok (k, rand')) × (k < n)
      draw_below zero lt = elim lt [ ]
      draw_below (suc n) lt =
          ((g.draw (suc n) rand).0, (g.draw (suc n) rand).1, refl, g.draw_lt (suc n) rand lt)

  -- With a client script to choose the method returns: each answer is -1 or the index of one, and
  -- each that is not -1 costs one of the quota.
  pub get_client_request-Returns :
      (s : Client) → 0 < s.num_client_types → Returns (get_client_request s) (Answered s)
  unfolding get_client_request
  get_client_request-Returns s h = elim (Bool-cases (ltb 0 s.request_quota)) [
    | inr empty ↦
        rw empty (record { in_range = refl; paid = omega arith; types = refl; probability = refl })
    | inl left ↦ elim (Bool-cases (hits (g.float64 s.rand).0 s.client_request_probability)) [
      | inr miss ↦
          rw (left, miss)
            (record { in_range = refl; paid = omega arith; types = refl; probability = refl })
      | inl hit ↦
          let (k, rand', e, lk) = draw_type s (g.float64 s.rand).1 h in
          rw (left, hit, e)
            (record { in_range = lk; paid = ground arith; types = refl; probability = refl })
    ]
  ]

  -- Without client scripts a request that the probability lets through panics.
  get_client_request_no_types :
      (s : Client)
      → 0 < s.request_quota
      → hits (g.float64 s.rand).0 s.client_request_probability ≡ true
      → s.num_client_types ≡ 0
      → get_client_request s ≡ panic invalid_argument
  unfolding get_client_request intn
  get_client_request_no_types s quota hit no_types =
      rw (lt→ltb 0 s.request_quota quota, hit, no_types)
