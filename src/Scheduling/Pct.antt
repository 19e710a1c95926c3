-- ===== src/Scheduling/Pct.antt =====
-- cmd/dstest/scheduling/PCT.go: probabilistic concurrency testing. One replica at a time has the
-- priority, and the priority moves on at randomly drawn steps.
pub mod Draws
pub mod Limits
pub mod Choice
pub mod Progress
pub mod Start
use dstest.Prelude.{
  ℕ, zero, suc, ◌+◌, ◌==◌, ltb, Bool, true, false, List, [], ◌∷◌, ◌++◌, Option, none, some, Outcome,
  ok, out_of_fuel, ◌>>=◌, ℤ, pos, negsuc, minus_one, eq_ℤ, pos_part, length, at, for_each,
  if◌then◌else◌, ◌||◌, ltb_ℤ,
}
use dstest.Prelude.Text.{Text, codes, lookup}
use dstest.Prelude.Machine.{Floats, Generator, intn}
use dstest.Config.{Value, Params, Config, int, float, text, compound}
use dstest.Network.Message.{Message}
use dstest.Scheduling.Decision.{SchedulerDecision, nothing, sending}
use dstest.Scheduling.Requests.{Client}
use dstest.Scheduling.Requests

unfoldable pub contains : ℕ → List ℕ → Bool
contains i [] = false
contains i (val ∷ s) = val == i || contains i s

-- The choice of an index: the last message whose sender has the priority.
unfoldable pub choose : List ℕ → ℕ → List Message → Outcome ℤ
choose priorities num messages =
    for_each 0 messages
      (λ i message decision. do
        priority ← at priorities (pos num)
        ok (if eq_ℤ message.sender (pos priority) then pos i else decision))
      minus_one

-- The decision for an index, where -1 stands for none.
abbrev pub decide_by : ℤ → SchedulerDecision
decide_by (pos i) = sending i
decide_by (negsuc k) = nothing

module _ (fl : Floats) (g : Generator fl.F) where
  -- A negative depth makes no draw and passes no test, like 0.
  pub record Pct : Type 0 where
    pub config : Config fl.F
    pub client : Client fl g
    pub open client use *
    pub depth : ℕ
    pub initial_priorities : List ℕ
    pub priority_change_points : List ℕ
    pub num_priority_change : ℕ
    pub step : ℕ

  abbrev pub probability_of : Option (Value fl.F) → fl.F
  probability_of none = fl.hundredth
  probability_of (some v) = elim v [ float x ↦ x | int n ↦ fl.of_int n | _ ↦ fl.hundredth ]

  abbrev pub depth_of : Option (Value fl.F) → ℕ
  depth_of none = 2
  depth_of (some v) = elim v [ float x ↦ pos_part (fl.to_int x) | int n ↦ pos_part n | _ ↦ 2 ]

  -- `for { i := Intn(max); if !contains(i, arr) { return i } }`, at most `fuel` rounds of it.
  unfoldable pub distinct_random_integer : ℕ → ℕ → List ℕ → g.State → Outcome (ℕ × g.State)
  distinct_random_integer zero max arr rand = out_of_fuel
  distinct_random_integer (suc fuel) max arr rand = do
    (i, rand') ← intn g max rand
    let again = distinct_random_integer fuel max arr rand'
    if contains i arr then again else ok (i, rand')

  -- `for i := 0; i < rounds; i++ { arr = append(arr, distinctRandomInteger(max, arr)) }`
  unfoldable pub draw_all : ℕ → ℕ → ℕ → List ℕ → g.State → Outcome (List ℕ × g.State)
  draw_all fuel max zero arr rand = ok (arr, rand)
  draw_all fuel max (suc rounds) arr rand = do
    (i, rand') ← distinct_random_integer fuel max arr rand
    draw_all fuel max rounds (arr ++ i ∷ []) rand'

  -- The draws of `Init` and of `NextIteration`.
  unfoldable pub redraw : ℕ → Pct → Outcome Pct
  redraw fuel s = do
    (points, rand) ← draw_all fuel s.config.scheduler_config.steps s.depth [] s.rand
    let n = s.config.process_config.num_replicas
    (priorities, rand') ← draw_all fuel n n [] rand
    ok (record s {
      client = record s.client { rand = rand' };
      priority_change_points = points;
      initial_priorities = priorities;
    })

  unfoldable pub init : ℕ → Config fl.F → Outcome Pct
  init fuel config =
      let params = config.scheduler_config.params in
      redraw fuel (record {
        config = config;
        client = record {
          request_quota = config.scheduler_config.client_requests;
          num_client_types = length config.process_config.client_scripts;
          client_request_probability =
              probability_of (lookup (codes "client_request_probability") params);
          rand = g.source config.scheduler_config.seed;
        };
        depth = depth_of (lookup (codes "d") params);
        initial_priorities = [];
        priority_change_points = [];
        num_priority_change = 0;
        step = 0;
      })

  unfoldable pub next_iteration : ℕ → Pct → Outcome Pct
  next_iteration fuel s = redraw fuel (record s {
    client = record s.client { request_quota = s.config.scheduler_config.client_requests };
    num_priority_change = 0;
    step = 0;
    priority_change_points = [];
    initial_priorities = [];
  })

  -- The points, the priorities and the counters stay.
  unfoldable pub reset : Pct → Pct
  reset s = record s {
    client = record s.client {
      request_quota = s.config.scheduler_config.client_requests;
      rand = g.source s.config.scheduler_config.seed;
    };
  }

  -- The test for a change point.
  unfoldable pub advance : Pct → Outcome Pct
  advance s =
      if ltb s.num_priority_change s.depth
      then (do
        point ← at s.priority_change_points (pos s.num_priority_change)
        ok (
            if s.step == point
            then record s { num_priority_change = s.num_priority_change + 1 }
            else s))
      else ok s

  unfoldable pub next : List Message → Pct → Outcome (SchedulerDecision × Pct)
  next messages s = do
    s' ← advance s
    if ltb 0 (length messages)
        then (do
          let s'' = record s' { step = s'.step + 1 }
          decision ← choose s''.initial_priorities s''.num_priority_change messages
          ok (decide_by decision, s''))
        else ok (nothing, s')

  unfoldable pub get_client_request : Pct → Outcome (ℤ × Pct)
  get_client_request s = do
    (answer, client) ← Requests.get_client_request fl g s.client
    ok (answer, record s { client = client })
