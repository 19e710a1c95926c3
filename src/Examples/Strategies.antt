-- ===== src/Examples/Strategies.antt =====
-- The schedulers with a generator that alternates between the smallest and the largest number, and with
-- natural numbers in place of floating-point ones.
use dstest.Prelude.{
  ◌/◌, ℕ, zero, suc, ◌+◌, ◌-◌, ◌*◌, ◌<◌, ◌≤◌, ◌≡◌, ◌≢◌, refl, ltb, leb, ◌==◌, Bool, true, false,
  not, List, [], ◌∷◌, ok, pos, pos_part, arith, Returns, if◌then◌else◌,
}
use dstest.Prelude.Text.{codes}
use dstest.Prelude.Machine.{Floats, Generator, intn}
use dstest.Config.{Config, int, float}
use dstest.Network.Message.{Message, bytes}
use dstest.Scheduling.Requests.{Client, get_client_request}
use dstest.Scheduling.Quota.{IsCertain, ask_iterations, ask_iterations-Returns}
use dstest.Scheduling.RandomScheduler
use dstest.Scheduling.RandomScheduler.{
  RandomScheduler, Picked, Op, requests, iterates, chooses, apply_all, next-Picked, reset-init,
}
use dstest.Scheduling.Pct
use dstest.Scheduling.Pct.{Pct, draw_all}
use dstest.Scheduling.Pct.Draws.{draw_all_never}
use dstest.Scheduling.Pct.Choice.{IsReady, Chosen, next-Chosen}
use dstest.Scheduling.Pct.Progress.{next_all, unsorted_points}
use dstest.Scheduling.Pct.Start.{Fits, IsDealt, init-IsDealt}
use dstest.Scheduling.Replay.{ReplayScheduler, decisions, planned, decisions-planned}

abbrev pub naturals : Floats
naturals = record {
  F = ℕ;
  lt = ltb;
  le = leb;
  eq = λ a b. a == b;
  add = λ a b. a + b;
  sub = λ a b. a - b;
  mul = λ a b. a * b;
  div = λ a b. a / b;
  log10 = λ a. if leb 1000 a then 3 else if leb 100 a then 2 else if leb 10 a then 1 else 0;
  min = λ a b. if leb a b then a else b;
  max = λ a b. if leb a b then b else a;
  of_int = pos_part;
  to_int = pos;
  hundredth = 0;
}

abbrev pub extreme : ℕ → Bool → ℕ
extreme max low = if low then 0 else max - 1

pub extreme_lt : (max : ℕ) (low : Bool) → 0 < max → extreme max low < max
extreme_lt max true h = h
extreme_lt max false h = omega arith

abbrev pub alternating : Generator ℕ
alternating = record {
  State = Bool;
  source = λ seed. true;
  draw = λ max low. (extreme max low, not low);
  float64 = λ low. (0, low);
  draw_lt = extreme_lt;
}

two_fair : (low : Bool) (i : ℕ) → i < 2 → Pct.Draws.shows naturals alternating 2 2 i low ≡ true
two_fair true zero h = refl
two_fair true (suc zero) h = refl
two_fair true (suc (suc i)) h = absurd (omega arith)
two_fair false zero h = refl
two_fair false (suc zero) h = refl
two_fair false (suc (suc i)) h = absurd (omega arith)

abbrev pub config : Config ℕ
config = record {
  test_config = record {
    name = [];
    experiments = 1;
    iterations = 2;
    wait_duration = 1;
    startup_duration = 0;
  };
  scheduler_config = record {
    type = codes "pct";
    steps = 2;
    client_requests = 3;
    seed = pos 1;
    params = (codes "d", int (pos 1)) ∷ (codes "client_request_probability", float 1) ∷ [];
  };
  network_config = record {
    base_replica_port = 7000;
    base_interceptor_port = 9000;
    protocol = [];
    message_type = [];
  };
  fault_config = record { faults = [] };
  process_config = record {
    num_replicas = 2;
    timeout = 10;
    output_dir = [];
    replica_script = [];
    client_scripts = [] ∷ [] ∷ [];
    clean_script = [];
    replica_params = [] ∷ [] ∷ [];
  };
}

abbrev pub client : ℕ → Client naturals alternating
client types = record {
  request_quota = 3;
  num_client_types = types;
  client_request_probability = 1;
  rand = true;
}

abbrev message : ℕ → Message
message from = record {
  address = 0;
  sender = pos from;
  receiver = pos 0;
  payload = bytes [];
  type = [];
  name = [];
  message_id = 1;
  send = 0;
}

abbrev pub messages : List Message
messages = message 0 ∷ message 1 ∷ message 0 ∷ []

abbrev random : RandomScheduler naturals alternating
random = record { config = config; client = client 2 }

-- Three of five calls, and both of two.
ask_iterations-Returns_example :
    Returns
      (ask_iterations naturals alternating (5 ∷ 2 ∷ []) random)
      λ result. (result.0 ≤ 5) × (IsCertain naturals alternating random.client → result.0 ≡ 5)
ask_iterations-Returns_example =
    ask_iterations-Returns naturals alternating (5 ∷ 2 ∷ []) random (omega arith) refl

abbrev ops : List (Op naturals alternating)
ops = requests ∷ iterates ∷ chooses messages ∷ requests ∷ []

init-random : RandomScheduler.init naturals alternating config ≡ ok random
unfolding RandomScheduler.init
init-random = refl

abbrev used : RandomScheduler naturals alternating
used = record {
  config = config;
  client = record {
    request_quota = 2;
    num_client_types = 2;
    client_request_probability = 1;
    rand = false;
  };
}

apply_all-used : apply_all naturals alternating ops random ≡ ok used
unfolding apply_all RandomScheduler.apply RandomScheduler.get_client_request get_client_request intn
    RandomScheduler.next RandomScheduler.next_iteration
apply_all-used = refl

reset-init_example : RandomScheduler.reset naturals alternating used ≡ random
reset-init_example =
    reset-init naturals alternating config ops random used init-random apply_all-used

abbrev pct : ℕ → ℕ → List ℕ → List ℕ → ℕ → Pct naturals alternating
pct depth num points priorities step = record {
  config = config;
  client = client 2;
  depth = depth;
  initial_priorities = priorities;
  priority_change_points = points;
  num_priority_change = num;
  step = step;
}

abbrev started : Pct naturals alternating
started = pct 2 0 (5 ∷ 3 ∷ []) (1 ∷ 0 ∷ 2 ∷ []) 5

started-IsReady : IsReady naturals alternating started
started-IsReady = record { points = refl; priorities = omega arith; counted = omega arith }

next-Chosen_example :
    Returns
      (Pct.next naturals alternating messages started)
      (Chosen naturals alternating messages started)
next-Chosen_example = next-Chosen naturals alternating messages started started-IsReady

unsorted_points_example :
    Returns
      (next_all naturals alternating (messages ∷ messages ∷ [] ∷ []) started)
      (λ t. t.num_priority_change ≡ 0 + 1)
unsorted_points_example =
    unsorted_points naturals alternating messages (messages ∷ [] ∷ []) started started-IsReady
      (omega arith) refl (omega arith)

draw_all_never_example : draw_all naturals alternating 9 2 3 [] true ≢ ok (0 ∷ 1 ∷ 0 ∷ [], false)
draw_all_never_example =
    draw_all_never naturals alternating 9 2 3 true (0 ∷ 1 ∷ 0 ∷ []) false (omega arith)

config-Fits : Fits naturals alternating 2 config 1 true
config-Fits = record {
  shows_steps = λ k i lk li. two_fair _ i li;
  shows_replicas = λ j lj k i lk li. two_fair _ i li;
  in_steps = omega arith;
  in_replicas = omega arith;
}

init-IsDealt_example :
    Returns (Pct.init naturals alternating 2 config) (IsDealt naturals alternating config)
init-IsDealt_example = init-IsDealt naturals alternating 2 config config-Fits

abbrev recorded : ReplayScheduler
recorded = record { actions = codes "a" ∷ codes "b" ∷ []; index = 0 }

decisions-planned_example : decisions ((messages ∷ []) ∷ ([] ∷ [] ∷ []) ∷ []) recorded ≡ planned 2 3
decisions-planned_example = decisions-planned ((messages ∷ []) ∷ ([] ∷ [] ∷ []) ∷ []) recorded
