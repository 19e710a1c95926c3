-- ===== src/Examples/Learning.antt =====
-- The Q-learning agent and its scheduler with a table of one state.
use dstest.Prelude.{
  List, ◌*◌, ◌+◌, ◌%◌, ◌^◌, panic, index_out_of_range, ℕ, ◌≡◌, refl, false, [], ◌∷◌, none, some,
  Returns, find,
}
use dstest.Scheduling.RandomScheduler.{Picked}
use dstest.Scheduling.Ql.DynamicMemTable.{Row}
use dstest.Scheduling.Ql.Agent.{Agent, learn, AllSingle, learn-AllSingle}
use dstest.Scheduling.Ql.QlScheduler
use dstest.Scheduling.Ql.QlScheduler.{QlScheduler, Defaults, Exploited, next-Exploited}
use dstest.Scheduling.Ql.Hashing.{state_hash, state_hash_same}
use dstest.Examples.Messages.{hello}
use dstest.Examples.Strategies.{naturals, alternating, client, messages}

abbrev agent : Agent naturals
agent = record {
  epsilon = 3;
  gamma = 1;
  alpha = 1;
  ada_divisor = 5;
  min_alpha = 1;
  table = (50, (2, 7) ∷ []) ∷ [];
}

learn-AllSingle_example :
    ((a' : Agent naturals) → learn naturals 1 50 60 5 agent ≡ some a' → AllSingle naturals a'.table)
    × ((qv : Row naturals)
        → find 50 agent.table ≡ some qv
        → find 1 qv ≡ none
        → learn naturals 1 50 60 5 agent ≡ none)
learn-AllSingle_example = learn-AllSingle naturals 1 50 60 5 agent (refl, tt)

abbrev scheduler : QlScheduler naturals alternating
scheduler = record { client = client 2; agent = agent; agent_rand = false }

next-Exploited_example :
    Returns (QlScheduler.next naturals alternating (λ l. 50) 4 messages scheduler) λ result.
      Picked naturals alternating messages result.0
      × Exploited naturals alternating 4 scheduler messages result.0
      × (result.1.agent ≡ agent)
next-Exploited_example = next-Exploited naturals alternating (λ l. 50) 4 messages scheduler

-- Bytes fold to a number, and a number is hashed by a step.
abbrev fold_bytes : List ℕ → ℕ
fold_bytes [] = 7
fold_bytes (b ∷ bs) = (fold_bytes bs * 31 + b) % 2 ^ 32

abbrev step_hash : ℕ → ℕ
step_hash h = (h * 31 + 7) % 2 ^ 32

state_hash_same_example :
    (state_hash (λ m. none) fold_bytes step_hash (hello ∷ hello ∷ hello ∷ [])
      ≡ state_hash (λ m. none) fold_bytes step_hash messages)
    × (state_hash (λ m. none) fold_bytes step_hash [] ≡ panic index_out_of_range)
state_hash_same_example =
    state_hash_same (λ m. none) fold_bytes step_hash (λ m. refl) (hello ∷ hello ∷ hello ∷ [])
      messages refl
