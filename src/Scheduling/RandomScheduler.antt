-- ===== src/Scheduling/RandomScheduler.antt =====
-- cmd/dstest/scheduling/RandomScheduler.go
use dstest.Prelude.{
  suc, ◌≡◌, refl, ◌<◌, ltb, List, [], ◌∷◌, Option, none, some, Outcome, ok, panic, type_assertion,
  ◌>>=◌, ℤ, length, if◌then◌else◌, Returns, arith, lt→ltb, >>=-eq-ok, ◌∙◌,
}
use dstest.Prelude.Text.{Text, codes, lookup}
use dstest.Prelude.Machine.{Floats, Generator, intn}
use dstest.Config.{Value, Config, float}
use dstest.Network.Message.{Message}
use dstest.Scheduling.Decision.{SchedulerDecision, send_message, nothing, sending}
use dstest.Scheduling.Requests.{Client}
use dstest.Scheduling.Requests

-- `Params[key].(float64)`: a missing key or a value of another type panics.
abbrev pub float_of : {F : Type 0} → Option (Value F) → Outcome F
float_of none = panic type_assertion
float_of (some v) = elim v [ float x ↦ ok x | _ ↦ panic type_assertion ]

abbrev pub probability_key : Text
probability_key = codes "client_request_probability"

module _ (fl : Floats) (g : Generator fl.F) where
  pub record RandomScheduler : Type 0 where
    pub config : Config fl.F
    pub client : Client fl g
    pub open client use *

  unfoldable pub init : Config fl.F → Outcome RandomScheduler
  init config = do
    probability ← float_of (lookup probability_key config.scheduler_config.params)
    ok (record {
      config = config;
      client = record {
        request_quota = config.scheduler_config.client_requests;
        num_client_types = length config.process_config.client_scripts;
        client_request_probability = probability;
        rand = g.source config.scheduler_config.seed;
      };
    })

  unfoldable pub next_iteration : RandomScheduler → RandomScheduler
  next_iteration s = record s {
    client = record s.client { request_quota = s.config.scheduler_config.client_requests };
  }

  unfoldable pub reset : RandomScheduler → RandomScheduler
  reset s = record s {
    client = record s.client {
      request_quota = s.config.scheduler_config.client_requests;
      rand = g.source s.config.scheduler_config.seed;
    };
  }

  unfoldable pub next :
      List Message → RandomScheduler → Outcome (SchedulerDecision × RandomScheduler)
  next messages s =
      if ltb 0 (length messages)
      then (do
        (i, rand) ← intn g (length messages) s.rand
        ok (sending i, record s { client = record s.client { rand = rand } }))
      else ok (nothing, s)

  unfoldable pub get_client_request : RandomScheduler → Outcome (ℤ × RandomScheduler)
  get_client_request s = do
    (answer, client) ← Requests.get_client_request fl g s.client
    ok (answer, record s { client = client })

  -- A message that can be chosen, or nothing exactly if there is none.
  abbrev pub Picked : List Message → SchedulerDecision → Type 0
  Picked [] d = d ≡ nothing
  Picked (m ∷ messages) d = (d.decision_type ≡ send_message) × (d.index < length (m ∷ messages))

  -- `Next` never panics: it chooses one of the messages, and does nothing exactly if there are none.
  pub next-Picked :
      (messages : List Message) (s : RandomScheduler)
      → Returns (next messages s) λ result. Picked messages result.0
  unfolding next intn
  next-Picked [] s = refl
  next-Picked (m ∷ messages) s =
      rw (lt→ltb 0 (suc (length messages)) (omega arith))
        (refl, g.draw_lt (suc (length messages)) s.rand (omega arith))

  -- What the engine calls between `Init` and `Reset`.
  pub data Op : Type 0 where
    requests iterates : Op
    chooses : List Message → Op

  unfoldable pub apply : Op → RandomScheduler → Outcome RandomScheduler
  apply requests s = do (answer, s') ← get_client_request s; ok s'
  apply iterates s = ok (next_iteration s)
  apply (chooses messages) s = do (decision, s') ← next messages s; ok s'

  unfoldable pub apply_all : List Op → RandomScheduler → Outcome RandomScheduler
  apply_all [] s = ok s
  apply_all (op ∷ ops) s = apply op s >>= apply_all ops

  -- The fields that no call writes.
  record Settled (s t : RandomScheduler) : Type 0 where
    config : t.config ≡ s.config
    types : t.num_client_types ≡ s.num_client_types
    probability : t.client_request_probability ≡ s.client_request_probability

  apply-Settled : (op : Op) (s t : RandomScheduler) → apply op s ≡ ok t → Settled s t
  unfolding apply get_client_request Requests.get_client_request next next_iteration
  apply-Settled requests s t e = record {
    config = ground arith;
    types = ground arith;
    probability = ground arith;
  }
  apply-Settled iterates s t e = record {
    config = ground arith;
    types = ground arith;
    probability = ground arith;
  }
  apply-Settled (chooses messages) s t e = record {
    config = ground arith;
    types = ground arith;
    probability = ground arith;
  }

  apply_all-Settled : (ops : List Op) (s t : RandomScheduler) → apply_all ops s ≡ ok t → Settled s t
  unfolding apply_all
  apply_all-Settled [] s t e = record {
    config = ground arith;
    types = ground arith;
    probability = ground arith;
  }
  apply_all-Settled (op ∷ ops) s t e =
      let (u, first, rest) = >>=-eq-ok (apply op s) (apply_all ops) e in
      let a = apply-Settled op s u first in
      let b = apply_all-Settled ops u t rest in
      record {
        config = b.config ∙ a.config;
        types = b.types ∙ a.types;
        probability = b.probability ∙ a.probability;
      }

  -- After any calls that return, a reset leads back to the state that `Init` made, the generator
  -- included.
  pub reset-init :
      (config : Config fl.F) (ops : List Op) (s t : RandomScheduler)
      → init config ≡ ok s
      → apply_all ops s ≡ ok t
      → reset t ≡ s
  unfolding init reset
  reset-init config ops s t made ran =
      let kept = apply_all-Settled ops s t ran in
      let (p, found, e) =
        >>=-eq-ok (float_of (lookup probability_key config.scheduler_config.params)) _ made in
      ground (arith, e, kept.config, kept.types, kept.probability)
