-- ===== src/Scheduling/Ql/QlScheduler.antt =====
-- cmd/dstest/scheduling/QLScheduler.go. `Next` asks the agent for an action; nothing teaches the agent.
use dstest.Prelude.{
  ℕ, suc, ◌≡◌, ◌≢◌, ◌⊎◌, sym, ap, ◌∙◌, >>=-eq-ok, refl, false, List, [], ◌∷◌, Option, none, some,
  Outcome, ok, panic, type_assertion, ◌>>=◌, ℤ, pos, length, Returns, arith, Bool-cases, inl, inr,
}
use dstest.Prelude.Text.{Text, codes, lookup}
use dstest.Prelude.Machine.{Floats, Generator, intn}
use dstest.Config.{Value, Config}
use dstest.Network.Message.{Message}
use dstest.Scheduling.Decision.{SchedulerDecision, nothing, sending}
use dstest.Scheduling.Requests.{Client}
use dstest.Scheduling.Requests
use dstest.Scheduling.RandomScheduler.{float_of, Picked}
use dstest.Scheduling.Ql.DynamicMemTable.{get_max-zero}
use dstest.Scheduling.Ql.Agent.{Agent, action}
use dstest.Scheduling.Ql.Adapting.{new_agent}

-- `Params[key].(float32)` for a key that is there: no decoder of the file gives such a value.
abbrev pub float32_of : {F : Type 0} → F → Option (Value F) → Outcome F
float32_of default none = ok default
float32_of default (some v) = panic type_assertion

float32_absent :
    {F : Type 0} (default : F) (o : Option (Value F)) (x : F)
    → float32_of default o ≡ ok x
    → o ≡ none
float32_absent default none x e = refl
float32_absent default (some v) x e = cc

module _ (fl : Floats) (g : Generator fl.F) where
  -- `rand` draws the client requests, and `agent_rand` is the generator of the agent.
  pub record QlScheduler : Type 0 where
    pub client : Client fl g
    pub agent : Agent fl
    pub agent_rand : g.State

  -- The default values of the source, and the clock that seeds the agent.
  pub record Defaults : Type 0 where
    pub alpha : fl.F
    pub gamma : fl.F
    pub epsilon : fl.F

  unfoldable pub init : Defaults → ℤ → Config fl.F → Outcome QlScheduler
  init defaults clock config = do
    probability ←
        float_of (lookup (codes "client_request_probability") config.scheduler_config.params)
    epsilon ← float32_of defaults.epsilon (lookup (codes "Epsilon") config.scheduler_config.params)
    gamma ← float32_of defaults.gamma (lookup (codes "Gamma") config.scheduler_config.params)
    alpha ← float32_of defaults.alpha (lookup (codes "Alpha") config.scheduler_config.params)
    ok (record {
      client = record {
        request_quota = config.scheduler_config.client_requests;
        num_client_types = length config.process_config.client_scripts;
        client_request_probability = probability;
        rand = g.source config.scheduler_config.seed;
      };
      agent = new_agent fl (record {
        hyperparameters = record {
          epsilon = epsilon;
          gamma = gamma;
          alpha = alpha;
          ada_divisor = fl.of_int (pos 0);
        };
        table = none;
      });
      agent_rand = g.source clock;
    })

  unfoldable pub reset : QlScheduler → QlScheduler
  reset s = s

  -- `draw` is the number that the agent draws, and `hash` gives the hash of the messages.
  unfoldable pub next :
      (List Message → ℕ)
      → fl.F
      → List Message
      → QlScheduler
      → Outcome (SchedulerDecision × QlScheduler)
  next hash draw [] s = ok (nothing, s)
  next hash draw (m ∷ messages) s = do
    (act, rand) ← action fl g s.agent draw (hash (m ∷ messages)) (m ∷ messages) s.agent_rand
    ok (sending act, record s { agent_rand = rand })

  unfoldable pub get_client_request : QlScheduler → Outcome (ℤ × QlScheduler)
  get_client_request s = do
    (answer, client) ← Requests.get_client_request fl g s.client
    ok (answer, record s { client = client })

  -- The index is 0 unless the agent explores.
  abbrev pub Exploited : fl.F → QlScheduler → List Message → SchedulerDecision → Type 0
  Exploited draw s [] d = Unit
  Exploited draw s (m ∷ messages) d = fl.lt draw s.agent.epsilon ≡ false → d ≡ sending 0

  -- `Next` never panics: it chooses one of the messages, and nothing exactly if there are none; it
  -- chooses the first whenever the agent does not explore, whatever its table holds; and the agent
  -- stays as it is.
  pub next-Exploited :
      (hash : List Message → ℕ) (draw : fl.F) (messages : List Message) (s : QlScheduler)
      → Returns (next hash draw messages s) λ result.
        Picked fl g messages result.0
        × Exploited draw s messages result.0
        × (result.1.agent ≡ s.agent)
  unfolding next action intn
  next-Exploited hash draw [] s = (refl, tt, refl)
  next-Exploited hash draw (m ∷ messages) s = elim (Bool-cases (fl.lt draw s.agent.epsilon)) [
    | inl explores ↦
        rw explores
          ((refl, g.draw_lt (suc (length messages)) s.agent_rand (omega arith)), (λ no. cc), refl)
    | inr exploits ↦ rw exploits (
        rw (get_max-zero fl s.agent.table (hash (m ∷ messages)))
          ((refl, omega arith), (λ _. refl), refl))
  ]

  -- With any value configured for Epsilon, Gamma or Alpha, `Init` does not return.
  init_configured :
      (defaults : Defaults) (clock : ℤ) (config : Config fl.F) (s : QlScheduler) (key : Text)
      (v : Value fl.F)
      → ((key ≡ codes "Epsilon") ⊎ (key ≡ codes "Gamma")) ⊎ (key ≡ codes "Alpha")
      → lookup key config.scheduler_config.params ≡ some v
      → init defaults clock config ≢ ok s
  unfolding init
  init_configured defaults clock config s key v which given made =
      let (p, _, e1) =
        >>=-eq-ok
          (float_of (lookup (codes "client_request_probability") config.scheduler_config.params)) _
          made in
      let (eps, epsilon_ok, e2) =
        >>=-eq-ok
          (float32_of defaults.epsilon (lookup (codes "Epsilon") config.scheduler_config.params)) _
          e1 in
      let (gam, gamma_ok, e3) =
        >>=-eq-ok
          (float32_of defaults.gamma (lookup (codes "Gamma") config.scheduler_config.params)) _
          e2 in
      let (alp, alpha_ok, e4) =
        >>=-eq-ok
          (float32_of defaults.alpha (lookup (codes "Alpha") config.scheduler_config.params)) _
          e3 in
      let no_epsilon = float32_absent defaults.epsilon _ eps epsilon_ok in
      let no_gamma = float32_absent defaults.gamma _ gam gamma_ok in
      let no_alpha = float32_absent defaults.alpha _ alp alpha_ok in
      elim which [
        | inl (inl k) ↦
            some_none (sym given ∙ ap (λ t. lookup t config.scheduler_config.params) k ∙ no_epsilon)
        | inl (inr k) ↦
            some_none (sym given ∙ ap (λ t. lookup t config.scheduler_config.params) k ∙ no_gamma)
        | inr k ↦
            some_none (sym given ∙ ap (λ t. lookup t config.scheduler_config.params) k ∙ no_alpha)
      ]
    where
      some_none : some v ≡ none → ⊥
      some_none e = cc
