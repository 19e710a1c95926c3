-- ===== src/Scheduling/Decision.antt =====
-- cmd/dstest/scheduling/scheduling.go: the decisions of a scheduler, and the names of the strategies.
use dstest.Prelude.{ℕ, Option, none, some, if◌then◌else◌}
use dstest.Prelude.Text.{Text, codes, text_eq}

-- `index` is 0 where the source leaves it out.
pub data DecisionType : Type 0 where
  no_op send_message inject_fault : DecisionType

unfoldable pub to_string : DecisionType → Text
to_string no_op = codes "NoOp"
to_string send_message = codes "SendMessage"
to_string inject_fault = codes "InjectFault"

pub record SchedulerDecision : Type 0 where
  pub decision_type : DecisionType
  pub index : ℕ

abbrev pub nothing : SchedulerDecision
nothing = record { decision_type = no_op; index = 0 }

abbrev pub sending : ℕ → SchedulerDecision
sending i = record { decision_type = send_message; index = i }

pub data SchedulerType : Type 0 where
  random ql pct replay : SchedulerType

-- The strategy of a name; `none` is the error "unknown scheduler type".
unfoldable pub new_scheduler : Text → Option SchedulerType
new_scheduler name =
    if text_eq name (codes "random")
    then some random
    else if text_eq name (codes "ql")
    then some ql
    else if text_eq name (codes "pct")
    then some pct
    else if text_eq name (codes "replay")
    then some replay
    else none
