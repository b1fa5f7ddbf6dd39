-- ===== src/Pipeline/Detection.antt =====
-- internal/pipeline/detection.go: the gates of a candidate, and the decision that they give.
pub mod FailClosed
use poison_trace.Base.{
  Bool, true, false, ◌||◌, ◌&&◌, not, List, [], ◌∷◌, ◌++◌, map, select, is_nil, if◌then◌else◌,
}
use poison_trace.Text.{Str, codes, join, str_eq}
use poison_trace.Transactions.{NormalizedTransfer, DustStatus, dust_true, dust_false, dust_unknown}

pub data GateState : Type 0 where
  pass fail unknown : GateState

abbrev pub is_pass : GateState → Bool
is_pass pass = true
is_pass fail = false
is_pass unknown = false

abbrev pub is_unknown : GateState → Bool
is_unknown pass = false
is_unknown fail = false
is_unknown unknown = true

pub record CandidateGate : Type 0 where
  pub normalization_resolved : GateState
  pub poisoning_eligible : GateState
  pub asset_type_supported : GateState
  pub inbound : GateState
  pub zero_or_dust : GateState
  pub new_counterparty : GateState
  pub baseline_complete : GateState
  pub lookalike_match : GateState
  pub recency_valid : GateState
  pub address_inequality : GateState
  pub min_injection_count_met : GateState

-- The names of the required gates, as constructors; `gate_name` is the text of each.
pub data GateName : Type 0 where
  normalization_resolved poisoning_eligible asset_type_supported inbound zero_or_dust : GateName
  is_new_counterparty baseline_complete lookalike_match recency_valid : GateName
  address_inequality min_injection_count_met : GateName

unfoldable pub gate_name : GateName → Str
gate_name normalization_resolved = codes "normalization_resolved"
gate_name poisoning_eligible = codes "poisoning_eligible"
gate_name asset_type_supported = codes "asset_type_supported"
gate_name inbound = codes "inbound"
gate_name zero_or_dust = codes "zero_or_dust"
gate_name is_new_counterparty = codes "is_new_counterparty"
gate_name baseline_complete = codes "baseline_complete"
gate_name lookalike_match = codes "lookalike_match"
gate_name recency_valid = codes "recency_valid"
gate_name address_inequality = codes "address_inequality"
gate_name min_injection_count_met = codes "min_injection_count_met"

pub record RequiredGate : Type 0 where
  pub name : GateName
  pub state : GateState

abbrev gate : GateName → GateState → RequiredGate
gate n s = record { name = n; state = s }

-- The slice `required`.
unfoldable pub required : CandidateGate → List RequiredGate
required g =
    gate normalization_resolved g.normalization_resolved
    ∷ gate poisoning_eligible g.poisoning_eligible
    ∷ gate asset_type_supported g.asset_type_supported
    ∷ gate inbound g.inbound
    ∷ gate zero_or_dust g.zero_or_dust
    ∷ gate is_new_counterparty g.new_counterparty
    ∷ gate baseline_complete g.baseline_complete
    ∷ gate lookalike_match g.lookalike_match
    ∷ gate recency_valid g.recency_valid
    ∷ gate address_inequality g.address_inequality
    ∷ gate min_injection_count_met g.min_injection_count_met
    ∷ []

pub record CandidateDecision : Type 0 where
  pub can_emit : Bool
  pub incomplete_window : Bool
  pub unknown_gate_reason : Str

abbrev pub unknown_prefix : Str
unknown_prefix = codes "unknown_required_gates:"

unfoldable pub unknown_reason : List GateName → Str
unknown_reason names = unknown_prefix ++ join (codes ",") (map gate_name names)

unfoldable pub unknown_names : List RequiredGate → List GateName
unknown_names gates = map (λ r. r.name) (select (λ r. is_unknown r.state) gates)

unfoldable pub all_pass : List RequiredGate → Bool
all_pass [] = true
all_pass (r ∷ rs) = if not (is_pass r.state) then false else all_pass rs

-- The two loops over the required gates.
unfoldable pub decide_gates : List RequiredGate → CandidateDecision
unfolding unknown_names all_pass unknown_reason
decide_gates gates =
    let names = unknown_names gates in
    if not (is_nil names)
    then record {
      can_emit = false;
      incomplete_window = true;
      unknown_gate_reason = unknown_reason names;
    }
    else if all_pass gates
    then record { can_emit = true; incomplete_window = false; unknown_gate_reason = [] }
    else record { can_emit = false; incomplete_window = false; unknown_gate_reason = [] }

unfoldable pub evaluate_candidate : CandidateGate → CandidateDecision
evaluate_candidate g = decide_gates (required g)

unfoldable pub can_emit_candidate : CandidateGate → Bool
can_emit_candidate g = (evaluate_candidate g).can_emit

unfoldable pub is_zero_or_dust : NormalizedTransfer → Bool
is_zero_or_dust t =
    str_eq t.amount_raw (codes "0")
    || (elim t.dust_status [ dust_true ↦ true | dust_false ↦ false | dust_unknown ↦ false ])
