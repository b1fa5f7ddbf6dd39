-- ===== src/Pipeline/Detection/FailClosed.antt =====
-- The decision that the gates of a candidate give, and its reason.
use poison_trace.Base.{
  true, false, List, [], ◌∷◌, map, not, ◌&&◌, if◌then◌else◌, is_nil, All, ◌≡◌, ◌↔◌, refl, arith,
  any, ◌++◌, ap, ◌∙◌,
}
use poison_trace.Text.{Str, codes, join}
use poison_trace.Pipeline.Detection.{
  GateState, pass, fail, unknown, is_unknown, CandidateGate, RequiredGate, required, decide_gates,
  unknown_names, unknown_reason, unknown_prefix, gate_name, all_pass, evaluate_candidate,
}

-- Every field of the gates is a pass.
pub record AllGatesPass (g : CandidateGate) : Type 0 where
  pub normalization_resolved : g.normalization_resolved ≡ pass
  pub poisoning_eligible : g.poisoning_eligible ≡ pass
  pub asset_type_supported : g.asset_type_supported ≡ pass
  pub inbound : g.inbound ≡ pass
  pub zero_or_dust : g.zero_or_dust ≡ pass
  pub new_counterparty : g.new_counterparty ≡ pass
  pub baseline_complete : g.baseline_complete ≡ pass
  pub lookalike_match : g.lookalike_match ≡ pass
  pub recency_valid : g.recency_valid ≡ pass
  pub address_inequality : g.address_inequality ≡ pass
  pub min_injection_count_met : g.min_injection_count_met ≡ pass

abbrev Passes : RequiredGate → Type 0
Passes r = r.state ≡ pass

gates_from_pass : (l : List RequiredGate) → all_pass l ≡ true → All Passes l
unfolding all_pass
gates_from_pass [] h = tt
gates_from_pass (r ∷ l) h = ground (arith, gates_from_pass l)

All→all_pass : (l : List RequiredGate) → All Passes l → all_pass l ≡ true
unfolding all_pass
All→all_pass [] h = refl
All→all_pass (r ∷ l) h = ground (arith, All→all_pass l h.1)

All→unknown_names : (l : List RequiredGate) → All Passes l → unknown_names l ≡ []
unfolding unknown_names
All→unknown_names [] h = refl
All→unknown_names (r ∷ l) h = ground (arith, All→unknown_names l h.1)

decides :
    (l : List RequiredGate) → (decide_gates l).can_emit ≡ (is_nil (unknown_names l) && all_pass l)
unfolding decide_gates
decides l = ground arith

-- A list of gates gives a candidate exactly if each of them passes.
pub decide_gates_iff : (l : List RequiredGate) → ((decide_gates l).can_emit ≡ true) ↔ All Passes l
decide_gates_iff l = (
  λ h. ground (arith, decides l, gates_from_pass l),
  λ h. ground (arith, decides l, All→unknown_names l h, All→all_pass l h),
)

gates_iff : (g : CandidateGate) → All Passes (required g) ↔ AllGatesPass g
unfolding required
gates_iff g = (λ h. ground arith, λ h. ground arith)

-- A candidate may be emitted exactly if all eleven gates pass.
pub evaluate_candidate-AllGatesPass :
    (g : CandidateGate) → ((evaluate_candidate g).can_emit ≡ true) ↔ AllGatesPass g
unfolding evaluate_candidate
evaluate_candidate-AllGatesPass g = (
  λ h. (gates_iff g).0 ((decide_gates_iff (required g)).0 h),
  λ h. (decide_gates_iff (required g)).1 ((gates_iff g).1 h),
)

-- The states of the eleven gates.
abbrev pub gate_states : CandidateGate → List GateState
gate_states g =
    g.normalization_resolved ∷ g.poisoning_eligible ∷ g.asset_type_supported ∷ g.inbound
    ∷ g.zero_or_dust ∷ g.new_counterparty ∷ g.baseline_complete ∷ g.lookalike_match
    ∷ g.recency_valid ∷ g.address_inequality ∷ g.min_injection_count_met ∷ []

is_nil-unknown_names :
    (l : List RequiredGate) → is_nil (unknown_names l) ≡ not (any is_unknown (map (λ r. r.state) l))
unfolding unknown_names
is_nil-unknown_names [] = refl
is_nil-unknown_names (r ∷ l) = ground (arith, is_nil-unknown_names l)

map_state : (g : CandidateGate) → map (λ r. r.state) (required g) ≡ gate_states g
unfolding required
map_state g = refl

-- The names of the unknown gates, each in its place.
abbrev note : GateState → Str → List Str → List Str
note unknown name names = name ∷ names
note pass name names = names
note fail name names = names

abbrev pub unknown_gates : CandidateGate → List Str
unknown_gates g = note g.normalization_resolved (codes "normalization_resolved") (
    note g.poisoning_eligible (codes "poisoning_eligible") (
      note g.asset_type_supported (codes "asset_type_supported") (
        note g.inbound (codes "inbound") (
          note g.zero_or_dust (codes "zero_or_dust") (
            note g.new_counterparty (codes "is_new_counterparty") (
              note g.baseline_complete (codes "baseline_complete") (
                note g.lookalike_match (codes "lookalike_match") (
                  note g.recency_valid (codes "recency_valid") (
                    note g.address_inequality (codes "address_inequality")
                      (note g.min_injection_count_met (codes "min_injection_count_met") []))))))))))

noted : List RequiredGate → List Str
noted [] = []
noted (r ∷ l) = note r.state (gate_name r.name) (noted l)

map-gate_name : (l : List RequiredGate) → map gate_name (unknown_names l) ≡ noted l
unfolding unknown_names noted
map-gate_name [] = refl
map-gate_name (r ∷ l) = ground (arith, map-gate_name l)

noted-required : (g : CandidateGate) → noted (required g) ≡ unknown_gates g
unfolding noted required gate_name
noted-required g = refl

unknown_reason-of_names :
    (l : List RequiredGate)
    → unknown_reason (unknown_names l) ≡ unknown_prefix ++ join (codes ",") (noted l)
unfolding unknown_reason
unknown_reason-of_names l = ap (λ names. unknown_prefix ++ join (codes ",") names) (map-gate_name l)

decide_gates-incomplete :
    (l : List RequiredGate) (states : List GateState)
    → map (λ r. r.state) l ≡ states
    → ((decide_gates l).incomplete_window ≡ any is_unknown states)
      × (((decide_gates l).incomplete_window && (decide_gates l).can_emit) ≡ false)
      × ((decide_gates l).unknown_gate_reason
          ≡ (if any is_unknown states then unknown_reason (unknown_names l) else []))
unfolding decide_gates
decide_gates-incomplete l states e = rw (← e) (ground (arith, is_nil-unknown_names l))

-- The window is incomplete exactly if a gate is unknown; it is never incomplete when a candidate may
-- be emitted; and the reason names the unknown gates in their order, and is empty without any.
pub evaluate_candidate-incomplete :
    (g : CandidateGate)
    → ((evaluate_candidate g).incomplete_window ≡ any is_unknown (gate_states g))
      × (((evaluate_candidate g).incomplete_window && (evaluate_candidate g).can_emit) ≡ false)
      × ((evaluate_candidate g).unknown_gate_reason ≡ (
          if any is_unknown (gate_states g)
          then codes "unknown_required_gates:" ++ join (codes ",") (unknown_gates g)
          else []))
unfolding evaluate_candidate
evaluate_candidate-incomplete g =
    let (incomplete, blocked, reason) =
      decide_gates-incomplete (required g) (gate_states g) (map_state g) in
    let named =
      unknown_reason-of_names (required g)
      ∙ ap (λ names. unknown_prefix ++ join (codes ",") names) (noted-required g) in
    (
      incomplete,
      blocked,
      reason ∙ ap (λ text. if any is_unknown (gate_states g) then text else []) named,
    )
