-- ===== src/Pipeline/Candidate/Materialize.antt =====
-- `MaterializeCandidates`: the loop over the scan, with the set of unknown gates that it collects.
use poison_trace.Base.{
  ◌+◌, Bool, true, false, not, List, [], ◌∷◌, ◌++◌, none, some, if◌then◌else◌, foldl,
}
use poison_trace.Text.{Str, codes, is_empty, has_prefix, split, drop, join, str_lt}
use poison_trace.Text.Sort.{sort_by}
use poison_trace.Text.Trim.{trim_space}
use poison_trace.Time.{Time}
use poison_trace.Dict.{Dict, get_or, has, add}
use poison_trace.Transactions.{dust_true, dust_false, dust_unknown, DustStatus}
use poison_trace.Pipeline.Detection.{
  CandidateGate, CandidateDecision, evaluate_candidate, unknown_prefix,
}
use poison_trace.Pipeline.Validation.{
  CandidateMaterializeParams, error_text, validate_candidate_materialize_params,
}
use poison_trace.Pipeline.Candidate.{
  WalletTransferObservation, PoisoningCandidate, CandidateMaterializationResult,
}
use poison_trace.Pipeline.Candidate.Lookalike.{evaluate_lookalike_and_recency}
use poison_trace.Pipeline.Candidate.Gates.{
  gate_bool, gate_zero_or_dust, gate_new_counterparty, gate_address_inequality,
  gate_min_injection_count, InboundCounterpartyStats, no_stats, is_amount_zero,
  evaluate_base_emission_gates, build_pre_window_interaction_set,
  build_legit_baseline_counterparties, build_inbound_counterparty_stats,
}

-- The three indexes that the loop reads.
pub record Indexes : Type 0 where
  pub pre_window_seen : List Str
  pub legit_baseline : Dict Time
  pub inbound_stats : Dict InboundCounterpartyStats

unfoldable pub build_indexes :
    List WalletTransferObservation → List WalletTransferObservation → Indexes
build_indexes baseline scan = record {
  pre_window_seen = build_pre_window_interaction_set baseline;
  legit_baseline = build_legit_baseline_counterparties baseline;
  inbound_stats = build_inbound_counterparty_stats scan;
}

add_gate_name : List Str → Str → List Str
add_gate_name set name =
    let trimmed = trim_space name in if is_empty trimmed then set else add set trimmed

unfoldable pub add_unknown_gates : List Str → Str → List Str
unfolding add_gate_name
add_unknown_gates set reason =
    let trimmed = trim_space reason in
    if is_empty trimmed
    then set
    else if has_prefix trimmed unknown_prefix
    then foldl add_gate_name set (split b',' (drop 23 trimmed))
    else add set trimmed

unfoldable pub build_unknown_gate_reason : List Str → Str
build_unknown_gate_reason [] = []
build_unknown_gate_reason (name ∷ set) =
    unknown_prefix ++ join (codes ",") (sort_by str_lt (name ∷ set))

module _ (ix : Indexes) (p : CandidateMaterializeParams) where
  -- All gates of one observation.
  unfoldable pub observation_gates : WalletTransferObservation → CandidateGate
  observation_gates obs =
      let base = evaluate_base_emission_gates obs in
      let found = evaluate_lookalike_and_recency obs ix.legit_baseline p in
      record {
        normalization_resolved = base.normalization_resolved;
        poisoning_eligible = base.poisoning_eligible;
        asset_type_supported = base.asset_type_supported;
        inbound = base.inbound;
        zero_or_dust = gate_zero_or_dust obs.transfer;
        new_counterparty =
            gate_new_counterparty p.baseline_complete
              (has ix.pre_window_seen obs.counterparty_address);
        baseline_complete = gate_bool p.baseline_complete;
        lookalike_match = found.lookalike_gate;
        recency_valid = found.recency_gate;
        address_inequality =
            gate_address_inequality obs.counterparty_address found.matched_legit
              found.lookalike_gate;
        min_injection_count_met =
            gate_min_injection_count (get_or ix.inbound_stats obs.counterparty_address no_stats)
              p.lookalike.min_injection_count;
      }

  abbrev is_dust_true : DustStatus → Bool
  is_dust_true dust_true = true
  is_dust_true dust_false = false
  is_dust_true dust_unknown = false

  -- The literal `candidate`.
  unfoldable pub candidate_of : WalletTransferObservation → PoisoningCandidate
  candidate_of obs =
      let found = evaluate_lookalike_and_recency obs ix.legit_baseline p in
      record {
        signature = obs.transfer.signature;
        transfer_index = obs.transfer.transfer_index;
        suspicious_counterparty = obs.counterparty_address;
        matched_legit_counterparty = found.matched_legit;
        token_mint = obs.transfer.token_mint;
        amount_raw = obs.transfer.amount_raw;
        block_time = obs.transfer.block_time;
        is_zero_value = (is_amount_zero obs.transfer.amount_raw).0;
        is_dust = is_dust_true obs.transfer.dust_status;
        is_new_counterparty = true;
        is_inbound = true;
        legit_last_seen_at = get_or ix.legit_baseline found.matched_legit 0;
        recency_days = found.recency_days;
        repeat_injection_count =
            (get_or ix.inbound_stats obs.counterparty_address no_stats).known_qualifying;
        incomplete_window = false;
        unknown_gate_reason = [];
        match_rule_version = codes "phase1-v1";
      }

  -- The result so far, and `unknownGates`.
  abbrev State : Type 0
  State = CandidateMaterializationResult × List Str

  -- `if decision.IncompleteWindow { … }`.
  unfoldable pub note_incomplete : CandidateDecision → State → State
  note_incomplete decision (res, set) =
      if decision.incomplete_window
      then (
        record res { incomplete_window = true; unknown_gate_blocks = res.unknown_gate_blocks + 1 },
        add_unknown_gates set decision.unknown_gate_reason,
      )
      else (res, set)

  unfoldable pub materialize_step : State → WalletTransferObservation → State
  unfolding note_incomplete
  materialize_step st obs =
      let decision = evaluate_candidate (observation_gates obs) in
      let (res, set) = note_incomplete decision st in
      if not decision.can_emit
      then (record res { candidate_blocks = res.candidate_blocks + 1 }, set)
      else (record res { candidates = res.candidates ++ candidate_of obs ∷ [] }, set)

abbrev pub empty_result : CandidateMaterializationResult
empty_result = record {
  candidates = [];
  incomplete_window = false;
  unknown_gate_reason = [];
  unknown_gate_blocks = 0;
  candidate_blocks = 0;
}

-- The last `if`.
unfoldable pub close_result :
    CandidateMaterializationResult × List Str → CandidateMaterializationResult
close_result (res, set) =
    if res.incomplete_window
    then record res { unknown_gate_reason = build_unknown_gate_reason set }
    else res

unfoldable pub materialize_candidates :
    List WalletTransferObservation
    → List WalletTransferObservation
    → CandidateMaterializeParams
    → CandidateMaterializationResult
unfolding close_result
materialize_candidates baseline scan p = elim (validate_candidate_materialize_params p) [
  | some err ↦ record empty_result {
    incomplete_window = true;
    unknown_gate_reason = codes "invalid_candidate_params:" ++ error_text err;
  }
  | none ↦
      close_result
        (foldl (materialize_step (build_indexes baseline scan) p) (empty_result, []) scan)
]
