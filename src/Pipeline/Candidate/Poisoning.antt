-- ===== src/Pipeline/Candidate/Poisoning.antt =====
-- Which observations become candidates.
use poison_trace.Base.{
  ℕ, ◌≤◌, pos, pos_part, ◌≤ℤ◌, true, false, List, any, count_by, none, ◌≡◌, ◌≢◌, ◌↔◌, arith,
}
use poison_trace.Text.Trim.{is_blank}
use poison_trace.Transactions.{resolved, other}
use poison_trace.Counterparties.{receiver}
use poison_trace.Pipeline.Detection.{CandidateGate}
use poison_trace.Pipeline.Detection.FailClosed.{AllGatesPass, evaluate_candidate-AllGatesPass}
use poison_trace.Pipeline.Validation.{
  CandidateMaterializeParams, validate_candidate_materialize_params,
  validate_lookalike_and_injection_params,
}
use poison_trace.Pipeline.Candidate.{WalletTransferObservation}
use poison_trace.Pipeline.Candidate.Gates.{evaluate_base_emission_gates}
use poison_trace.Pipeline.Candidate.Materialize.{build_indexes, observation_gates}
use poison_trace.Pipeline.Candidate.Emission.{emits}
use poison_trace.Pipeline.Candidate.Indexes.{
  is_with, injects_known, last_legit, has-build_pre_window, known_qualifying-build,
}
use poison_trace.Pipeline.Candidate.Sound.{
  IsZeroOrDust, IsRecent, resolved_iff, bool_iff, asset_iff, inbound_iff, dust_iff, new_iff,
  inequality_iff, min_iff, matched, Fits, found→, →found,
}

-- A poisoning injection, with a recency of `d` days: a resolved and eligible inbound transfer of
-- nothing or dust, in a supported asset, from an address that was not seen in a complete baseline,
-- that has sent enough such transfers, and whose best match among the legitimate addresses is
-- another address, last used at most `d` days before.
pub record IsPoisoning (baseline scan : List WalletTransferObservation)
    (p : CandidateMaterializeParams) (d : ℕ) (obs : WalletTransferObservation) : Type 0 where
  pub resolved_owner : obs.transfer.normalization_status ≡ resolved
  pub eligible : obs.transfer.poisoning_eligible ≡ true
  pub supported : obs.transfer.asset_type ≢ other
  pub inbound : obs.relation_type ≡ receiver
  pub worthless : IsZeroOrDust obs.transfer
  pub baseline_complete : p.baseline_complete ≡ true
  pub unseen : any (is_with obs.counterparty_address) baseline ≡ false
  pub repeated :
      pos_part p.lookalike.min_injection_count
      ≤ count_by (injects_known obs.counterparty_address) scan
  pub named : is_blank obs.counterparty_address ≡ false
  pub match_named : is_blank (matched obs baseline p) ≡ false
  pub match_differs : obs.counterparty_address ≢ matched obs baseline p
  pub recent : IsRecent d (last_legit (matched obs baseline p) baseline) obs.transfer.block_time

min_valid :
    (p : CandidateMaterializeParams)
    → validate_candidate_materialize_params p ≡ none
    → pos 1 ≤ℤ p.lookalike.min_injection_count
unfolding validate_candidate_materialize_params validate_lookalike_and_injection_params
min_valid p h = ground arith

module _ (baseline scan : List WalletTransferObservation) (p : CandidateMaterializeParams)
    (obs : WalletTransferObservation) (d : ℕ) (days : p.lookalike.recency_days ≡ pos d)
    (bounded : d ≤ 106751) (valid : validate_candidate_materialize_params p ≡ none) where
  abbrev gates : CandidateGate
  gates = observation_gates (build_indexes baseline scan) p obs

  gates→poisoning : AllGatesPass gates → IsPoisoning baseline scan p d obs
  unfolding observation_gates build_indexes evaluate_base_emission_gates
  gates→poisoning g =
      let fits =
        found→ obs baseline p d days bounded g.lookalike_match g.recency_valid
          ((inequality_iff _ _ _).0 g.address_inequality).2
          ((inequality_iff _ _ _).0 g.address_inequality).3 in
      record {
        resolved_owner = (resolved_iff obs.transfer).0 g.normalization_resolved;
        eligible = (bool_iff _).0 g.poisoning_eligible;
        supported = (asset_iff _).0 g.asset_type_supported;
        inbound = (inbound_iff _).0 g.inbound;
        worthless = (dust_iff obs.transfer).0 g.zero_or_dust;
        baseline_complete = fits.0;
        unseen =
            rw (← has-build_pre_window baseline obs.counterparty_address)
              ((new_iff _ _).0 g.new_counterparty).1;
        repeated =
            rw (← known_qualifying-build scan obs.counterparty_address)
              ((min_iff _ _ (min_valid p valid)).0 g.min_injection_count_met);
        named = ((inequality_iff _ _ _).0 g.address_inequality).1;
        match_named = fits.1;
        match_differs = fits.2;
        recent = fits.3;
      }

  poisoning→gates : IsPoisoning baseline scan p d obs → AllGatesPass gates
  unfolding observation_gates build_indexes evaluate_base_emission_gates
  poisoning→gates i =
      let fits : Fits obs baseline p d =
        (i.baseline_complete, i.match_named, i.match_differs, i.recent) in
      let (lookalike, recency, same) = →found obs baseline p d days bounded fits in
      record {
        normalization_resolved = (resolved_iff obs.transfer).1 i.resolved_owner;
        poisoning_eligible = (bool_iff _).1 i.eligible;
        asset_type_supported = (asset_iff _).1 i.supported;
        inbound = (inbound_iff _).1 i.inbound;
        zero_or_dust = (dust_iff obs.transfer).1 i.worthless;
        new_counterparty = (new_iff _ _).1 (
          i.baseline_complete,
          rw (has-build_pre_window baseline obs.counterparty_address) i.unseen,
        );
        baseline_complete = (bool_iff _).1 i.baseline_complete;
        lookalike_match = lookalike;
        recency_valid = recency;
        address_inequality =
            rw same ((inequality_iff _ _ _).1 (lookalike, i.named, i.match_named, i.match_differs));
        min_injection_count_met =
            (min_iff _ _ (min_valid p valid)).1
              (rw (known_qualifying-build scan obs.counterparty_address) i.repeated);
      }

  -- With valid parameters and a recency of `d` days, at most 106751, an observation passes all gates
  -- exactly if it is a poisoning injection.
  pub emits-IsPoisoning :
      (emits (build_indexes baseline scan) p obs ≡ true) ↔ IsPoisoning baseline scan p d obs
  unfolding emits
  emits-IsPoisoning = (
    λ h. gates→poisoning ((evaluate_candidate-AllGatesPass gates).0 h),
    λ i. (evaluate_candidate-AllGatesPass gates).1 (poisoning→gates i),
  )
