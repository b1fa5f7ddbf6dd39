-- ===== src/Tests/Candidates.antt =====
-- Gates, candidates, matches and counterparties at concrete observations.
use mathlib.Core.List.Permᴰ
use poison_trace.Base.{
  ◌≤◌, ◌+◌, ◌&&◌, true, false, [], ◌∷◌, any, foldl, count_by, here, there, ◌≡◌, ◌↔◌, refl, arith,
  if◌then◌else◌, ◌++◌,
}
use poison_trace.Time.{Time, day}
use poison_trace.Dict.{Dict}
use poison_trace.Counterparties.{
  Counterparty, Event, sender, receiver, zero_counterparty, apply_event,
}
use poison_trace.Counterparties.Fold.{foldl-counts, apply_event-perm, is_inbound, is_outbound}
use poison_trace.Text.{codes, join}
use poison_trace.Pipeline.Detection.{fail, unknown, is_unknown, CandidateGate, evaluate_candidate}
use poison_trace.Pipeline.Detection.FailClosed.{
  AllGatesPass, gate_states, unknown_gates, evaluate_candidate-AllGatesPass,
  evaluate_candidate-incomplete,
}
use poison_trace.Pipeline.Candidate.Materialize.{
  build_indexes, observation_gates, empty_result, materialize_candidates,
}
use poison_trace.Pipeline.Candidate.Emission.{emits, Adds, materialize_candidates-Adds}
use poison_trace.Pipeline.Core.{apply_observations_to_counterparties}
use poison_trace.Pipeline.Core.Observed.{
  interactions, is_named, apply_observations_to_counterparties-count,
}
use poison_trace.Pipeline.Candidate.Poisoning.{IsPoisoning, emits-IsPoisoning}
use poison_trace.Pipeline.Validation.{
  validate_candidate_materialize_params, validate_lookalike_and_injection_params,
}
use poison_trace.Pipeline.Candidate.Lookalike.{best_match}
use poison_trace.Pipeline.Candidate.Lookalike.BestMatch.{best_match-perm}
use poison_trace.Tests.Data.{
  friend, imitation, stranger, payment, injection, lookalike, complete, noon,
}

emits-IsPoisoning_example :
    (emits (build_indexes (payment ∷ []) (injection ∷ [])) complete injection ≡ true)
    ↔ IsPoisoning (payment ∷ []) (injection ∷ []) complete 30 injection
unfolding validate_candidate_materialize_params validate_lookalike_and_injection_params
emits-IsPoisoning_example =
    emits-IsPoisoning (payment ∷ []) (injection ∷ []) complete injection 30 refl (omega arith) refl

materialize_candidates-Adds_example :
    Adds
      (build_indexes (payment ∷ []) (injection ∷ []))
      complete
      (injection ∷ [])
      empty_result
      (materialize_candidates (payment ∷ []) (injection ∷ []) complete)
unfolding validate_candidate_materialize_params validate_lookalike_and_injection_params
materialize_candidates-Adds_example =
    materialize_candidates-Adds (payment ∷ []) (injection ∷ []) complete refl

abbrev gates : CandidateGate
gates = observation_gates (build_indexes (payment ∷ []) (injection ∷ [])) complete injection

evaluate_candidate-AllGatesPass_example :
    ((evaluate_candidate gates).can_emit ≡ true) ↔ AllGatesPass gates
evaluate_candidate-AllGatesPass_example = evaluate_candidate-AllGatesPass gates

-- The gates where the baseline is cut short and the address is new.
abbrev open_gates : CandidateGate
open_gates = record gates { new_counterparty = unknown; baseline_complete = fail }

evaluate_candidate-incomplete_example :
    ((evaluate_candidate open_gates).incomplete_window ≡ any is_unknown (gate_states open_gates))
    × (((evaluate_candidate open_gates).incomplete_window
          && (evaluate_candidate open_gates).can_emit)
        ≡ false)
    × ((evaluate_candidate open_gates).unknown_gate_reason ≡ (
        if any is_unknown (gate_states open_gates)
        then codes "unknown_required_gates:" ++ join (codes ",") (unknown_gates open_gates)
        else []))
evaluate_candidate-incomplete_example = evaluate_candidate-incomplete open_gates

abbrev legit : Dict Time
legit = (friend, noon) ∷ (stranger, noon) ∷ []

best_match-perm_example :
    best_match imitation lookalike legit
    ≡ best_match imitation lookalike ((stranger, noon) ∷ (friend, noon) ∷ [])
best_match-perm_example = best_match-perm imitation lookalike (Permᴰ.swap refl refl)

abbrev sent : Event
sent = record {
  focal_wallet_id = 1;
  counterparty_address = friend;
  relation_type = sender;
  occurred_at = noon;
}

abbrev received : Event
received = record sent { relation_type = receiver; occurred_at = noon + day }

abbrev after_both : Counterparty
after_both = foldl apply_event zero_counterparty (received ∷ sent ∷ [])

foldl-counts_example :
    (after_both.inbound_count ≡ count_by is_inbound (received ∷ sent ∷ []))
    × (after_both.outbound_count ≡ count_by is_outbound (received ∷ sent ∷ []))
    × (after_both.interaction_count
        ≡ count_by is_inbound (received ∷ sent ∷ []) + count_by is_outbound (received ∷ sent ∷ []))
    × (after_both.first_seen_at ≤ noon)
    × (noon ≤ after_both.last_seen_at)
foldl-counts_example = foldl-counts (received ∷ sent ∷ []) sent (there (here refl))

apply_event-perm_example :
    foldl apply_event zero_counterparty (received ∷ sent ∷ [])
    ≡ foldl apply_event zero_counterparty (sent ∷ received ∷ [])
apply_event-perm_example =
    apply_event-perm zero_counterparty (Permᴰ.swap {a = received} {b = sent} {l = []} refl refl)

apply_observations_to_counterparties-count_example :
    interactions (apply_observations_to_counterparties [] (payment ∷ injection ∷ []))
    ≡ interactions [] + count_by is_named (payment ∷ injection ∷ [])
apply_observations_to_counterparties-count_example =
    apply_observations_to_counterparties-count [] (payment ∷ injection ∷ [])
