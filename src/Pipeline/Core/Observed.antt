-- ===== src/Pipeline/Core/Observed.antt =====
-- The counterparties of a wallet after its observations.
use poison_trace.Base.{ℕ, ◌+◌, Bool, not, List, [], ◌∷◌, count_by, ◌≡◌, arith, Bool-cases, inl, inr}
use poison_trace.Text.{Str, str_eq, is_empty}
use poison_trace.Text.Trim.{trim_space}
use poison_trace.Dict.{Dict, get_or, put}
use poison_trace.Counterparties.{
  Counterparty, zero_counterparty, Event, see, apply_direction, apply_event,
}
use poison_trace.Pipeline.Candidate.{WalletTransferObservation}
use poison_trace.Pipeline.Core.{
  name_counterparty, apply_observation, apply_observations_to_counterparties,
}

-- The interactions of all counterparties.
abbrev pub interactions : Dict Counterparty → ℕ
interactions [] = 0
interactions ((k, cp) ∷ m) = cp.interaction_count + interactions m

-- The observation names a counterparty.
abbrev pub is_named : WalletTransferObservation → Bool
is_named obs = not (is_empty (trim_space obs.counterparty_address))

interactions-put :
    (m : Dict Counterparty) (k : Str) (cp : Counterparty)
    → interactions (put m k cp) + (get_or m k zero_counterparty).interaction_count
      ≡ interactions m + cp.interaction_count
unfolding put get_or
interactions-put [] k cp = omega arith
interactions-put ((j, old) ∷ m) k cp = elim (Bool-cases (str_eq j k)) [
  | inl same ↦ rw (put, get_or, same) (omega arith)
  | inr other ↦ rw (put, get_or, other) (omega (arith, interactions-put m k cp))
]

apply_event-count :
    (cp : Counterparty) (e : Event)
    → (apply_event cp e).interaction_count ≡ cp.interaction_count + 1
unfolding apply_event see apply_direction
apply_event-count cp e = ground arith

name_counterparty-count :
    (a : Str) (cp : Counterparty)
    → (name_counterparty a cp).interaction_count ≡ cp.interaction_count
unfolding name_counterparty
name_counterparty-count a cp = ground arith

observation-count :
    (m : Dict Counterparty) (obs : WalletTransferObservation)
    → interactions (apply_observation m obs) ≡ interactions m + count_by is_named (obs ∷ [])
unfolding apply_observation
observation-count m obs = elim (Bool-cases (is_empty (trim_space obs.counterparty_address))) [
  | inl blank ↦ rw (apply_observation, blank) (omega arith)
  | inr named ↦
      rw (apply_observation, named)
        (omega (
          arith,
          interactions-put m (trim_space obs.counterparty_address) _,
          apply_event-count
              (name_counterparty (trim_space obs.counterparty_address)
                (get_or m (trim_space obs.counterparty_address) zero_counterparty))
              _,
          name_counterparty-count (trim_space obs.counterparty_address)
              (get_or m (trim_space obs.counterparty_address) zero_counterparty),
        ))
]

-- The interactions that the counterparties count grow by one for each observation that names a
-- counterparty.
pub apply_observations_to_counterparties-count :
    (m : Dict Counterparty) (list : List WalletTransferObservation)
    → interactions (apply_observations_to_counterparties m list)
      ≡ interactions m + count_by is_named list
unfolding apply_observations_to_counterparties
apply_observations_to_counterparties-count m [] = omega arith
apply_observations_to_counterparties-count m (obs ∷ list) = omega (
  arith,
  observation-count m obs,
  apply_observations_to_counterparties-count (apply_observation m obs) list,
)
