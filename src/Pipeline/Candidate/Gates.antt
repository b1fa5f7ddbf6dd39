-- ===== src/Pipeline/Candidate/Gates.antt =====
-- The other gates, and the three indexes that are built from the baseline and the scan.
use poison_trace.Base.{
  ℕ, ◌+◌, ℤ, pos, negsuc, ltb_ℤ, leb_ℤ, Bool, true, false, not, ◌&&◌, ◌||◌, List, [], none, some,
  ◌==◌, if◌then◌else◌, foldl,
}
use poison_trace.Text.{Str, str_eq, is_empty}
use poison_trace.Text.Trim.{trim_space, is_blank}
use poison_trace.Text.Digits.{big_int}
use poison_trace.Time.{Time, after, is_zero}
use poison_trace.Dict.{Dict, get_or, put, add}
use poison_trace.Transactions.{
  NormalizedTransfer, dust_true, dust_false, dust_unknown, AssetType, native_sol, spl_fungible,
  other, DustStatus,
}
use poison_trace.Transactions.Normalize.{is_resolved}
use poison_trace.Counterparties.{RelationType, sender, receiver}
use poison_trace.Pipeline.Detection.{GateState, pass, fail, unknown, is_pass}
use poison_trace.Pipeline.Candidate.{WalletTransferObservation}

unfoldable pub gate_bool : Bool → GateState
gate_bool v = if v then pass else fail

unfoldable pub gate_normalization_resolved : NormalizedTransfer → GateState
gate_normalization_resolved tr = if is_resolved tr.normalization_status then pass else fail

unfoldable pub gate_supported_asset_type : AssetType → GateState
gate_supported_asset_type native_sol = pass
gate_supported_asset_type spl_fungible = pass
gate_supported_asset_type other = fail

abbrev pub is_receiver : RelationType → Bool
is_receiver sender = false
is_receiver receiver = true

unfoldable pub gate_relation_inbound : RelationType → GateState
gate_relation_inbound relation = if is_receiver relation then pass else fail

-- The amount is zero, and the amount is known.
unfoldable pub is_amount_zero : Str → Bool × Bool
is_amount_zero raw = elim (big_int (trim_space raw)) [
  | none ↦ (false, false)
  | some (pos n) ↦ (n == 0, true)
  | some (negsuc n) ↦ (false, true)
]

unfoldable pub gate_dust : DustStatus → GateState
gate_dust dust_true = pass
gate_dust dust_false = fail
gate_dust dust_unknown = unknown

unfoldable pub gate_zero_or_dust : NormalizedTransfer → GateState
unfolding gate_dust
gate_zero_or_dust tr =
    let (zero_amount, known) = is_amount_zero tr.amount_raw in
    if zero_amount && known then pass else gate_dust tr.dust_status

unfoldable pub gate_new_counterparty : Bool → Bool → GateState
gate_new_counterparty baseline_complete had_pre_window_interaction =
    if not baseline_complete then unknown else if had_pre_window_interaction then fail else pass

unfoldable pub gate_address_inequality : Str → Str → GateState → GateState
gate_address_inequality suspicious matched unknown = unknown
gate_address_inequality suspicious matched fail = fail
gate_address_inequality suspicious matched pass =
    if is_blank suspicious || is_blank matched
    then fail
    else if str_eq suspicious matched
    then fail
    else pass

pub record InboundCounterpartyStats : Type 0 where
  pub known_qualifying : ℕ
  pub unknown_potential : ℕ

abbrev pub no_stats : InboundCounterpartyStats
no_stats = record { known_qualifying = 0; unknown_potential = 0 }

unfoldable pub gate_min_injection_count : InboundCounterpartyStats → ℤ → GateState
gate_min_injection_count stats min_count =
    let least : ℤ = if ltb_ℤ min_count (pos 1) then pos 1 else min_count in
    if leb_ℤ least (pos stats.known_qualifying)
    then pass
    else if ltb_ℤ (pos (stats.known_qualifying + stats.unknown_potential)) least
    then fail
    else unknown

pub record CandidateBaseEmissionGates : Type 0 where
  pub normalization_resolved : GateState
  pub poisoning_eligible : GateState
  pub asset_type_supported : GateState
  pub inbound : GateState

unfoldable pub evaluate_base_emission_gates : WalletTransferObservation → CandidateBaseEmissionGates
evaluate_base_emission_gates obs = record {
  normalization_resolved = gate_normalization_resolved obs.transfer;
  poisoning_eligible = gate_bool obs.transfer.poisoning_eligible;
  asset_type_supported = gate_supported_asset_type obs.transfer.asset_type;
  inbound = gate_relation_inbound obs.relation_type;
}

unfoldable pub can_qualify_for_min_injection : CandidateBaseEmissionGates → Bool
can_qualify_for_min_injection g =
    is_pass g.inbound
    && is_pass g.normalization_resolved
    && is_pass g.poisoning_eligible
    && is_pass g.asset_type_supported

unfoldable pub pre_window_step : List Str → WalletTransferObservation → List Str
pre_window_step out obs =
    if is_blank obs.counterparty_address then out else add out obs.counterparty_address

-- A `map[string]bool` that holds `true` only: a set.
unfoldable pub build_pre_window_interaction_set : List WalletTransferObservation → List Str
unfolding pre_window_step
build_pre_window_interaction_set baseline = foldl pre_window_step [] baseline

abbrev pub is_dust_false : DustStatus → Bool
is_dust_false dust_true = false
is_dust_false dust_false = true
is_dust_false dust_unknown = false

-- The `continue`s of the loop: an observation is legitimate if it is outbound and not dust.
unfoldable pub is_legit : WalletTransferObservation → Bool
is_legit obs =
    not (is_receiver obs.relation_type)
    && not (is_blank obs.counterparty_address)
    && is_resolved obs.transfer.normalization_status
    && obs.transfer.poisoning_eligible
    && is_dust_false obs.transfer.dust_status

unfoldable pub legit_step : Dict Time → WalletTransferObservation → Dict Time
unfolding is_legit
legit_step out obs =
    let last_seen = get_or out obs.counterparty_address 0 in
    if not (is_legit obs)
    then out
    else if is_zero last_seen || after obs.transfer.block_time last_seen
    then put out obs.counterparty_address obs.transfer.block_time
    else out

unfoldable pub build_legit_baseline_counterparties : List WalletTransferObservation → Dict Time
unfolding legit_step
build_legit_baseline_counterparties baseline = foldl legit_step [] baseline

-- The `switch` of the loop over the scan.
unfoldable pub count_gate : GateState → InboundCounterpartyStats → InboundCounterpartyStats
count_gate pass stats = record stats { known_qualifying = stats.known_qualifying + 1 }
count_gate unknown stats = record stats { unknown_potential = stats.unknown_potential + 1 }
count_gate fail stats = stats

unfoldable pub stats_step :
    Dict InboundCounterpartyStats → WalletTransferObservation → Dict InboundCounterpartyStats
unfolding count_gate
stats_step out obs =
    let cp = trim_space obs.counterparty_address in
    if not (can_qualify_for_min_injection (evaluate_base_emission_gates obs))
    then out
    else if is_empty cp
    then out
    else put out cp (count_gate (gate_zero_or_dust obs.transfer) (get_or out cp no_stats))

unfoldable pub build_inbound_counterparty_stats :
    List WalletTransferObservation → Dict InboundCounterpartyStats
unfolding stats_step
build_inbound_counterparty_stats scan = foldl stats_step [] scan
