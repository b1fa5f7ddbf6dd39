-- ===== src/Pipeline/Candidate/Indexes.antt =====
-- What the three indexes hold, read off the observations directly.
use poison_trace.Base.{
  ◌+◌, max, Bool, not, ◌&&◌, ◌||◌, List, [], ◌∷◌, foldl, any, count_by, if◌then◌else◌, ◌≡◌, arith,
}
use poison_trace.Text.{Str, str_eq, is_empty}
use poison_trace.Text.Trim.{trim_space, is_blank}
use poison_trace.Time.{Time}
use poison_trace.Dict.{Dict, get_or, has}
use poison_trace.Dict.Laws.{get_or-put, has-add}
use poison_trace.Text.Equality.{str_eq_iff}
use poison_trace.Pipeline.Detection.{is_pass, is_unknown}
use poison_trace.Pipeline.Candidate.{WalletTransferObservation}
use poison_trace.Pipeline.Candidate.Gates.{
  is_legit, InboundCounterpartyStats, no_stats, gate_zero_or_dust, evaluate_base_emission_gates,
  can_qualify_for_min_injection, build_pre_window_interaction_set, pre_window_step,
  build_legit_baseline_counterparties, legit_step, build_inbound_counterparty_stats, stats_step,
  count_gate,
}

-- The observation is with this counterparty, as it is written.
abbrev pub is_with : Str → WalletTransferObservation → Bool
is_with address obs =
    not (is_blank obs.counterparty_address) && str_eq obs.counterparty_address address

pre_window_fold :
    (baseline : List WalletTransferObservation) (out : List Str) (k : Str)
    → has (foldl pre_window_step out baseline) k ≡ (has out k || any (is_with k) baseline)
unfolding pre_window_step
pre_window_fold [] out k = ground arith
pre_window_fold (o ∷ baseline) out k = ground (
  arith,
  pre_window_fold baseline (pre_window_step out o) k,
  has-add out o.counterparty_address k,
)

-- An address was seen before the window if some observation of the baseline is with it.
pub has-build_pre_window :
    (baseline : List WalletTransferObservation) (k : Str)
    → has (build_pre_window_interaction_set baseline) k ≡ any (is_with k) baseline
unfolding build_pre_window_interaction_set has
has-build_pre_window baseline k = pre_window_fold baseline [] k

-- The last time of a legitimate transfer to an address; 0 if there is none.
unfoldable pub last_legit : Str → List WalletTransferObservation → Time
last_legit k [] = 0
last_legit k (o ∷ baseline) =
    max (if is_legit o && str_eq o.counterparty_address k then o.transfer.block_time else 0)
      (last_legit k baseline)

legit_fold :
    (baseline : List WalletTransferObservation) (out : Dict Time) (k : Str)
    → get_or (foldl legit_step out baseline) k 0 ≡ max (get_or out k 0) (last_legit k baseline)
unfolding legit_step last_legit
legit_fold [] out k = omega arith
legit_fold (o ∷ baseline) out k = ground (
  arith,
  legit_fold baseline (legit_step out o) k,
  get_or-put out o.counterparty_address o.transfer.block_time k 0,
  str_eq_iff o.counterparty_address k,
)

pub get_or-build_legit :
    (baseline : List WalletTransferObservation) (k : Str)
    → get_or (build_legit_baseline_counterparties baseline) k 0 ≡ last_legit k baseline
unfolding build_legit_baseline_counterparties get_or
get_or-build_legit baseline k = ground (arith, legit_fold baseline [] k)

-- The observation counts for the repeated injections of a counterparty.
unfoldable pub injects : Str → WalletTransferObservation → Bool
injects k obs =
    can_qualify_for_min_injection (evaluate_base_emission_gates obs)
    && not (is_empty (trim_space obs.counterparty_address))
    && str_eq (trim_space obs.counterparty_address) k

abbrev pub injects_known : Str → WalletTransferObservation → Bool
injects_known k obs = injects k obs && is_pass (gate_zero_or_dust obs.transfer)

abbrev pub injects_unknown : Str → WalletTransferObservation → Bool
injects_unknown k obs = injects k obs && is_unknown (gate_zero_or_dust obs.transfer)

stats_fold :
    (scan : List WalletTransferObservation) (out : Dict InboundCounterpartyStats) (k : Str)
    → ((get_or (foldl stats_step out scan) k no_stats).known_qualifying
        ≡ (get_or out k no_stats).known_qualifying + count_by (injects_known k) scan)
      × ((get_or (foldl stats_step out scan) k no_stats).unknown_potential
          ≡ (get_or out k no_stats).unknown_potential + count_by (injects_unknown k) scan)
unfolding stats_step injects count_gate
stats_fold [] out k = omega arith
stats_fold (o ∷ scan) out k = ground (
  arith,
  stats_fold scan (stats_step out o) k,
  get_or-put out (trim_space o.counterparty_address)
      (count_gate (gate_zero_or_dust o.transfer)
        (get_or out (trim_space o.counterparty_address) no_stats))
      k no_stats,
  str_eq_iff (trim_space o.counterparty_address) k,
)

pub known_qualifying-build :
    (scan : List WalletTransferObservation) (k : Str)
    → (get_or (build_inbound_counterparty_stats scan) k no_stats).known_qualifying
      ≡ count_by (injects_known k) scan
unfolding build_inbound_counterparty_stats get_or
known_qualifying-build scan k = ground (arith, stats_fold scan [] k)
