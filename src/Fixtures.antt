-- ===== src/Fixtures.antt =====
-- internal/fixtures/validation.go: the signals that a replayed case shows of the reason why nothing was
-- detected. Of the replay's records only the fields that the validation reads are here, and of the
-- candidates only their number.
pub mod Corpus
use poison_trace.Base.{
  ℕ, ◌+◌, ℤ, Bool, true, false, not, ◌&&◌, ◌||◌, List, [], ◌∷◌, ◌++◌, map, foldl, Option, none,
  some, if◌then◌else◌, ltb, any, length,
}
use poison_trace.Text.{Str, codes, str_eq, str_lt, is_empty, has_prefix, split, drop}
use poison_trace.Text.Digits.{decimal_int}
use poison_trace.Text.Sort.{sort_by}
use poison_trace.Text.Trim.{trim_space, is_blank}
use poison_trace.Dict.{add}

pub record NormalizedTransferRecord : Type 0 where
  pub normalization_status : Str
  pub normalization_reason_code : Str
  pub dust_status : Str

pub record WalletSyncRunRecord : Type 0 where
  pub baseline_complete : Bool
  pub unknown_gate_reason : Str
  pub truncation_reason : Str
  pub transactions_fetched : ℤ

pub record ReplayOutput : Type 0 where
  pub normalized_transfers : List NormalizedTransferRecord
  pub poisoning_candidates : ℕ
  pub wallet_sync_runs : List WalletSyncRunRecord

-- The parts of a text between separators, trimmed, without those that are empty.
trimmed_parts : List Str → List Str
trimmed_parts [] = []
trimmed_parts (p ∷ rest) =
    if is_empty (trim_space p) then trimmed_parts rest else trim_space p ∷ trimmed_parts rest

unfoldable pub split_reason_tokens : Str → List Str
unfolding trimmed_parts
split_reason_tokens reason = trimmed_parts (split b';' reason)

abbrev gates_prefix : Str
gates_prefix = codes "unknown_required_gates:"

-- The names after the prefix, between commas.
unfoldable pub add_gates : List Str → List Str → List Str
add_gates signals [] = signals
add_gates signals (gate ∷ rest) = add_gates (add signals (codes "unknown_gate:" ++ gate)) rest

unfoldable pub add_unknown_token : List Str → Str → List Str
unfolding add_gates trimmed_parts
add_unknown_token signals token =
    if has_prefix token gates_prefix
    then add_gates signals (trimmed_parts (split b',' (drop (length gates_prefix) token)))
    else add signals (codes "unknown_reason:" ++ token)

unfoldable pub add_run : List Str → WalletSyncRunRecord → List Str
unfolding add_unknown_token split_reason_tokens
add_run signals run =
    let fetched =
      add signals (codes "transactions_fetched:" ++ decimal_int run.transactions_fetched) in
    let unknown = foldl add_unknown_token fetched (split_reason_tokens run.unknown_gate_reason) in
    let cut =
      foldl (λ s token. add s (codes "truncation:" ++ token)) unknown
        (split_reason_tokens run.truncation_reason) in
    if not run.baseline_complete then add cut (codes "baseline_complete:false") else cut

-- `if strings.TrimSpace(value) != "" { signalSet[prefix+value] = struct{}{} }`.
abbrev add_value : Str → Str → List Str → List Str
add_value prefix value signals = if is_blank value then signals else add signals (prefix ++ value)

unfoldable pub add_transfer : List Str → NormalizedTransferRecord → List Str
add_transfer signals tr = add_value (codes "dust_status:") tr.dust_status (
    add_value (codes "normalization_reason:") tr.normalization_reason_code
      (add_value (codes "normalization_status:") tr.normalization_status signals))

unfoldable pub collect_observed_miss_signals : ReplayOutput → List Str
unfolding add_run add_transfer sort_by
collect_observed_miss_signals out =
    let emitted = codes "candidate:emitted" ∷ [] in
    let quiet = codes "candidate:none" ∷ [] in
    let start = if ltb 0 out.poisoning_candidates then emitted else quiet in
    sort_by str_lt
      (foldl add_transfer (foldl add_run start out.wallet_sync_runs) out.normalized_transfers)

unfoldable pub has_signal_prefix : List Str → Str → Bool
has_signal_prefix signals prefix = any (λ s. has_prefix s prefix) signals

-- `supported`, `matched` and `signals`.
pub record MissEvidence : Type 0 where
  pub supported : Bool
  pub matched : Bool
  pub signals : List Str

-- The case of the expected reason, if there is one: whether it is matched.
unfoldable pub reason_matches : List Str → Str → Option Bool
unfolding has_signal_prefix
reason_matches signals reason =
    let has : Str → Bool = λ prefix. has_signal_prefix signals prefix in
    let undisturbed = not (has (codes "unknown_gate:")) && not (has (codes "truncation:")) in
    let unseen = has (codes "candidate:none") in
    if str_eq reason (codes "baseline_truncated")
    then some (has (codes "truncation:baseline_truncation:"))
    else if str_eq reason (codes "scan_truncated")
    then some (has (codes "truncation:scan_truncation:"))
    else if str_eq reason (codes "wallet_timeout")
    then some (has (codes "unknown_gate:wallet_timeout"))
    else if str_eq reason (codes "unknown_dust_threshold")
    then some (has (codes "unknown_gate:zero_or_dust") && has (codes "dust_status:unknown"))
    else if str_eq reason (codes "unknown_second_injection")
    then some (
        has (codes "unknown_gate:min_injection_count_met")
        && has (codes "unknown_gate:zero_or_dust"))
    else if str_eq reason (codes "unresolved_owner")
    then some (has (codes "normalization_status:unresolved_owner"))
    else if str_eq reason (codes "partial_owner_unresolved")
    then some (
        has (codes "normalization_reason:missing_spl_owner_endpoint")
        || (unseen && has (codes "transactions_fetched:0")))
    else if str_eq reason (codes "self_transfer")
    then some (has (codes "normalization_reason:self_transfer_owner_level"))
    else if str_eq reason (codes "duplicate_no_new_signal")
    then some (unseen && undisturbed)
    else if str_eq reason (codes "insufficient_injections")
        || str_eq reason (codes "min_injection_not_met")
    then some (unseen && has (codes "dust_status:true") && undisturbed)
    else if str_eq reason (codes "no_legit_outbound_baseline")
    then some (unseen && has (codes "dust_status:false") && undisturbed)
    else none

evidence_of : List Str → Option Bool → MissEvidence
evidence_of signals none = record { supported = false; matched = false; signals = signals }
evidence_of signals (some m) = record { supported = true; matched = m; signals = signals }

unfoldable pub evaluate_miss_reason_evidence : Str → ReplayOutput → MissEvidence
unfolding evidence_of reason_matches collect_observed_miss_signals
evaluate_miss_reason_evidence expected_reason out =
    let signals = collect_observed_miss_signals out in
    evidence_of signals (reason_matches signals (trim_space expected_reason))
