-- ===== src/Pipeline/Core.antt =====
-- internal/pipeline/core.go: baseline and scan are fetched, normalized and turned into observations,
-- counterparties and candidates.
pub mod Reasons
pub mod Sync
pub mod Baseline
pub mod Observed
use poison_trace.Base.{
  ℕ, ◌+◌, ℤ, Bool, true, false, not, ◌||◌, ◌&&◌, List, [], ◌∷◌, ◌++◌, Option, none, some,
  if◌then◌else◌, foldl, length, select, map,
}
use poison_trace.Text.{Str, codes, str_eq, str_lt, is_empty, join}
use poison_trace.Text.Sort.{sort_by}
use poison_trace.Text.Trim.{trim_space, is_blank}
use poison_trace.Errors.{Result, ok, err, plain}
use poison_trace.Dict.{Dict, get_or, put, add}
use poison_trace.Helius.{EnhancedTransaction}
use poison_trace.Transactions.{
  NormalizedTransfer, NormalizationStatus, resolved, unresolved_owner, unsupported_asset, failed,
  AssetType, native_sol, spl_fungible, other, DustStatus,
}
use poison_trace.Transactions.Normalize.{normalize_enhanced_tx, is_resolved}
use poison_trace.Counterparties.{
  map_wallet_relation, Counterparty, zero_counterparty, Event, apply_event,
}
use poison_trace.Pipeline.Candidate.{WalletTransferObservation}

pub record NormalizeWindowResult : Type 0 where
  pub transfers : List NormalizedTransfer
  pub observations : List WalletTransferObservation
  pub fetched_tx : ℕ
  pub failed_normalize : ℕ
  pub owner_unresolved : ℕ
  pub unsupported_asset_count : ℕ
  pub decimals_unresolved : ℕ

abbrev pub is_unresolved_owner : NormalizationStatus → Bool
is_unresolved_owner unresolved_owner = true
is_unresolved_owner resolved = false
is_unresolved_owner unsupported_asset = false
is_unresolved_owner failed = false

abbrev pub is_unsupported_asset : NormalizationStatus → Bool
is_unsupported_asset unsupported_asset = true
is_unsupported_asset resolved = false
is_unsupported_asset unresolved_owner = false
is_unsupported_asset failed = false

abbrev pub is_spl : AssetType → Bool
is_spl spl_fungible = true
is_spl native_sol = false
is_spl other = false

abbrev pub lacks_decimals : NormalizedTransfer → Bool
lacks_decimals tr = is_spl tr.asset_type && (elim tr.decimals [ none ↦ true | some _ ↦ false ])

abbrev pub bump : Bool → ℕ → ℕ
bump test n = if test then n + 1 else n

-- `classifyDust`, if it is not `nil`.
abbrev pub Classifier : Type 0
Classifier = Option (NormalizedTransfer → DustStatus)

unfoldable pub classify : Classifier → NormalizedTransfer → NormalizedTransfer
classify none tr = tr
classify (some f) tr = record tr { dust_status = f tr }

-- The transfer is kept and counted.
unfoldable pub count_transfer : NormalizeWindowResult → NormalizedTransfer → NormalizeWindowResult
count_transfer out tr = record out {
  transfers = out.transfers ++ tr ∷ [];
  failed_normalize = bump (not (is_resolved tr.normalization_status)) out.failed_normalize;
  owner_unresolved = bump (is_unresolved_owner tr.normalization_status) out.owner_unresolved;
  unsupported_asset_count =
      bump (is_unsupported_asset tr.normalization_status) out.unsupported_asset_count;
  decimals_unresolved = bump (lacks_decimals tr) out.decimals_unresolved;
}

-- The observation of a transfer, if the focal wallet is on one side of it.
unfoldable pub observation_of : Str → NormalizedTransfer → Option WalletTransferObservation
observation_of focal tr = elim (map_wallet_relation focal tr) [
  | none ↦ none
  | some mapping ↦ some (record {
    transfer = tr;
    relation_type = mapping.relation_type;
    counterparty_address = mapping.counterparty_address;
  })
]

-- The body of the inner loop.
unfoldable pub normalize_step :
    Str → Classifier → NormalizeWindowResult → NormalizedTransfer → NormalizeWindowResult
unfolding classify count_transfer
normalize_step focal classifier out tr =
    let classified = classify classifier tr in
    let counted = count_transfer out classified in
    elim (observation_of focal classified) [
      | none ↦ counted
      | some obs ↦ record counted { observations = counted.observations ++ obs ∷ [] }
    ]

module _ (sha256_hex : Str → Str) (focal : Str) (classifier : Classifier) where
  -- The outer loop.
  unfoldable pub normalize_loop :
      NormalizeWindowResult → List EnhancedTransaction → Result NormalizeWindowResult
  normalize_loop out [] = ok out
  normalize_loop out (tx ∷ txs) = elim (normalize_enhanced_tx sha256_hex tx) [
    | none ↦ err (plain (codes "normalize tx: missing signature"))
    | some trs ↦ normalize_loop (foldl (normalize_step focal classifier) out trs) txs
  ]

  unfoldable pub normalize_window : List EnhancedTransaction → Result NormalizeWindowResult
  normalize_window txs =
      normalize_loop
        (record {
          transfers = [];
          observations = [];
          fetched_tx = length txs;
          failed_normalize = 0;
          owner_unresolved = 0;
          unsupported_asset_count = 0;
          decimals_unresolved = 0;
        })
        txs

-- `if cp.CounterpartyAddress == "" { … }`.
unfoldable pub name_counterparty : Str → Counterparty → Counterparty
name_counterparty address cp =
    if is_empty cp.counterparty_address then record cp { counterparty_address = address } else cp

unfoldable pub apply_observation : Dict Counterparty → WalletTransferObservation → Dict Counterparty
unfolding name_counterparty
apply_observation state obs =
    let address = trim_space obs.counterparty_address in
    let cp = name_counterparty address (get_or state address zero_counterparty) in
    if is_empty address
    then state
    else put state address (
        apply_event cp (record {
          focal_wallet_id = 0;
          counterparty_address = address;
          relation_type = obs.relation_type;
          occurred_at = obs.transfer.block_time;
        }))

unfoldable pub apply_observations_to_counterparties :
    Dict Counterparty → List WalletTransferObservation → Dict Counterparty
unfolding apply_observation
apply_observations_to_counterparties = foldl apply_observation

unfoldable pub truncation_reason : Str → Str → Str
truncation_reason window code =
    if is_blank code then [] else window ++ (codes "_truncation:" ++ code)

unfoldable pub add_reason : List Str → Str → List Str
add_reason uniq reason =
    let trimmed = trim_space reason in if is_empty trimmed then uniq else add uniq trimmed

unfoldable pub merge_reasons : List Str → Str
unfolding add_reason
merge_reasons reasons = join (codes ";") (sort_by str_lt (foldl add_reason [] reasons))
