-- ===== src/Transactions/Normalize.antt =====
-- internal/transactions/normalize.go: an enhanced transaction becomes its transfers, numbered in
-- order, natives first. A status, a reason and the eligibility are the `Verdict` of one transfer.
use poison_trace.Base.{
  ℕ, ◌+◌, Bool, true, false, not, ◌&&◌, ◌||◌, List, [], ◌∷◌, ◌++◌, Option, none, some,
  if◌then◌else◌, length,
}
use poison_trace.Text.{Str, codes, str_eq, is_empty, decimal}
use poison_trace.Text.Trim.{trim_space}
use poison_trace.Text.Digits.{all_digits, decimal_int}
use poison_trace.Helius.{
  NativeTransfer, TokenTransfer, EnhancedTransaction, block_time_utc, is_success,
}
use poison_trace.Transactions.{
  NormalizationStatus, resolved, unresolved_owner, unsupported_asset, failed, dust_unknown,
  AssetType, native_sol, spl_fungible, other, ReasonCode, no_reason, missing_native_owner_endpoint,
  self_transfer_owner_level, unsupported_token_standard, malformed_spl_amount,
  missing_spl_owner_endpoint, owner_equals_token_account_source,
  owner_equals_token_account_destination, NormalizedTransfer, build_transfer_fingerprint,
}

pub record Verdict : Type 0 where
  pub status : NormalizationStatus
  pub reason : ReasonCode
  pub eligible : Bool

abbrev pub is_resolved : NormalizationStatus → Bool
is_resolved resolved = true
is_resolved unresolved_owner = false
is_resolved unsupported_asset = false
is_resolved failed = false

abbrev clean : Verdict
clean = record { status = resolved; reason = no_reason; eligible = true }

-- One `if` of the loops: it overwrites the three variables, or leaves them.
abbrev reject : Bool → NormalizationStatus → ReasonCode → Verdict → Verdict
reject test s r v = if test then record { status = s; reason = r; eligible = false } else v

-- The check for a transfer to oneself, which leaves the status.
abbrev reject_self : Str → Str → Verdict → Verdict
reject_self src dst v =
    if not (is_empty src) && str_eq src dst && is_resolved v.status
    then record v { reason = self_transfer_owner_level; eligible = false }
    else v

unfoldable pub native_verdict : Str → Str → Verdict
native_verdict src dst =
    reject_self src dst
      (reject (is_empty src || is_empty dst) failed missing_native_owner_endpoint clean)

unfoldable pub sanitize_raw_amount : Str → Str × Bool
sanitize_raw_amount v =
    let value = trim_space v in
    if is_empty value
    then (codes "0", false)
    else if all_digits value
    then (value, true)
    else (codes "0", false)

unfoldable pub is_fungible : Str → Bool
is_fungible s =
    str_eq s (codes "Fungible") || str_eq s (codes "fungible") || str_eq s (codes "FUNGIBLE")

unfoldable pub token_verdict : Str → Str → Bool → TokenTransfer → Verdict
token_verdict src dst amount_ok tt_ =
    let amount_checked = reject (not amount_ok) failed malformed_spl_amount clean in
    let present =
      reject (is_empty src || is_empty dst) unresolved_owner missing_spl_owner_endpoint
        amount_checked in
    let source_checked =
      reject (not (is_empty src) && str_eq src tt_.from_token_account) unresolved_owner
        owner_equals_token_account_source present in
    let destination_checked =
      reject (not (is_empty dst) && str_eq dst tt_.to_token_account) unresolved_owner
        owner_equals_token_account_destination source_checked in
    if not (is_fungible tt_.token_standard)
    then record {
      status = unsupported_asset;
      reason = unsupported_token_standard;
      eligible = false;
    }
    else if not (is_empty src) && not (is_empty dst)
    then reject_self src dst destination_checked
    else destination_checked

-- The instruction that a token transfer stands for in its fingerprint.
unfoldable pub instruction_ref : ℕ → TokenTransfer → Str
instruction_ref idx tt_ = elim tt_.instruction_index [
  | none ↦ codes "spl_fallback:" ++ decimal idx
  | some i ↦ elim tt_.inner_index [
    | none ↦ codes "spl:" ++ decimal_int i
    | some j ↦ (codes "spl:" ++ decimal_int i) ++ (codes ":" ++ decimal_int j)
  ]
]

module _ (sha256_hex : Str → Str) where
  -- The body of the first loop.
  unfoldable pub native_transfer : EnhancedTransaction → ℕ → NativeTransfer → NormalizedTransfer
  native_transfer tx idx nt =
      let src = trim_space nt.from_user_account in
      let dst = trim_space nt.to_user_account in
      let v = native_verdict src dst in
      record {
        signature = tx.signature;
        transfer_index = idx;
        transfer_fingerprint =
            build_transfer_fingerprint sha256_hex tx.signature (codes "native:" ++ decimal idx) src
              dst [] nt.amount native_sol;
        slot = tx.slot;
        block_time = block_time_utc tx;
        source_owner_address = src;
        destination_owner_address = dst;
        source_token_account = [];
        destination_token_account = [];
        amount_raw = nt.amount;
        token_mint = [];
        asset_type = native_sol;
        asset_key = codes "SOL";
        decimals = none;
        normalization_status = v.status;
        normalization_reason_code = v.reason;
        poisoning_eligible = v.eligible;
        dust_status = dust_unknown;
        is_success = is_success tx;
      }

  -- The body of the second loop.
  unfoldable pub token_transfer : EnhancedTransaction → ℕ → TokenTransfer → NormalizedTransfer
  token_transfer tx idx tt_ =
      let src = trim_space tt_.from_user_account in
      let dst = trim_space tt_.to_user_account in
      let (amount_raw, amount_ok) = sanitize_raw_amount tt_.token_amount.amount in
      let v = token_verdict src dst amount_ok tt_ in
      let asset : AssetType = if is_fungible tt_.token_standard then spl_fungible else other in
      record {
        signature = tx.signature;
        transfer_index = idx;
        transfer_fingerprint =
            build_transfer_fingerprint sha256_hex tx.signature (instruction_ref idx tt_) src dst
              tt_.mint amount_raw asset;
        slot = tx.slot;
        block_time = block_time_utc tx;
        source_owner_address = src;
        destination_owner_address = dst;
        source_token_account = tt_.from_token_account;
        destination_token_account = tt_.to_token_account;
        amount_raw = amount_raw;
        token_mint = tt_.mint;
        asset_type = asset;
        asset_key = tt_.mint;
        decimals = tt_.token_amount.decimals;
        normalization_status = v.status;
        normalization_reason_code = v.reason;
        poisoning_eligible = v.eligible;
        dust_status = dust_unknown;
        is_success = is_success tx;
      }

  unfoldable pub native_loop :
      EnhancedTransaction → ℕ → List NativeTransfer → List NormalizedTransfer
  native_loop tx idx [] = []
  native_loop tx idx (nt ∷ rest) = native_transfer tx idx nt ∷ native_loop tx (idx + 1) rest

  unfoldable pub token_loop : EnhancedTransaction → ℕ → List TokenTransfer → List NormalizedTransfer
  token_loop tx idx [] = []
  token_loop tx idx (tt_ ∷ rest) = token_transfer tx idx tt_ ∷ token_loop tx (idx + 1) rest

  -- `none` is the error "missing signature".
  unfoldable pub normalize_enhanced_tx : EnhancedTransaction → Option (List NormalizedTransfer)
  normalize_enhanced_tx tx =
      if is_empty tx.signature
      then none
      else some (
          native_loop tx 0 tx.native_transfers
          ++ token_loop tx (length tx.native_transfers) tx.token_transfers)
