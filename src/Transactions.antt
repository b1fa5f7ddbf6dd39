-- ===== src/Transactions.antt =====
-- internal/transactions: the types of types.go and the fingerprint of fingerprint.go. The hash,
-- SHA-256 printed in hexadecimal digits, is a parameter of what uses it.
pub mod Normalize
pub mod Positions
pub mod Eligible
use poison_trace.Base.{ℕ, ℤ, Bool, List, [], ◌∷◌, ◌++◌, Option}
use poison_trace.Text.{Str, codes, join}
use poison_trace.Time.{Time}

pub data NormalizationStatus : Type 0 where
  resolved unresolved_owner unsupported_asset failed : NormalizationStatus

pub data DustStatus : Type 0 where
  dust_true dust_false dust_unknown : DustStatus

pub data AssetType : Type 0 where
  native_sol spl_fungible other : AssetType

-- The texts that `NormalizationReasonCode` can be; `no_reason` is the empty one.
pub data ReasonCode : Type 0 where
  no_reason missing_native_owner_endpoint self_transfer_owner_level : ReasonCode
  unsupported_token_standard malformed_spl_amount missing_spl_owner_endpoint : ReasonCode
  owner_equals_token_account_source owner_equals_token_account_destination : ReasonCode

pub record NormalizedTransfer : Type 0 where
  pub signature : Str
  pub transfer_index : ℕ
  pub transfer_fingerprint : Str
  pub slot : ℤ
  pub block_time : Time
  pub source_owner_address : Str
  pub destination_owner_address : Str
  pub source_token_account : Str
  pub destination_token_account : Str
  pub amount_raw : Str
  pub token_mint : Str
  pub asset_type : AssetType
  pub asset_key : Str
  pub decimals : Option ℤ
  pub normalization_status : NormalizationStatus
  pub normalization_reason_code : ReasonCode
  pub poisoning_eligible : Bool
  pub dust_status : DustStatus
  pub is_success : Bool

asset_text : AssetType → Str
asset_text native_sol = codes "native_sol"
asset_text spl_fungible = codes "spl_fungible"
asset_text other = codes "other"

unfoldable pub build_transfer_fingerprint :
    (Str → Str) → Str → Str → Str → Str → Str → Str → AssetType → Str
unfolding asset_text
build_transfer_fingerprint sha256_hex signature instruction_ref src dst mint amount_raw asset_type =
    codes "sha256:"
    ++ sha256_hex (
        join (codes "|") (
          signature ∷ instruction_ref ∷ src ∷ dst ∷ mint ∷ amount_raw ∷ asset_text asset_type ∷ []))
