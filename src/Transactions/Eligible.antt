-- ===== src/Transactions/Eligible.antt =====
-- Which transfers are eligible for the detection of poisoning.
use poison_trace.Base.{
  In, All-In, ℕ, ◌+◌, Bool, true, List, [], ◌∷◌, some, All, All-append, ◌≡◌, ◌≢◌, ◌↔◌, arith,
  length,
}
use poison_trace.Text.{Str, is_empty}
use poison_trace.Text.Equality.{str_eq_iff}
use poison_trace.Text.Trim.{trim_space}
use poison_trace.Helius.{NativeTransfer, TokenTransfer, EnhancedTransaction}
use poison_trace.Transactions.{NormalizedTransfer, resolved, other}
use poison_trace.Transactions.Normalize.{
  native_verdict, token_verdict, is_fungible, sanitize_raw_amount, native_transfer, token_transfer,
  native_loop, token_loop, normalize_enhanced_tx,
}

-- Both owners are named, and they are two.
pub record HasTwoOwners (src dst : Str) : Type 0 where
  pub source_named : src ≢ []
  pub destination_named : dst ≢ []
  pub differ : src ≢ dst

-- What an eligible token transfer is: a fungible token, a readable amount, and two owners that are
-- not the token accounts themselves.
pub record IsEligibleToken (src dst : Str) (amount_ok : Bool) (t : TokenTransfer) : Type 0 where
  pub fungible : is_fungible t.token_standard ≡ true
  pub amount : amount_ok ≡ true
  pub owners : HasTwoOwners src dst
  pub source_is_owner : src ≢ t.from_token_account
  pub destination_is_owner : dst ≢ t.to_token_account

empty_iff : (s : Str) → (is_empty s ≡ true) ↔ (s ≡ [])
empty_iff [] = ground arith
empty_iff (c ∷ s) = ground arith

native_eligible :
    (src dst : Str) → ((native_verdict src dst).eligible ≡ true) ↔ HasTwoOwners src dst
unfolding native_verdict
native_eligible src dst = ground (arith, empty_iff src, empty_iff dst, str_eq_iff src dst)

token_eligible :
    (src dst : Str) (amount_ok : Bool) (t : TokenTransfer)
    → ((token_verdict src dst amount_ok t).eligible ≡ true) ↔ IsEligibleToken src dst amount_ok t
unfolding token_verdict
token_eligible src dst amount_ok t = ground (
  arith,
  empty_iff src,
  empty_iff dst,
  str_eq_iff src dst,
  str_eq_iff src t.from_token_account,
  str_eq_iff dst t.to_token_account,
)

-- An eligible transfer is resolved, in a supported asset, and between two owners.
pub record IsSoundTransfer (tr : NormalizedTransfer) : Type 0 where
  pub is_resolved : tr.poisoning_eligible ≡ true → tr.normalization_status ≡ resolved
  pub is_supported : tr.poisoning_eligible ≡ true → tr.asset_type ≢ other
  pub has_owners :
      tr.poisoning_eligible ≡ true
      → HasTwoOwners tr.source_owner_address tr.destination_owner_address

native_resolved :
    (src dst : Str)
    → (native_verdict src dst).eligible ≡ true
    → (native_verdict src dst).status ≡ resolved
unfolding native_verdict
native_resolved src dst h = ground arith

token_resolved :
    (src dst : Str) (amount_ok : Bool) (t : TokenTransfer)
    → (token_verdict src dst amount_ok t).eligible ≡ true
    → (token_verdict src dst amount_ok t).status ≡ resolved
unfolding token_verdict
token_resolved src dst amount_ok t h = ground arith

module _ (sha256_hex : Str → Str) (tx : EnhancedTransaction) where
  native-IsSound :
      (i : ℕ) (nt : NativeTransfer) → IsSoundTransfer (native_transfer sha256_hex tx i nt)
  unfolding native_transfer
  native-IsSound i nt = record {
    is_resolved = native_resolved _ _;
    is_supported = λ _. (λ e. cc);
    has_owners = (native_eligible _ _).0;
  }

  token-IsSound : (i : ℕ) (t : TokenTransfer) → IsSoundTransfer (token_transfer sha256_hex tx i t)
  unfolding token_transfer
  token-IsSound i t = record {
    is_resolved = token_resolved _ _ _ t;
    is_supported = λ h. (λ e. ground (arith, ((token_eligible _ _ _ t).0 h).fungible));
    has_owners = λ h. ((token_eligible _ _ _ t).0 h).owners;
  }

  native_loop-IsSound :
      (i : ℕ) (nts : List NativeTransfer) → All IsSoundTransfer (native_loop sha256_hex tx i nts)
  unfolding native_loop
  native_loop-IsSound i [] = tt
  native_loop-IsSound i (nt ∷ nts) = (native-IsSound i nt, native_loop-IsSound (i + 1) nts)

  token_loop-IsSound :
      (i : ℕ) (ts : List TokenTransfer) → All IsSoundTransfer (token_loop sha256_hex tx i ts)
  unfolding token_loop
  token_loop-IsSound i [] = tt
  token_loop-IsSound i (t ∷ ts) = (token-IsSound i t, token_loop-IsSound (i + 1) ts)

  normalize-IsSound :
      (trs : List NormalizedTransfer)
      → normalize_enhanced_tx sha256_hex tx ≡ some trs
      → All IsSoundTransfer trs
  unfolding normalize_enhanced_tx
  normalize-IsSound trs e = ground (
    arith,
    All-append {0, 0} IsSoundTransfer (native_loop sha256_hex tx 0 tx.native_transfers)
        (token_loop sha256_hex tx (length tx.native_transfers) tx.token_transfers)
        (native_loop-IsSound 0 tx.native_transfers)
        (token_loop-IsSound (length tx.native_transfers) tx.token_transfers),
  )

-- A transfer that normalization gives and that is eligible for detection is resolved, in a supported
-- asset, and between two owners that are named and differ.
pub normalize_enhanced_tx-eligible :
    (sha256_hex : Str → Str) (tx : EnhancedTransaction) (trs : List NormalizedTransfer)
    (tr : NormalizedTransfer)
    → normalize_enhanced_tx sha256_hex tx ≡ some trs
    → In tr trs
    → tr.poisoning_eligible ≡ true
    → (tr.normalization_status ≡ resolved)
      × (tr.asset_type ≢ other)
      × HasTwoOwners tr.source_owner_address tr.destination_owner_address
normalize_enhanced_tx-eligible sha256_hex tx trs tr e i h =
    let sound = All-In IsSoundTransfer tr trs (normalize-IsSound sha256_hex tx trs e) i in
    (sound.is_resolved h, sound.is_supported h, sound.has_owners h)

-- A token transfer is eligible exactly if its token is fungible, its amount can be read, and its
-- owners are named, differ, and are not the token accounts.
pub token_transfer-eligible :
    (sha256_hex : Str → Str) (tx : EnhancedTransaction) (i : ℕ) (t : TokenTransfer)
    → ((token_transfer sha256_hex tx i t).poisoning_eligible ≡ true)
      ↔ IsEligibleToken
          (trim_space t.from_user_account)
          (trim_space t.to_user_account)
          (sanitize_raw_amount t.token_amount.amount).1
          t
unfolding token_transfer
token_transfer-eligible sha256_hex tx i t = token_eligible _ _ _ t
