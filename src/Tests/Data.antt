-- ===== src/Tests/Data.antt =====
-- The wallets, transfers and parameters that the tests share.
use poison_trace.Base.{◌+◌, ◌*◌, pos, true, [], ◌∷◌, none, some}
use poison_trace.Text.{Str, codes}
use poison_trace.Time.{Time, day}
use poison_trace.Helius.{NativeTransfer, TokenTransfer, EnhancedTransaction}
use poison_trace.Transactions.{NormalizedTransfer, native_sol, resolved, no_reason, dust_false}
use poison_trace.Counterparties.{sender, receiver}
use poison_trace.Pipeline.Validation.{LookalikeParams, CandidateMaterializeParams}
use poison_trace.Pipeline.Candidate.{WalletTransferObservation}

abbrev pub focal : Str
focal = codes "Focal1111"

-- An address that the focal wallet has paid, one that imitates it, and one that does not.
abbrev pub friend : Str
friend = codes "Abcdefgh1234wxyz"

abbrev pub imitation : Str
imitation = codes "Abcdeff99934wxyz"

abbrev pub stranger : Str
stranger = codes "Zzzz"

abbrev pub no_hash : Str → Str
no_hash s = []

abbrev pub transfer : Str → Str → Str → Time → NormalizedTransfer
transfer src dst amount at = record {
  signature = codes "sig";
  transfer_index = 0;
  transfer_fingerprint = src;
  slot = pos 7;
  block_time = at;
  source_owner_address = src;
  destination_owner_address = dst;
  source_token_account = [];
  destination_token_account = [];
  amount_raw = amount;
  token_mint = [];
  asset_type = native_sol;
  asset_key = codes "SOL";
  decimals = some (pos 9);
  normalization_status = resolved;
  normalization_reason_code = no_reason;
  poisoning_eligible = true;
  dust_status = dust_false;
  is_success = true;
}

abbrev pub noon : Time
noon = 800_000 * day

-- The focal wallet paid its friend; ten days later the imitation sent it nothing.
abbrev pub payment : WalletTransferObservation
payment = record {
  transfer = transfer focal friend (codes "5000") noon;
  relation_type = sender;
  counterparty_address = friend;
}

abbrev pub injection : WalletTransferObservation
injection = record {
  transfer = transfer imitation focal (codes "0") (noon + 10 * day);
  relation_type = receiver;
  counterparty_address = imitation;
}

abbrev pub lookalike : LookalikeParams
lookalike = record {
  recency_days = pos 30;
  prefix_min = pos 4;
  suffix_min = pos 4;
  single_side_min = pos 6;
  min_injection_count = pos 1;
}

abbrev pub complete : CandidateMaterializeParams
complete = record { baseline_complete = true; lookalike = lookalike }

abbrev pub payout : NativeTransfer
payout = record { from_user_account = focal; to_user_account = friend; amount = codes "12" }

abbrev pub token : TokenTransfer
token = record {
  from_user_account = friend;
  to_user_account = focal;
  from_token_account = codes "FriendToken";
  to_token_account = codes "FocalToken";
  mint = codes "Mint";
  token_amount = record { amount = codes "3"; decimals = some (pos 6) };
  token_standard = codes "Fungible";
  instruction_index = some (pos 0);
  inner_index = none;
}

abbrev pub transaction : EnhancedTransaction
transaction = record {
  signature = codes "sig";
  slot = pos 1;
  timestamp_unix = 1000;
  transaction_error = none;
  native_transfers = payout ∷ [];
  token_transfers = token ∷ [];
}
