-- ===== src/Pipeline/Candidate.antt =====
-- internal/pipeline/candidate_materialize.go: the gates of each scanned observation, and the
-- candidates that pass all of them. The loop over a map takes its entries in the order of the list.
pub mod Lookalike
pub mod Gates
pub mod Materialize
pub mod Emission
pub mod Indexes
pub mod Sound
pub mod Poisoning
use poison_trace.Base.{ℤ, ℕ, ◌+◌, Bool, List, [], ◌∷◌}
use poison_trace.Text.{Str}
use poison_trace.Time.{Time}
use poison_trace.Transactions.{NormalizedTransfer}
use poison_trace.Counterparties.{RelationType}

pub record WalletTransferObservation : Type 0 where
  pub transfer : NormalizedTransfer
  pub relation_type : RelationType
  pub counterparty_address : Str

pub record PoisoningCandidate : Type 0 where
  pub signature : Str
  pub transfer_index : ℕ
  pub suspicious_counterparty : Str
  pub matched_legit_counterparty : Str
  pub token_mint : Str
  pub amount_raw : Str
  pub block_time : Time
  pub is_zero_value : Bool
  pub is_dust : Bool
  pub is_new_counterparty : Bool
  pub is_inbound : Bool
  pub legit_last_seen_at : Time
  pub recency_days : ℕ
  pub repeat_injection_count : ℕ
  pub incomplete_window : Bool
  pub unknown_gate_reason : Str
  pub match_rule_version : Str

pub record CandidateMaterializationResult : Type 0 where
  pub candidates : List PoisoningCandidate
  pub incomplete_window : Bool
  pub unknown_gate_reason : Str
  pub unknown_gate_blocks : ℕ
  pub candidate_blocks : ℕ
