-- ===== src/WalletSource.antt =====
-- internal/walletsource/source.go: wallets are discovered from seeds, measured over a fetched window,
-- and accepted or rejected. Counts are never negative and are natural numbers; the numbers of the
-- options are integers. The scrape of recent blocks is in `Blocks`.
pub mod Amounts
pub mod Blocks
pub mod Summary
pub mod Choice
pub mod Discovery
pub mod Report
pub mod Select
pub mod Run
use poison_trace.Base.{ℕ, ℤ, pos, Bool, List}
use poison_trace.Text.{Str, codes}
use poison_trace.Time.{Time}
use poison_trace.Dict.{Dict}
use poison_trace.Pipeline.Fetch.{TruncationCode}

pub record ScrapedWallet : Type 0 where
  pub address : Str
  pub count : ℕ
  pub outbound : ℕ
  pub inbound : ℕ

-- The texts that `SourceMode` can be once it is normalized.
abbrev pub victim_inbound_dust : Str
victim_inbound_dust = codes "victim_inbound_dust"

abbrev pub attacker_outbound_dust : Str
attacker_outbound_dust = codes "attacker_outbound_dust"

-- `baseline_lookback` is in nanoseconds and not negative, the request delay may be.
pub record Options : Type 0 where
  pub seed_wallet_file : Str
  pub seed_wallets : List Str
  pub scrape_stats : Dict ScrapedWallet
  pub score_seed_wallets : Bool
  pub discover_neighbors : Bool
  pub out_path : Str
  pub rejected_out_path : Str
  pub scan_start : Time
  pub scan_end : Time
  pub baseline_lookback : ℕ
  pub target_count : ℤ
  pub max_seed_wallets : ℤ
  pub max_candidates : ℤ
  pub seed_max_pages : ℤ
  pub candidate_max_pages : ℤ
  pub max_tx_per_wallet : ℤ
  pub max_retries : ℤ
  pub request_delay : ℤ
  pub min_outbound : ℤ
  pub max_accepted_tx : ℤ
  pub max_same_timestamp_tx : ℤ
  pub max_transfers_per_tx : ℤ
  pub max_unknown_dust_spl : ℤ
  pub min_scan_inbound_dust : ℤ
  pub min_unique_dust_recipients : ℤ
  pub known_dust_asset_keys : List Str
  pub deep_dive_top_n : ℤ
  pub deep_dive_max_pages : ℤ
  pub deep_dive_max_tx : ℤ
  pub deep_dive_min_score : ℤ
  pub source_mode : Str

pub record WalletStats : Type 0 where
  pub address : Str
  pub scrape_count : ℕ
  pub scrape_outbound : ℕ
  pub scrape_inbound : ℕ
  pub sample_transactions : ℕ
  pub outbound_transfers : ℕ
  pub inbound_transfers : ℕ
  pub unique_counterparties : ℕ
  pub legit_outbound_counterparties : ℕ
  pub scan_inbound_dust_transfers : ℕ
  pub unique_dust_recipients : ℕ
  pub repeated_inbound_dust_counterparts : ℕ
  pub lookalike_inbound_dust_matches : ℕ
  pub source_score : ℕ
  pub max_same_timestamp_tx : ℕ
  pub max_transfers_per_tx : ℕ
  pub unknown_dust_spl : ℕ
  pub discovered_from_seeds : ℕ

pub record AcceptedWallet : Type 0 where
  pub address : Str
  pub scrape_count : ℕ
  pub scrape_outbound : ℕ
  pub scrape_inbound : ℕ
  pub sample_transactions : ℕ
  pub outbound_transfers : ℕ
  pub inbound_transfers : ℕ
  pub unique_counterparties : ℕ
  pub legit_outbound_counterparties : ℕ
  pub scan_inbound_dust_transfers : ℕ
  pub unique_dust_recipients : ℕ
  pub repeated_inbound_dust_counterparts : ℕ
  pub lookalike_inbound_dust_matches : ℕ
  pub source_score : ℕ
  pub discovered_from_seeds : ℕ

pub data DeepDiveStatus : Type 0 where
  not_queued queued_top_n_skip retried_qualified retried_cap_hit : DeepDiveStatus
  retried_other_reject : DeepDiveStatus

pub record RejectedWallet : Type 0 where
  pub address : Str
  pub reason : Str
  pub deep_dive_status : DeepDiveStatus
  pub scrape_count : ℕ
  pub scrape_outbound : ℕ
  pub scrape_inbound : ℕ
  pub sample_transactions : ℕ
  pub outbound_transfers : ℕ
  pub inbound_transfers : ℕ
  pub unique_counterparties : ℕ
  pub legit_outbound_counterparties : ℕ
  pub scan_inbound_dust_transfers : ℕ
  pub unique_dust_recipients : ℕ
  pub repeated_inbound_dust_counterparts : ℕ
  pub lookalike_inbound_dust_matches : ℕ
  pub source_score : ℕ
  pub discovered_from_seeds : ℕ

pub record SourceResult : Type 0 where
  pub accepted : List AcceptedWallet
  pub rejected : List RejectedWallet

-- An address that was seen, and the seeds that it was seen with.
pub record CandidateDiscovery : Type 0 where
  pub address : Str
  pub seeds : List Str

pub record DeepDiveCandidate : Type 0 where
  pub discovery : CandidateDiscovery
  pub initial_stats : WalletStats
  pub truncation_code : TruncationCode
