-- ===== src/WalletSource/Choice.antt =====
-- The defaults of the options, the tests on the statistics of a wallet, and the rows of the result.
use poison_trace.Base.{
  ℕ, ◌+◌, ℤ, pos, pos_part, ltb_ℤ, leb_ℤ, Bool, true, false, not, ◌&&◌, Option, none, some,
  if◌then◌else◌, ◌==◌, ltb, is_nil,
}
use poison_trace.Text.{Str, codes, str_eq, str_lt}
use poison_trace.Text.Trim.{trim_space}
use poison_trace.Pipeline.Fetch.{
  TruncationCode, no_code, max_tx_pages_per_wallet_reached, max_tx_per_wallet_reached,
  helius_retry_exhausted,
}
use poison_trace.WalletSource.{
  Options, WalletStats, AcceptedWallet, RejectedWallet, DeepDiveStatus, not_queued,
  victim_inbound_dust, attacker_outbound_dust, DeepDiveCandidate,
}
use poison_trace.WalletSource.Amounts.{default_known_dust_asset_keys}

-- `a + n` for a number that is positive here.
add_int : ℤ → ℕ → ℤ
add_int a n = pos (pos_part a + n)

-- `if v <= 0 { v = d }`.
abbrev pub or_default : ℤ → ℤ → ℤ
or_default v d = if leb_ℤ v (pos 0) then d else v

unfoldable pub normalize_source_mode : Str → Str
normalize_source_mode mode =
    if str_eq (trim_space mode) attacker_outbound_dust
    then attacker_outbound_dust
    else victim_inbound_dust

unfoldable pub with_defaults : Options → Options
unfolding normalize_source_mode add_int
with_defaults opts =
    let candidate_max_pages = or_default opts.candidate_max_pages (pos 5) in
    let max_tx_per_wallet = or_default opts.max_tx_per_wallet (pos 400) in
    let default_keys = default_known_dust_asset_keys in
    record opts {
      target_count = or_default opts.target_count (pos 30);
      max_seed_wallets = or_default opts.max_seed_wallets (pos 10);
      max_candidates = or_default opts.max_candidates (pos 100);
      seed_max_pages = or_default opts.seed_max_pages (pos 3);
      candidate_max_pages = candidate_max_pages;
      max_tx_per_wallet = max_tx_per_wallet;
      min_outbound = or_default opts.min_outbound (pos 1);
      min_unique_dust_recipients = or_default opts.min_unique_dust_recipients (pos 10);
      max_accepted_tx = or_default opts.max_accepted_tx max_tx_per_wallet;
      max_same_timestamp_tx = or_default opts.max_same_timestamp_tx (pos 5);
      max_transfers_per_tx = or_default opts.max_transfers_per_tx (pos 4);
      deep_dive_top_n = if ltb_ℤ opts.deep_dive_top_n (pos 0) then pos 0 else opts.deep_dive_top_n;
      deep_dive_max_pages = or_default opts.deep_dive_max_pages (add_int candidate_max_pages 2);
      deep_dive_max_tx = or_default opts.deep_dive_max_tx (add_int max_tx_per_wallet 200);
      deep_dive_min_score = or_default opts.deep_dive_min_score (pos 40);
      known_dust_asset_keys =
          if is_nil opts.known_dust_asset_keys then default_keys else opts.known_dust_asset_keys;
      discover_neighbors =
          if not opts.score_seed_wallets && not opts.discover_neighbors
          then true
          else opts.discover_neighbors;
      source_mode = normalize_source_mode opts.source_mode;
    }

-- The two codes that more pages or transactions would have avoided.
abbrev is_cap_code : TruncationCode → Bool
is_cap_code no_code = false
is_cap_code max_tx_pages_per_wallet_reached = true
is_cap_code max_tx_per_wallet_reached = true
is_cap_code helius_retry_exhausted = false

unfoldable pub should_deep_dive : WalletStats → TruncationCode → Options → Bool
should_deep_dive stats code opts =
    if leb_ℤ opts.deep_dive_top_n (pos 0)
    then false
    else if not (is_cap_code code)
    then false
    else if ltb_ℤ (pos stats.scan_inbound_dust_transfers) opts.min_scan_inbound_dust
    then false
    else if str_eq opts.source_mode attacker_outbound_dust
    then true
    else if ltb_ℤ (pos stats.source_score) opts.deep_dive_min_score
    then false
    else true

unfoldable pub stats_reject_reason : WalletStats → Options → Option Str
stats_reject_reason stats opts =
    if stats.sample_transactions == 0
    then some (codes "no_sample_transactions")
    else if ltb_ℤ opts.max_accepted_tx (pos stats.sample_transactions)
    then some (codes "too_many_sample_transactions")
    else if ltb_ℤ (pos stats.outbound_transfers) opts.min_outbound
    then some (codes "insufficient_outbound_history")
    else if ltb_ℤ opts.max_same_timestamp_tx (pos stats.max_same_timestamp_tx)
    then some (codes "bursty_same_timestamp_activity")
    else if ltb_ℤ opts.max_transfers_per_tx (pos stats.max_transfers_per_tx)
    then some (codes "batch_transfer_activity")
    else if ltb_ℤ opts.max_unknown_dust_spl (pos stats.unknown_dust_spl)
    then some (codes "unknown_dust_spl_activity")
    else if ltb_ℤ (pos stats.scan_inbound_dust_transfers) opts.min_scan_inbound_dust
    then if str_eq opts.source_mode attacker_outbound_dust
      then some (codes "insufficient_outbound_dust_activity")
      else some (codes "insufficient_inbound_dust_activity")
    else if str_eq opts.source_mode attacker_outbound_dust
        && ltb_ℤ (pos stats.unique_dust_recipients) opts.min_unique_dust_recipients
    then some (codes "insufficient_unique_dust_recipients")
    else none

unfoldable pub accepted_from_stats : WalletStats → AcceptedWallet
accepted_from_stats stats = record {
  address = stats.address;
  scrape_count = stats.scrape_count;
  scrape_outbound = stats.scrape_outbound;
  scrape_inbound = stats.scrape_inbound;
  sample_transactions = stats.sample_transactions;
  outbound_transfers = stats.outbound_transfers;
  inbound_transfers = stats.inbound_transfers;
  unique_counterparties = stats.unique_counterparties;
  legit_outbound_counterparties = stats.legit_outbound_counterparties;
  scan_inbound_dust_transfers = stats.scan_inbound_dust_transfers;
  unique_dust_recipients = stats.unique_dust_recipients;
  repeated_inbound_dust_counterparts = stats.repeated_inbound_dust_counterparts;
  lookalike_inbound_dust_matches = stats.lookalike_inbound_dust_matches;
  source_score = stats.source_score;
  discovered_from_seeds = stats.discovered_from_seeds;
}

-- `rejectedFromStatsWithDeepDiveStatus`.
unfoldable pub rejected_with_status : WalletStats → Str → DeepDiveStatus → RejectedWallet
rejected_with_status stats reason status = record {
  address = stats.address;
  reason = reason;
  deep_dive_status = status;
  scrape_count = stats.scrape_count;
  scrape_outbound = stats.scrape_outbound;
  scrape_inbound = stats.scrape_inbound;
  sample_transactions = stats.sample_transactions;
  outbound_transfers = stats.outbound_transfers;
  inbound_transfers = stats.inbound_transfers;
  unique_counterparties = stats.unique_counterparties;
  legit_outbound_counterparties = stats.legit_outbound_counterparties;
  scan_inbound_dust_transfers = stats.scan_inbound_dust_transfers;
  unique_dust_recipients = stats.unique_dust_recipients;
  repeated_inbound_dust_counterparts = stats.repeated_inbound_dust_counterparts;
  lookalike_inbound_dust_matches = stats.lookalike_inbound_dust_matches;
  source_score = stats.source_score;
  discovered_from_seeds = stats.discovered_from_seeds;
}

unfoldable pub rejected_from_stats : WalletStats → Str → RejectedWallet
unfolding rejected_with_status
rejected_from_stats stats reason = rejected_with_status stats reason not_queued

-- The order of the deep dives: by score, the highest first, then by address.
unfoldable pub dive_before : DeepDiveCandidate → DeepDiveCandidate → Bool
dive_before a b =
    if a.initial_stats.source_score == b.initial_stats.source_score
    then str_lt a.initial_stats.address b.initial_stats.address
    else ltb b.initial_stats.source_score a.initial_stats.source_score

-- The order of the eligible wallets.
unfoldable pub eligible_before : WalletStats → WalletStats → Bool
eligible_before a b =
    if not (a.source_score == b.source_score)
    then ltb b.source_score a.source_score
    else if not (a.scan_inbound_dust_transfers == b.scan_inbound_dust_transfers)
    then ltb b.scan_inbound_dust_transfers a.scan_inbound_dust_transfers
    else if not (a.legit_outbound_counterparties == b.legit_outbound_counterparties)
    then ltb b.legit_outbound_counterparties a.legit_outbound_counterparties
    else str_lt a.address b.address
