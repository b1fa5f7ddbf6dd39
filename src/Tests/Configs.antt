-- ===== src/Tests/Configs.antt =====
-- A configuration with the defaults of the environment, for tests.
use poison_trace.Base.{pos, []}
use poison_trace.Text.{codes}
use poison_trace.Config.{Config}

abbrev pub loaded : Config
loaded = record {
  database_url = codes "postgres://db";
  helius_api_key = [];
  helius_base_url = codes "https://api.helius.xyz/v0";
  api_bearer_token = [];
  max_wallets_per_run = pos 25;
  max_tx_pages_per_wallet = pos 20;
  max_tx_per_wallet = pos 1500;
  max_concurrent_wallets = pos 2;
  wallet_sync_timeout_seconds = pos 180;
  run_timeout_seconds = pos 900;
  helius_request_delay_ms = pos 150;
  max_helius_retries = pos 4;
  baseline_lookback_days = pos 90;
  scan_window_days = pos 7;
  lookalike_recency_days = pos 30;
  lookalike_prefix_min = pos 4;
  lookalike_suffix_min = pos 4;
  lookalike_single_side_min = pos 6;
  min_injection_count = pos 2;
  dust_thresholds_seed_path = codes "db/seeds/asset_thresholds.seed.sql";
}
