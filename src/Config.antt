-- ===== src/Config.antt =====
-- internal/config/config.go: the configuration, read from the environment and checked. The
-- environment is a function (`os.Getenv`, the empty text for what is not set), and
-- `url.ParseRequestURI` a parameter that gives the scheme of a URI.
pub mod Limits
pub mod Reading
use poison_trace.Base.{
  ℕ, ◌+◌, ◌*◌, ◌%◌, ◌^◌, ◌-◌, ℤ, pos, negsuc, ltb_ℤ, leb_ℤ, ltb, Bool, true, false, not, ◌&&◌, ◌||◌,
  List, [], ◌∷◌, ◌++◌, Option, none, some, if◌then◌else◌,
}
use poison_trace.Text.{Str, codes, is_empty}
use poison_trace.Text.Case.{equal_fold}
use poison_trace.Text.Quote.{quote}
use poison_trace.Text.Digits.{big_int}
use poison_trace.Text.Trim.{trim_space, is_blank}
use poison_trace.Errors.{ErrorChain, Result, ok, err, plain, wrap, ◌>>=◌}

pub record Config : Type 0 where
  pub database_url : Str
  pub helius_api_key : Str
  pub helius_base_url : Str
  pub api_bearer_token : Str
  pub max_wallets_per_run : ℤ
  pub max_tx_pages_per_wallet : ℤ
  pub max_tx_per_wallet : ℤ
  pub max_concurrent_wallets : ℤ
  pub wallet_sync_timeout_seconds : ℤ
  pub run_timeout_seconds : ℤ
  pub helius_request_delay_ms : ℤ
  pub max_helius_retries : ℤ
  pub baseline_lookback_days : ℤ
  pub scan_window_days : ℤ
  pub lookalike_recency_days : ℤ
  pub lookalike_prefix_min : ℤ
  pub lookalike_suffix_min : ℤ
  pub lookalike_single_side_min : ℤ
  pub min_injection_count : ℤ
  pub dust_thresholds_seed_path : Str

abbrev pub Environment : Type 0
Environment = Str → Str

-- The numbers of Go's `int`, of 64 bits.
unfoldable pub is_int64 : ℤ → Bool
is_int64 (pos n) = ltb n 9_223_372_036_854_775_808
is_int64 (negsuc n) = ltb n 9_223_372_036_854_775_808

in_range : Option ℤ → Option ℤ
unfolding is_int64
in_range none = none
in_range (some n) = if is_int64 n then some n else none

-- `strconv.Atoi`: a sign or none, decimal digits, and a number of 64 bits.
unfoldable pub atoi : Str → Option ℤ
unfolding in_range
atoi s = in_range (big_int s)

unfoldable pub get_env : Environment → Str → Str → Str
get_env env key fallback = if is_empty (env key) then fallback else env key

invalid_integer : Str → Str → ErrorChain
invalid_integer key v = plain (codes "invalid integer env " ++ (key ++ (codes "=" ++ quote v)))

unfoldable pub get_env_int : Environment → Str → ℤ → Result ℤ
unfolding atoi invalid_integer
get_env_int env key fallback =
    if is_empty (env key)
    then ok fallback
    else elim (atoi (env key)) [ none ↦ err (invalid_integer key (env key)) | some n ↦ ok n ]

unfoldable pub load_base_config_from_env : Environment → Result Config
unfolding get_env get_env_int
load_base_config_from_env env =
    let int : Str → ℤ → Result ℤ = λ key fallback. get_env_int env key fallback in
    int (codes "MAX_WALLETS_PER_RUN") (pos 25) >>= λ max_wallets_per_run.
    int (codes "MAX_TX_PAGES_PER_WALLET") (pos 20) >>= λ max_tx_pages_per_wallet.
    int (codes "MAX_TX_PER_WALLET") (pos 1500) >>= λ max_tx_per_wallet.
    int (codes "MAX_CONCURRENT_WALLETS") (pos 2) >>= λ max_concurrent_wallets.
    int (codes "WALLET_SYNC_TIMEOUT_SECONDS") (pos 180) >>= λ wallet_sync_timeout_seconds.
    int (codes "RUN_TIMEOUT_SECONDS") (pos 900) >>= λ run_timeout_seconds.
    int (codes "HELIUS_REQUEST_DELAY_MS") (pos 150) >>= λ helius_request_delay_ms.
    int (codes "MAX_HELIUS_RETRIES") (pos 4) >>= λ max_helius_retries.
    int (codes "BASELINE_LOOKBACK_DAYS") (pos 90) >>= λ baseline_lookback_days.
    int (codes "SCAN_WINDOW_DAYS") (pos 7) >>= λ scan_window_days.
    int (codes "LOOKALIKE_RECENCY_DAYS") (pos 30) >>= λ lookalike_recency_days.
    int (codes "LOOKALIKE_PREFIX_MIN") (pos 4) >>= λ lookalike_prefix_min.
    int (codes "LOOKALIKE_SUFFIX_MIN") (pos 4) >>= λ lookalike_suffix_min.
    int (codes "LOOKALIKE_SINGLE_SIDE_MIN") (pos 6) >>= λ lookalike_single_side_min.
    int (codes "MIN_INJECTION_COUNT") (pos 2) >>= λ min_injection_count. ok (record {
      database_url = env (codes "DATABASE_URL");
      helius_api_key = env (codes "HELIUS_API_KEY");
      helius_base_url = get_env env (codes "HELIUS_BASE_URL") (codes "https://api.helius.xyz/v0");
      api_bearer_token = trim_space (env (codes "API_BEARER_TOKEN"));
      max_wallets_per_run = max_wallets_per_run;
      max_tx_pages_per_wallet = max_tx_pages_per_wallet;
      max_tx_per_wallet = max_tx_per_wallet;
      max_concurrent_wallets = max_concurrent_wallets;
      wallet_sync_timeout_seconds = wallet_sync_timeout_seconds;
      run_timeout_seconds = run_timeout_seconds;
      helius_request_delay_ms = helius_request_delay_ms;
      max_helius_retries = max_helius_retries;
      baseline_lookback_days = baseline_lookback_days;
      scan_window_days = scan_window_days;
      lookalike_recency_days = lookalike_recency_days;
      lookalike_prefix_min = lookalike_prefix_min;
      lookalike_suffix_min = lookalike_suffix_min;
      lookalike_single_side_min = lookalike_single_side_min;
      min_injection_count = min_injection_count;
      dust_thresholds_seed_path =
          get_env env (codes "DUST_THRESHOLDS_SEED_PATH")
            (codes "db/seeds/asset_thresholds.seed.sql");
    })

-- The tests on the numbers and the seed path, which both checks end with.
unfoldable pub limit_error : Config → Option Str
limit_error c =
    if ltb_ℤ c.max_wallets_per_run (pos 1)
      || ltb_ℤ c.max_tx_pages_per_wallet (pos 1)
      || ltb_ℤ c.max_tx_per_wallet (pos 1)
    then some (codes "wallet/page/tx caps must be >= 1")
    else if ltb_ℤ c.max_concurrent_wallets (pos 1)
    then some (codes "MAX_CONCURRENT_WALLETS must be >= 1")
    else if ltb_ℤ c.max_wallets_per_run c.max_concurrent_wallets
    then some (codes "MAX_CONCURRENT_WALLETS must be <= MAX_WALLETS_PER_RUN")
    else if ltb_ℤ c.wallet_sync_timeout_seconds (pos 10) || ltb_ℤ c.run_timeout_seconds (pos 10)
    then some (codes "timeouts must be >= 10 seconds")
    else if ltb_ℤ c.run_timeout_seconds c.wallet_sync_timeout_seconds
    then some (codes "RUN_TIMEOUT_SECONDS must be >= WALLET_SYNC_TIMEOUT_SECONDS")
    else if ltb_ℤ c.helius_request_delay_ms (pos 0)
    then some (codes "HELIUS_REQUEST_DELAY_MS must be >= 0")
    else if ltb_ℤ c.max_helius_retries (pos 0)
    then some (codes "MAX_HELIUS_RETRIES must be >= 0")
    else if ltb_ℤ c.baseline_lookback_days (pos 1) || ltb_ℤ c.scan_window_days (pos 1)
    then some (codes "window days must be >= 1")
    else if leb_ℤ c.baseline_lookback_days c.scan_window_days
    then some (codes "BASELINE_LOOKBACK_DAYS must be > SCAN_WINDOW_DAYS")
    else if ltb_ℤ c.lookalike_recency_days (pos 1)
    then some (codes "LOOKALIKE_RECENCY_DAYS must be >= 1")
    else if ltb_ℤ c.lookalike_prefix_min (pos 1)
        || ltb_ℤ c.lookalike_suffix_min (pos 1)
        || ltb_ℤ c.lookalike_single_side_min (pos 1)
    then some (codes "lookalike thresholds must be >= 1")
    else if ltb_ℤ c.lookalike_prefix_min (pos 4)
        || ltb_ℤ c.lookalike_suffix_min (pos 4)
        || ltb_ℤ c.lookalike_single_side_min (pos 6)
    then some (
        codes
          "lookalike thresholds must satisfy phase1 minimums: prefix>=4, suffix>=4, single-side>=6")
    else if ltb_ℤ c.min_injection_count (pos 2)
    then some (codes "MIN_INJECTION_COUNT must be >= 2")
    else if is_blank c.dust_thresholds_seed_path
    then some (codes "DUST_THRESHOLDS_SEED_PATH is required")
    else none

-- The error of a text, if there is one.
abbrev text_error : Option Str → Option ErrorChain
text_error none = none
text_error (some text) = some (plain text)

module _ (parse_request_uri : Str → Result Str) where
  -- The tests on the scheme, and those after it.
  https_error : Config → Result Str → Option ErrorChain
  https_error c (err e) = some (wrap (codes "HELIUS_BASE_URL must be a valid URI") e)
  https_error c (ok scheme) =
      if not (equal_fold scheme (codes "https"))
      then some (plain (codes "HELIUS_BASE_URL must use https"))
      else text_error (limit_error c)

  base_url_error : Config → Option ErrorChain
  unfolding https_error
  base_url_error c =
      if is_empty c.helius_base_url
      then some (plain (codes "HELIUS_BASE_URL is required"))
      else https_error c (parse_request_uri c.helius_base_url)

  -- The tests on the database's URL, before others.
  database_error : Config → Option ErrorChain → Option ErrorChain
  database_error c rest =
      if is_empty c.database_url
      then some (plain (codes "DATABASE_URL is required"))
      else elim (parse_request_uri c.database_url) [
        | err e ↦ some (wrap (codes "DATABASE_URL must be a valid URI") e)
        | ok scheme ↦ rest
      ]

  unfoldable pub validate : Config → Option ErrorChain
  unfolding database_error base_url_error limit_error
  validate c = database_error c (
      if is_empty c.helius_api_key
      then some (plain (codes "HELIUS_API_KEY is required"))
      else if equal_fold (trim_space c.helius_api_key) (codes "replace_me")
      then some (plain (codes "HELIUS_API_KEY must not be a placeholder value"))
      else base_url_error c)

  unfoldable pub validate_read_only_api : Config → Option ErrorChain
  unfolding database_error base_url_error limit_error
  validate_read_only_api c = database_error c (base_url_error c)

  -- `if err := …; err != nil { return Config{}, err }; return cfg, nil`.
  unfoldable pub checked : (Config → Option ErrorChain) → Config → Result Config
  checked test c = elim (test c) [ none ↦ ok c | some e ↦ err e ]

  -- It repeats the statements of `loadBaseConfigFromEnv`.
  unfoldable pub load_from_env : Environment → Result Config
  unfolding load_base_config_from_env checked validate
  load_from_env env = load_base_config_from_env env >>= checked validate

  unfoldable pub load_read_only_api_from_env : Environment → Result Config
  unfolding load_from_env load_base_config_from_env checked validate_read_only_api
  load_read_only_api_from_env env = elim (load_from_env env) [
    | ok c ↦ ok c
    | err e ↦ load_base_config_from_env env >>= checked validate_read_only_api
  ]
