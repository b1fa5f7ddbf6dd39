-- ===== src/Config/Limits.antt =====
-- The bounds of a configuration that the loaders of internal/config/config.go give.
use poison_trace.Base.{
  pos, ◌≤ℤ◌, leb_ℤ, Bool, true, false, Option, none, some, if◌then◌else◌, ◌≡◌, ◌∙◌, ap, sym, inl,
  inr, refl, arith, Bool-cases, Option-cases,
}
use poison_trace.Text.{Str, codes, is_empty}
use poison_trace.Text.Case.{equal_fold}
use poison_trace.Text.Trim.{trim_space, is_blank}
use poison_trace.Errors.{ErrorChain, Result, ok, err, plain, ◌>>=◌}
use poison_trace.Errors.Actions.{Result-cases}
use poison_trace.Config.{
  Config, Environment, load_base_config_from_env, limit_error, text_error, https_error,
  base_url_error, database_error, validate, validate_read_only_api, checked, load_from_env,
  load_read_only_api_from_env,
}

-- The bounds of a configuration.
pub record IsBounded (c : Config) : Type 0 where
  pub wallets : pos 1 ≤ℤ c.max_concurrent_wallets
  pub concurrency : c.max_concurrent_wallets ≤ℤ c.max_wallets_per_run
  pub pages : pos 1 ≤ℤ c.max_tx_pages_per_wallet
  pub txs : pos 1 ≤ℤ c.max_tx_per_wallet
  pub sync_timeout : pos 10 ≤ℤ c.wallet_sync_timeout_seconds
  pub run_timeout : c.wallet_sync_timeout_seconds ≤ℤ c.run_timeout_seconds
  pub delay : pos 0 ≤ℤ c.helius_request_delay_ms
  pub retries : pos 0 ≤ℤ c.max_helius_retries
  pub scan_window : pos 1 ≤ℤ c.scan_window_days
  pub lookback : leb_ℤ c.baseline_lookback_days c.scan_window_days ≡ false
  pub recency : pos 1 ≤ℤ c.lookalike_recency_days
  pub prefix : pos 4 ≤ℤ c.lookalike_prefix_min
  pub suffix : pos 4 ≤ℤ c.lookalike_suffix_min
  pub single_side : pos 6 ≤ℤ c.lookalike_single_side_min
  pub injections : pos 2 ≤ℤ c.min_injection_count
  pub seed_path : is_blank c.dust_thresholds_seed_path ≡ false

limit_error-IsBounded : (c : Config) → limit_error c ≡ none → IsBounded c
unfolding limit_error
limit_error-IsBounded c h = record {
  wallets = ground arith;
  concurrency = ground arith;
  pages = ground arith;
  txs = ground arith;
  sync_timeout = ground arith;
  run_timeout = ground arith;
  delay = ground arith;
  retries = ground arith;
  scan_window = ground arith;
  lookback = ground arith;
  recency = ground arith;
  prefix = ground arith;
  suffix = ground arith;
  single_side = ground arith;
  injections = ground arith;
  seed_path = ground arith;
}

text_error-none : (o : Option Str) → text_error o ≡ none → o ≡ none
text_error-none none h = refl
text_error-none (some text) h = absurd (ground arith)

module _ (parse_request_uri : Str → Result Str) where
  https_error-none :
      (c : Config) (r : Result Str)
      → https_error parse_request_uri c r ≡ none
      → limit_error c ≡ none
  unfolding https_error
  https_error-none c (err e) h = absurd (ground arith)
  https_error-none c (ok scheme) h = elim (Bool-cases (equal_fold scheme (codes "https"))) [
    | inl e ↦ text_error-none (limit_error c) (rw e at h)
    | inr e ↦ absurd (ground (arith, h, e))
  ]

  base_url_error-none :
      (c : Config) → base_url_error parse_request_uri c ≡ none → limit_error c ≡ none
  unfolding base_url_error
  base_url_error-none c h = elim (Bool-cases (is_empty c.helius_base_url)) [
    | inl e ↦ absurd (ground (arith, h, e))
    | inr e ↦ https_error-none c (parse_request_uri c.helius_base_url) (rw e at h)
  ]

  -- The tests on the database's URL pass, and so do those that come after them.
  database_error-none :
      (c : Config) (rest : Option ErrorChain)
      → database_error parse_request_uri c rest ≡ none
      → (rest ≡ none) × (database_error parse_request_uri c none ≡ none)
  unfolding database_error
  database_error-none c rest h = elim (Bool-cases (is_empty c.database_url)) [
    | inl e ↦ absurd (ground (arith, h, e))
    | inr e ↦ elim (Result-cases (parse_request_uri c.database_url)) [
      | inl (scheme, p) ↦ (rw (e, p) at h, rw (e, p) refl)
      | inr (x, p) ↦ absurd (ground (arith, some-none (rw (e, p) at h)))
    ]
  ]
    where
      some-none : {x : ErrorChain} → some x ≡ none → true ≡ false
      some-none h = absurd (ground arith)

  validate-none :
      (c : Config)
      → validate parse_request_uri c ≡ none
      → (database_error parse_request_uri c none ≡ none)
        × (base_url_error parse_request_uri c ≡ none)
  unfolding validate
  validate-none c h =
      let parts = database_error-none c _ h in
      (
        parts.1,
        rest_none (is_empty c.helius_api_key)
            (equal_fold (trim_space c.helius_api_key) (codes "replace_me")) parts.0,
      )
    where
      rest_none :
          (a b : Bool)
          → (if a
              then some (plain (codes "HELIUS_API_KEY is required"))
              else if b
              then some (plain (codes "HELIUS_API_KEY must not be a placeholder value"))
              else base_url_error parse_request_uri c)
            ≡ none
          → base_url_error parse_request_uri c ≡ none
      rest_none true b h = absurd (ground arith)
      rest_none false true h = absurd (ground arith)
      rest_none false false h = h

  validate_read_only_api-none :
      (c : Config) → validate_read_only_api parse_request_uri c ≡ none → limit_error c ≡ none
  unfolding validate_read_only_api
  validate_read_only_api-none c h = base_url_error-none c (database_error-none c _ h).0

  -- What the full check accepts, the other one accepts.
  validate-read_only :
      (c : Config)
      → validate parse_request_uri c ≡ none
      → validate_read_only_api parse_request_uri c ≡ none
  unfolding validate_read_only_api
  validate-read_only c h =
      ap (database_error parse_request_uri c) (validate-none c h).1 ∙ (validate-none c h).0

  checked-eq-ok :
      (test : Config → Option ErrorChain) (c d : Config)
      → checked parse_request_uri test c ≡ ok d
      → test d ≡ none
  unfolding checked
  checked-eq-ok test c d h = elim (Option-cases (test c)) [
    | inl n ↦ sym (ap test (ok_injective (rw (checked, n) at h))) ∙ n
    | inr (e, n) ↦ absurd (ground (arith, err_not_ok (rw (checked, n) at h)))
  ]
    where
      ok_injective : ok c ≡ ok d → c ≡ d
      ok_injective h = ap (λ r. elim r [ ok x ↦ x | err _ ↦ c ]) h

      err_not_ok : {e : ErrorChain} → err e ≡ ok d → true ≡ false
      err_not_ok h = ap (λ r. elim r [ ok _ ↦ false | err _ ↦ true ]) h

  -- The read-only loader, which first tries the full one, is the read-only check of what is read from
  -- the environment: its first attempt makes no difference.
  pub load_read_only_api_from_env-eq :
      (env : Environment)
      → load_read_only_api_from_env parse_request_uri env ≡ (
          load_base_config_from_env env
          >>= checked parse_request_uri (validate_read_only_api parse_request_uri))
  unfolding load_read_only_api_from_env load_from_env
  load_read_only_api_from_env-eq env = by_base (load_base_config_from_env env)
    where
      by_base :
          (base : Result Config)
          → (elim (base >>= checked parse_request_uri (validate parse_request_uri)) [
            | ok c ↦ ok c
            | err e ↦ base >>= checked parse_request_uri (validate_read_only_api parse_request_uri)
          ])
            ≡ (base >>= checked parse_request_uri (validate_read_only_api parse_request_uri))
      by_base (err e) = refl
      by_base (ok c) = elim (Option-cases (validate parse_request_uri c)) [
        | inl n ↦ rw (checked, n, validate-read_only c n) refl
        | inr (e, n) ↦ rw (checked, n) refl
      ]

  -- A configuration that the read-only loader gives is within its bounds: at least
  -- one wallet at a time and no more than the wallets of a run, at least one page and transaction, time
  -- for a wallet within the time for the run, a longer baseline than scan window, and lookalike
  -- thresholds of at least 4, 4 and 6 with at least two injections.
  pub load_read_only_api_from_env-IsBounded :
      (env : Environment) (c : Config)
      → load_read_only_api_from_env parse_request_uri env ≡ ok c
      → IsBounded c
  load_read_only_api_from_env-IsBounded env c h =
      by_base (load_base_config_from_env env) (sym (load_read_only_api_from_env-eq env) ∙ h)
    where
      by_base :
          (base : Result Config)
          → (base >>= checked parse_request_uri (validate_read_only_api parse_request_uri)) ≡ ok c
          → IsBounded c
      by_base (err e) k = absurd (ground arith)
      by_base (ok b) k = limit_error-IsBounded c (
          validate_read_only_api-none c
            (checked-eq-ok (validate_read_only_api parse_request_uri) b c k))
