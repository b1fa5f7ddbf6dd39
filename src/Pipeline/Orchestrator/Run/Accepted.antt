-- ===== src/Pipeline/Orchestrator/Run/Accepted.antt =====
-- What a run that starts is given.
use poison_trace.Base.{
  ◌≤◌, ◌<◌, pos, pos_part, ltb_ℤ, leb_ℤ, ltb, false, not, ◌&&◌, List, [], Option, none, some,
  length, ◌≡◌, ◌==◌, refl, arith, Bool-cases, inl, inr,
}
use poison_trace.Text.{Str, str_eq, str_lt}
use poison_trace.Text.Sort.{sort_by, count_by-sort_by, length-sort_by}
use poison_trace.Errors.Actions.{OnOk, OnOk-proceed, proceed-OnOk}
use poison_trace.Config.{Config}
use poison_trace.Wallets.{normalize_addresses}
use poison_trace.Wallets.Bounded.{occurrences, load_addresses_excluding_file-IsLoad}
use poison_trace.Wallets.Unique.{normalize_addresses-counts}
use poison_trace.Pipeline.Runner.{RunParams}
use poison_trace.Pipeline.Orchestrator.Run.{
  RunWorld, RunRepository, wallet_list, create_run, start_run, with_baseline, prepare_run,
}

-- A list of wallets without repeats, within a positive bound.
pub record IsWalletList (cfg : Config) (list : List Str) : Type 0 where
  pub once : (k : Str) → occurrences k list ≤ 1
  pub bounded :
      (ltb_ℤ (pos 0) cfg.max_wallets_per_run
        && ltb (pos_part cfg.max_wallets_per_run) (length list))
      ≡ false

-- What a run's goroutines are started with.
pub record IsPrepared (cfg : Config) (start : List Str × RunParams) : Type 0 where
  pub window : start.1.scan_start < start.1.scan_end
  pub baseline : leb_ℤ start.1.baseline_lookback_days (pos 0) ≡ false
  pub some_wallet : 0 < length start.0
  pub wallets : IsWalletList cfg start.0

module _ {S : Type 0} (world : RunWorld S) (cfg : Config) where
  wallet_list-IsWalletList :
      (p : RunParams) (s : S) → OnOk (IsWalletList cfg) (wallet_list world cfg p s)
  unfolding wallet_list
  wallet_list-IsWalletList p s = elim (Bool-cases (ltb 0 (length p.wallet_addresses))) [
    | inl given ↦
        let n = normalize_addresses p.wallet_addresses cfg.max_wallets_per_run in
        let c = normalize_addresses-counts p.wallet_addresses cfg.max_wallets_per_run in
        elim (Bool-cases (ltb (length n.0) n.1)) [
          | inl cut ↦ rw (given, cut) tt
          | inr whole ↦ rw (given, whole) (record { once = λ k. (c k).0; bounded = (c []).1 })
        ]
    | inr files ↦ rw files (
        proceed-OnOk (IsWalletList cfg) (world.read_wallet_files s) _ (λ (lines, excluded) t.
          let l = load_addresses_excluding_file-IsLoad lines excluded cfg.max_wallets_per_run in
          record { once = l.once; bounded = l.bounded }))
  ]

  -- A new number is all that changes in the parameters of a run.
  create_run-params :
      (repo : Option (RunRepository S)) (p : RunParams) (s : S)
      → OnOk
          (λ q.
            (q.scan_start ≡ p.scan_start)
            × (q.scan_end ≡ p.scan_end)
            × (q.baseline_lookback_days ≡ p.baseline_lookback_days))
          (create_run world cfg repo p s)
  unfolding create_run
  create_run-params none p s = (refl, refl, refl)
  create_run-params (some repo) p s = elim (Bool-cases (p.ingestion_run_id == 0)) [
    | inl unset ↦ rw unset (proceed-OnOk _ _ _ (λ id t. (refl, refl, refl)))
    | inr set ↦ rw set (refl, refl, refl)
  ]

  start_run-IsPrepared :
      (p : RunParams) (found : List Str) (s : S)
      → p.scan_start < p.scan_end
      → leb_ℤ p.baseline_lookback_days (pos 0) ≡ false
      → IsWalletList cfg found
      → OnOk (IsPrepared cfg) (start_run world cfg p found s)
  unfolding start_run
  start_run-IsPrepared p found s window baseline l =
      let sorted = sort_by str_lt found in
      elim (Bool-cases (length sorted == 0)) [
        | inl none_left ↦ rw none_left tt
        | inr left ↦ elim (Bool-cases (not world.has_wallet_runner)) [
          | inl idle ↦ rw (left, idle) tt
          | inr ready ↦
              rw (left, ready)
                (OnOk-proceed _ _ _ _ (create_run-params world.run_repo p s) (λ q t (a, b, c).
                  record {
                    window = omega (arith, a, b);
                    baseline = rw c baseline;
                    some_wallet = ground arith;
                    wallets = record {
                      once = λ k.
                          omega (arith, l.once k, count_by-sort_by str_lt (λ a. str_eq a k) found);
                      bounded = rw (length-sort_by str_lt found) l.bounded;
                    };
                  }))
        ]
      ]

  -- If a run starts its wallets, its window of time is not empty, its baseline is at least a day, and
  -- its wallets are at least one, none of them twice, and no more than a positive bound.
  pub prepare_run-IsPrepared :
      (p : RunParams) (s : S) → OnOk (IsPrepared cfg) (prepare_run world cfg p s)
  unfolding prepare_run
  prepare_run-IsPrepared p s = elim (Bool-cases (not (ltb p.scan_start p.scan_end))) [
    | inl bad ↦ rw bad tt
    | inr window ↦
        elim (Bool-cases (leb_ℤ (with_baseline world cfg p).baseline_lookback_days (pos 0))) [
          | inl short ↦ rw (window, short) tt
          | inr long ↦
              rw (window, long)
                (OnOk-proceed _ _ _ _ (wallet_list-IsWalletList (with_baseline world cfg p) s)
                  (λ found t l.
                    start_run-IsPrepared (with_baseline world cfg p) found t (ground arith) long l))
        ]
  ]
