-- ===== src/Daemon/Estimate.antt =====
-- The requests of a cycle's source phase and the credits that the cycle reserves
-- (cmd/scanner/daemon.go).
use poison_trace.Base.{
  ℕ, ◌+◌, ◌*◌, ◌≤◌, ◌<◌, ℤ, pos, pos_part, ◌≤ℤ◌, ltb_ℤ, false, none, some, List, map, if◌then◌else◌,
  ◌≡◌, ap, refl, arith,
}
use poison_trace.Text.{Str}
use poison_trace.Time.{Time}
use poison_trace.Helius.{Client}
use poison_trace.Pipeline.Fetch.Calls.{CountsRequests}
use poison_trace.Config.{Config}
use poison_trace.WalletSource.{ScrapedWallet}
use poison_trace.WalletSource.Choice.{with_defaults, or_default}
use poison_trace.WalletSource.Discovery.{Files}
use poison_trace.WalletSource.Run.{source, source_discovered, as_candidates}
use poison_trace.WalletSource.Run.Calls.{wallet_requests}
use poison_trace.WalletSource.Run.Requests.{KeepsCount, source_discovered-count}
use poison_trace.Daemon.{
  DaemonOptions, enhanced_attempts, exact_credits, estimate_daemon_cycle_credits,
  validate_daemon_options,
}
use poison_trace.Daemon.Accepted.{IsAccepted, validate_daemon_options-IsAccepted}
use poison_trace.Daemon.Cycle.{source_options}

or_default-of_positive : (v d : ℤ) → pos 1 ≤ℤ v → or_default v d ≡ v
or_default-of_positive v d h = ground (arith, h)

-- An estimate that fits into 64 bits is exact.
estimate-exact :
    (opts : DaemonOptions)
    → exact_credits opts < 9_223_372_036_854_775_808
    → estimate_daemon_cycle_credits opts ≡ pos (exact_credits opts)
unfolding estimate_daemon_cycle_credits
estimate-exact opts h = ground (arith, h)

within_estimate :
    (opts : DaemonOptions)
    → exact_credits opts < 9_223_372_036_854_775_808
    → enhanced_attempts opts * 100 ≤ pos_part (estimate_daemon_cycle_credits opts)
unfolding exact_credits
within_estimate opts h = rw (estimate-exact opts h) (omega arith)

module _ {S : Type 0} (client : Client S) (files : Files S) (count : S → ℕ)
    (counts : CountsRequests client count) (quiet : KeepsCount files count)
    (sha256_hex : Str → Str) where
  -- The scraped wallets are the candidates.
  as_discovered :
      (cfg : Config) (opts : DaemonOptions) (end : Time) (accepted rejected : Str)
      (scraped : List ScrapedWallet) (s : S)
      → source sha256_hex
          (some client)
          files
          (source_options cfg opts end accepted rejected scraped)
          s
        ≡ source_discovered sha256_hex
            (some client)
            files
            (map (λ w. w.address) scraped)
            (source_options cfg opts end accepted rejected scraped)
            s
  unfolding source_discovered as_candidates source_options
  as_discovered cfg opts end accepted rejected scraped s = refl

  -- The options of a cycle are bounds that the defaults leave.
  cycle_requests :
      (cfg : Config) (opts : DaemonOptions) (end : Time) (accepted rejected : Str)
      (scraped : List ScrapedWallet) (seeds : List Str)
      → IsAccepted opts
      → wallet_requests count client counts sha256_hex (
          with_defaults
            (as_candidates seeds (source_options cfg opts end accepted rejected scraped)))
        ≤ enhanced_attempts opts
  unfolding with_defaults enhanced_attempts as_candidates source_options
  cycle_requests cfg opts end accepted rejected scraped seeds h =
      rw
        (
          or_default-of_positive opts.max_candidates (pos 100) h.candidates,
          or_default-of_positive opts.candidate_max_pages (pos 5) h.pages,
          or_default-of_positive opts.deep_dive_max_pages _ h.dive_pages,
          top_n opts.deep_dive_top_n h.dives,
        )
        (omega arith)
    where
      top_n : (v : ℤ) → pos 0 ≤ℤ v → (if ltb_ℤ v (pos 0) then pos 0 else v) ≡ v
      top_n v h = let low : ltb_ℤ v (pos 0) ≡ false = ground (arith, h) in rw low refl

  -- With options that are accepted, and an estimate that fits into 64 bits: at 100 credits for a
  -- request, the source phase of a cycle uses no more than the estimate that the cycle reserves,
  -- whatever wallets were scraped and whatever the provider answers.
  pub source_options-affordable :
      (cfg : Config) (opts : DaemonOptions) (end : Time) (accepted rejected : Str)
      (scraped : List ScrapedWallet) (s : S)
      → validate_daemon_options cfg opts ≡ none
      → exact_credits opts < 9_223_372_036_854_775_808
      → count
            (source sha256_hex
              (some client)
              files
              (source_options cfg opts end accepted rejected scraped)
              s).1
          * 100
        ≤ count s * 100 + pos_part (estimate_daemon_cycle_credits opts)
  source_options-affordable cfg opts end accepted rejected scraped s h k =
      let o = source_options cfg opts end accepted rejected scraped in
      let seeds = map (λ w. w.address) scraped in
      omega (
        arith,
        source_discovered-count files count quiet client counts sha256_hex o seeds s,
        ap (λ r. count r.1) (as_discovered cfg opts end accepted rejected scraped s),
        cycle_requests cfg opts end accepted rejected scraped seeds
            (validate_daemon_options-IsAccepted cfg opts h),
        within_estimate opts k,
      )
