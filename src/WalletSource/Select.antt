-- ===== src/WalletSource/Select.antt =====
-- The loops of `Source` without their fetches: what a reply makes of a candidate, which candidates are
-- fetched a second time, and the choice among the eligible wallets.
pub mod Count
pub mod Eligible
use poison_trace.Base.{
  ℕ, suc, ◌+◌, ◌-◌, ℤ, pos, pos_part, ltb_ℤ, leb_ℤ, Bool, true, false, not, ◌&&◌, ◌||◌, List, [],
  ◌∷◌, ◌++◌, map, Option, none, some, if◌then◌else◌, foldl, length, take, is_nil,
}
use poison_trace.Text.{Str, codes, is_empty}
use poison_trace.Text.Sort.{sort_by}
use poison_trace.Time.{Time, before}
use poison_trace.Dict.{Dict, get, add}
use poison_trace.Errors.{ErrorChain, Action, Result, ok, err, plain, wrap}
use poison_trace.Errors.Actions.{◌>>=◌, done, within}
use poison_trace.Helius.{EnhancedTransaction, Client}
use poison_trace.Transactions.{NormalizedTransfer}
use poison_trace.Transactions.Normalize.{normalize_enhanced_tx}
use poison_trace.Pipeline.Fetch.{FetchWindowParams, FetchWindowResult, fetch_enhanced_window}
use poison_trace.Pipeline.Core.Sync.{code_text}
use poison_trace.WalletSource.{
  Options, ScrapedWallet, WalletStats, RejectedWallet, SourceResult, CandidateDiscovery,
  DeepDiveCandidate, DeepDiveStatus, not_queued, queued_top_n_skip, retried_cap_hit,
  retried_other_reject,
}
use poison_trace.WalletSource.Amounts.{known_dust_threshold_map}
use poison_trace.WalletSource.Summary.{summarize_wallet, source_score}
use poison_trace.WalletSource.Choice.{
  with_defaults, should_deep_dive, stats_reject_reason, accepted_from_stats, rejected_with_status,
  rejected_from_stats, dive_before, eligible_before,
}
use poison_trace.WalletSource.Discovery.{
  add_discovered, discover_transfer, sorted_discoveries, Files, load_seed_wallets,
}

-- `if max > 0 && len(list) > max { list = list[:max] }`.
unfoldable pub cap_list {ℓ} : {A : Type ℓ} → ℤ → List A → List A
cap_list max_count xs =
    if ltb_ℤ (pos 0) max_count && ltb_ℤ max_count (pos (length xs))
    then take (pos_part max_count) xs
    else xs

-- The candidates that are rejected, eligible, and queued for a second look.
pub record Selection : Type 0 where
  pub rejected : List RejectedWallet
  pub eligible : List WalletStats
  pub queue : List DeepDiveCandidate

unfoldable pub reject : RejectedWallet → Selection → Selection
reject w sel = record sel { rejected = sel.rejected ++ w ∷ [] }

unfoldable pub admit : WalletStats → Selection → Selection
admit stats sel = record sel { eligible = sel.eligible ++ stats ∷ [] }

unfoldable pub enqueue : DeepDiveCandidate → Selection → Selection
enqueue d sel = record sel { queue = sel.queue ++ d ∷ [] }

activity_cap : FetchWindowResult → Str
activity_cap page = codes "activity_cap_reached:" ++ code_text page.truncation_code

no_scrape : ScrapedWallet
no_scrape = record { address = []; count = 0; outbound = 0; inbound = 0 }

-- `opts.ScrapeStats[address]`, with the zero value on a missing key.
scrape_or_zero : Option ScrapedWallet → ScrapedWallet
unfolding no_scrape
scrape_or_zero none = no_scrape
scrape_or_zero (some w) = w

unfoldable pub with_scrape : Option ScrapedWallet → WalletStats → WalletStats
with_scrape none stats = stats
with_scrape (some w) stats = record stats {
  scrape_count = w.count;
  scrape_outbound = w.outbound;
  scrape_inbound = w.inbound;
}

unfoldable pub fetch_error_wallet : Options → CandidateDiscovery → RejectedWallet
unfolding scrape_or_zero
fetch_error_wallet opts c =
    let scrape = scrape_or_zero (get opts.scrape_stats c.address) in
    record {
      address = c.address;
      reason = codes "fetch_error";
      deep_dive_status = not_queued;
      scrape_count = scrape.count;
      scrape_outbound = scrape.outbound;
      scrape_inbound = scrape.inbound;
      sample_transactions = 0;
      outbound_transfers = 0;
      inbound_transfers = 0;
      unique_counterparties = 0;
      legit_outbound_counterparties = 0;
      scan_inbound_dust_transfers = 0;
      unique_dust_recipients = 0;
      repeated_inbound_dust_counterparts = 0;
      lookalike_inbound_dust_matches = 0;
      source_score = 0;
      discovered_from_seeds = length c.seeds;
    }

-- A candidate of the queue that is not fetched again.
unfoldable pub skip_dive : DeepDiveCandidate → Str → Selection → Selection
unfolding reject
skip_dive d reason sel = reject (rejected_with_status d.initial_stats reason queued_top_n_skip) sel

abbrev pub cap_reason : DeepDiveCandidate → Str
cap_reason d = codes "activity_cap_reached:" ++ code_text d.truncation_code

-- `opts.TargetCount > 0 && n >= opts.TargetCount`.
unfoldable pub is_target_reached : Options → ℕ → Bool
is_target_reached opts n = ltb_ℤ (pos 0) opts.target_count && leb_ℤ opts.target_count (pos n)

-- The last loop: the wallets from position `i` on.
unfoldable pub choose : Options → ℕ → List WalletStats → SourceResult → SourceResult
unfolding is_target_reached rejected_from_stats
choose opts i [] result = result
choose opts i (stats ∷ rest) result =
    let target_reached = codes "target_count_reached" in
    let left_out = choose opts (i + 1) rest (record result {
      rejected = result.rejected ++ rejected_from_stats stats target_reached ∷ [];
    }) in
    let taken =
      choose opts (i + 1) rest
        (record result { accepted = result.accepted ++ accepted_from_stats stats ∷ [] }) in
    if is_target_reached opts i then left_out else taken

unfoldable pub choose_accepted : Options → Selection → SourceResult
unfolding choose sort_by eligible_before
choose_accepted opts sel =
    choose opts 0 (sort_by eligible_before sel.eligible)
      (record { accepted = []; rejected = sel.rejected })

module _ (sha256_hex : Str → Str) (opts : Options) where
  -- The statistics of a fetched candidate, with its scrape counts, seeds and score.
  unfoldable pub candidate_stats : CandidateDiscovery → List EnhancedTransaction → WalletStats
  unfolding with_scrape
  candidate_stats c txs =
      let thresholds = known_dust_threshold_map opts.known_dust_asset_keys in
      let summary =
        summarize_wallet c.address opts.scan_start thresholds opts.source_mode sha256_hex txs in
      let scraped = with_scrape (get opts.scrape_stats c.address) summary in
      let stats = record scraped { discovered_from_seeds = length c.seeds } in
      record stats { source_score = source_score stats }

  -- The tests that come after those for a partial window.
  unfoldable pub judge : WalletStats → Bool → DeepDiveStatus → Selection → Selection
  unfolding reject admit
  judge stats retry_exhausted status sel =
      if retry_exhausted
      then reject (rejected_with_status stats (codes "helius_retry_exhausted") status) sel
      else elim (stats_reject_reason stats opts) [
        | some reason ↦ reject (rejected_with_status stats reason status) sel
        | none ↦ admit stats sel
      ]

  -- The body of the loop over the candidates, after the fetch.
  unfoldable pub candidate_step :
      CandidateDiscovery → Result FetchWindowResult → Selection → Selection
  unfolding judge reject enqueue activity_cap fetch_error_wallet rejected_from_stats
  candidate_step c (err e) sel = reject (fetch_error_wallet opts c) sel
  candidate_step c (ok page) sel =
      let stats = candidate_stats c page.transactions in
      let dive : DeepDiveCandidate = record {
        discovery = c;
        initial_stats = stats;
        truncation_code = page.truncation_code;
      } in
      if page.partial
      then if should_deep_dive stats page.truncation_code opts
        then enqueue dive sel
        else reject (rejected_from_stats stats (activity_cap page)) sel
      else judge stats page.retry_exhausted not_queued sel

  -- The body of the loop over the queue, after the second fetch.
  unfoldable pub dive_step : DeepDiveCandidate → Result FetchWindowResult → Selection → Selection
  unfolding judge reject activity_cap
  dive_step d (err e) sel =
      reject
        (rejected_with_status d.initial_stats (codes "deep_dive_fetch_error") retried_other_reject)
        sel
  dive_step d (ok page) sel =
      let stats = candidate_stats d.discovery page.transactions in
      if page.partial
      then reject (rejected_with_status stats (activity_cap page) retried_cap_hit) sel
      else judge stats page.retry_exhausted retried_other_reject sel
