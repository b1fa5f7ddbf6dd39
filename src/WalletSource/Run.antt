-- ===== src/WalletSource/Run.antt =====
-- `Source` over a provider and a file system: the seeds' neighbours, one fetch for each candidate,
-- deep dives for the best of those that were cut off, and the files written at the end.
pub mod Partition
pub mod Accepted
pub mod Positive
pub mod Calls
pub mod Requests
use poison_trace.Base.{
  ℕ, suc, ◌+◌, ◌-◌, ℤ, pos, pos_part, ltb_ℤ, leb_ℤ, Bool, true, false, not, ◌&&◌, ◌||◌, List, [],
  ◌∷◌, ◌++◌, Option, none, some, if◌then◌else◌, foldl, length, is_nil,
}
use poison_trace.Text.{Str, codes, is_empty}
use poison_trace.Text.Sort.{sort_by}
use poison_trace.Time.{before}
use poison_trace.Dict.{Dict, add}
use poison_trace.Errors.{ErrorChain, Action, Result, ok, err, plain, wrap}
use poison_trace.Errors.Actions.{◌>>=◌, done, proceed, within}
use poison_trace.Helius.{EnhancedTransaction, Client}
use poison_trace.Transactions.{NormalizedTransfer}
use poison_trace.Transactions.Normalize.{normalize_enhanced_tx}
use poison_trace.Pipeline.Fetch.{FetchWindowParams, FetchWindowResult, fetch_enhanced_window}
use poison_trace.WalletSource.{Options, SourceResult, CandidateDiscovery, DeepDiveCandidate}
use poison_trace.WalletSource.Choice.{with_defaults, dive_before}
use poison_trace.WalletSource.Discovery.{
  add_discovered, discover_transfer, sorted_discoveries, Files, load_seed_wallets,
}
use poison_trace.WalletSource.Select.{
  cap_list, Selection, candidate_step, dive_step, skip_dive, cap_reason, is_target_reached,
  choose_accepted,
}
use poison_trace.WalletSource.Report.{write_accepted, write_rejected}

-- The windows that `Source` fetches differ in their caps only.
unfoldable pub fetch_params : Options → ℤ → ℤ → FetchWindowParams
fetch_params opts max_pages max_tx = record {
  start = opts.scan_start - opts.baseline_lookback;
  end = opts.scan_end;
  max_pages = max_pages;
  max_tx = max_tx;
  max_retries = opts.max_retries;
  request_delay = opts.request_delay;
}

-- The addresses seen so far, and the seeds so far.
pub record Found : Type 0 where
  pub discovered : Dict CandidateDiscovery
  pub seed_set : List Str

abbrev pub nothing_found : Found
nothing_found = record { discovered = []; seed_set = [] }

abbrev pub nothing_selected : Selection
nothing_selected = record { rejected = []; eligible = []; queue = [] }

-- The statements of the loop over the seeds that come before the fetch.
unfoldable pub start_seed : Options → Str → Found → Found
start_seed opts seed f =
    let scored = add_discovered f.discovered seed none seed in
    record {
      discovered = if opts.score_seed_wallets then scored else f.discovered;
      seed_set = add f.seed_set seed;
    }

unfoldable pub fetch :
    {S : Type 0} → Client S → Options → Str → ℤ → ℤ → S → Result FetchWindowResult × S
fetch client opts address max_pages max_tx =
    fetch_enhanced_window (some client) address (fetch_params opts max_pages max_tx)

discover_transfers : Str → Found → Option (List NormalizedTransfer) → Found
discover_transfers seed f none = f
discover_transfers seed f (some transfers) = record f {
  discovered = foldl (discover_transfer seed f.seed_set) f.discovered transfers;
}

-- The options of `SourceDiscovered`: the seeds are the candidates.
unfoldable pub as_candidates : List Str → Options → Options
as_candidates seeds opts = record opts {
  seed_wallets = seeds;
  seed_wallet_file = [];
  score_seed_wallets = true;
  discover_neighbors = false;
}

-- The text of the first test on the options that fails.
unfoldable pub option_error : Options → Option Str
option_error opts =
    if is_empty opts.seed_wallet_file && is_nil opts.seed_wallets
    then some (codes "seed wallet file or seed wallets are required")
    else if is_empty opts.out_path
    then some (codes "out path is required")
    else if is_empty opts.rejected_out_path
    then some (codes "rejected out path is required")
    else if not (before opts.scan_start opts.scan_end)
    then some (codes "scan window must satisfy start < end")
    else none

-- The early returns before a body.
unfoldable pub guarded : {S A : Type 0} → Option Str → Action S A → Action S A
guarded none m = m
guarded (some text) m = done (err (plain text))

module _ (sha256_hex : Str → Str) where
  unfoldable pub discover_tx : Str → Found → EnhancedTransaction → Found
  unfolding discover_transfers
  discover_tx seed f tx = discover_transfers seed f (normalize_enhanced_tx sha256_hex tx)

  module _ {S : Type 0} (client : Client S) (opts : Options) where
    -- The loop over the seeds.
    unfoldable pub discover : List Str → Found → Action S Found
    unfolding within proceed start_seed discover_tx fetch
    discover [] f = done (ok f)
    discover (seed ∷ rest) f =
        let started = start_seed opts seed f in
        let skipped = discover rest started in
        if not opts.discover_neighbors
        then skipped
        else within (codes "fetch seed wallet " ++ seed)
            (fetch client opts seed opts.seed_max_pages opts.max_tx_per_wallet)
          >>= λ page. discover rest (foldl (discover_tx seed) started page.transactions)

    -- The loop over the candidates: an error of a fetch rejects the candidate.
    unfoldable pub examine : List CandidateDiscovery → Selection → S → Selection × S
    unfolding candidate_step fetch
    examine [] sel s = (sel, s)
    examine (c ∷ rest) sel s =
        let (reply, t) =
          fetch client opts c.address opts.candidate_max_pages opts.max_tx_per_wallet s in
        examine rest (candidate_step sha256_hex opts c reply sel) t

    -- The loop over the queue, from position `idx` on.
    unfoldable pub dive_loop : ℕ → List DeepDiveCandidate → Selection → S → Selection × S
    unfolding dive_step skip_dive is_target_reached fetch
    dive_loop idx [] sel s = (sel, s)
    dive_loop idx (d ∷ rest) sel s =
        let low = dive_loop (idx + 1) rest (skip_dive d (cap_reason d) sel) s in
        let late = dive_loop (idx + 1) rest (skip_dive d (codes "target_count_reached") sel) s in
        let (reply, t) =
          fetch client opts d.discovery.address opts.deep_dive_max_pages opts.deep_dive_max_tx s in
        let dived = dive_loop (idx + 1) rest (dive_step sha256_hex opts d reply sel) t in
        if leb_ℤ opts.deep_dive_top_n (pos idx)
        then low
        else if is_target_reached opts (length sel.eligible)
        then late
        else dived

    -- The deep dives, if there are any.
    unfoldable pub deep_dives : Selection × S → Selection × S
    unfolding dive_loop
    deep_dives (sel, s) =
        if not (is_nil sel.queue) && ltb_ℤ (pos 0) opts.deep_dive_top_n
        then dive_loop 0 (sort_by dive_before sel.queue) sel s
        else (sel, s)

    -- From the discovered addresses to the wallets that are accepted and rejected.
    unfoldable pub select_wallets : Found → S → SourceResult × S
    unfolding examine deep_dives
    select_wallets f s =
        let candidates = cap_list opts.max_candidates (sorted_discoveries f.discovered) in
        let (sel, t) = deep_dives (examine candidates nothing_selected s) in
        (choose_accepted opts sel, t)

    unfoldable pub write_result : Files S → SourceResult → Action S SourceResult
    write_result files result = write_accepted files opts.out_path result.accepted >>= λ _.
        write_rejected files opts.rejected_out_path result.rejected >>= λ _. done (ok result)

    -- What follows the reading of the seeds.
    unfoldable pub source_seeds : Files S → List Str → Action S SourceResult
    unfolding discover select_wallets write_result
    source_seeds files seeds =
        if is_nil seeds
        then done (err (plain (codes "seed wallet file has no wallets")))
        else discover (cap_list opts.max_seed_wallets seeds) nothing_found >>= λ f s.
            let (result, t) = select_wallets f s in write_result files result t

  -- No client is `nil`.
  unfoldable pub source :
      {S : Type 0} → Option (Client S) → Files S → Options → Action S SourceResult
  unfolding guarded source_seeds with_defaults load_seed_wallets
  source none files opts = done (err (plain (codes "helius client is required")))
  source (some client) files opts = guarded (option_error opts) (
      load_seed_wallets files opts.seed_wallet_file opts.seed_wallets
      >>= source_seeds client (with_defaults opts) files)

  unfoldable pub source_discovered :
      {S : Type 0} → Option (Client S) → Files S → List Str → Options → Action S SourceResult
  unfolding source as_candidates
  source_discovered client files seeds opts = source client files (as_candidates seeds opts)
