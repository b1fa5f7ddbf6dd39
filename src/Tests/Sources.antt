-- ===== src/Tests/Sources.antt =====
-- A source of wallets over a provider with one page, a scrape of one block, and their theorems.
use poison_trace.Text.Digits.{all_digits}
use poison_trace.Transactions.Normalize.{
  normalize_enhanced_tx, native_loop, token_loop, native_transfer, token_transfer, token_verdict,
  native_verdict, is_fungible, sanitize_raw_amount,
}
use poison_trace.WalletSource.Summary.{summarize_wallet, see_transfer, see_timestamp}
use poison_trace.Helius.{block_time_utc}
use poison_trace.Pipeline.Fetch.{
  fetch_enhanced_window, fetch_loop, after_retry, fetch_page_with_retry, after_request, scan_page,
  next_before,
}
use poison_trace.Text.Sort.{insert_by}
use poison_trace.Text.Case.{equal_fold, to_lower}
use poison_trace.WalletSource.Report.{write_accepted, write_rejected}
use poison_trace.WalletSource.Select.{
  candidate_stats, choose_accepted, with_scrape, candidate_step, judge, cap_list,
}
use poison_trace.Dict.{get, get_or, has, put}
use poison_trace.Base.{
  ℕ, ◌+◌, ◌*◌, ◌≤◌, pos, pos_part, true, false, List, [], ◌∷◌, none, some, count_by, length, leb,
  All, ◌≡◌, refl, arith,
}
use poison_trace.Text.{decimal, codes, str_eq}
use poison_trace.Text.Decimal.{number}
use poison_trace.Text.Trim.{trim_space}
use poison_trace.Time.{day}
use poison_trace.Errors.{Result, ok, err}
use poison_trace.WalletSource.{Options, ScrapedWallet, SourceResult}
use poison_trace.WalletSource.Amounts.{
  default_known_dust_thresholds, source_dust_status, known_dust_threshold_map, amount_raw_is_zero,
  transfer_needs_known_dust_threshold, all_ascii_digits, amount_raw_lte,
}
use poison_trace.WalletSource.Amounts.Compare.{amount_raw_lte-number}
use poison_trace.WalletSource.Choice.{stats_reject_reason, with_defaults}
use poison_trace.WalletSource.Discovery.{sorted_discoveries, add_discovered, Files, lines}
use poison_trace.WalletSource.Select.Eligible.{IsWanted}
use poison_trace.WalletSource.Run.{fetch_params, option_error, Found, source, select_wallets}
use poison_trace.WalletSource.Run.Accepted.{source-IsChoice}
use poison_trace.WalletSource.Run.Calls.{seed_requests, wallet_requests}
use poison_trace.WalletSource.Run.Partition.{candidates, select_wallets-count}
use poison_trace.WalletSource.Run.Requests.{KeepsCount, source-count}
use poison_trace.WalletSource.Blocks.{
  parsed_transfer_owner_observations, quiet_transfer_like, text, number as json_number,
  RpcInstruction, ScrapeOptions, with_scrape_defaults,
}
use poison_trace.WalletSource.Blocks.Scrape.{Rpc, scrape_recent_wallets}
use poison_trace.WalletSource.Blocks.Scrape.Kept.{IsScraped, scrape_recent_wallets-IsScrape}
use poison_trace.Tests.Data.{focal, friend, no_hash}
use poison_trace.Tests.Windows.{one_page, one_page-CountsRequests}

amount_raw_lte-number_example :
    amount_raw_lte (codes " 0000999 ") 1000 ≡ leb (number 0 (trim_space (codes " 0000999 "))) 1000
unfolding trim_space all_ascii_digits
amount_raw_lte-number_example = amount_raw_lte-number (codes " 0000999 ") 1000 refl refl

-- Files that are written without an error; the one that is read holds one wallet.
abbrev pub quiet_files : Files ℕ
quiet_files = record {
  read_lines = λ path n. (lines (focal ∷ []), n);
  dir = λ path. codes ".";
  mkdir_all = λ path n. (none, n);
  write_file = λ path text n. (none, n);
}

pub quiet_files-KeepsCount : KeepsCount quiet_files (λ n. n)
quiet_files-KeepsCount = record {
  reading = λ path s. omega arith;
  making = λ path s. omega arith;
  writing = λ path text s. omega arith;
}

abbrev options : Options
options = record {
  seed_wallet_file = [];
  seed_wallets = focal ∷ [];
  scrape_stats = [];
  score_seed_wallets = true;
  discover_neighbors = false;
  out_path = codes "out";
  rejected_out_path = codes "rejected";
  scan_start = 790_000 * day;
  scan_end = 800_000 * day;
  baseline_lookback = 790_000 * day;
  target_count = pos 1;
  max_seed_wallets = pos 2;
  max_candidates = pos 2;
  seed_max_pages = pos 1;
  candidate_max_pages = pos 2;
  max_tx_per_wallet = pos 9;
  max_retries = pos 1;
  request_delay = pos 0;
  min_outbound = pos 1;
  max_accepted_tx = pos 9;
  max_same_timestamp_tx = pos 2;
  max_transfers_per_tx = pos 4;
  max_unknown_dust_spl = pos 5;
  min_scan_inbound_dust = pos 0;
  min_unique_dust_recipients = pos 1;
  known_dust_asset_keys = codes "SOL" ∷ [];
  deep_dive_top_n = pos 1;
  deep_dive_max_pages = pos 3;
  deep_dive_max_tx = pos 9;
  deep_dive_min_score = pos 1;
  source_mode = codes "victim_inbound_dust";
}

abbrev found : Found
found = record {
  discovered =
      (focal, record { address = focal; seeds = focal ∷ [] })
      ∷ (friend, record { address = friend; seeds = [] })
      ∷ [];
  seed_set = focal ∷ [];
}

select_wallets-count_example :
    count_by
        (λ w. str_eq w.address focal)
        (select_wallets no_hash one_page options found 0).0.accepted
      + count_by
          (λ w. str_eq w.address focal)
          (select_wallets no_hash one_page options found 0).0.rejected
    ≡ count_by
        (λ c. str_eq c.address focal)
        (candidates one_page no_hash options (λ a. str_eq a focal) found)
select_wallets-count_example =
    select_wallets-count one_page no_hash options (λ a. str_eq a focal) found 0

source-count_example :
    (source no_hash (some one_page) quiet_files options 0).1
    ≤ 0
      + (seed_requests (λ n. n) one_page one_page-CountsRequests no_hash (with_defaults options)
          + wallet_requests
              (λ n. n)
              one_page
              one_page-CountsRequests
              no_hash
              (with_defaults options))
source-count_example =
    source-count quiet_files (λ n. n) quiet_files-KeepsCount one_page one_page-CountsRequests
      no_hash options 0

abbrev sourced : Result SourceResult × ℕ
sourced = source no_hash (some one_page) quiet_files options 0

abbrev result_of : Result SourceResult × ℕ → SourceResult
result_of (ok r, n) = r
result_of (err e, n) = record { accepted = []; rejected = [] }

source_accepts : length (result_of sourced).accepted ≡ 1
unfolding source option_error trim_space has cap_list write_accepted write_rejected choose_accepted
    sorted_discoveries add_discovered put insert_by fetch_enhanced_window fetch_params fetch_loop
    after_retry fetch_page_with_retry after_request scan_page block_time_utc next_before str_eq
    summarize_wallet stats_reject_reason normalize_enhanced_tx native_loop token_loop
    native_transfer token_transfer token_verdict native_verdict is_fungible sanitize_raw_amount
    all_digits get with_scrape see_transfer see_timestamp candidate_step judge candidate_stats
    transfer_needs_known_dust_threshold amount_raw_is_zero known_dust_threshold_map
    default_known_dust_thresholds source_dust_status amount_raw_lte decimal
source_accepts = refl

source-IsChoice_example :
    All (IsWanted (with_defaults options)) (result_of sourced).accepted
    × (length (result_of sourced).accepted ≤ pos_part (with_defaults options).target_count)
unfolding source option_error trim_space has cap_list write_accepted write_rejected
source-IsChoice_example =
    source-IsChoice one_page no_hash quiet_files options 0 (result_of sourced) sourced.1 refl

-- A block in which one wallet pays another.
abbrev payment : RpcInstruction
payment = record {
  program = codes "System";
  parsed = some (record {
    type_name = codes "transfer";
    info = some (
        (codes "source", text (codes "payer"))
        ∷ (codes "destination", text (codes "payee"))
        ∷ (codes "lamports", json_number (pos 7))
        ∷ []);
  });
}

abbrev chain : Rpc ℕ
chain = record {
  get_slot = λ n. (ok (pos 2), n);
  get_block = λ slot n. (
    ok (record {
      transactions =
          record { account_keys = []; instructions = payment ∷ []; has_error = false } ∷ [];
    }),
    n,
  );
  random_below = λ k n. (0, n);
}

abbrev scrape_bounds : ScrapeOptions
scrape_bounds = record {
  start_slot = pos 0;
  block_lookback = pos 3;
  max_blocks = pos 3;
  max_wallets = pos 1;
  max_tx_per_block = pos 1;
  max_noisy_instructions = pos 0;
  min_native_lamports = pos 5;
  min_scrape_count = pos 2;
}

abbrev scraped : List ScrapedWallet
scraped = record { address = codes "payer"; count = 2; outbound = 2; inbound = 0 } ∷ []

scrape_recent_wallets-IsScrape_example :
    All (IsScraped (with_scrape_defaults scrape_bounds)) scraped
    × (length scraped ≤ pos_part (with_scrape_defaults scrape_bounds).max_wallets)
unfolding scrape_recent_wallets quiet_transfer_like str_eq to_lower trim_space
    parsed_transfer_owner_observations equal_fold get put get_or insert_by
scrape_recent_wallets-IsScrape_example =
    scrape_recent_wallets-IsScrape chain scrape_bounds 0 scraped 0 refl
