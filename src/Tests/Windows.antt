-- ===== src/Tests/Windows.antt =====
-- Fetched windows, normalized transactions and the core sync with a small provider.
use poison_trace.Text.Digits.{all_digits}
use poison_trace.Base.{
  ℕ, ◌+◌, ◌*◌, ◌≤◌, pos, true, false, List, [], ◌∷◌, none, some, here, there, ◌≡◌, ◌≢◌, ◌↔◌, refl,
  arith, ◌==◌, if◌then◌else◌,
}
use poison_trace.Text.{str_eq}
use poison_trace.Text.Trim.{trim_space}
use poison_trace.Time.{day}
use poison_trace.Helius.{block_time_utc, Client, page}
use poison_trace.Transactions.{NormalizedTransfer, resolved, other}
use poison_trace.Transactions.Normalize.{
  native_loop, token_verdict, token_loop, is_fungible, normalize_enhanced_tx, token_transfer,
  native_transfer, sanitize_raw_amount,
}
use poison_trace.Transactions.Positions.{indexes, count_up, normalize_enhanced_tx-indexes}
use poison_trace.Transactions.Eligible.{
  HasTwoOwners, IsEligibleToken, normalize_enhanced_tx-eligible, token_transfer-eligible,
}
use poison_trace.Pipeline.Fetch.{
  fetch_page_with_retry, after_retry, next_before, fetch_loop, scan_page, after_request,
  FetchWindowParams, FetchWindowResult, fetch_enhanced_window, no_code,
}
use poison_trace.Pipeline.Fetch.Window.{WindowFits, fetch_enhanced_window-Fits}
use poison_trace.Pipeline.Fetch.Calls.{CountsRequests, fetch_enhanced_window-count}
use poison_trace.Tests.Data.{focal, no_hash, payout, token, transaction}

-- A provider that has one page and counts its requests.
abbrev pub one_page : Client ℕ
one_page = record {
  fetch_enhanced_page = λ wallet before n. (
    page (record { transactions = if n == 0 then transaction ∷ [] else []; before = [] }),
    n + 1,
  );
  sleep = λ d n. (none, n);
}

abbrev window : FetchWindowParams
window = record {
  start = 0;
  end = 800_000 * day;
  max_pages = pos 2;
  max_tx = pos 5;
  max_retries = pos 1;
  request_delay = pos 0;
}

abbrev fetched : FetchWindowResult
fetched = record {
  transactions = transaction ∷ [];
  partial = false;
  truncation_code = no_code;
  retry_exhausted = false;
}

fetch_enhanced_window-Fits_example : WindowFits 0 (800_000 * day) 5 fetched
unfolding fetch_enhanced_window fetch_loop after_retry fetch_page_with_retry after_request scan_page
    block_time_utc next_before str_eq
fetch_enhanced_window-Fits_example =
    fetch_enhanced_window-Fits (some one_page) focal window 0 fetched 2 refl

pub one_page-CountsRequests : CountsRequests one_page (λ n. n)
one_page-CountsRequests = record {
  request = λ wallet before s. omega arith;
  wait = λ d s. omega arith;
}

fetch_enhanced_window-count_example :
    (fetch_enhanced_window (some one_page) focal window 0).1 ≤ 0 + 2 * (1 + 1)
fetch_enhanced_window-count_example =
    fetch_enhanced_window-count one_page (λ n. n) one_page-CountsRequests focal window 0

abbrev both : List NormalizedTransfer
both =
    native_transfer no_hash transaction 0 payout ∷ token_transfer no_hash transaction 1 token ∷ []

normalize_enhanced_tx-indexes_example :
    (transaction.signature ≢ []) × (indexes both ≡ count_up 0 (1 + 1))
unfolding normalize_enhanced_tx native_loop token_loop
normalize_enhanced_tx-indexes_example = normalize_enhanced_tx-indexes no_hash transaction both refl

abbrev second_transfer : NormalizedTransfer
second_transfer = token_transfer no_hash transaction 1 token

normalize_enhanced_tx-eligible_example :
    (second_transfer.normalization_status ≡ resolved)
    × (second_transfer.asset_type ≢ other)
    × HasTwoOwners second_transfer.source_owner_address second_transfer.destination_owner_address
unfolding normalize_enhanced_tx native_loop token_loop token_transfer token_verdict is_fungible
    str_eq trim_space sanitize_raw_amount all_digits
normalize_enhanced_tx-eligible_example =
    normalize_enhanced_tx-eligible no_hash transaction both second_transfer refl (there (here refl))
      refl

token_transfer-eligible_example :
    (second_transfer.poisoning_eligible ≡ true)
    ↔ IsEligibleToken
        (trim_space token.from_user_account)
        (trim_space token.to_user_account)
        (sanitize_raw_amount token.token_amount.amount).1
        token
token_transfer-eligible_example = token_transfer-eligible no_hash transaction 1 token
