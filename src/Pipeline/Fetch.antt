-- ===== src/Pipeline/Fetch.antt =====
-- internal/pipeline/fetch.go: the bounded pagination of one window, with bounded retries. The
-- pages left and the retries left are counted down, as the structural arguments of the two loops.
pub mod Backoff
pub mod Window
pub mod Calls
use poison_trace.Base.{
  ℕ, zero, suc, ◌+◌, ◌*◌, ◌%◌, ◌^◌, min, ℤ, pos, pos_part, ltb_ℤ, ltb, leb, ◌==◌, Bool, true, false,
  not, ◌&&◌, ◌||◌, List, [], ◌∷◌, ◌++◌, Option, none, some, if◌then◌else◌, length, is_nil, last?,
}
use poison_trace.Text.{Str, codes, str_eq, is_empty}
use poison_trace.Time.{Time, before}
use poison_trace.Errors.{ErrorChain, plain, Result, ok, err}
use poison_trace.Helius.{
  EnhancedTransaction, EnhancedPage, block_time_utc, is_retryable, PageReply, page, refused, Client,
}

-- The texts that `TruncationCode` can be; `no_code` is the empty one.
pub data TruncationCode : Type 0 where
  no_code max_tx_pages_per_wallet_reached max_tx_per_wallet_reached : TruncationCode
  helius_retry_exhausted : TruncationCode

pub record FetchWindowResult : Type 0 where
  pub transactions : List EnhancedTransaction
  pub partial : Bool
  pub truncation_code : TruncationCode
  pub retry_exhausted : Bool

-- The request delay is in nanoseconds, and may be negative.
pub record FetchWindowParams : Type 0 where
  pub start : Time
  pub end : Time
  pub max_pages : ℤ
  pub max_tx : ℤ
  pub max_retries : ℤ
  pub request_delay : ℤ

abbrev pub millisecond : ℕ
millisecond = 1_000_000

unfoldable pub retry_backoff : ℕ → ℕ
retry_backoff attempt =
    min (200 * millisecond * 2 ^ min attempt 5) (5000 * millisecond)
    + ((attempt % 97) * 37) % 97 * millisecond

-- What `fetchPageWithRetry` returns: `exhausted` is its `retryExhaustedError`.
pub data RetryReply : Type 0 where
  got : EnhancedPage → RetryReply
  exhausted : ErrorChain → RetryReply
  failed : ErrorChain → RetryReply

-- The transactions of a page that lie in the window, in order, up to the cap.
pub record PageScan : Type 0 where
  pub kept : List EnhancedTransaction
  pub reached_before_window : Bool
  pub capped : Bool

unfoldable pub scan_page :
    Time → Time → ℕ → List EnhancedTransaction → Bool → List EnhancedTransaction → PageScan
scan_page start end max_tx kept reached [] = record {
  kept = kept;
  reached_before_window = reached;
  capped = false;
}
scan_page start end max_tx kept reached (tx ∷ txs) =
    let skipped = scan_page start end max_tx kept reached txs in
    let early = scan_page start end max_tx kept true txs in
    let taken = kept ++ tx ∷ [] in
    let rest = scan_page start end max_tx taken reached txs in
    if not (before (block_time_utc tx) end)
    then skipped
    else if before (block_time_utc tx) start
    then early
    else if leb max_tx (length taken)
    then record { kept = taken; reached_before_window = reached; capped = true }
    else rest

-- The cursor of the next page; empty if there is none.
unfoldable pub next_before : EnhancedPage → Str
next_before pg =
    if is_empty pg.before
    then elim (last? pg.transactions) [ none ↦ [] | some tx ↦ tx.signature ]
    else pg.before

abbrev pub complete : List EnhancedTransaction → FetchWindowResult
complete txs = record {
  transactions = txs;
  partial = false;
  truncation_code = no_code;
  retry_exhausted = false;
}

abbrev pub truncated : List EnhancedTransaction → TruncationCode → Bool → FetchWindowResult
truncated txs code retries = record {
  transactions = txs;
  partial = true;
  truncation_code = code;
  retry_exhausted = retries;
}

module _ {S : Type 0} (client : Client S) where
  unfoldable pub after_backoff : (S → RetryReply × S) → Option ErrorChain × S → RetryReply × S
  after_backoff again (none, s) = again s
  after_backoff again (some e, s) = (failed e, s)

  -- What follows one request; `again` is there if a retry is left.
  unfoldable pub after_request : Option (S → RetryReply × S) → ℕ → PageReply × S → RetryReply × S
  unfolding after_backoff
  after_request again attempt (page pg, s) = (got pg, s)
  after_request again attempt (refused e, s) =
      if not (is_retryable e) then (failed e, s) else elim again [
        | none ↦ (exhausted e, s)
        | some retry ↦ after_backoff retry (client.sleep (retry_backoff attempt) s)
      ]

  -- The loop of `fetchPageWithRetry`, with the retries left.
  unfoldable pub fetch_page_with_retry : ℕ → ℕ → Str → Str → S → RetryReply × S
  fetch_page_with_retry zero attempt wallet cursor s =
      after_request none attempt (client.fetch_enhanced_page wallet cursor s)
  fetch_page_with_retry (suc left) attempt wallet cursor s =
      after_request (some (fetch_page_with_retry left (attempt + 1) wallet cursor)) attempt
        (client.fetch_enhanced_page wallet cursor s)

  module _ (wallet : Str) (p : FetchWindowParams) where
    abbrev Reply : Type 0
    Reply = Result FetchWindowResult × S

    -- What follows the scan of a page; `next` fetches the next page.
    unfoldable pub after_scan :
        (Str → List EnhancedTransaction → S → Reply) → Str → EnhancedPage → PageScan → S → Reply
    after_scan next cursor pg scan s =
        if scan.capped
        then (ok (truncated scan.kept max_tx_per_wallet_reached false), s)
        else if scan.reached_before_window
        then (ok (complete scan.kept), s)
        else if is_empty (next_before pg) || str_eq (next_before pg) cursor
        then (ok (complete scan.kept), s)
        else next (next_before pg) scan.kept s

    -- What follows the request of a page.
    unfoldable pub after_retry :
        (Str → List EnhancedTransaction → S → Reply)
        → Str
        → List EnhancedTransaction
        → RetryReply × S
        → Reply
    unfolding after_scan
    after_retry next cursor txs (exhausted e, s) =
        (ok (truncated txs helius_retry_exhausted true), s)
    after_retry next cursor txs (failed e, s) = (err e, s)
    after_retry next cursor txs (got pg, s) =
        if is_nil pg.transactions
        then (ok (complete txs), s)
        else after_scan next cursor pg
            (scan_page p.start p.end (pos_part p.max_tx) txs false pg.transactions) s

    unfoldable pub after_delay : (S → Reply) → Option ErrorChain × S → Reply
    after_delay next (none, s) = next s
    after_delay next (some e, s) = (err e, s)

    -- The loop, with the pages left and the pages read.
    unfoldable pub fetch_loop : ℕ → ℕ → Str → List EnhancedTransaction → S → Reply
    fetch_loop zero read cursor txs s =
        (ok (truncated txs max_tx_pages_per_wallet_reached false), s)
    fetch_loop (suc left) read cursor txs s =
        let request : S → Reply = λ u.
          after_retry (fetch_loop left (read + 1)) cursor txs
            (fetch_page_with_retry (pos_part p.max_retries) 0 wallet cursor u) in
        if leb (pos_part p.max_tx) (length txs)
        then (ok (truncated txs max_tx_per_wallet_reached false), s)
        else if ltb 0 read && ltb_ℤ (pos 0) p.request_delay
        then after_delay request (client.sleep (pos_part p.request_delay) s)
        else request s

-- `FetchEnhancedWindow`; no client is `nil`.
unfoldable pub fetch_enhanced_window :
    {S : Type 0} → Option (Client S) → Str → FetchWindowParams → S → Result FetchWindowResult × S
fetch_enhanced_window none wallet p s = (err (plain (codes "helius client is required")), s)
fetch_enhanced_window (some client) wallet p s =
    if ltb_ℤ p.max_pages (pos 1)
    then (err (plain (codes "max pages must be >= 1")), s)
    else if ltb_ℤ p.max_tx (pos 1)
    then (err (plain (codes "max tx must be >= 1")), s)
    else if not (before p.start p.end)
    then (err (plain (codes "window must satisfy start < end")), s)
    else fetch_loop client wallet p (pos_part p.max_pages) 0 [] [] s
