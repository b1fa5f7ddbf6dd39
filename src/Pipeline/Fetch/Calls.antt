-- ===== src/Pipeline/Fetch/Calls.antt =====
-- The number of requests that a fetch makes.
use poison_trace.Base.{
  ℕ, zero, suc, ◌+◌, ◌*◌, ◌≤◌, pos_part, false, List, [], Option, none, some, arith,
}
use poison_trace.Text.{Str}
use poison_trace.Errors.{ErrorChain, Result}
use poison_trace.Helius.{EnhancedTransaction, EnhancedPage, PageReply, page, refused, Client}
use poison_trace.Pipeline.Fetch.{
  FetchWindowResult, FetchWindowParams, PageScan, scan_page, next_before, RetryReply, got,
  exhausted, failed, retry_backoff, after_backoff, after_request, fetch_page_with_retry, after_scan,
  after_retry, after_delay, fetch_loop, fetch_enhanced_window,
}

-- A count of the requests that the world has seen: a request adds at most one, a wait adds none.
pub record CountsRequests {S : Type 0} (client : Client S) (count : S → ℕ) : Type 0 where
  pub request :
      (wallet before : Str) (s : S)
      → count (client.fetch_enhanced_page wallet before s).1 ≤ count s + 1
  pub wait : (d : ℕ) (s : S) → count (client.sleep d s).1 ≤ count s

module _ {S : Type 0} (client : Client S) (count : S → ℕ)
    (counts : CountsRequests client count) where
  after_backoff-count :
      (again : S → RetryReply × S) (r : Option ErrorChain × S) (n : ℕ)
      → ((s : S) → count (again s).1 ≤ count s + n)
      → count (after_backoff client again r).1 ≤ count r.1 + n
  unfolding after_backoff
  after_backoff-count again (none, s) n h = h s
  after_backoff-count again (some e, s) n h = omega arith

  last_request-count :
      (attempt : ℕ) (r : PageReply × S) → count (after_request client none attempt r).1 ≤ count r.1
  unfolding after_request
  last_request-count attempt (page pg, s) = omega arith
  last_request-count attempt (refused e, s) = ground arith

  request-count :
      (again : S → RetryReply × S) (attempt n : ℕ) (r : PageReply × S)
      → ((s : S) → count (again s).1 ≤ count s + n)
      → count (after_request client (some again) attempt r).1 ≤ count r.1 + n
  unfolding after_request
  request-count again attempt n (page pg, s) h = omega arith
  request-count again attempt n (refused e, s) h = ground (
    arith,
    after_backoff-count again (client.sleep (retry_backoff attempt) s) n h,
    counts.wait (retry_backoff attempt) s,
  )

  retry-count :
      (left attempt : ℕ) (wallet cursor : Str) (s : S)
      → count (fetch_page_with_retry client left attempt wallet cursor s).1 ≤ count s + (left + 1)
  unfolding fetch_page_with_retry
  retry-count zero attempt wallet cursor s = omega (
    arith,
    last_request-count attempt (client.fetch_enhanced_page wallet cursor s),
    counts.request wallet cursor s,
  )
  retry-count (suc left) attempt wallet cursor s = omega (
    arith,
    request-count (fetch_page_with_retry client left (attempt + 1) wallet cursor) attempt (left + 1)
        (client.fetch_enhanced_page wallet cursor s) (retry-count left (attempt + 1) wallet cursor),
    counts.request wallet cursor s,
  )

  module _ (wallet : Str) (p : FetchWindowParams) where
    abbrev Next : Type 0
    Next = Str → List EnhancedTransaction → S → Result FetchWindowResult × S

    after_scan-count :
        (next : Next) (cursor : Str) (pg : EnhancedPage) (scan : PageScan) (s : S) (n : ℕ)
        → ((c : Str) (txs : List EnhancedTransaction) (u : S)
            → count (next c txs u).1 ≤ count u + n)
        → count (after_scan client wallet p next cursor pg scan s).1 ≤ count s + n
    unfolding after_scan
    after_scan-count next cursor pg scan s n h = ground (arith, h (next_before pg) scan.kept s)

    after_retry-count :
        (next : Next) (cursor : Str) (txs : List EnhancedTransaction) (r : RetryReply × S) (n : ℕ)
        → ((c : Str) (txs : List EnhancedTransaction) (u : S)
            → count (next c txs u).1 ≤ count u + n)
        → count (after_retry client wallet p next cursor txs r).1 ≤ count r.1 + n
    unfolding after_retry
    after_retry-count next cursor txs (exhausted e, s) n h = omega arith
    after_retry-count next cursor txs (failed e, s) n h = omega arith
    after_retry-count next cursor txs (got pg, s) n h = ground (
      arith,
      after_scan-count next cursor pg
          (scan_page p.start p.end (pos_part p.max_tx) txs false pg.transactions) s n h,
    )

    after_delay-count :
        (next : S → Result FetchWindowResult × S) (r : Option ErrorChain × S) (n : ℕ)
        → ((u : S) → count (next u).1 ≤ count u + n)
        → count (after_delay client wallet p next r).1 ≤ count r.1 + n
    unfolding after_delay
    after_delay-count next (none, s) n h = h s
    after_delay-count next (some e, s) n h = omega arith

    -- The requests for one page, with its retries.
    abbrev per_page : ℕ
    per_page = pos_part p.max_retries + 1

    fetch_loop-count :
        (left read : ℕ) (cursor : Str) (txs : List EnhancedTransaction) (s : S)
        → count (fetch_loop client wallet p left read cursor txs s).1 ≤ count s + left * per_page
    unfolding fetch_loop
    fetch_loop-count zero read cursor txs s = omega arith
    fetch_loop-count (suc left) read cursor txs s = ground (
      arith,
      page-count (fetch_loop-count left (read + 1)) s,
      after_delay-count page_request (client.sleep (pos_part p.request_delay) s)
          (suc left * per_page) (page-count (fetch_loop-count left (read + 1))),
      counts.wait (pos_part p.request_delay) s,
    )
      where
        next : Next
        next = fetch_loop client wallet p left (read + 1)

        page_request : S → Result FetchWindowResult × S
        page_request u =
            after_retry client wallet p next cursor txs
              (fetch_page_with_retry client (pos_part p.max_retries) 0 wallet cursor u)

        page-count :
            ((c : Str) (txs : List EnhancedTransaction) (u : S)
              → count (next c txs u).1 ≤ count u + left * per_page)
            → (u : S) → count (page_request u).1 ≤ count u + suc left * per_page
        page-count h u = grind (
          arith,
          after_retry-count next cursor txs
              (fetch_page_with_retry client (pos_part p.max_retries) 0 wallet cursor u)
              (left * per_page) h,
          retry-count (pos_part p.max_retries) 0 wallet cursor u,
        )

    -- By a count that a request raises by at most one and a wait does not raise, a fetch makes at most
    -- `max_pages * (max_retries + 1)` requests, whatever the provider answers.
    pub fetch_enhanced_window-count :
        (s : S)
        → count (fetch_enhanced_window (some client) wallet p s).1
          ≤ count s + pos_part p.max_pages * (pos_part p.max_retries + 1)
    unfolding fetch_enhanced_window
    fetch_enhanced_window-count s =
        ground (arith, fetch_loop-count (pos_part p.max_pages) 0 [] [] s)
