-- ===== src/Pipeline/Fetch/Window.antt =====
-- The transactions and the truncation code that a fetch returns.
use poison_trace.Base.{
  subst, ℕ, zero, suc, ◌+◌, ◌≤◌, ◌<◌, pos, pos_part, ltb, leb, ltb_ℤ, Bool, true, false, ◌&&◌, List,
  [], ◌∷◌, ◌++◌, Option, none, some, length, is_nil, length-append, All, All-append, ◌≡◌, ◌≢◌, ◌↔◌,
  inl, inr, arith, Bool-cases,
}
use poison_trace.Text.{Str}
use poison_trace.Time.{Time}
use poison_trace.Errors.{ErrorChain, Result, ok, err}
use poison_trace.Helius.{EnhancedTransaction, EnhancedPage, block_time_utc, Client}
use poison_trace.Pipeline.Fetch.{
  no_code, helius_retry_exhausted, FetchWindowResult, FetchWindowParams, PageScan, scan_page,
  next_before, RetryReply, got, exhausted, failed, fetch_page_with_retry, after_scan, after_retry,
  after_delay, fetch_loop, fetch_enhanced_window,
}

abbrev pub InWindow : Time → Time → EnhancedTransaction → Type 0
InWindow start end tx = (start ≤ block_time_utc tx) × (block_time_utc tx < end)

record ScanFits (start end : Time) (max_tx : ℕ) (scan : PageScan) : Type 0 where
  inside : All (InWindow start end) scan.kept
  bounded : length scan.kept ≤ max_tx
  room : scan.capped ≡ false → length scan.kept < max_tx

scan_page-fits :
    (start end : Time) (max_tx : ℕ) (kept : List EnhancedTransaction) (reached : Bool)
    (txs : List EnhancedTransaction)
    → All (InWindow start end) kept
    → length kept < max_tx
    → ScanFits start end max_tx (scan_page start end max_tx kept reached txs)
unfolding scan_page
scan_page-fits start end max_tx kept reached [] h k = record {
  inside = h;
  bounded = omega arith;
  room = λ _. k;
}
scan_page-fits start end max_tx kept reached (tx ∷ txs) h k = ground (
  arith,
  scan_page-fits start end max_tx kept reached txs h k,
  scan_page-fits start end max_tx kept true txs h k,
  scan_page-fits start end max_tx (kept ++ tx ∷ []) reached txs,
  All-append {0, 0} (InWindow start end) kept (tx ∷ []) h,
  length-append {0} kept (tx ∷ []),
)

-- The result of a fetch of a window.
pub record WindowFits (start end : Time) (max_tx : ℕ) (r : FetchWindowResult) : Type 0 where
  pub inside : All (InWindow start end) r.transactions
  pub bounded : length r.transactions ≤ max_tx
  pub partial_iff : (r.partial ≡ true) ↔ (r.truncation_code ≢ no_code)
  pub retries_iff : (r.retry_exhausted ≡ true) ↔ (r.truncation_code ≡ helius_retry_exhausted)

abbrev pub Fits : {S : Type 0} → FetchWindowParams → Result FetchWindowResult × S → Type 0
Fits p (ok r, s) = WindowFits p.start p.end (pos_part p.max_tx) r
Fits p (err e, s) = Unit

-- What the loop carries: transactions of the window, fewer than the cap.
abbrev Carries : FetchWindowParams → List EnhancedTransaction → Type 0
Carries p txs = All (InWindow p.start p.end) txs × (length txs < pos_part p.max_tx)

module _ {S : Type 0} (client : Client S) (wallet : Str) (p : FetchWindowParams) where
  abbrev Next : Type 0
  Next = Str → List EnhancedTransaction → S → Result FetchWindowResult × S

  abbrev NextFits : Next → Type 0
  NextFits next =
      (cursor : Str) (txs : List EnhancedTransaction) (s : S)
      → Carries p txs
      → Fits p (next cursor txs s)

  after_scan-Fits :
      (next : Next) (cursor : Str) (pg : EnhancedPage) (scan : PageScan) (s : S)
      → NextFits next
      → ScanFits p.start p.end (pos_part p.max_tx) scan
      → Fits p (after_scan client wallet p next cursor pg scan s)
  unfolding after_scan
  after_scan-Fits next cursor pg scan s h k =
      ground (arith, h (next_before pg) scan.kept s, k.inside, k.bounded, k.room)

  after_retry-Fits :
      (next : Next) (cursor : Str) (txs : List EnhancedTransaction) (r : RetryReply × S)
      → NextFits next
      → Carries p txs
      → Fits p (after_retry client wallet p next cursor txs r)
  unfolding after_retry
  after_retry-Fits next cursor txs (exhausted e, s) h c = ground arith
  after_retry-Fits next cursor txs (failed e, s) h c = tt
  after_retry-Fits next cursor txs (got pg, s) h c =
      let fits =
        scan_page-fits p.start p.end (pos_part p.max_tx) txs false pg.transactions c.0 c.1 in
      let scanned = after_scan-Fits next cursor pg _ s h fits in
      elim (Bool-cases (is_nil pg.transactions)) [
        | inl none_left ↦ rw (none_left, after_retry) (ground arith)
        | inr more ↦ rw (more, after_retry) scanned
      ]

  after_delay-Fits :
      (next : S → Result FetchWindowResult × S) (r : Option ErrorChain × S)
      → ((s : S) → Fits p (next s))
      → Fits p (after_delay client wallet p next r)
  unfolding after_delay
  after_delay-Fits next (none, s) h = h s
  after_delay-Fits next (some e, s) h = tt

  fetch_loop-Fits :
      (left read : ℕ) (cursor : Str) (txs : List EnhancedTransaction) (s : S)
      → Carries p txs
      → Fits p (fetch_loop client wallet p left read cursor txs s)
  unfolding fetch_loop
  fetch_loop-Fits zero read cursor txs s c = ground arith
  fetch_loop-Fits (suc left) read cursor txs s c =
      elim (Bool-cases (leb (pos_part p.max_tx) (length txs))) [
        | inl full ↦ absurd (ground arith)
        | inr room ↦ rw room (elim (Bool-cases (ltb 0 read && ltb_ℤ (pos 0) p.request_delay)) [
          | inl wait ↦ rw wait (
              after_delay-Fits request (client.sleep (pos_part p.request_delay) s)
                (request-Fits (fetch_loop-Fits left (read + 1))))
          | inr now ↦ rw now (request-Fits (fetch_loop-Fits left (read + 1)) s)
        ])
      ]
    where
      request : S → Result FetchWindowResult × S
      request u =
          after_retry client wallet p (fetch_loop client wallet p left (read + 1)) cursor txs
            (fetch_page_with_retry client (pos_part p.max_retries) 0 wallet cursor u)

      request-Fits :
          NextFits (fetch_loop client wallet p left (read + 1)) → (u : S) → Fits p (request u)
      request-Fits ih u =
          after_retry-Fits (fetch_loop client wallet p left (read + 1)) cursor txs _ ih c

fetch-Fits :
    {S : Type 0} (client : Option (Client S)) (wallet : Str) (p : FetchWindowParams) (s : S)
    → Fits p (fetch_enhanced_window client wallet p s)
unfolding fetch_enhanced_window
fetch-Fits none wallet p s = tt
fetch-Fits (some client) wallet p s =
    ground (arith, fetch_loop-Fits client wallet p (pos_part p.max_pages) 0 [] [] s)

-- Whatever the client answers: if the fetch gives a result, its transactions lie in the window, from
-- its start and before its end, there are at most `max_tx` of them, the result is partial exactly if
-- it has a truncation code, and the retries are exhausted exactly if the code says so.
pub fetch_enhanced_window-Fits :
    {S : Type 0} (client : Option (Client S)) (wallet : Str) (p : FetchWindowParams) (s : S)
    (r : FetchWindowResult) (t : S)
    → fetch_enhanced_window client wallet p s ≡ (ok r, t)
    → WindowFits p.start p.end (pos_part p.max_tx) r
fetch_enhanced_window-Fits client wallet p s r t e = subst (Fits p) e (fetch-Fits client wallet p s)
