-- ===== src/WalletSource/Select/Count.antt =====
-- Each step on a candidate, and the lists that it may end in.
use poison_trace.Base.{
  ℕ, ◌+◌, pos, ltb_ℤ, Bool, true, List, [], ◌∷◌, ◌++◌, Option, none, some, if◌then◌else◌, count_by,
  count_by-append, All, All-append, ◌≡◌, ◌∙◌, ap, inl, inr, refl, arith, Bool-cases, Option-cases,
}
use poison_trace.Text.{Str, codes}
use poison_trace.Text.Sort.{sort_by, count_by-sort_by}
use poison_trace.Dict.{get}
use poison_trace.Errors.{Result, ok, err}
use poison_trace.Helius.{EnhancedTransaction}
use poison_trace.Pipeline.Fetch.{TruncationCode, FetchWindowResult}
use poison_trace.WalletSource.{
  Options, ScrapedWallet, WalletStats, AcceptedWallet, RejectedWallet, SourceResult,
  CandidateDiscovery, DeepDiveCandidate, DeepDiveStatus,
}
use poison_trace.WalletSource.Summary.{summarize_wallet, read_sample}
use poison_trace.WalletSource.Choice.{
  should_deep_dive, stats_reject_reason, accepted_from_stats, rejected_with_status,
  rejected_from_stats, eligible_before,
}
use poison_trace.WalletSource.Select.{
  Selection, reject, admit, enqueue, fetch_error_wallet, candidate_stats, with_scrape, judge,
  candidate_step, dive_step, skip_dive, choose, choose_accepted, is_target_reached,
}

with_scrape-address :
    (w : Option ScrapedWallet) (stats : WalletStats) → (with_scrape w stats).address ≡ stats.address
unfolding with_scrape
with_scrape-address none stats = refl
with_scrape-address (some w) stats = refl

-- A queued candidate is measured under its own address, and there are deep dives.
abbrev pub IsOwn : Options → DeepDiveCandidate → Type 0
IsOwn opts d =
    (d.initial_stats.address ≡ d.discovery.address) × (ltb_ℤ (pos 0) opts.deep_dive_top_n ≡ true)

-- All of the queue is so.
abbrev pub QueueIsOwn : Options → Selection → Type 0
QueueIsOwn opts sel = All (IsOwn opts) sel.queue

module _ (p : Str → Bool) where
  abbrev pub count_rejected : List RejectedWallet → ℕ
  count_rejected = count_by (λ r. p r.address)

  abbrev pub count_stats : List WalletStats → ℕ
  count_stats = count_by (λ r. p r.address)

  abbrev pub count_queue : List DeepDiveCandidate → ℕ
  count_queue = count_by (λ d. p d.discovery.address)

  -- The wallets that are settled: rejected or eligible.
  abbrev pub settled : Selection → ℕ
  settled sel = count_rejected sel.rejected + count_stats sel.eligible

  abbrev pub weight : Str → ℕ
  weight address = if p address then 1 else 0

  -- All that is settled or queued.
  abbrev pub kept : Selection → ℕ
  kept sel = settled sel + count_queue sel.queue

  reject-settled :
      (w : RejectedWallet) (sel : Selection)
      → settled (reject w sel) ≡ settled sel + weight w.address
  unfolding reject
  reject-settled w sel = omega (arith, count_by-append {0} (λ r. p r.address) sel.rejected (w ∷ []))

  admit-settled :
      (w : WalletStats) (sel : Selection) → settled (admit w sel) ≡ settled sel + weight w.address
  unfolding admit
  admit-settled w sel = omega (arith, count_by-append {0} (λ r. p r.address) sel.eligible (w ∷ []))

  pub skip_dive-settled :
      (d : DeepDiveCandidate) (reason : Str) (sel : Selection)
      → settled (skip_dive d reason sel) ≡ settled sel + weight d.initial_stats.address
  unfolding skip_dive rejected_with_status
  skip_dive-settled d reason sel = reject-settled _ sel

  module _ (sha256_hex : Str → Str) (opts : Options) where
    pub candidate_stats-address :
        (c : CandidateDiscovery) (txs : List EnhancedTransaction)
        → (candidate_stats sha256_hex opts c txs).address ≡ c.address
    unfolding candidate_stats summarize_wallet read_sample
    candidate_stats-address c txs = with_scrape-address (get opts.scrape_stats c.address) _

    judge-settled :
        (stats : WalletStats) (exhausted : Bool) (status : DeepDiveStatus) (sel : Selection)
        → settled (judge sha256_hex opts stats exhausted status sel)
          ≡ settled sel + weight stats.address
    unfolding judge rejected_with_status
    judge-settled stats exhausted status sel = elim (Bool-cases exhausted) [
      | inl e ↦ rw e (reject-settled _ sel)
      | inr e ↦ rw e (elim (Option-cases (stats_reject_reason stats opts)) [
        | inl e ↦ rw e (admit-settled stats sel)
        | inr (reason, e) ↦ rw e (reject-settled _ sel)
      ])
    ]

    judge-queue :
        (stats : WalletStats) (exhausted : Bool) (status : DeepDiveStatus) (sel : Selection)
        → (judge sha256_hex opts stats exhausted status sel).queue ≡ sel.queue
    unfolding judge reject admit
    judge-queue stats exhausted status sel = ground arith

    enqueue-kept :
        (d : DeepDiveCandidate) (sel : Selection)
        → kept (enqueue d sel) ≡ kept sel + weight d.discovery.address
    unfolding enqueue
    enqueue-kept d sel =
        omega (arith, count_by-append {0} (λ d. p d.discovery.address) sel.queue (d ∷ []))

    reject-kept :
        (w : RejectedWallet) (sel : Selection) → kept (reject w sel) ≡ kept sel + weight w.address
    unfolding reject
    reject-kept w sel = omega (arith, count_by-append {0} (λ r. p r.address) sel.rejected (w ∷ []))

    judge-kept :
        (stats : WalletStats) (exhausted : Bool) (status : DeepDiveStatus) (sel : Selection)
        → kept (judge sha256_hex opts stats exhausted status sel) ≡ kept sel + weight stats.address
    judge-kept stats exhausted status sel = omega (
      arith,
      judge-settled stats exhausted status sel,
      ap count_queue (judge-queue stats exhausted status sel),
    )

    pub candidate_step-kept :
        (c : CandidateDiscovery) (r : Result FetchWindowResult) (sel : Selection)
        → kept (candidate_step sha256_hex opts c r sel) ≡ kept sel + weight c.address
    unfolding candidate_step fetch_error_wallet rejected_from_stats rejected_with_status
    candidate_step-kept c (err e) sel = reject-kept _ sel
    candidate_step-kept c (ok page) sel =
        let own = ap weight (candidate_stats-address c page.transactions) in
        elim (Bool-cases page.partial) [
          | inr e ↦ rw e (judge-kept _ _ _ sel ∙ ap (λ n. kept sel + n) own)
          | inl e ↦
              rw e
                (elim (Bool-cases (
                  should_deep_dive (candidate_stats sha256_hex opts c page.transactions)
                    page.truncation_code opts)) [
                      | inl d ↦ rw d (enqueue-kept _ sel)
                      | inr d ↦ rw d (reject-kept _ sel ∙ ap (λ n. kept sel + n) own)
                    ])
        ]

    pub dive_step-settled :
        (d : DeepDiveCandidate) (r : Result FetchWindowResult) (sel : Selection)
        → IsOwn opts d
        → settled (dive_step sha256_hex opts d r sel) ≡ settled sel + weight d.discovery.address
    unfolding dive_step rejected_with_status
    dive_step-settled d (err e) sel own =
        reject-settled _ sel ∙ ap (λ a. settled sel + weight a) own.0
    dive_step-settled d (ok page) sel own =
        let same =
          ap (λ a. settled sel + weight a)
            (candidate_stats-address d.discovery page.transactions) in
        elim (Bool-cases page.partial) [
          | inr e ↦ rw e (judge-settled _ _ _ sel ∙ same)
          | inl e ↦ rw e (reject-settled _ sel ∙ same)
        ]

    should_deep_dive-has_dives :
        (stats : WalletStats) (code : TruncationCode)
        → should_deep_dive stats code opts ≡ true
        → ltb_ℤ (pos 0) opts.deep_dive_top_n ≡ true
    unfolding should_deep_dive
    should_deep_dive-has_dives stats code h = ground arith

    pub candidate_step-QueueIsOwn :
        (c : CandidateDiscovery) (r : Result FetchWindowResult) (sel : Selection)
        → QueueIsOwn opts sel
        → QueueIsOwn opts (candidate_step sha256_hex opts c r sel)
    unfolding candidate_step reject enqueue
    candidate_step-QueueIsOwn c (err e) sel h = h
    candidate_step-QueueIsOwn c (ok page) sel h = elim (Bool-cases page.partial) [
      | inr e ↦ rw (e, judge-queue _ _ _ sel) h
      | inl e ↦
          rw e
            (elim (Bool-cases (
              should_deep_dive (candidate_stats sha256_hex opts c page.transactions)
                page.truncation_code opts)) [
                  | inl d ↦ rw d (
                      All-append (IsOwn opts) sel.queue _ h (
                        (
                          candidate_stats-address c page.transactions,
                          should_deep_dive-has_dives _ _ d,
                        ),
                        tt,
                      ))
                  | inr d ↦ rw d h
                ])
    ]

  -- The last choice: each wallet of the list is accepted or rejected.
  abbrev pub decided : SourceResult → ℕ
  decided r = count_by (λ w. p w.address) r.accepted + count_rejected r.rejected

  choose-decided :
      (opts : Options) (i : ℕ) (list : List WalletStats) (r : SourceResult)
      → decided (choose opts i list r) ≡ decided r + count_stats list
  unfolding choose accepted_from_stats rejected_from_stats rejected_with_status
  choose-decided opts i [] r = omega arith
  choose-decided opts i (stats ∷ rest) r = elim (Bool-cases (is_target_reached opts i)) [
    | inl e ↦ rw e (
        omega (
          arith,
          choose-decided opts (i + 1) rest (record r { rejected = r.rejected ++ out ∷ [] }),
          count_by-append {0} (λ w. p w.address) r.rejected (out ∷ []),
        ))
    | inr e ↦ rw e (
        omega (
          arith,
          choose-decided opts (i + 1) rest (record r { accepted = r.accepted ++ chosen ∷ [] }),
          count_by-append {0} (λ w. p w.address) r.accepted (chosen ∷ []),
        ))
  ]
    where
      out : RejectedWallet
      out = rejected_from_stats stats (codes "target_count_reached")

      chosen : AcceptedWallet
      chosen = accepted_from_stats stats

  pub choose_accepted-decided :
      (opts : Options) (sel : Selection) → decided (choose_accepted opts sel) ≡ settled sel
  unfolding choose_accepted
  choose_accepted-decided opts sel = omega (
    arith,
    choose-decided opts 0 (sort_by eligible_before sel.eligible)
        (record { accepted = []; rejected = sel.rejected }),
    count_by-sort_by {0} eligible_before (λ w. p w.address) sel.eligible,
  )
