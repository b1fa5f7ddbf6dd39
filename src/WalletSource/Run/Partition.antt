-- ===== src/WalletSource/Run/Partition.antt =====
-- The candidates of a source run, accepted and rejected.
use poison_trace.Base.{
  ℕ, ◌+◌, Bool, false, List, [], ◌∷◌, ltb_ℤ, leb_ℤ, pos, not, ◌&&◌, is_nil, length, count_by, All,
  ◌≡◌, ◌∙◌, ap, inl, inr, arith, Bool-cases,
}
use poison_trace.Text.{Str, codes}
use poison_trace.Text.Sort.{sort_by, count_by-sort_by, All-sort_by}
use poison_trace.Helius.{Client}
use poison_trace.WalletSource.{Options, CandidateDiscovery, DeepDiveCandidate}
use poison_trace.WalletSource.Choice.{dive_before}
use poison_trace.WalletSource.Discovery.{sorted_discoveries}
use poison_trace.WalletSource.Select.{
  cap_list, Selection, candidate_step, dive_step, skip_dive, cap_reason, is_target_reached,
}
use poison_trace.WalletSource.Select.Count.{
  count_queue, settled, weight, kept, candidate_step-kept, dive_step-settled, skip_dive-settled,
  IsOwn, QueueIsOwn, candidate_step-QueueIsOwn, choose_accepted-decided,
}
use poison_trace.WalletSource.Run.{
  Found, fetch, examine, dive_loop, deep_dives, select_wallets, nothing_selected,
}

module _ {S : Type 0} (client : Client S) (sha256_hex : Str → Str) (opts : Options)
    (p : Str → Bool) where
  abbrev count_candidates : List CandidateDiscovery → ℕ
  count_candidates = count_by (λ c. p c.address)

  examine-kept :
      (list : List CandidateDiscovery) (sel : Selection) (s : S)
      → kept p (examine sha256_hex client opts list sel s).0 ≡ kept p sel + count_candidates list
  unfolding examine
  examine-kept [] sel s = omega arith
  examine-kept (c ∷ rest) sel s =
      let reply = fetch client opts c.address opts.candidate_max_pages opts.max_tx_per_wallet s in
      omega (
        arith,
        examine-kept rest (candidate_step sha256_hex opts c reply.0 sel) reply.1,
        candidate_step-kept p sha256_hex opts c reply.0 sel,
      )

  examine-QueueIsOwn :
      (list : List CandidateDiscovery) (sel : Selection) (s : S)
      → QueueIsOwn opts sel
      → QueueIsOwn opts (examine sha256_hex client opts list sel s).0
  unfolding examine
  examine-QueueIsOwn [] sel s h = h
  examine-QueueIsOwn (c ∷ rest) sel s h =
      examine-QueueIsOwn rest _ _ (candidate_step-QueueIsOwn p sha256_hex opts c _ sel h)

  dive_loop-settled :
      (idx : ℕ) (list : List DeepDiveCandidate) (sel : Selection) (s : S)
      → All (IsOwn opts) list
      → settled p (dive_loop sha256_hex client opts idx list sel s).0
        ≡ settled p sel + count_queue p list
  unfolding dive_loop
  dive_loop-settled idx [] sel s h = omega arith
  dive_loop-settled idx (d ∷ rest) sel s h =
      let reply =
        fetch client opts d.discovery.address opts.deep_dive_max_pages opts.deep_dive_max_tx s in
      elim (Bool-cases (leb_ℤ opts.deep_dive_top_n (pos idx))) [
        | inl e ↦ rw e (dive_loop-settled (idx + 1) rest _ s h.1 ∙ skipped (cap_reason d))
        | inr e ↦ rw e (elim (Bool-cases (is_target_reached opts (length sel.eligible))) [
          | inl e ↦
              rw e
                (dive_loop-settled (idx + 1) rest _ s h.1 ∙ skipped (codes "target_count_reached"))
          | inr e ↦ rw e (
              omega (
                arith,
                dive_loop-settled (idx + 1) rest (dive_step sha256_hex opts d reply.0 sel) reply.1
                    h.1,
                dive_step-settled p sha256_hex opts d reply.0 sel h.0,
              ))
        ])
      ]
    where
      skipped :
          (reason : Str)
          → settled p (skip_dive d reason sel) + count_queue p rest
            ≡ settled p sel + count_queue p (d ∷ rest)
      skipped reason = omega (arith, skip_dive-settled p d reason sel, ap (weight p) h.0.0)

  -- Whatever is queued is settled by the deep dives.
  deep_dives-settled :
      (r : Selection × S)
      → QueueIsOwn opts r.0
      → settled p (deep_dives sha256_hex client opts r).0 ≡ kept p r.0
  unfolding deep_dives
  deep_dives-settled (sel, s) h =
      elim (Bool-cases (not (is_nil sel.queue) && ltb_ℤ (pos 0) opts.deep_dive_top_n)) [
        | inl e ↦ rw e (
            omega (
              arith,
              dive_loop-settled 0 (sort_by dive_before sel.queue) sel s
                  (All-sort_by dive_before (IsOwn opts) sel.queue h),
              count_by-sort_by {0} dive_before (λ d. p d.discovery.address) sel.queue,
            ))
        | inr e ↦ rw e (none_queued sel.queue h e)
      ]
    where
      none_queued :
          (queue : List DeepDiveCandidate)
          → All (IsOwn opts) queue
          → (not (is_nil queue) && ltb_ℤ (pos 0) opts.deep_dive_top_n) ≡ false
          → settled p sel ≡ settled p sel + count_queue p queue
      none_queued [] k e = omega arith
      none_queued (d ∷ queue) k e = ground (arith, k.0.1)

  -- The candidates of a run, as far as they fit in.
  abbrev pub candidates : Found → List CandidateDiscovery
  candidates f = cap_list opts.max_candidates (sorted_discoveries f.discovered)

  -- Whatever the provider answers, and for every test on addresses: the accepted and the rejected
  -- wallets that pass it are together as many as the candidates that pass it. So each candidate is
  -- accepted or rejected, once, and nothing else is.
  pub select_wallets-count :
      (f : Found) (s : S)
      → count_by (λ w. p w.address) (select_wallets sha256_hex client opts f s).0.accepted
          + count_by (λ w. p w.address) (select_wallets sha256_hex client opts f s).0.rejected
        ≡ count_by (λ c. p c.address) (candidates f)
  unfolding select_wallets
  select_wallets-count f s =
      let seen = examine sha256_hex client opts (candidates f) nothing_selected s in
      omega (
        arith,
        choose_accepted-decided p opts (deep_dives sha256_hex client opts seen).0,
        deep_dives-settled seen (examine-QueueIsOwn (candidates f) nothing_selected s tt),
        examine-kept (candidates f) nothing_selected s,
      )
