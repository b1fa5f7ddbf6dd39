-- ===== src/WalletSource/Select/Eligible.antt =====
-- The wallets that the choice accepts.
use poison_trace.Base.{
  ℕ, suc, ◌+◌, ◌≤◌, ◌<◌, pos, ◌≤ℤ◌, Bool, true, false, List, [], ◌∷◌, ◌++◌, none, length,
  length-append, All, All-append, ◌≡◌, inl, inr, arith, Bool-cases, Option-cases,
}
use poison_trace.Text.{Str, str_eq}
use poison_trace.Text.Sort.{sort_by, All-sort_by}
use poison_trace.Errors.{Result, ok, err}
use poison_trace.Pipeline.Fetch.{FetchWindowResult}
use poison_trace.WalletSource.{
  Options, WalletStats, AcceptedWallet, SourceResult, CandidateDiscovery, DeepDiveCandidate,
  DeepDiveStatus, attacker_outbound_dust,
}
use poison_trace.WalletSource.Choice.{
  should_deep_dive, stats_reject_reason, accepted_from_stats, eligible_before,
}
use poison_trace.WalletSource.Select.{
  Selection, reject, admit, enqueue, candidate_stats, judge, candidate_step, dive_step, skip_dive,
  choose, choose_accepted, is_target_reached,
}

-- What the row of an accepted wallet shows of the tests that it passed.
pub record IsWanted (opts : Options) (w : AcceptedWallet) : Type 0 where
  pub sampled : 0 < w.sample_transactions
  pub small : pos w.sample_transactions ≤ℤ opts.max_accepted_tx
  pub outbound : opts.min_outbound ≤ℤ pos w.outbound_transfers
  pub dusted : opts.min_scan_inbound_dust ≤ℤ pos w.scan_inbound_dust_transfers
  pub spread :
      str_eq opts.source_mode attacker_outbound_dust ≡ true
      → opts.min_unique_dust_recipients ≤ℤ pos w.unique_dust_recipients

module _ (opts : Options) where
  abbrev IsEligible : WalletStats → Type 0
  IsEligible stats = stats_reject_reason stats opts ≡ none

  pub accepted_from_stats-IsWanted :
      (stats : WalletStats) → IsEligible stats → IsWanted opts (accepted_from_stats stats)
  unfolding stats_reject_reason accepted_from_stats
  accepted_from_stats-IsWanted stats h = record {
    sampled = ground arith;
    small = ground arith;
    outbound = ground arith;
    dusted = ground arith;
    spread = λ e. ground arith;
  }

  abbrev pub AllEligible : Selection → Type 0
  AllEligible sel = All IsEligible sel.eligible

  pub skip_dive-AllEligible :
      (d : DeepDiveCandidate) (reason : Str) (sel : Selection)
      → AllEligible sel
      → AllEligible (skip_dive d reason sel)
  unfolding skip_dive reject
  skip_dive-AllEligible d reason sel h = h

  module _ (sha256_hex : Str → Str) where
    judge-AllEligible :
        (stats : WalletStats) (exhausted : Bool) (status : DeepDiveStatus) (sel : Selection)
        → AllEligible sel
        → AllEligible (judge sha256_hex opts stats exhausted status sel)
    unfolding judge reject admit
    judge-AllEligible stats exhausted status sel h = elim (Bool-cases exhausted) [
      | inl e ↦ rw e h
      | inr e ↦ rw e (elim (Option-cases (stats_reject_reason stats opts)) [
        | inl e ↦ rw e (All-append IsEligible sel.eligible (stats ∷ []) h (e, tt))
        | inr (reason, e) ↦ rw e h
      ])
    ]

    pub candidate_step-AllEligible :
        (c : CandidateDiscovery) (r : Result FetchWindowResult) (sel : Selection)
        → AllEligible sel
        → AllEligible (candidate_step sha256_hex opts c r sel)
    unfolding candidate_step reject enqueue
    candidate_step-AllEligible c (err e) sel h = h
    candidate_step-AllEligible c (ok page) sel h = elim (Bool-cases page.partial) [
      | inr e ↦ rw e (judge-AllEligible _ _ _ sel h)
      | inl e ↦
          rw e
            (elim (Bool-cases (
              should_deep_dive (candidate_stats sha256_hex opts c page.transactions)
                page.truncation_code opts)) [ inl d ↦ rw d h | inr d ↦ rw d h ])
    ]

    pub dive_step-AllEligible :
        (d : DeepDiveCandidate) (r : Result FetchWindowResult) (sel : Selection)
        → AllEligible sel
        → AllEligible (dive_step sha256_hex opts d r sel)
    unfolding dive_step reject
    dive_step-AllEligible d (err e) sel h = h
    dive_step-AllEligible d (ok page) sel h = elim (Bool-cases page.partial) [
      | inl e ↦ rw e h
      | inr e ↦ rw e (judge-AllEligible _ _ _ sel h)
    ]

  choose-IsWanted :
      (i : ℕ) (list : List WalletStats) (r : SourceResult)
      → All IsEligible list
      → All (IsWanted opts) r.accepted
      → All (IsWanted opts) (choose opts i list r).accepted
  unfolding choose
  choose-IsWanted i [] r h k = k
  choose-IsWanted i (stats ∷ rest) r h k = elim (Bool-cases (is_target_reached opts i)) [
    | inl e ↦ rw e (choose-IsWanted (i + 1) rest _ h.1 k)
    | inr e ↦ rw e (
        choose-IsWanted (i + 1) rest _ h.1
          (All-append (IsWanted opts) r.accepted _ k (accepted_from_stats-IsWanted stats h.0, tt)))
  ]

  pub choose_accepted-IsWanted :
      (sel : Selection) → AllEligible sel → All (IsWanted opts) (choose_accepted opts sel).accepted
  unfolding choose_accepted
  choose_accepted-IsWanted sel h =
      choose-IsWanted 0 (sort_by eligible_before sel.eligible) _
        (All-sort_by eligible_before IsEligible sel.eligible h) tt

  choose-bounded :
      (target i : ℕ) (list : List WalletStats) (r : SourceResult)
      → opts.target_count ≡ pos (suc target)
      → length r.accepted ≤ i
      → length r.accepted ≤ suc target
      → length (choose opts i list r).accepted ≤ suc target
  unfolding choose is_target_reached
  choose-bounded target i [] r t h k = k
  choose-bounded target i (stats ∷ rest) r t h k = elim (Bool-cases (is_target_reached opts i)) [
    | inl e ↦ rw e (choose-bounded target (i + 1) rest _ t (omega arith) k)
    | inr e ↦ rw e (
        choose-bounded target (i + 1) rest _ t
          (omega (arith, length-append {0} r.accepted (accepted_from_stats stats ∷ []))) (room e))
  ]
    where
      room :
          is_target_reached opts i ≡ false
          → length (r.accepted ++ accepted_from_stats stats ∷ []) ≤ suc target
      room e = ground (arith, length-append {0} r.accepted (accepted_from_stats stats ∷ []))

  pub choose_accepted-bounded :
      (target : ℕ) (sel : Selection)
      → opts.target_count ≡ pos (suc target)
      → length (choose_accepted opts sel).accepted ≤ suc target
  unfolding choose_accepted
  choose_accepted-bounded target sel t =
      choose-bounded target 0 (sort_by eligible_before sel.eligible) _ t (omega arith) (omega arith)
