-- ===== src/Pipeline/Core/Baseline.antt =====
-- The core sync with a baseline window that was cut short.
use poison_trace.Base.{
  Bool, true, false, List, [], ◌∷◌, select, Option, Option-cases, ◌≡◌, ◌∙◌, refl, arith, Bool-cases,
  inl, inr,
}
use poison_trace.Text.{Str}
use poison_trace.Errors.{ok}
use poison_trace.Errors.Actions.{proceed-value}
use poison_trace.Helius.{Client}
use poison_trace.Pipeline.Detection.FailClosed.{evaluate_candidate-AllGatesPass}
use poison_trace.Pipeline.Validation.{
  CoreSyncParams, CandidateMaterializeParams, validate_candidate_materialize_params,
  validate_core_sync_params,
}
use poison_trace.Pipeline.Candidate.{WalletTransferObservation}
use poison_trace.Pipeline.Candidate.Materialize.{
  Indexes, build_indexes, observation_gates, materialize_candidates,
}
use poison_trace.Pipeline.Candidate.Emission.{emits, materialize_candidates-Adds}
use poison_trace.Pipeline.Candidate.Sound.{bool_iff}
use poison_trace.Pipeline.Fetch.{FetchWindowResult}
use poison_trace.Pipeline.Core.{Classifier, NormalizeWindowResult}
use poison_trace.Pipeline.Core.Sync.{
  CoreSyncResult, materialize_params, assemble, sync_windows, run_wallet_core_sync,
}

emits-partial :
    (ix : Indexes) (p : CandidateMaterializeParams) (obs : WalletTransferObservation)
    → p.baseline_complete ≡ false
    → emits ix p obs ≡ false
unfolding emits observation_gates
emits-partial ix p obs h = elim (Bool-cases (emits ix p obs)) [
  | inr none_out ↦ none_out
  | inl out ↦
      let gates = (evaluate_candidate-AllGatesPass (observation_gates ix p obs)).0 out in
      let complete : p.baseline_complete ≡ true =
        (bool_iff p.baseline_complete).0 gates.baseline_complete in
      ground arith
]

select-none : {A : Type 0} (f : A → Bool) (l : List A) → ((a : A) → f a ≡ false) → select f l ≡ []
select-none f [] h = refl
select-none f (x ∷ l) h = rw (h x) (select-none f l h)

-- Whatever the observations are, an incomplete baseline gives no candidate.
pub materialize_candidates-partial :
    (baseline scan : List WalletTransferObservation) (p : CandidateMaterializeParams)
    → p.baseline_complete ≡ false
    → (materialize_candidates baseline scan p).candidates ≡ []
unfolding materialize_candidates
materialize_candidates-partial baseline scan p h =
    elim (Option-cases (validate_candidate_materialize_params p)) [
      | inl valid ↦
          (materialize_candidates-Adds baseline scan p valid).candidates
          ∙ rw
              (select-none (emits (build_indexes baseline scan) p) scan
                (λ obs. emits-partial (build_indexes baseline scan) p obs h))
              refl
      | inr (e, bad) ↦ rw (materialize_candidates, bad) refl
    ]

assemble-partial :
    (p : CoreSyncParams) (baseline_fetch scan_fetch : FetchWindowResult)
    (baseline scan : NormalizeWindowResult)
    → (assemble p baseline_fetch scan_fetch baseline scan).baseline_complete ≡ false
    → ((assemble p baseline_fetch scan_fetch baseline scan).candidates ≡ [])
      × ((assemble p baseline_fetch scan_fetch baseline scan).incomplete_window ≡ true)
unfolding assemble materialize_params
assemble-partial p baseline_fetch scan_fetch baseline scan h =
    (materialize_candidates-partial baseline.observations scan.observations _ h, ground arith)

module _ {S : Type 0} (sha256_hex : Str → Str) (client : Option (Client S)) where
  -- A value of the sync is put together from two fetched windows.
  sync_windows-assemble :
      (p : CoreSyncParams) (classifier : Classifier) (s : S) (res : CoreSyncResult)
      → (sync_windows sha256_hex client p classifier s).0 ≡ ok res
      → (baseline_fetch : FetchWindowResult) × ((scan_fetch : FetchWindowResult)
          × ((baseline : NormalizeWindowResult) × ((scan : NormalizeWindowResult) × (assemble p
                    baseline_fetch scan_fetch baseline scan
                  ≡ res))))
  unfolding sync_windows
  sync_windows-assemble p classifier s res h =
      let (baseline_fetch, (_, k)) = proceed-value _ _ h in
      let (scan_fetch, (_, l)) = proceed-value _ _ k in
      let (baseline, (_, m)) = proceed-value _ _ l in
      let (scan, (_, n)) = proceed-value _ _ m in
      (baseline_fetch, (scan_fetch, (baseline, (scan, cc))))

  -- A core sync that gives a result with an incomplete baseline has no candidates and an incomplete
  -- window.
  pub run_wallet_core_sync-partial :
      (p : CoreSyncParams) (classifier : Classifier) (s : S) (res : CoreSyncResult)
      → (run_wallet_core_sync sha256_hex client p classifier s).0 ≡ ok res
      → res.baseline_complete ≡ false
      → (res.candidates ≡ []) × (res.incomplete_window ≡ true)
  unfolding run_wallet_core_sync
  run_wallet_core_sync-partial p classifier s res h b =
      elim (Option-cases (validate_core_sync_params p)) [
        | inr (e, bad) ↦ ground arith
        | inl valid ↦ elim (Option-cases client) [
          | inl absent ↦ ground arith
          | inr (c, present) ↦
              let given : (sync_windows sha256_hex client p classifier s).0 ≡ ok res =
                ground arith in
              let (bf, (sf, (bn, (sn, e)))) = sync_windows-assemble p classifier s res given in
              rw (← e) (assemble-partial p bf sf bn sn (rw e b))
        ]
      ]
