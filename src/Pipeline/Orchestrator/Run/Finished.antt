-- ===== src/Pipeline/Orchestrator/Run/Finished.antt =====
-- What a run that ends without an error has done.
use poison_trace.Base.{
  ℕ, ◌+◌, List, [], ◌∷◌, ◌++◌, Option, none, some, length, length-append, ◌≡◌, refl, arith,
  Bool-cases, Option-cases, inl, inr, ◌==◌, ◌↔◌,
}
use poison_trace.Text.{Str, codes}
use poison_trace.Errors.{Result, ok, err}
use poison_trace.Errors.Actions.{proceed, proceed-eq-ok}
use poison_trace.Config.{Config}
use poison_trace.Pipeline.Runner.{RunParams}
use poison_trace.Pipeline.Orchestrator.{Tally, tally_outcomes}
use poison_trace.Pipeline.Orchestrator.Totals.{tally_outcomes-counts}
use poison_trace.Pipeline.Orchestrator.Run.{
  RunWorld, RunRepository, prepare_run, close_run, after_finalize, finalize_run, settle_run,
  run_tally, run,
}

module _ {S : Type 0} (world : RunWorld S) (cfg : Config) where
  -- The repository, if there is one, has taken the end of the run in the world `s`.
  abbrev pub Stored : Option (RunRepository S) → ℕ → Tally → S → S → Type 0
  Stored none id t s end_state = end_state ≡ s
  Stored (some repo) id t s end_state = finalize_run world cfg repo id t s ≡ (ok tt, end_state)

  close_run-eq-ok :
      (errs : List Str) (s t : S)
      → close_run world cfg errs s ≡ (ok tt, t)
      → (length errs ≡ 0) × (t ≡ s) × (world.context_error s ≡ none)
  unfolding close_run
  close_run-eq-ok errs s t h = elim (Option-cases (world.context_error s)) [
    | inl clear ↦ ground (arith, clear)
    | inr (e, stopped) ↦ ground (arith, stopped)
  ]

  after_finalize-eq-ok :
      (errs : List Str) (r : Result (Unit {0}) × S) (t : S)
      → after_finalize world cfg errs r ≡ (ok tt, t)
      → (length errs ≡ 0) × (r ≡ (ok tt, t)) × (world.context_error t ≡ none)
  unfolding after_finalize
  after_finalize-eq-ok errs (ok u, s) t h =
      let (empty, same, clear) = close_run-eq-ok errs s t h in (empty, rw same refl, rw same clear)
  after_finalize-eq-ok errs (err e, s) t h =
      let more = errs ++ (codes "finalize ingestion run: " ++ e.message) ∷ [] in
      let longer : length more ≡ length errs + 1 = length-append errs _ in
      elim (Bool-cases (length errs == 0)) [
        | inl no_error ↦ ground arith
        | inr some_error ↦
            let closed : close_run world cfg more s ≡ (ok tt, t) = rw some_error at h in
            let (empty, same, clear) = close_run-eq-ok more s t closed in absurd (omega arith)
      ]

  -- The `if o.runRepo != nil`.
  settle_with : Option (RunRepository S) → ℕ → Tally → S → Result (Unit {0}) × S
  settle_with none id tally s = close_run world cfg tally.errs s
  settle_with (some repo) id tally s =
      after_finalize world cfg tally.errs (finalize_run world cfg repo id tally s)

  settle_with-eq-ok :
      (repo : Option (RunRepository S)) (id : ℕ) (tally : Tally) (s t : S)
      → settle_with repo id tally s ≡ (ok tt, t)
      → (length tally.errs ≡ 0) × Stored repo id tally s t × (world.context_error t ≡ none)
  unfolding settle_with
  settle_with-eq-ok none id tally s t h =
      let (empty, same, clear) = close_run-eq-ok tally.errs s t h in (empty, same, rw same clear)
  settle_with-eq-ok (some repo) id tally s t h =
      after_finalize-eq-ok tally.errs (finalize_run world cfg repo id tally s) t h

  settle_with-settle_run :
      (id : ℕ) (tally : Tally) (s : S)
      → settle_run world cfg id tally s ≡ settle_with world.run_repo id tally s
  unfolding settle_run settle_with
  settle_with-settle_run id tally s = elim (Option-cases world.run_repo) [
    | inl absent ↦ rw absent refl
    | inr (repo, present) ↦ rw present refl
  ]

  -- What a run has done that ends without an error in the world `t`.
  pub record IsFinished (p : RunParams) (s t : S) : Type 0 where
    pub wallets : List Str
    pub params : RunParams
    pub started : S
    pub prepared : prepare_run world cfg p s ≡ (ok (wallets, params), started)
    pub all_processed :
        (tally_outcomes
          (length wallets)
          (world.run_wallets wallets params started).0).total.wallets_processed
        ≡ length (world.run_wallets wallets params started).0
    pub stored :
        Stored world.run_repo params.ingestion_run_id
          (tally_outcomes (length wallets) (world.run_wallets wallets params started).0)
          (world.run_wallets wallets params started).1
          t
    pub in_time : world.context_error t ≡ none

  run-IsFinished : (p : RunParams) (s t : S) → run world cfg p s ≡ (ok tt, t) → IsFinished p s t
  unfolding run run_tally
  run-IsFinished p s t h =
      let (start, prepared, rest) = proceed-eq-ok (prepare_run world cfg p s) _ h in
      let begun = (prepare_run world cfg p s).1 in
      let ended = world.run_wallets start.0 start.1 begun in
      let tally = tally_outcomes (length start.0) ended.0 in
      let (empty, stored, clear) =
        settle_with-eq-ok world.run_repo start.1.ingestion_run_id tally ended.1 t
          (rw (← settle_with-settle_run start.1.ingestion_run_id tally ended.1) rest) in
      let (settled, errors, requested) = tally_outcomes-counts (length start.0) ended.0 in
      record {
        wallets = start.0;
        params = start.1;
        started = begun;
        prepared = cc;
        all_processed = omega arith;
        stored = stored;
        in_time = clear;
      }

  close_run_ok :
      (errs : List Str) (s : S)
      → length errs ≡ 0
      → world.context_error s ≡ none
      → close_run world cfg errs s ≡ (ok tt, s)
  unfolding close_run
  close_run_ok errs s empty clear = rw (close_run, empty, clear) refl

  settle_with_ok :
      (repo : Option (RunRepository S)) (id : ℕ) (tally : Tally) (s t : S)
      → length tally.errs ≡ 0
      → Stored repo id tally s t
      → world.context_error t ≡ none
      → settle_with repo id tally s ≡ (ok tt, t)
  unfolding settle_with after_finalize
  settle_with_ok none id tally s t empty stored clear =
      rw (settle_with, stored) (close_run_ok tally.errs s empty (rw (← stored) clear))
  settle_with_ok (some repo) id tally s t empty stored clear =
      rw (settle_with, stored) (close_run_ok tally.errs t empty clear)

  IsFinished-run : (p : RunParams) (s t : S) → IsFinished p s t → run world cfg p s ≡ (ok tt, t)
  unfolding run run_tally proceed
  IsFinished-run p s t f =
      let ended = world.run_wallets f.wallets f.params f.started in
      let tally = tally_outcomes (length f.wallets) ended.0 in
      let (settled, errors, requested) = tally_outcomes-counts (length f.wallets) ended.0 in
      let processed = f.all_processed in
      rw (run, f.prepared, settle_with-settle_run)
        (settle_with_ok world.run_repo f.params.ingestion_run_id tally ended.1 t (omega arith)
          f.stored f.in_time)

  -- A run ends without an error exactly if it was prepared, every outcome of its wallets is counted as
  -- processed, the repository, if there is one, has taken its end, and its context was not ended.
  pub run_iff : (p : RunParams) (s t : S) → (run world cfg p s ≡ (ok tt, t)) ↔ IsFinished p s t
  run_iff p s t = (run-IsFinished p s t, IsFinished-run p s t)
