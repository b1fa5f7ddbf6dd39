-- ===== src/Pipeline/Orchestrator/Success.antt =====
-- When a run counts as succeeded.
use poison_trace.Base.{
  ℕ, ◌+◌, Bool, true, false, ◌||◌, List, [], ◌∷◌, foldl, length, length-append, count_by, Option,
  none, some, ◌≡◌, ◌↔◌, refl, arith,
}
use poison_trace.Text.Sort.{sort_by, insert_by}
use poison_trace.Errors.{ErrorChain}
use poison_trace.Runs.{Counters, zero_counters, RunStatus}
use poison_trace.Pipeline.Orchestrator.{
  WalletOutcome, is_partial_status, outcome_before, Tally, tally_step, tally_outcomes,
  derive_run_status,
}

-- A wallet that ended in an error, or with a partial sync.
abbrev pub is_bad : WalletOutcome → Bool
is_bad o = elim o.error [ none ↦ is_partial_status o.report.wallet_status | some e ↦ true ]

-- The run's context was ended by its deadline or from outside.
abbrev pub is_stopped : Option ErrorChain → Bool
is_stopped none = false
is_stopped (some e) = e.is_deadline_exceeded || e.is_canceled

count_by-insert :
    (o : WalletOutcome) (l : List WalletOutcome)
    → count_by is_bad (insert_by outcome_before o l) ≡ count_by is_bad (o ∷ l)
unfolding insert_by
count_by-insert o [] = refl
count_by-insert o (x ∷ l) = grind (arith, count_by-insert o l)

count_by-sort :
    (l : List WalletOutcome) → count_by is_bad (sort_by outcome_before l) ≡ count_by is_bad l
unfolding sort_by
count_by-sort [] = refl
count_by-sort (o ∷ l) = grind (arith, count_by-insert o (sort_by outcome_before l), count_by-sort l)

-- The errors and the partial wallets so far.
abbrev flaws : Tally → ℕ
flaws t = length t.errs + t.partial_wallets

step_flaws :
    (t : Tally) (o : WalletOutcome) → flaws (tally_step t o) ≡ flaws t + count_by is_bad (o ∷ [])
unfolding tally_step
step_flaws t o = grind (arith, length-append {0} t.errs)

fold_flaws :
    (t : Tally) (l : List WalletOutcome)
    → flaws (foldl tally_step t l) ≡ flaws t + count_by is_bad l
fold_flaws t [] = omega arith
fold_flaws t (o ∷ l) = grind (arith, step_flaws t o, fold_flaws (tally_step t o) l)

status_iff :
    (e : Option ErrorChain) (total : Counters) (errors partials : ℕ)
    → (derive_run_status e total errors partials ≡ RunStatus.succeeded)
      ↔ ((is_stopped e ≡ false) × (errors + partials ≡ 0))
unfolding derive_run_status
status_iff e total errors partials = ground arith

tally_flaws :
    (requested : ℕ) (outcomes : List WalletOutcome)
    → flaws (tally_outcomes requested outcomes) ≡ count_by is_bad outcomes
unfolding tally_outcomes
tally_flaws requested outcomes = omega (
  arith,
  fold_flaws
      (record {
        total = record zero_counters { wallets_requested = requested };
        errs = [];
        partial_wallets = 0;
      })
      (sort_by outcome_before outcomes),
  count_by-sort outcomes,
)

-- A run has the status succeeded exactly if its context was not ended by deadline or cancellation and
-- every wallet ended without an error and without a partial sync.
pub derive_run_status_iff :
    (e : Option ErrorChain) (requested : ℕ) (outcomes : List WalletOutcome)
    → (derive_run_status e
          (tally_outcomes requested outcomes).total
          (length (tally_outcomes requested outcomes).errs)
          (tally_outcomes requested outcomes).partial_wallets
        ≡ RunStatus.succeeded)
      ↔ ((is_stopped e ≡ false) × (count_by is_bad outcomes ≡ 0))
derive_run_status_iff e requested outcomes = rw (← tally_flaws requested outcomes) (
    status_iff e (tally_outcomes requested outcomes).total
      (length (tally_outcomes requested outcomes).errs)
      (tally_outcomes requested outcomes).partial_wallets)
