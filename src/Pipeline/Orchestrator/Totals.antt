-- ===== src/Pipeline/Orchestrator/Totals.antt =====
-- The counts and the errors of the wallets' outcomes.
use poison_trace.Base.{ℕ, ◌+◌, List, [], ◌∷◌, foldl, length, length-append, ◌≡◌, ◌∙◌, refl, arith}
use poison_trace.Text.Sort.{sort_by, insert_by}
use poison_trace.Runs.{Counters, zero_counters}
use poison_trace.Pipeline.Orchestrator.{
  WalletOutcome, outcome_before, Tally, tally_step, tally_outcomes, add_report,
}

length-insert :
    (o : WalletOutcome) (l : List WalletOutcome)
    → length (insert_by outcome_before o l) ≡ length l + 1
unfolding insert_by
length-insert o [] = omega arith
length-insert o (x ∷ l) = ground (arith, length-insert o l)

length-sort : (l : List WalletOutcome) → length (sort_by outcome_before l) ≡ length l
unfolding sort_by
length-sort [] = refl
length-sort (o ∷ l) = omega (arith, length-insert o (sort_by outcome_before l), length-sort l)

-- Wallets that were processed, skipped or failed.
abbrev pub settled : Counters → ℕ
settled c = c.wallets_processed + c.wallets_skipped + c.wallets_failed

step_counts :
    (t : Tally) (o : WalletOutcome)
    → (settled (tally_step t o).total ≡ settled t.total + 1)
      × (length (tally_step t o).errs + t.total.wallets_skipped + t.total.wallets_failed
          ≡ length t.errs
            + (tally_step t o).total.wallets_skipped
            + (tally_step t o).total.wallets_failed)
      × ((tally_step t o).total.wallets_requested ≡ t.total.wallets_requested)
unfolding tally_step add_report
step_counts t o = grind (arith, length-append {0} t.errs)

abbrev IsSettled : Tally → List WalletOutcome → Tally → Type 0
IsSettled t outcomes u =
    (settled u.total ≡ settled t.total + length outcomes)
    × (length u.errs + t.total.wallets_skipped + t.total.wallets_failed
        ≡ length t.errs + u.total.wallets_skipped + u.total.wallets_failed)
    × (u.total.wallets_requested ≡ t.total.wallets_requested)

fold_counts :
    (t : Tally) (outcomes : List WalletOutcome) → IsSettled t outcomes (foldl tally_step t outcomes)
fold_counts t [] = (omega arith, refl, refl)
fold_counts t (o ∷ outcomes) =
    let (a, b, c) = step_counts t o in
    let (d, e, f) = fold_counts (tally_step t o) outcomes in (omega arith, omega arith, f ∙ c)

-- Each outcome is counted once, as processed, skipped or failed; there is one error for each that was
-- skipped or failed; and the number of wallets requested is kept.
pub tally_outcomes-counts :
    (requested : ℕ) (outcomes : List WalletOutcome)
    → (settled (tally_outcomes requested outcomes).total ≡ length outcomes)
      × (length (tally_outcomes requested outcomes).errs
          ≡ (tally_outcomes requested outcomes).total.wallets_skipped
            + (tally_outcomes requested outcomes).total.wallets_failed)
      × ((tally_outcomes requested outcomes).total.wallets_requested ≡ requested)
unfolding tally_outcomes
tally_outcomes-counts requested outcomes = ground (
  arith,
  fold_counts
      (record {
        total = record zero_counters { wallets_requested = requested };
        errs = [];
        partial_wallets = 0;
      })
      (sort_by outcome_before outcomes),
  length-sort outcomes,
)
