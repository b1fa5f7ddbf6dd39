-- ===== src/Tests/Cases.antt =====
-- A corpus of three cases, of which one cannot be replayed and one emits a candidate out of scope.
use poison_trace.Base.{ℕ, [], ◌∷◌, none, if◌then◌else◌, length, ◌==◌}
use poison_trace.Text.{codes}
use poison_trace.Errors.{ok, err, plain}
use poison_trace.Fixtures.{ReplayOutput}
use poison_trace.Fixtures.Corpus.{Corpus}

abbrev emitting : ReplayOutput
emitting = record { normalized_transfers = []; poisoning_candidates = 1; wallet_sync_runs = [] }

-- A case is its length; the state is not used.
abbrev corpus : Corpus ℕ ℕ
corpus = record {
  list_case_ids = λ s. (ok (codes "a" ∷ codes "bb" ∷ codes "ccc" ∷ []), s);
  load_case = λ case_id s. (ok (length case_id), s);
  is_expected_in_scope = λ c. c == 1;
  expected_miss_reason = λ c. [];
  replay = λ c s. (if c == 2 then err (plain (codes "no pages")) else ok emitting, s);
  compare_expected = λ c out s. (none, s);
}
