-- ===== src/Fixtures/Corpus/Counts.antt =====
-- The report of `ValidateCorpus`: its counters and its results (internal/fixtures/validation.go).
use poison_trace.Base.{
  ℕ, ◌+◌, map, Bool, not, ◌&&◌, List, if◌then◌else◌, length, count_by, All, ◌≡◌,
}
use poison_trace.Text.{Str, str_lt}
use poison_trace.Text.Sort.{sort_by}
use poison_trace.Fixtures.Corpus.{
  CorpusValidationCaseResult, CorpusValidationReport, Corpus, Progress,
}
use poison_trace.Fixtures.Corpus.Sound.{IsSound}

abbrev pub is_detected : CorpusValidationCaseResult → Bool
is_detected r = r.actual_in_scope

abbrev pub is_stray : CorpusValidationCaseResult → Bool
is_stray r = r.actual_in_scope && not r.expected_in_scope

-- The counters so far are those of the results so far.
record IsCounted (p : Progress) : Type 0 where
  detected : p.summary.detected_in_scope_cases ≡ count_by is_detected p.results
  stray : p.summary.out_of_scope_with_candidates ≡ count_by is_stray p.results
  sound : All IsSound p.results

abbrev one_if : Bool → ℕ
one_if b = if b then 1 else 0

-- What the tests after a replay add to the counters.
record IsStep (expected actual : Bool) (p q : Progress) : Type 0 where
  results : q.results ≡ p.results
  detected : q.summary.detected_in_scope_cases ≡ p.summary.detected_in_scope_cases + one_if actual
  stray :
      q.summary.out_of_scope_with_candidates
      ≡ p.summary.out_of_scope_with_candidates + one_if (actual && not expected)

-- The results of a report are those of the listed cases, one for each and by their ids; its counters
-- are those of its results, and its results are sound.
pub record IsTallied (ids : List Str) (r : CorpusValidationReport) : Type 0 where
  pub total : r.summary.total_cases ≡ length ids
  pub one_each : map (λ c. c.case_id) r.cases ≡ sort_by str_lt ids
  pub split : r.summary.passed_cases + r.summary.failed_cases ≡ length ids
  pub detected : r.summary.detected_in_scope_cases ≡ count_by is_detected r.cases
  pub stray : r.summary.out_of_scope_with_candidates ≡ count_by is_stray r.cases
  pub sound : All IsSound r.cases
