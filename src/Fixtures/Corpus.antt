-- ===== src/Fixtures/Corpus.antt =====
-- `ValidateCorpus`: each case is loaded, replayed and compared, and the results are counted. Loading,
-- replay and comparison are parameters. A rate is kept as the two numbers that it divides.
pub mod Sound
pub mod Counts
pub mod Listed
use poison_trace.Base.{
  ℕ, ◌+◌, Bool, true, false, not, ◌&&◌, ◌||◌, List, [], ◌∷◌, ◌++◌, foldl, Option, none, some,
  if◌then◌else◌, ltb, length, count_by,
}
use poison_trace.Text.{Str, codes, is_empty, str_lt}
use poison_trace.Text.Sort.{sort_by}
use poison_trace.Text.Trim.{trim_space}
use poison_trace.Errors.{ErrorChain, Action, Result, ok, err}
use poison_trace.Errors.Actions.{◌>>=◌, done, proceed}
use poison_trace.Fixtures.{ReplayOutput, MissEvidence, evaluate_miss_reason_evidence}

-- The counters that the loop changes, and the number of cases.
pub record CorpusValidationSummary : Type 0 where
  pub total_cases : ℕ
  pub passed_cases : ℕ
  pub failed_cases : ℕ
  pub expected_in_scope_cases : ℕ
  pub detected_in_scope_cases : ℕ
  pub expected_out_of_scope_cases : ℕ
  pub out_of_scope_with_candidates : ℕ

pub record CorpusValidationCaseResult : Type 0 where
  pub case_id : Str
  pub expected_in_scope : Bool
  pub actual_in_scope : Bool
  pub expected_miss_reason : Str
  pub miss_reason_supported : Bool
  pub miss_reason_matched : Bool
  pub observed_miss_signals : List Str
  pub replay_matched_expected : Bool
  pub passed : Bool
  pub errors : List Str

pub record CorpusValidationReport : Type 0 where
  pub summary : CorpusValidationSummary
  pub cases : List CorpusValidationCaseResult

-- The fixtures over the state `S` of the world, with cases in `C`.
pub record Corpus (S C : Type 0) : Type 0 where
  pub list_case_ids : S → Result (List Str) × S
  pub load_case : Str → S → Result C × S
  pub is_expected_in_scope : C → Bool
  pub expected_miss_reason : C → Str
  pub replay : C → S → Result ReplayOutput × S
  pub compare_expected : C → ReplayOutput → S → Option ErrorChain × S

abbrev pub new_result : Str → CorpusValidationCaseResult
new_result case_id = record {
  case_id = case_id;
  expected_in_scope = false;
  actual_in_scope = false;
  expected_miss_reason = [];
  miss_reason_supported = false;
  miss_reason_matched = false;
  observed_miss_signals = [];
  replay_matched_expected = false;
  passed = true;
  errors = [];
}

-- `res.Passed = false; res.Errors = append(res.Errors, text)`.
unfoldable pub fail_case : Str → CorpusValidationCaseResult → CorpusValidationCaseResult
fail_case text res = record res { passed = false; errors = res.errors ++ text ∷ [] }

unfoldable pub note_comparison :
    Option ErrorChain → CorpusValidationCaseResult → CorpusValidationCaseResult
unfolding fail_case
note_comparison (some e) res = fail_case (codes "expected_mismatch:" ++ e.message) res
note_comparison none res = record res { replay_matched_expected = true }

unfoldable pub note_scope : ReplayOutput → CorpusValidationCaseResult → CorpusValidationCaseResult
unfolding fail_case
note_scope out res =
    let seen = record res { actual_in_scope = ltb 0 out.poisoning_candidates } in
    if seen.expected_in_scope && not seen.actual_in_scope
    then fail_case (codes "expected_in_scope_case_missing_candidate") seen
    else if not seen.expected_in_scope && seen.actual_in_scope
    then fail_case (codes "out_of_scope_case_emitted_candidate") seen
    else seen

-- What strictness makes of the evidence.
unfoldable pub judge_evidence :
    Bool → MissEvidence → CorpusValidationCaseResult → CorpusValidationCaseResult
unfolding fail_case
judge_evidence strict evidence res =
    let noted = record res {
      miss_reason_supported = evidence.supported;
      miss_reason_matched = evidence.matched;
      observed_miss_signals = evidence.signals;
    } in
    if not (strict && (not evidence.supported || not evidence.matched))
    then noted
    else if not evidence.supported
    then fail_case (codes "expected_miss_reason_not_supported") noted
    else fail_case (codes "expected_miss_reason_not_matched") noted

unfoldable pub note_evidence :
    Bool → ReplayOutput → CorpusValidationCaseResult → CorpusValidationCaseResult
unfolding judge_evidence
note_evidence strict out res =
    if not res.expected_in_scope
      && not res.actual_in_scope
      && not (is_empty res.expected_miss_reason)
    then judge_evidence strict (evaluate_miss_reason_evidence res.expected_miss_reason out) res
    else res

-- The end of the loop's body: the result of a case that was replayed.
unfoldable pub replayed_result :
    Bool
    → ReplayOutput
    → Option ErrorChain
    → CorpusValidationCaseResult
    → CorpusValidationCaseResult
unfolding note_evidence note_scope note_comparison
replayed_result strict out mismatch res =
    note_evidence strict out (note_scope out (note_comparison mismatch res))

-- The variables of the loop.
pub record Progress : Type 0 where
  pub results : List CorpusValidationCaseResult
  pub summary : CorpusValidationSummary

unfoldable pub append_result : CorpusValidationCaseResult → Progress → Progress
append_result res p = record p { results = p.results ++ res ∷ [] }

unfoldable pub count_expected : Bool → Progress → Progress
count_expected in_scope p =
    let s = p.summary in
    if in_scope
    then record p { summary = record s { expected_in_scope_cases = s.expected_in_scope_cases + 1 } }
    else record p {
      summary = record s { expected_out_of_scope_cases = s.expected_out_of_scope_cases + 1 };
    }

-- `summary.DetectedInScopeCases++` and `summary.OutOfScopeWithCandidates++`, each under its test, by
-- whether the case was expected in scope and whether it is.
unfoldable pub count_detected : Bool → Bool → Progress → Progress
count_detected expected actual p =
    let s = p.summary in
    let detected = record s { detected_in_scope_cases = s.detected_in_scope_cases + 1 } in
    let stray = record detected {
      out_of_scope_with_candidates = s.out_of_scope_with_candidates + 1;
    } in
    if not actual
    then p
    else if expected
    then record p { summary = detected }
    else record p { summary = stray }

module _ {S C : Type 0} (corpus : Corpus S C) (strict : Bool) where
  unfoldable pub after_compare :
      CorpusValidationCaseResult → ReplayOutput → Option ErrorChain × S → Progress → Progress × S
  unfolding append_result count_detected replayed_result
  after_compare res out (mismatch, s) p = (
    append_result (replayed_result strict out mismatch res)
        (count_detected res.expected_in_scope (ltb 0 out.poisoning_candidates) p),
    s,
  )

  unfoldable pub after_replay :
      CorpusValidationCaseResult → C → Result ReplayOutput × S → Progress → Progress × S
  unfolding after_compare append_result fail_case
  after_replay res fx (err e, s) p =
      (append_result (fail_case (codes "replay_failed:" ++ e.message) res) p, s)
  after_replay res fx (ok out, s) p = after_compare res out (corpus.compare_expected fx out s) p

  unfoldable pub after_load : CorpusValidationCaseResult → Result C × S → Progress → Progress × S
  unfolding after_replay append_result fail_case count_expected
  after_load res (err e, s) p =
      (append_result (fail_case (codes "load_case_failed:" ++ e.message) res) p, s)
  after_load res (ok fx, s) p =
      let expected = corpus.is_expected_in_scope fx in
      after_replay
        (record res {
          expected_in_scope = expected;
          expected_miss_reason = trim_space (corpus.expected_miss_reason fx);
        })
        fx (corpus.replay fx s) (count_expected expected p)

  -- The loop over the cases.
  unfoldable pub validate_cases : List Str → Progress → S → Progress × S
  unfolding after_load
  validate_cases [] p s = (p, s)
  validate_cases (case_id ∷ rest) p s =
      let (next, t) = after_load (new_result case_id) (corpus.load_case case_id s) p in
      validate_cases rest next t

  -- The sorted results, and how many of them passed and failed.
  unfoldable pub close_report : Progress → CorpusValidationReport
  unfolding sort_by
  close_report p =
      let cases = sort_by (λ a b. str_lt a.case_id b.case_id) p.results in
      record {
        summary = record p.summary {
          passed_cases = count_by (λ r. r.passed) cases;
          failed_cases = count_by (λ r. not r.passed) cases;
        };
        cases = cases;
      }

  abbrev pub no_progress : ℕ → Progress
  no_progress total = record {
    results = [];
    summary = record {
      total_cases = total;
      passed_cases = 0;
      failed_cases = 0;
      expected_in_scope_cases = 0;
      detected_in_scope_cases = 0;
      expected_out_of_scope_cases = 0;
      out_of_scope_with_candidates = 0;
    };
  }

  unfoldable pub report_cases : List Str → S → CorpusValidationReport × S
  unfolding validate_cases close_report
  report_cases ids s =
      let (p, t) = validate_cases ids (no_progress (length ids)) s in (close_report p, t)

  unfoldable pub validate_corpus : Action S CorpusValidationReport
  unfolding report_cases proceed
  validate_corpus = corpus.list_case_ids >>= λ ids s. let (r, t) = report_cases ids s in (ok r, t)
