-- ===== src/Fixtures/Corpus/Sound.antt =====
-- The results that pass in `ValidateCorpus` (internal/fixtures/validation.go).
use poison_trace.Base.{Bool, true, Option, none, some, ltb, ◌≡◌, ◌∙◌, sym, refl, arith}
use poison_trace.Text.{Str}
use poison_trace.Errors.{ErrorChain}
use poison_trace.Fixtures.{ReplayOutput}
use poison_trace.Fixtures.Corpus.{
  CorpusValidationCaseResult, fail_case, note_comparison, note_scope, judge_evidence, note_evidence,
  replayed_result,
}

-- A later view of a result: what was found is kept, and a failure is not taken back.
record Extends (a b : CorpusValidationCaseResult) : Type 0 where
  expected : b.expected_in_scope ≡ a.expected_in_scope
  actual : b.actual_in_scope ≡ a.actual_in_scope
  matched : b.replay_matched_expected ≡ a.replay_matched_expected
  passes : b.passed ≡ true → a.passed ≡ true

fail_case-Extends : (text : Str) (r : CorpusValidationCaseResult) → Extends r (fail_case text r)
unfolding fail_case
fail_case-Extends text r = record {
  expected = refl;
  actual = refl;
  matched = refl;
  passes = λ h. absurd (ground (arith, h));
}

note_evidence-Extends :
    (strict : Bool) (out : ReplayOutput) (r : CorpusValidationCaseResult)
    → Extends r (note_evidence strict out r)
unfolding note_evidence judge_evidence fail_case
note_evidence-Extends strict out r = record {
  expected = ground arith;
  actual = ground arith;
  matched = ground arith;
  passes = λ h. ground (arith, h);
}

-- A case that passes was replayed as expected, and is in scope exactly if that was expected.
pub record IsSound (r : CorpusValidationCaseResult) : Type 0 where
  pub matched : r.passed ≡ true → r.replay_matched_expected ≡ true
  pub scope : r.passed ≡ true → r.actual_in_scope ≡ r.expected_in_scope

-- The result of a replayed case has the scope that the replay shows.
pub record IsReplayed (out : ReplayOutput) (expected : Bool) (r : CorpusValidationCaseResult)
    : Type 0 where
  pub seen : r.actual_in_scope ≡ ltb 0 out.poisoning_candidates
  pub kept : r.expected_in_scope ≡ expected
  pub sound : IsSound r

compared-IsReplayed :
    (out : ReplayOutput) (mismatch : Option ErrorChain) (r : CorpusValidationCaseResult)
    → IsReplayed out r.expected_in_scope (note_scope out (note_comparison mismatch r))
unfolding note_scope note_comparison fail_case
compared-IsReplayed out none r = record {
  seen = ground arith;
  kept = ground arith;
  sound = record { matched = λ h. ground (arith, h); scope = λ h. ground (arith, h) };
}
compared-IsReplayed out (some e) r = record {
  seen = ground arith;
  kept = ground arith;
  sound = record { matched = λ h. ground (arith, h); scope = λ h. ground (arith, h) };
}

Extends-IsReplayed :
    (out : ReplayOutput) (expected : Bool) (a b : CorpusValidationCaseResult)
    → Extends a b
    → IsReplayed out expected a
    → IsReplayed out expected b
Extends-IsReplayed out expected a b e h = record {
  seen = e.actual ∙ h.seen;
  kept = e.expected ∙ h.kept;
  sound = record {
    matched = λ p. e.matched ∙ h.sound.matched (e.passes p);
    scope = λ p. (e.actual ∙ h.sound.scope (e.passes p)) ∙ sym e.expected;
  };
}

pub replayed_result-IsReplayed :
    (strict : Bool) (out : ReplayOutput) (mismatch : Option ErrorChain)
    (r : CorpusValidationCaseResult)
    → IsReplayed out r.expected_in_scope (replayed_result strict out mismatch r)
unfolding replayed_result
replayed_result-IsReplayed strict out mismatch r =
    Extends-IsReplayed out r.expected_in_scope _ _ (note_evidence-Extends strict out _)
      (compared-IsReplayed out mismatch r)
