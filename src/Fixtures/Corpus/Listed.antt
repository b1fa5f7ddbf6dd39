-- ===== src/Fixtures/Corpus/Listed.antt =====
-- The results of `ValidateCorpus` and the cases that are listed (internal/fixtures/validation.go).
use poison_trace.Base.{
  suc, ◌++◌, map, Option, append_assoc, append-nil, Bool, true, false, List, [], ◌∷◌, ltb, length,
  ◌≡◌, ◌∙◌, sym, ap, refl, arith,
}
use poison_trace.Text.{Str, str_lt}
use poison_trace.Text.Sort.{insert_by, sort_by}
use poison_trace.Errors.{ErrorChain, Result, ok, err}
use poison_trace.Fixtures.{ReplayOutput}
use poison_trace.Fixtures.Corpus.{
  CorpusValidationCaseResult, Corpus, new_result, fail_case, Progress, append_result,
  count_expected, count_detected, after_compare, after_replay, after_load, replayed_result,
  note_evidence, judge_evidence, note_scope, note_comparison, validate_cases,
}

-- The cases of the results so far.
abbrev pub cases_of : Progress → List Str
cases_of p = map (λ c. c.case_id) p.results

map-append_one :
    (l : List CorpusValidationCaseResult) (r : CorpusValidationCaseResult)
    → map (λ c. c.case_id) (l ++ r ∷ []) ≡ map (λ c. c.case_id) l ++ r.case_id ∷ []
map-append_one [] r = refl
map-append_one (c ∷ l) r = ap (λ rest. c.case_id ∷ rest) (map-append_one l r)

map-insert :
    (r : CorpusValidationCaseResult) (l : List CorpusValidationCaseResult)
    → map (λ c. c.case_id) (insert_by (λ a b. str_lt a.case_id b.case_id) r l)
      ≡ insert_by str_lt r.case_id (map (λ c. c.case_id) l)
unfolding insert_by
map-insert r [] = refl
map-insert r (c ∷ l) = ground (arith, map-insert r l)

-- Sorted by their ids, the results have the ids that are sorted.
pub map-sort :
    (l : List CorpusValidationCaseResult)
    → map (λ c. c.case_id) (sort_by (λ a b. str_lt a.case_id b.case_id) l)
      ≡ sort_by str_lt (map (λ c. c.case_id) l)
unfolding sort_by
map-sort [] = refl
map-sort (c ∷ l) = map-insert c _ ∙ ap (insert_by str_lt c.case_id) (map-sort l)

-- The steps leave the case of a result.
replayed_result-id :
    (strict : Bool) (out : ReplayOutput) (mismatch : Option ErrorChain)
    (r : CorpusValidationCaseResult)
    → (replayed_result strict out mismatch r).case_id ≡ r.case_id
unfolding replayed_result note_evidence judge_evidence note_scope note_comparison fail_case
replayed_result-id strict out mismatch r = ground arith

pub length-map_ids :
    (l : List CorpusValidationCaseResult) → length (map (λ c. c.case_id) l) ≡ length l
length-map_ids [] = refl
length-map_ids (c ∷ l) = ap suc (length-map_ids l)

-- The result of one case more, and the same number of cases.
record Grows (case_id : Str) (p q : Progress) : Type 0 where
  longer : cases_of q ≡ cases_of p ++ case_id ∷ []
  same_total : q.summary.total_cases ≡ p.summary.total_cases

append_result-Grows :
    (case_id : Str) (r : CorpusValidationCaseResult) (p : Progress)
    → r.case_id ≡ case_id
    → Grows case_id p (append_result r p)
unfolding append_result
append_result-Grows case_id r p e = record {
  longer = map-append_one p.results r ∙ ap (λ i. cases_of p ++ i ∷ []) e;
  same_total = refl;
}

count_expected-eq :
    (in_scope : Bool) (p : Progress)
    → ((count_expected in_scope p).results ≡ p.results)
      × ((count_expected in_scope p).summary.total_cases ≡ p.summary.total_cases)
unfolding count_expected
count_expected-eq true p = (refl, refl)
count_expected-eq false p = (refl, refl)

count_detected-eq :
    (expected actual : Bool) (p : Progress)
    → ((count_detected expected actual p).results ≡ p.results)
      × ((count_detected expected actual p).summary.total_cases ≡ p.summary.total_cases)
unfolding count_detected
count_detected-eq expected false p = (refl, refl)
count_detected-eq true true p = (refl, refl)
count_detected-eq false true p = (refl, refl)

-- A change of the counters before the result is appended.
Grows-after :
    (case_id : Str) (p q r : Progress)
    → ((q.results ≡ p.results) × (q.summary.total_cases ≡ p.summary.total_cases))
    → Grows case_id q r
    → Grows case_id p r
Grows-after case_id p q r e h = record {
  longer = h.longer ∙ ap (λ l. map (λ c. c.case_id) l ++ case_id ∷ []) e.0;
  same_total = h.same_total ∙ e.1;
}

module _ {S C : Type 0} (corpus : Corpus S C) (strict : Bool) where
  after_replay-Grows :
      (res : CorpusValidationCaseResult) (fx : C) (r : Result ReplayOutput × S) (p : Progress)
      → Grows res.case_id p (after_replay corpus strict res fx r p).0
  unfolding after_replay after_compare fail_case
  after_replay-Grows res fx (err e, s) p = append_result-Grows res.case_id _ p refl
  after_replay-Grows res fx (ok out, s) p =
      Grows-after res.case_id p _ _
        (count_detected-eq res.expected_in_scope (ltb 0 out.poisoning_candidates) p)
        (append_result-Grows res.case_id _ _
          (replayed_result-id strict out (corpus.compare_expected fx out s).0 res))

  after_load-Grows :
      (case_id : Str) (r : Result C × S) (p : Progress)
      → Grows case_id p (after_load corpus strict (new_result case_id) r p).0
  unfolding after_load fail_case
  after_load-Grows case_id (err e, s) p = append_result-Grows case_id _ p refl
  after_load-Grows case_id (ok fx, s) p =
      Grows-after case_id p _ _ (count_expected-eq (corpus.is_expected_in_scope fx) p) (
        after_replay-Grows _ fx (corpus.replay fx s)
          (count_expected (corpus.is_expected_in_scope fx) p))

  pub validate_cases-ids :
      (ids : List Str) (p : Progress) (s : S)
      → (cases_of (validate_cases corpus strict ids p s).0 ≡ cases_of p ++ ids)
        × ((validate_cases corpus strict ids p s).0.summary.total_cases ≡ p.summary.total_cases)
  unfolding validate_cases
  validate_cases-ids [] p s = (sym (append-nil (cases_of p)), refl)
  validate_cases-ids (case_id ∷ rest) p s =
      let r = after_load corpus strict (new_result case_id) (corpus.load_case case_id s) p in
      let grows = after_load-Grows case_id (corpus.load_case case_id s) p in
      let tail = validate_cases-ids rest r.0 r.1 in
      (
        tail.0 ∙ ap (λ l. l ++ rest) grows.longer ∙ append_assoc (cases_of p) (case_id ∷ []) rest,
        tail.1 ∙ grows.same_total,
      )
