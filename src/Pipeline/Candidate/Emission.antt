-- ===== src/Pipeline/Candidate/Emission.antt =====
-- The loop of `MaterializeCandidates` against a filter: what is emitted, what is blocked, what is
-- counted.
use poison_trace.Base.{
  ◌+◌, Bool, not, List, [], ◌∷◌, ◌++◌, map, select, count_by, none, foldl, append_assoc, append-nil,
  ◌≡◌, arith, any, ◌||◌, sym,
}
use poison_trace.Text.{Str}
use poison_trace.Pipeline.Detection.{evaluate_candidate}
use poison_trace.Pipeline.Validation.{
  CandidateMaterializeParams, validate_candidate_materialize_params,
}
use poison_trace.Pipeline.Candidate.{WalletTransferObservation, CandidateMaterializationResult}
use poison_trace.Pipeline.Candidate.Materialize.{
  Indexes, build_indexes, observation_gates, candidate_of, materialize_step, empty_result,
  close_result, materialize_candidates,
}

module _ (ix : Indexes) (p : CandidateMaterializeParams) where
  -- The observation passes all gates.
  unfoldable pub emits : WalletTransferObservation → Bool
  emits obs = (evaluate_candidate (observation_gates ix p obs)).can_emit

  -- Some gate of the observation is unknown.
  unfoldable pub undecided : WalletTransferObservation → Bool
  undecided obs = (evaluate_candidate (observation_gates ix p obs)).incomplete_window

  -- What the loop adds to a result.
  pub record Adds (scan : List WalletTransferObservation)
      (before after : CandidateMaterializationResult) : Type 0 where
    pub candidates :
        after.candidates ≡ before.candidates ++ map (candidate_of ix p) (select emits scan)
    pub blocks :
        after.candidate_blocks ≡ before.candidate_blocks + count_by (λ o. not (emits o)) scan
    pub unknown_blocks :
        after.unknown_gate_blocks ≡ before.unknown_gate_blocks + count_by undecided scan
    pub incomplete : after.incomplete_window ≡ (before.incomplete_window || any undecided scan)

  step-Adds :
      (st : CandidateMaterializationResult × List Str) (obs : WalletTransferObservation)
      → Adds (obs ∷ []) st.0 (materialize_step ix p st obs).0
  unfolding emits undecided materialize_step
  step-Adds st obs = ground (arith, append-nil st.0.candidates)

  Adds-trans :
      (obs : WalletTransferObservation) (scan : List WalletTransferObservation)
      {a b c : CandidateMaterializationResult}
      → Adds (obs ∷ []) a b
      → Adds scan b c
      → Adds (obs ∷ scan) a c
  Adds-trans obs scan {a} h k = record {
    candidates = ground (
      arith,
      append_assoc a.candidates (candidate_of ix p obs ∷ [])
          (map (candidate_of ix p) (select emits scan)),
      append-nil a.candidates,
    );
    blocks = ground (arith, h.blocks, k.blocks);
    unknown_blocks = ground (arith, h.unknown_blocks, k.unknown_blocks);
    incomplete = ground (arith, h.incomplete, k.incomplete);
  }

  loop-Adds :
      (st : CandidateMaterializationResult × List Str) (scan : List WalletTransferObservation)
      → Adds scan st.0 (foldl (materialize_step ix p) st scan).0
  loop-Adds st [] = record {
    candidates = sym (append-nil st.0.candidates);
    blocks = omega arith;
    unknown_blocks = omega arith;
    incomplete = ground arith;
  }
  loop-Adds st (obs ∷ scan) =
      Adds-trans obs scan (step-Adds st obs) (loop-Adds (materialize_step ix p st obs) scan)

close-Adds :
    (ix : Indexes) (p : CandidateMaterializeParams) (scan : List WalletTransferObservation)
    (st : CandidateMaterializationResult × List Str)
    → Adds ix p scan empty_result st.0
    → Adds ix p scan empty_result (close_result st)
unfolding close_result
close-Adds ix p scan st h = ground arith

-- With valid parameters the candidates are those of the observations that pass all gates, in the
-- order of the scan, every other observation is counted as blocked, those with an unknown gate are
-- counted too, and one such observation makes the window incomplete.
pub materialize_candidates-Adds :
    (baseline scan : List WalletTransferObservation) (p : CandidateMaterializeParams)
    → validate_candidate_materialize_params p ≡ none
    → Adds
        (build_indexes baseline scan)
        p
        scan
        empty_result
        (materialize_candidates baseline scan p)
unfolding materialize_candidates
materialize_candidates-Adds baseline scan p valid =
    rw (valid, materialize_candidates)
      (close-Adds ix p scan _ (loop-Adds ix p (empty_result, []) scan))
  where
    ix : Indexes
    ix = build_indexes baseline scan
