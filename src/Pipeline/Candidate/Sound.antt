-- ===== src/Pipeline/Candidate/Sound.antt =====
-- What the candidates are, said of the observations and not of the gates.
use poison_trace.Base.{
  ℕ, ◌+◌, ◌*◌, ◌≤◌, ◌<◌, ◌≤ℤ◌, ℤ, pos, pos_part, Bool, true, false, List, some, ◌≡◌, [], ◌∷◌, ◌≢◌,
  ◌⊎◌, ◌↔◌, refl, arith,
}
use poison_trace.Text.{Str, is_empty}
use poison_trace.Text.Equality.{str_eq_iff}
use poison_trace.Text.Trim.{trim_space, is_blank}
use poison_trace.Text.Digits.{big_int}
use poison_trace.Time.{Time, day, sub}
use poison_trace.Transactions.{NormalizedTransfer, AssetType, resolved, other, dust_true}
use poison_trace.Counterparties.{RelationType, receiver}
use poison_trace.Pipeline.Detection.{GateState, pass}
use poison_trace.Pipeline.Validation.{LookalikeParams, CandidateMaterializeParams}
use poison_trace.Pipeline.Candidate.{WalletTransferObservation}
use poison_trace.Pipeline.Candidate.Gates.{
  gate_normalization_resolved, gate_bool, gate_supported_asset_type, gate_relation_inbound,
  gate_zero_or_dust, is_amount_zero, gate_new_counterparty, gate_address_inequality,
  gate_min_injection_count, InboundCounterpartyStats, build_legit_baseline_counterparties,
}
use poison_trace.Pipeline.Candidate.Lookalike.{
  best_match, evaluate_recency, recency_limit, exceeds, LookalikeResult,
  evaluate_lookalike_and_recency,
}
use poison_trace.Pipeline.Candidate.Indexes.{last_legit, get_or-build_legit}

pub resolved_iff :
    (tr : NormalizedTransfer)
    → (gate_normalization_resolved tr ≡ pass) ↔ (tr.normalization_status ≡ resolved)
unfolding gate_normalization_resolved
resolved_iff tr = ground arith

pub bool_iff : (b : Bool) → (gate_bool b ≡ pass) ↔ (b ≡ true)
unfolding gate_bool
bool_iff b = ground arith

pub asset_iff : (t : AssetType) → (gate_supported_asset_type t ≡ pass) ↔ (t ≢ other)
unfolding gate_supported_asset_type
asset_iff t = ground arith

pub inbound_iff : (r : RelationType) → (gate_relation_inbound r ≡ pass) ↔ (r ≡ receiver)
unfolding gate_relation_inbound
inbound_iff r = ground arith

-- The amount is the number zero, or the transfer is classified as dust.
abbrev pub IsZeroOrDust : NormalizedTransfer → Type 0
IsZeroOrDust tr = (big_int (trim_space tr.amount_raw) ≡ some (pos 0)) ⊎ (tr.dust_status ≡ dust_true)

pub dust_iff : (tr : NormalizedTransfer) → (gate_zero_or_dust tr ≡ pass) ↔ IsZeroOrDust tr
unfolding gate_zero_or_dust is_amount_zero
dust_iff tr = ground arith

pub new_iff :
    (complete seen : Bool)
    → (gate_new_counterparty complete seen ≡ pass) ↔ ((complete ≡ true) × (seen ≡ false))
unfolding gate_new_counterparty
new_iff complete seen = ground arith

pub inequality_iff :
    (suspicious matched : Str) (g : GateState)
    → (gate_address_inequality suspicious matched g ≡ pass) ↔ (
        (g ≡ pass)
        × (is_blank suspicious ≡ false)
        × (is_blank matched ≡ false)
        × (suspicious ≢ matched))
unfolding gate_address_inequality
inequality_iff suspicious matched g = ground (arith, str_eq_iff suspicious matched)

pub min_iff :
    (stats : InboundCounterpartyStats) (m : ℤ)
    → pos 1 ≤ℤ m
    → (gate_min_injection_count stats m ≡ pass) ↔ (pos_part m ≤ stats.known_qualifying)
unfolding gate_min_injection_count
min_iff stats m h = ground arith

limit_lem : (d : ℕ) → d ≤ 106751 → recency_limit (pos d) ≡ d * day
unfolding recency_limit
limit_lem d h = omega arith

exceeds_iff : (t l d : ℕ) → d ≤ 106751 → (exceeds (sub t l) (d * day) ≡ false) ↔ (t ≤ l + d * day)
unfolding exceeds
exceeds_iff t l d h = ground arith

-- The legitimate transfer at `l` lies before `t`, and at most `d` days before it.
abbrev pub IsRecent : ℕ → Time → Time → Type 0
IsRecent d l t = (0 < l) × (l < t) × (t ≤ l + d * day)

pub recency_lem :
    (m : Str) (l t : Time) (p : LookalikeParams) (d : ℕ)
    → p.recency_days ≡ pos d
    → d ≤ 106751
    → ((evaluate_recency m l t p).recency_gate ≡ pass) ↔ IsRecent d l t
unfolding evaluate_recency
recency_lem m l t p d e h = rw e (ground (arith, limit_lem d h, exceeds_iff t l d h))

recency_match :
    (m : Str) (l t : Time) (p : LookalikeParams)
    → ((evaluate_recency m l t p).lookalike_gate ≡ pass)
      × ((evaluate_recency m l t p).matched_legit ≡ m)
unfolding evaluate_recency
recency_match m l t p = ground arith

not-empty : (s : Str) → is_blank s ≡ false → is_empty s ≡ false
unfolding is_blank
not-empty [] h = cc
not-empty (c ∷ s) h = refl

-- The best match of an observation among the legitimate addresses of the baseline.
abbrev pub matched :
    WalletTransferObservation → List WalletTransferObservation → CandidateMaterializeParams → Str
matched obs baseline p =
    (best_match obs.counterparty_address p.lookalike
      (build_legit_baseline_counterparties baseline)).matched

abbrev pub Fits :
    WalletTransferObservation
    → List WalletTransferObservation
    → CandidateMaterializeParams
    → ℕ
    → Type 0
Fits obs baseline p d =
    (p.baseline_complete ≡ true)
    × (is_blank (matched obs baseline p) ≡ false)
    × (obs.counterparty_address ≢ matched obs baseline p)
    × IsRecent d (last_legit (matched obs baseline p) baseline) obs.transfer.block_time

module _ (obs : WalletTransferObservation) (baseline : List WalletTransferObservation)
    (p : CandidateMaterializeParams) (d : ℕ) (days : p.lookalike.recency_days ≡ pos d)
    (bounded : d ≤ 106751) where
  abbrev found : LookalikeResult
  found = evaluate_lookalike_and_recency obs (build_legit_baseline_counterparties baseline) p

  abbrev best : Str
  best = matched obs baseline p

  pub found→ :
      found.lookalike_gate ≡ pass
      → found.recency_gate ≡ pass
      → is_blank found.matched_legit ≡ false
      → obs.counterparty_address ≢ found.matched_legit
      → Fits obs baseline p d
  unfolding evaluate_lookalike_and_recency
  found→ a b c e = ground (
    arith,
    recency_match best (last_legit best baseline) obs.transfer.block_time p.lookalike,
    recency_lem best (last_legit best baseline) obs.transfer.block_time p.lookalike d days bounded,
    get_or-build_legit baseline best,
  )

  pub →found :
      Fits obs baseline p d
      → (found.lookalike_gate ≡ pass) × (found.recency_gate ≡ pass) × (found.matched_legit ≡ best)
  unfolding evaluate_lookalike_and_recency
  →found f = ground (
    arith,
    recency_match best (last_legit best baseline) obs.transfer.block_time p.lookalike,
    recency_lem best (last_legit best baseline) obs.transfer.block_time p.lookalike d days bounded,
    get_or-build_legit baseline best,
    not-empty best,
  )
