-- ===== src/Daemon/Budget.antt =====
-- The credits that `dailyCreditBudget` grants (cmd/scanner/daemon.go).
use poison_trace.Base.{
  ℕ, ◌+◌, ◌/◌, ◌≤◌, ◌<◌, ℤ, pos, pos_part, ◌≤ℤ◌, ltb_ℤ, leb_ℤ, add_ℤ, add_int64, signed64, wrap64,
  wrap64-signed64, add_int64-exact, Bool, true, false, List, [], ◌∷◌, none, if◌then◌else◌, ◌==◌,
  All, ◌≡◌, ◌≢◌, ◌∙◌, sym, ap, ap₂, subst, add_ℤ-zero_left, pos_part_mono, inl, inr, refl, arith,
  Bool-cases,
}
use poison_trace.Time.{Time, day}
use poison_trace.Config.{Config}
use poison_trace.Daemon.Accepted.{validate_daemon_options-IsAccepted}
use poison_trace.Daemon.{
  DaemonOptions, exact_credits, estimate_daemon_cycle_credits, validate_daemon_options,
  DailyCreditBudget, start_day, charge, reserve,
}

-- The credits that are granted to requests that are made in this order.
abbrev pub granted : List (Time × ℕ) → DailyCreditBudget → ℕ
granted [] b = 0
granted ((now, credits) ∷ rest) b =
    (if (reserve now (pos credits) b).0 then credits else 0)
    + granted rest (reserve now (pos credits) b).1

-- What is used is within a positive limit.
pub record IsWithin (b : DailyCreditBudget) : Type 0 where
  pub limited : pos 1 ≤ℤ b.limit
  pub counted : pos 0 ≤ℤ b.used
  pub bounded : b.used ≤ℤ b.limit

start_day-IsWithin : (d : ℕ) (b : DailyCreditBudget) → IsWithin b → IsWithin (start_day d b)
unfolding start_day
start_day-IsWithin d b h = elim (Bool-cases (b.day_number == d)) [
  | inl e ↦ rw e h
  | inr e ↦
      rw e
        (record { limited = h.limited; counted = omega arith; bounded = ground (arith, h.limited) })
]

-- What a charge makes of a budget: it grows by what is granted, and stays within the limit.
record IsCharged (credits : ℕ) (b : DailyCreditBudget) (r : Bool × DailyCreditBudget) : Type 0 where
  within : IsWithin r.1
  same_day : r.1.day_number ≡ b.day_number
  same_limit : r.1.limit ≡ b.limit
  grown : pos_part r.1.used ≡ pos_part b.used + (if r.0 then credits else 0)

-- Credits that leave the sum with the limit within 64 bits.
abbrev pub FitsLimit : DailyCreditBudget → ℕ → Type 0
FitsLimit b credits = pos_part b.limit + credits < 9_223_372_036_854_775_808

charge-exact :
    (credits : ℕ) (b : DailyCreditBudget)
    → IsWithin b
    → FitsLimit b credits
    → add_int64 b.used (pos credits) ≡ add_ℤ b.used (pos credits)
charge-exact credits b h fits =
    add_int64-exact b.used credits h.counted (omega (arith, pos_part_mono b.used b.limit h.bounded))

charge-IsCharged :
    (credits : ℕ) (b : DailyCreditBudget)
    → IsWithin b
    → FitsLimit b credits
    → IsCharged credits b (charge (pos credits) b)
unfolding charge
charge-IsCharged credits b h fits = elim (Bool-cases (ltb_ℤ b.limit (add_ℤ b.used (pos credits)))) [
  | inl e ↦
      rw (charge-exact credits b h fits, e)
        (record { within = h; same_day = refl; same_limit = refl; grown = omega arith })
  | inr e ↦
      rw (charge-exact credits b h fits, e)
        (record {
          within = record {
            limited = h.limited;
            counted = ground (arith, h.counted);
            bounded = ground (arith, e);
          };
          same_day = refl;
          same_limit = refl;
          grown = ground (arith, h.counted);
        })
]

-- A positive limit.
reserve-charge :
    (now : Time) (credits : ℤ) (b : DailyCreditBudget)
    → pos 1 ≤ℤ b.limit
    → reserve now credits b ≡ charge credits (start_day (now / day) b)
unfolding reserve
reserve-charge now credits b h =
    let positive : leb_ℤ b.limit (pos 0) ≡ false = ground (arith, h) in rw positive refl

start_day-eq :
    (d : ℕ) (b : DailyCreditBudget)
    → ((start_day d b).day_number ≡ d) × ((start_day d b).limit ≡ b.limit)
unfolding start_day
start_day-eq d b = elim (Bool-cases (b.day_number == d)) [
  | inl e ↦ rw e (ground (arith, e), refl)
  | inr e ↦ rw e (refl, refl)
]

start_day-same : (d : ℕ) (b : DailyCreditBudget) → b.day_number ≡ d → start_day d b ≡ b
unfolding start_day
start_day-same d b h = let same : (b.day_number == d) ≡ true = ground (arith, h) in rw same refl

-- The requests are asked the same of a budget with the same limit.
All-limit :
    (d : ℕ) (requests : List (Time × ℕ)) (a b : DailyCreditBudget)
    → a.limit ≡ b.limit
    → All (λ r. (r.0 / day ≡ d) × FitsLimit b r.1) requests
    → All (λ r. (r.0 / day ≡ d) × FitsLimit a r.1) requests
All-limit d requests a b e k =
    subst
      (λ l. All (λ r. (r.0 / day ≡ d) × (pos_part l + r.1 < 9_223_372_036_854_775_808)) requests)
      (sym e) k

-- After requests of one day, on which the budget is, no more than the rest of the limit is granted.
granted-rest :
    (d : ℕ) (requests : List (Time × ℕ)) (b : DailyCreditBudget)
    → IsWithin b
    → b.day_number ≡ d
    → All (λ r. (r.0 / day ≡ d) × FitsLimit b r.1) requests
    → pos_part b.used + granted requests b ≤ pos_part b.limit
granted-rest d [] b h e k = omega (arith, pos_part_mono b.used b.limit h.bounded)
granted-rest d ((now, credits) ∷ rest) b h e k =
    let charged = charge-IsCharged credits b h k.0.1 in
    let same =
      reserve-charge now (pos credits) b h.limited
      ∙ ap (charge (pos credits)) (start_day-same (now / day) b (e ∙ sym k.0.0)) in
    rw same (
      omega (
        arith,
        granted-rest d rest (charge (pos credits) b).1 charged.within (charged.same_day ∙ e)
            (All-limit d rest (charge (pos credits) b).1 b charged.same_limit k.1),
        charged.grown,
        ap pos_part charged.same_limit,
      ))

-- From a budget whose use is within a positive limit, and over any requests of one day in any order,
-- each of credits whose sum with the limit fits into 64 bits: the credits that are granted are together
-- no more than the limit.
pub granted-bounded :
    (d : ℕ) (requests : List (Time × ℕ)) (b : DailyCreditBudget)
    → IsWithin b
    → All (λ r. (r.0 / day ≡ d) × FitsLimit b r.1) requests
    → granted requests b ≤ pos_part b.limit
granted-bounded d [] b h k = omega arith
granted-bounded d ((now, credits) ∷ rest) b h k =
    let opened = start_day-IsWithin d b h in
    let same_limit = (start_day-eq d b).1 in
    let fits : FitsLimit (start_day d b) credits = rw same_limit k.0.1 in
    let charged = charge-IsCharged credits (start_day d b) opened fits in
    let same =
      reserve-charge now (pos credits) b h.limited
      ∙ ap (λ e. charge (pos credits) (start_day e b)) k.0.0 in
    rw same (
      omega (
        arith,
        granted-rest d rest (charge (pos credits) (start_day d b)).1 charged.within
            (charged.same_day ∙ (start_day-eq d b).0)
            (All-limit d rest (charge (pos credits) (start_day d b)).1 b
              (charged.same_limit ∙ same_limit) k.1),
        charged.grown,
        ap pos_part (charged.same_limit ∙ same_limit),
      ))

-- The estimate is a number of 64 bits.
from_zero :
    (opts : DaemonOptions)
    → add_int64 (pos 0) (estimate_daemon_cycle_credits opts) ≡ estimate_daemon_cycle_credits opts
unfolding estimate_daemon_cycle_credits
from_zero opts =
    ap wrap64 (add_ℤ-zero_left (signed64 (exact_credits opts)))
    ∙ wrap64-signed64 (exact_credits opts)

-- With options that are accepted and a budget for their limit, the reservation of a cycle that is the
-- first one on its day is granted, whatever was used on the days before.
pub reserve-granted :
    (cfg : Config) (opts : DaemonOptions) (now : Time) (b : DailyCreditBudget)
    → validate_daemon_options cfg opts ≡ none
    → b.limit ≡ opts.daily_credit_budget
    → b.day_number ≢ now / day
    → (reserve now (estimate_daemon_cycle_credits opts) b).0 ≡ true
unfolding start_day charge
reserve-granted cfg opts now b h l n =
    let fits = validate_daemon_options-IsAccepted cfg opts h in
    let estimate = estimate_daemon_cycle_credits opts in
    let other_day : (b.day_number == now / day) ≡ false = ground (arith, n) in
    let in_limit : ltb_ℤ b.limit (add_int64 (pos 0) estimate) ≡ false =
      ap₂ ltb_ℤ l (from_zero opts) ∙ fits.affordable in
    ap (λ r. r.0) (reserve-charge now estimate b (subst (λ v. pos 1 ≤ℤ v) (sym l) fits.budget))
    ∙ rw (other_day, in_limit) refl
