-- ===== src/Pipeline/Candidate/Lookalike/BestMatch.antt =====
-- The best match among the legitimate addresses.
use poison_trace.Base.{ℕ, Bool, true, not, some, if◌then◌else◌, ◌≡◌, refl, arith}
use mathlib.Core.List.{Permᴰ}
use poison_trace.Base.{foldl-perm, In, ◌⊎◌}
use poison_trace.Text.{Str}
use poison_trace.Text.Order.{str_lt_irrefl, str_lt_trans, str_lt_total, str_lt_asymm}
use poison_trace.Time.{Time}
use poison_trace.Dict.{Dict}
use poison_trace.Pipeline.Validation.{LookalikeParams}
use poison_trace.Pipeline.Candidate.Lookalike.{
  Best, beats, match_score, is_lookalike, best_step, best_match, no_best,
}

prefer : Bool → ℕ → Str → Best → Best
unfolding beats
prefer ok score name best =
    if not ok
    then best
    else if beats score name best
    then record { score = some score; matched = name }
    else best

prefer_comm :
    (p q : Bool) (i j : ℕ) (a b : Str) (best : Best)
    → prefer q j b (prefer p i a best) ≡ prefer p i a (prefer q j b best)
unfolding prefer
prefer_comm p q i j a b best = ground (
  arith,
  str_lt_total a b,
  str_lt_total a best.matched,
  str_lt_total b best.matched,
  str_lt_trans a b best.matched,
  str_lt_trans b a best.matched,
  str_lt_trans a best.matched b,
  str_lt_trans b best.matched a,
  str_lt_asymm a b,
  str_lt_asymm b a,
  str_lt_irrefl a,
)

step_prefer :
    (a : Str) (p : LookalikeParams) (b : Best) (e : Str × Time)
    → best_step a p b e ≡ prefer (is_lookalike a e.0 p) (match_score a e.0) e.0 b
unfolding best_step prefer
step_prefer a p b e = refl

step_comm :
    (a : Str) (p : LookalikeParams) (b : Best) (x y : Str × Time)
    → best_step a p (best_step a p b x) y ≡ best_step a p (best_step a p b y) x
step_comm a p b x y = simp step_prefer (
    prefer_comm (is_lookalike a x.0 p) (is_lookalike a y.0 p) (match_score a x.0)
      (match_score a y.0) x.0 y.0 b)

-- Whatever the order in which Go reads the map, the same address is found.
pub best_match-perm :
    (a : Str) (p : LookalikeParams) {legit legit' : Dict Time}
    → Permᴰ legit legit'
    → best_match a p legit ≡ best_match a p legit'
unfolding best_match
best_match-perm a p h = foldl-perm (best_step a p) (step_comm a p) h no_best

-- A candidate of this score and name would replace the best one.
abbrev pub Beats : Str → Str → Best → Type 0
Beats a candidate best = beats (match_score a candidate) candidate best ≡ true

-- The result is the start, or an entry that is a lookalike, with its score.
abbrev pub Comes : Str → LookalikeParams → Best → Best → Dict Time → Type 0
Comes a p start best xs =
    (best ≡ start)
    ⊎ ((e : Str × Time) × In e xs
        × (is_lookalike a e.0 p ≡ true)
        × (best ≡ record { score = some (match_score a e.0); matched = e.0 }))
