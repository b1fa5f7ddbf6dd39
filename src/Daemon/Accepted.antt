-- ===== src/Daemon/Accepted.antt =====
-- What the check of the daemon's options leaves.
use poison_trace.Base.{pos, ◌≤ℤ◌, ltb_ℤ, false, none, ◌≡◌, arith}
use poison_trace.Config.{Config}
use poison_trace.Daemon.{DaemonOptions, estimate_daemon_cycle_credits, validate_daemon_options}

-- The bounds that the proofs on a cycle use.
pub record IsAccepted (opts : DaemonOptions) : Type 0 where
  pub budget : pos 1 ≤ℤ opts.daily_credit_budget
  pub retries : pos 0 ≤ℤ opts.max_helius_retries
  pub candidates : pos 1 ≤ℤ opts.max_candidates
  pub pages : pos 1 ≤ℤ opts.candidate_max_pages
  pub dives : pos 0 ≤ℤ opts.deep_dive_top_n
  pub dive_pages : pos 1 ≤ℤ opts.deep_dive_max_pages
  pub affordable : ltb_ℤ opts.daily_credit_budget (estimate_daemon_cycle_credits opts) ≡ false

pub validate_daemon_options-IsAccepted :
    (cfg : Config) (opts : DaemonOptions)
    → validate_daemon_options cfg opts ≡ none
    → IsAccepted opts
unfolding validate_daemon_options
validate_daemon_options-IsAccepted cfg opts h = record {
  budget = ground arith;
  retries = ground arith;
  candidates = ground arith;
  pages = ground arith;
  dives = ground arith;
  dive_pages = ground arith;
  affordable = ground arith;
}
