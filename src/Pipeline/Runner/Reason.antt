-- ===== src/Pipeline/Runner/Reason.antt =====
-- What the deferred finalization stores and reports.
use poison_trace.Base.{false, ◌&&◌, ◌≡◌, refl, arith}
use poison_trace.Text.{codes}
use poison_trace.Text.Trim.{is_blank}
use poison_trace.Pipeline.Runner.Run.{Locals}
use poison_trace.Pipeline.Runner.Finish.{final_state, report_of}

fallback_reason-is_blank :
    is_blank (codes "unknown_required_gates:runner_incomplete_without_reason") ≡ false
unfolding is_blank
fallback_reason-is_blank = refl

-- Whatever the variables hold when a run ends, no incomplete window is stored without a reason, and
-- the report has the status and the window that are stored.
pub final_state-reason :
    (l : Locals)
    → (((final_state l).incomplete && is_blank (final_state l).reason) ≡ false)
      × ((report_of l).wallet_status ≡ (final_state l).status)
      × ((report_of l).incomplete_window ≡ (final_state l).incomplete)
unfolding final_state report_of
final_state-reason l = ground (arith, fallback_reason-is_blank)
