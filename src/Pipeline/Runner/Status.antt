-- ===== src/Pipeline/Runner/Status.antt =====
-- The status that is stored for a run, on every path through its calls.
use poison_trace.Base.{true, if◌then◌else◌, ◌≡◌, ◌⊎◌}
use poison_trace.Errors.{Result, ok, err}
use poison_trace.Runs.{WalletStatus}
use poison_trace.Pipeline.Runner.Run.{Locals}

-- Not yet settled: as at the beginning, with no error noted.
abbrev pub IsOpen : Locals → Type 0
IsOpen l = l.status ≡ WalletStatus.failed

-- The variables fit an answer: an error leaves the run failed, or partial or timed out with an
-- incomplete window; the end leaves it partial exactly if the window is incomplete.
abbrev pub IsClosedByError : Locals → Type 0
IsClosedByError l =
    (l.status ≡ WalletStatus.failed)
    ⊎ (((l.status ≡ WalletStatus.partial) ⊎ (l.status ≡ WalletStatus.timed_out))
        × (l.progress.incomplete_window ≡ true))

abbrev pub IsClosedBySuccess : Locals → Type 0
IsClosedBySuccess l =
    l.status
    ≡ (if l.progress.incomplete_window then WalletStatus.partial else WalletStatus.succeeded)

-- What a step answers from open variables.
abbrev pub Fits : {S A : Type 0} → (Locals → Type 0) → Result A × (Locals × S) → Type 0
Fits P (ok a, (l, s)) = P l
Fits P (err e, (l, s)) = IsClosedByError l
