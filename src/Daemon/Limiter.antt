-- ===== src/Daemon/Limiter.antt =====
-- The slots that `requestLimiter` gives (cmd/scanner/daemon.go).
use poison_trace.Base.{ℕ, ◌+◌, ◌/◌, ◌≤◌, max, ℤ, pos_part, List, [], ◌∷◌, arith}
use poison_trace.Time.{Time, second}
use poison_trace.Daemon.{RequestLimiter, new_request_limiter, reserve_slot}

-- The times that the limiter gives to requests that arrive in this order, at these times.
abbrev pub slots : List Time → RequestLimiter → List Time
slots [] l = []
slots (now ∷ rest) l = (reserve_slot now l).0 ∷ slots rest (reserve_slot now l).1

-- Each time is no earlier than `from`, and the next one is later by the gap.
abbrev pub IsSpaced : ℕ → Time → List Time → Type 0
IsSpaced gap from [] = Unit
IsSpaced gap from (t ∷ ts) = (from ≤ t) × IsSpaced gap (t + gap) ts

-- Each request waits, if at all, from the time that it arrives.
abbrev pub AreNoEarlier : List Time → List Time → Type 0
AreNoEarlier [] ts = Unit
AreNoEarlier (now ∷ rest) [] = Unit
AreNoEarlier (now ∷ rest) (t ∷ ts) = (now ≤ t) × AreNoEarlier rest ts

slots-IsSpaced :
    (arrivals : List Time) (l : RequestLimiter) → IsSpaced l.interval l.next (slots arrivals l)
unfolding reserve_slot
slots-IsSpaced [] l = tt
slots-IsSpaced (now ∷ rest) l = (ground arith, slots-IsSpaced rest (reserve_slot now l).1)

slots-AreNoEarlier :
    (arrivals : List Time) (l : RequestLimiter) → AreNoEarlier arrivals (slots arrivals l)
unfolding reserve_slot
slots-AreNoEarlier [] l = tt
slots-AreNoEarlier (now ∷ rest) l = (ground arith, slots-AreNoEarlier rest (reserve_slot now l).1)

-- Whatever the times at which requests arrive, and in whatever order of the clock: a new limiter for
-- `rps` requests a second lets each go no earlier than it arrives, and each later than the one before
-- by at least the interval, which is the part of a second that the rate gives.
pub new_request_limiter-IsSpaced :
    (rps : ℤ) (arrivals : List Time)
    → IsSpaced (second / max (pos_part rps) 1) 0 (slots arrivals (new_request_limiter rps))
      × AreNoEarlier arrivals (slots arrivals (new_request_limiter rps))
unfolding new_request_limiter
new_request_limiter-IsSpaced rps arrivals =
    (slots-IsSpaced arrivals _, slots-AreNoEarlier arrivals _)
