-- ===== src/Pipeline/Runner/Dedupe.antt =====
-- The keys of the deduplicated transfers.
use poison_trace.Base.{Bool, not, ◌&&◌, List, [], ◌∷◌, count_by, any, if◌then◌else◌, ◌≡◌, arith}
use poison_trace.Text.{Str, str_eq}
use poison_trace.Text.Equality.{str_eq_iff}
use poison_trace.Dict.{has}
use poison_trace.Dict.Laws.{has-of_eq}
use poison_trace.Transactions.{NormalizedTransfer}
use poison_trace.Pipeline.Runner.{transfer_key, dedupe_from, dedupe_transfers}

abbrev pub has_key : Str → NormalizedTransfer → Bool
has_key k tr = str_eq (transfer_key tr) k

dedupe-count :
    (seen : List Str) (trs : List NormalizedTransfer) (k : Str)
    → count_by (has_key k) (dedupe_from seen trs)
      ≡ (if not (has seen k) && any (has_key k) trs then 1 else 0)
unfolding dedupe_from has
dedupe-count seen [] k = ground arith
dedupe-count seen (tr ∷ trs) k = ground (
  arith,
  dedupe-count seen trs k,
  dedupe-count (transfer_key tr ∷ seen) trs k,
  str_eq_iff (transfer_key tr) k,
  has-of_eq seen (transfer_key tr) k,
)

-- Every key of the transfers stands in the result exactly once, and no other key does.
pub dedupe_transfers-count :
    (trs : List NormalizedTransfer) (k : Str)
    → count_by (has_key k) (dedupe_transfers trs) ≡ (if any (has_key k) trs then 1 else 0)
unfolding dedupe_transfers has
dedupe_transfers-count trs k = ground (arith, dedupe-count [] trs k)
