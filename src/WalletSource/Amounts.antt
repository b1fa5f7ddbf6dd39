-- ===== src/WalletSource/Amounts.antt =====
-- Raw amounts as texts, the known dust thresholds and the dust status of a transfer.
pub mod Compare
use poison_trace.Base.{
  ℕ, Bool, true, false, not, ◌&&◌, ◌||◌, List, [], ◌∷◌, map, Option, none, some, if◌then◌else◌,
  ◌==◌, leb, ltb, length, foldl,
}
use poison_trace.Text.{Str, codes, is_empty, str_lt, decimal}
use poison_trace.Text.Sort.{sort_by}
use poison_trace.Text.Trim.{trim_space}
use poison_trace.Dict.{Dict, get, put, keys}
use poison_trace.Transactions.{
  DustStatus, dust_true, dust_false, dust_unknown, AssetType, native_sol, spl_fungible, other,
  NormalizedTransfer,
}

all_zeros : Str → Bool
all_zeros [] = true
all_zeros (c ∷ s) = c == b'0' && all_zeros s

unfoldable pub amount_raw_is_zero : Str → Bool
unfolding all_zeros
amount_raw_is_zero v = let t = trim_space v in if is_empty t then false else all_zeros t

-- `r < '0' || r > '9'` for no `r`; a character outside ASCII has no byte between '0' and '9'.
unfoldable pub all_ascii_digits : Str → Bool
all_ascii_digits [] = true
all_ascii_digits (c ∷ s) = leb b'0' c && leb c b'9' && all_ascii_digits s

-- `strings.TrimLeft(v, "0")`.
unfoldable pub trim_zeros : Str → Str
trim_zeros [] = []
trim_zeros (c ∷ s) = if c == b'0' then trim_zeros s else c ∷ s

-- Of two numbers without leading zeros, the comparison by length and then by text.
unfoldable pub text_leb : Str → Str → Bool
text_leb trimmed threshold =
    if not (length trimmed == length threshold)
    then ltb (length trimmed) (length threshold)
    else not (str_lt threshold trimmed)

-- No threshold is negative.
unfoldable pub amount_raw_lte : Str → ℕ → Bool
unfolding all_ascii_digits trim_zeros text_leb
amount_raw_lte v threshold =
    let t = trim_space v in
    if is_empty t
    then false
    else if not (all_ascii_digits t)
    then false
    else if is_empty (trim_zeros t)
    then true
    else text_leb (trim_zeros t) (decimal threshold)

unfoldable pub default_known_dust_thresholds : Dict ℕ
default_known_dust_thresholds =
    (codes "SOL", 1000)
    ∷ (codes "So11111111111111111111111111111111111111112", 1000)
    ∷ (codes "EPjFWdd5AufqSSqeM2qN1xzybapC8G4wEGGkZwyTDt1v", 1000)
    ∷ (codes "Es9vMFrzaCERmJfrF4H2FYD4KCoNkY11McCe8BenwNYB", 1000)
    ∷ []

unfoldable pub default_known_dust_asset_keys : List Str
unfolding sort_by default_known_dust_thresholds
default_known_dust_asset_keys = sort_by str_lt (keys default_known_dust_thresholds)

-- The body of the loop over the keys.
threshold_step : Dict ℕ → Str → Dict ℕ
threshold_step out raw =
    let key = trim_space raw in
    if is_empty key then out else elim (get default_known_dust_thresholds key) [
      | none ↦ out
      | some threshold ↦ put out key threshold
    ]

unfoldable pub known_dust_threshold_map : List Str → Dict ℕ
unfolding threshold_step
known_dust_threshold_map asset_keys = foldl threshold_step [] asset_keys

-- The status that the thresholds give to an asset that they may hold.
threshold_status : Str → Option ℕ → DustStatus
threshold_status amount none = dust_unknown
threshold_status amount (some threshold) =
    if amount_raw_lte amount threshold then dust_true else dust_false

unfoldable pub source_dust_status : NormalizedTransfer → Dict ℕ → DustStatus
unfolding threshold_status
source_dust_status tr thresholds =
    if amount_raw_is_zero tr.amount_raw then dust_true else elim tr.asset_type [
      | other ↦ dust_unknown
      | _ ↦ threshold_status tr.amount_raw (get thresholds tr.asset_key)
    ]

abbrev is_spl_fungible : AssetType → Bool
is_spl_fungible spl_fungible = true
is_spl_fungible native_sol = false
is_spl_fungible other = false

abbrev is_none : Option ℕ → Bool
is_none none = true
is_none (some _) = false

unfoldable pub transfer_needs_known_dust_threshold : NormalizedTransfer → Dict ℕ → Bool
transfer_needs_known_dust_threshold tr thresholds =
    if not (is_spl_fungible tr.asset_type)
    then false
    else if amount_raw_is_zero tr.amount_raw
    then false
    else is_none (get thresholds tr.asset_key)
