-- ===== src/Wallets.antt =====
-- internal/wallets/service.go: lists of wallet addresses, trimmed, without comments and repeats, and
-- bounded. A file is its lines; opening and reading it is the caller's.
pub mod Bounded
pub mod Unique
use poison_trace.Base.{
  ℕ, ◌+◌, ℤ, pos, ltb_ℤ, leb_ℤ, Bool, true, false, ◌&&◌, ◌||◌, List, [], ◌∷◌, ◌++◌, if◌then◌else◌,
  length, foldl,
}
use poison_trace.Text.{Str, codes, is_empty, has_prefix}
use poison_trace.Text.Trim.{trim_space}
use poison_trace.Dict.{has}

-- `addr == "" || strings.HasPrefix(addr, "#")`.
unfoldable pub is_skipped : Str → Bool
is_skipped addr = is_empty addr || has_prefix addr (codes "#")

-- `max > 0 && len(out) >= max`.
unfoldable pub is_full : ℤ → List Str → Bool
is_full max_count out = ltb_ℤ (pos 0) max_count && leb_ℤ max_count (pos (length out))

-- `out` and `seen`.
pub record Loaded : Type 0 where
  pub out : List Str
  pub seen : List Str

unfoldable pub normalize_step : ℤ → Loaded → Str → Loaded
unfolding is_skipped is_full
normalize_step max_count l raw =
    let addr = trim_space raw in
    if is_skipped addr
    then l
    else if has l.seen addr
    then l
    else if is_full max_count l.out
    then record l { seen = addr ∷ l.seen }
    else record { out = l.out ++ addr ∷ []; seen = addr ∷ l.seen }

unfoldable pub normalize_addresses : List Str → ℤ → List Str × ℕ
unfolding normalize_step
normalize_addresses addresses max_count =
    let l = foldl (normalize_step max_count) (record { out = []; seen = [] }) addresses in
    (l.out, length l.seen)

-- The loop of `LoadAddressesExcludingFile`; it stops when the list is full.
unfoldable pub load_loop : List Str → ℤ → List Str → List Str → List Str
unfolding is_skipped is_full
load_loop excluded max_count out [] = out
load_loop excluded max_count out (line ∷ lines) =
    let addr = trim_space line in
    let skipped = load_loop excluded max_count out lines in
    let taken = out ++ addr ∷ [] in
    let rest = load_loop excluded max_count taken lines in
    if is_skipped addr || has excluded addr || has out addr
    then skipped
    else if is_full max_count taken
    then taken
    else rest

-- The lines of the file to leave out are read first, without a bound.
unfoldable pub load_addresses_excluding_file : List Str → List Str → ℤ → List Str
unfolding load_loop
load_addresses_excluding_file lines excluded_lines max_count =
    load_loop (load_loop [] (pos 0) [] excluded_lines) max_count [] lines
