-- ===== src/WalletSource/Discovery.antt =====
-- The seeds, and the addresses that are discovered around them.
use poison_trace.Base.{
  Bool, false, List, [], ◌∷◌, ◌++◌, map, Option, none, some, if◌then◌else◌, ◌==◌, foldl, length,
  ltb,
}
use poison_trace.Text.{Str, codes, str_lt, is_empty}
use poison_trace.Text.Sort.{sort_by}
use poison_trace.Text.Trim.{trim_space}
use poison_trace.Dict.{Dict, get, put, has, add}
use poison_trace.Errors.{ErrorChain, Action, Result, ok, err, wrap}
use poison_trace.Errors.Actions.{◌>>=◌, done, proceed}
use poison_trace.Transactions.{NormalizedTransfer}
use poison_trace.WalletSource.{CandidateDiscovery}

-- The record of an address, which a first sight creates.
found_or_new : Str → Option CandidateDiscovery → CandidateDiscovery
found_or_new address none = record { address = address; seeds = [] }
found_or_new address (some c) = c

abbrev in_seed_set : Option (List Str) → Str → Bool
in_seed_set none address = false
in_seed_set (some seed_set) address = has seed_set address

-- The map holds pointers to its records: `rec.seeds[seed] = struct{}{}` changes the record in place.
unfoldable pub add_discovered :
    Dict CandidateDiscovery → Str → Option (List Str) → Str → Dict CandidateDiscovery
unfolding found_or_new
add_discovered discovered seed seed_set raw =
    let address = trim_space raw in
    let rec = found_or_new address (get discovered address) in
    if is_empty address
    then discovered
    else if in_seed_set seed_set address
    then discovered
    else put discovered address (record rec { seeds = add rec.seeds seed })

-- The two ends of each transfer of a seed.
unfoldable pub discover_transfer :
    Str → List Str → Dict CandidateDiscovery → NormalizedTransfer → Dict CandidateDiscovery
unfolding add_discovered
discover_transfer seed seed_set discovered tr =
    add_discovered (add_discovered discovered seed (some seed_set) tr.source_owner_address) seed
      (some seed_set) tr.destination_owner_address

unfoldable pub discovery_before : CandidateDiscovery → CandidateDiscovery → Bool
discovery_before a b =
    if length a.seeds == length b.seeds
    then str_lt a.address b.address
    else ltb (length b.seeds) (length a.seeds)

unfoldable pub sorted_discoveries : Dict CandidateDiscovery → List CandidateDiscovery
unfolding sort_by discovery_before
sorted_discoveries discovered = sort_by discovery_before (map (λ e. e.1) discovered)

-- What reading a text file gives: its lines, or the error of `os.Open`, or that of the scanner.
pub data FileLines : Type 0 where
  lines : List Str → FileLines
  cannot_open : ErrorChain → FileLines
  broken : ErrorChain → FileLines

-- The file system, over the state `S` of the world.
pub record Files (S : Type 0) : Type 0 where
  pub read_lines : Str → S → FileLines × S
  pub dir : Str → Str
  pub mkdir_all : Str → S → Option ErrorChain × S
  pub write_file : Str → Str → S → Option ErrorChain × S

-- `line[:strings.Index(line, "#")]`, or the line if there is none.
unfoldable pub before_comment : Str → Str
before_comment [] = []
before_comment (c ∷ s) = if c == b'#' then [] else c ∷ before_comment s

-- `seen` holds what `out` holds, so one list stands for both.
unfoldable pub keep_new : List Str → Str → List Str
keep_new out wallet = if has out wallet then out else out ++ wallet ∷ []

unfoldable pub line_step : List Str → Str → List Str
unfolding before_comment keep_new
line_step out raw =
    let line = trim_space (before_comment (trim_space raw)) in
    if is_empty line then out else keep_new out line

unfoldable pub explicit_step : List Str → Str → List Str
unfolding keep_new
explicit_step out raw =
    let wallet = trim_space raw in if is_empty wallet then out else keep_new out wallet

-- What the lines, or the lack of them, give.
unfoldable pub after_read : {S : Type 0} → Str → FileLines × S → Result (List Str) × S
unfolding line_step
after_read path (lines ls, s) = (ok (foldl line_step [] ls), s)
after_read path (cannot_open e, s) = (err (wrap (codes "open wallet file " ++ path) e), s)
after_read path (broken e, s) = (err (wrap (codes "read wallet file " ++ path) e), s)

unfoldable pub read_wallet_lines : {S : Type 0} → Files S → Str → Action S (List Str)
unfolding after_read
read_wallet_lines files path s = after_read path (files.read_lines path s)

unfoldable pub load_seed_wallets : {S : Type 0} → Files S → Str → List Str → Action S (List Str)
unfolding read_wallet_lines explicit_step keep_new proceed
load_seed_wallets files path explicit =
    let out = foldl explicit_step [] explicit in
    if is_empty path
    then done (ok out)
    else read_wallet_lines files path >>= λ from_file. done (ok (foldl keep_new out from_file))
