-- ===== src/WalletSource/Blocks.antt =====
-- internal/walletsource/block_scrape.go: wallets are scraped from the transfers of recent blocks. The
-- RPC client (HTTP, JSON) and the random generator are parameters.
pub mod Scrape
use poison_trace.Base.{
  ℕ, ◌+◌, ℤ, pos, ltb_ℤ, leb_ℤ, ltb, Bool, true, false, not, ◌&&◌, ◌||◌, List, [], ◌∷◌, ◌++◌,
  Option, none, some, if◌then◌else◌, is_nil, any,
}
use poison_trace.Text.{Str, codes, str_eq, is_empty}
use poison_trace.Text.Case.{to_lower, equal_fold}
use poison_trace.Text.Trim.{trim_space, is_blank}
use poison_trace.Dict.{Dict, get}

-- A decoded JSON value: a text; a number, as `int64` of it; a number in digits, or one that is no
-- `int64`; anything else.
pub data InfoValue : Type 0 where
  text : Str → InfoValue
  number : ℤ → InfoValue
  digits : Option ℤ → InfoValue
  other_value : InfoValue

pub record RpcAccountKey : Type 0 where
  pub pubkey : Str
  pub signer : Bool
  pub writable : Bool
  pub source : Str

-- `Info` may be nil.
pub record RpcParsedInstruction : Type 0 where
  pub type_name : Str
  pub info : Option (Dict InfoValue)

pub record RpcInstruction : Type 0 where
  pub program : Str
  pub parsed : Option RpcParsedInstruction

-- A transaction of a block, with its message; of its error only whether there is one.
pub record RpcBlockTx : Type 0 where
  pub account_keys : List RpcAccountKey
  pub instructions : List RpcInstruction
  pub has_error : Bool

pub record RpcBlock : Type 0 where
  pub transactions : List RpcBlockTx

pub record ScrapeOptions : Type 0 where
  pub start_slot : ℤ
  pub block_lookback : ℤ
  pub max_blocks : ℤ
  pub max_wallets : ℤ
  pub max_tx_per_block : ℤ
  pub max_noisy_instructions : ℤ
  pub min_native_lamports : ℤ
  pub min_scrape_count : ℤ

abbrev or_default : ℤ → ℤ → ℤ
or_default v d = if leb_ℤ v (pos 0) then d else v

abbrev not_negative : ℤ → ℤ
not_negative v = if ltb_ℤ v (pos 0) then pos 0 else v

unfoldable pub with_scrape_defaults : ScrapeOptions → ScrapeOptions
with_scrape_defaults opts =
    let block_lookback = or_default opts.block_lookback (pos 100) in
    record opts {
      block_lookback = block_lookback;
      max_blocks = or_default opts.max_blocks block_lookback;
      max_wallets = or_default opts.max_wallets (pos 100);
      max_tx_per_block = or_default opts.max_tx_per_block (pos 200);
      max_noisy_instructions = not_negative opts.max_noisy_instructions;
      min_native_lamports = not_negative opts.min_native_lamports;
      min_scrape_count = not_negative opts.min_scrape_count;
    }

unfoldable pub parsed_instruction_type : RpcInstruction → Str
parsed_instruction_type ix = elim ix.parsed [ none ↦ ix.program | some p ↦ p.type_name ]

unfoldable pub instruction_type : RpcInstruction → Str
unfolding parsed_instruction_type
instruction_type ix = to_lower (trim_space (parsed_instruction_type ix))

unfoldable pub is_transfer_type : Str → Bool
is_transfer_type t = str_eq t (codes "transfer") || str_eq t (codes "transferchecked")

-- The types that are neither transfers nor noise.
unfoldable pub is_quiet_type : Str → Bool
is_quiet_type t =
    str_eq t (codes "createaccount")
    || str_eq t (codes "closeaccount")
    || str_eq t (codes "syncnative")
    || is_empty t

-- `transferCount` and `noisyCount` after the loop.
unfoldable pub count_instructions : ℕ → ℕ → List RpcInstruction → ℕ × ℕ
unfolding instruction_type is_transfer_type is_quiet_type
count_instructions transfers noisy [] = (transfers, noisy)
count_instructions transfers noisy (ix ∷ rest) =
    let transfer = count_instructions (transfers + 1) noisy rest in
    let quiet = count_instructions transfers noisy rest in
    let noise = count_instructions transfers (noisy + 1) rest in
    if is_transfer_type (instruction_type ix)
    then transfer
    else if is_quiet_type (instruction_type ix)
    then quiet
    else noise

unfoldable pub quiet_transfer_like : List RpcInstruction → ℤ → Bool
unfolding count_instructions
quiet_transfer_like instructions max_noisy =
    if is_nil instructions
    then false
    else let (transfers, noisy) = count_instructions 0 0 instructions in
      ltb 0 transfers && leb_ℤ (pos noisy) max_noisy

pub record BlockWalletObservation : Type 0 where
  pub address : Str
  pub outbound : Bool

-- `s, _ := info[key].(string)`, trimmed.
text_or_empty : Option InfoValue → Str
text_or_empty none = []
text_or_empty (some (text s)) = s
text_or_empty (some (number n)) = []
text_or_empty (some (digits n)) = []
text_or_empty (some other_value) = []

unfoldable pub info_text : Dict InfoValue → Str → Str
unfolding text_or_empty
info_text info key = trim_space (text_or_empty (get info key))

unfoldable pub parsed_lamports : Option InfoValue → Option ℤ
parsed_lamports none = none
parsed_lamports (some (text s)) = none
parsed_lamports (some (number n)) = some n
parsed_lamports (some (digits n)) = n
parsed_lamports (some other_value) = none

-- An observation of an address, if there is one.
unfoldable pub observed : Str → Bool → List BlockWalletObservation
observed address outbound =
    if is_empty address then [] else record { address = address; outbound = outbound } ∷ []

-- `ok && lamports < minNativeLamports`.
unfoldable pub is_below : Option ℤ → ℤ → Bool
is_below none min_lamports = false
is_below (some lamports) min_lamports = ltb_ℤ lamports min_lamports

-- The instruction is parsed, with its info.
unfoldable pub transfer_owner_observations : Str → Dict InfoValue → ℤ → List BlockWalletObservation
unfolding info_text parsed_lamports observed is_below
transfer_owner_observations program info min_native_lamports =
    let authority = observed (info_text info (codes "authority")) true in
    if not (equal_fold program (codes "system"))
    then authority
    else if is_below (parsed_lamports (get info (codes "lamports"))) min_native_lamports
    then authority
    else authority
      ++ (observed (info_text info (codes "source")) true
          ++ observed (info_text info (codes "destination")) false)

same_bool : Bool → Bool → Bool
same_bool true b = b
same_bool false b = not b

-- `seen` holds what `out` holds, so one list stands for both.
unfoldable pub add_observations :
    List BlockWalletObservation → List BlockWalletObservation → List BlockWalletObservation
unfolding same_bool
add_observations out [] = out
add_observations out (obs ∷ rest) =
    let again = add_observations out rest in
    let added = add_observations (out ++ obs ∷ []) rest in
    if any (λ o. str_eq o.address obs.address && same_bool o.outbound obs.outbound) out
    then again
    else added

-- `ix.Parsed.Info`, if neither is nil.
parsed_info : Option RpcParsedInstruction → Option (Dict InfoValue)
parsed_info none = none
parsed_info (some p) = p.info

-- The observations and `hasParsedTransfer` after the loop.
unfoldable pub parsed_transfer_owner_observations :
    ℤ
    → List BlockWalletObservation
    → Bool
    → List RpcInstruction
    → List BlockWalletObservation × Bool
unfolding instruction_type is_transfer_type parsed_info transfer_owner_observations add_observations
parsed_transfer_owner_observations min_lamports out seen_transfer [] = (out, seen_transfer)
parsed_transfer_owner_observations min_lamports out seen_transfer (ix ∷ rest) =
    let skipped = parsed_transfer_owner_observations min_lamports out seen_transfer rest in
    if not (is_transfer_type (instruction_type ix)) then skipped else elim (parsed_info ix.parsed) [
      | none ↦ skipped
      | some info ↦
          parsed_transfer_owner_observations min_lamports
            (add_observations out (transfer_owner_observations ix.program info min_lamports)) true
            rest
    ]

unfoldable pub signer_wallets : List RpcAccountKey → List Str
signer_wallets [] = []
signer_wallets (key ∷ rest) =
    let others = signer_wallets rest in
    if not key.signer || not key.writable || str_eq key.source (codes "lookupTable")
    then others
    else if is_blank key.pubkey
    then others
    else key.pubkey ∷ others
