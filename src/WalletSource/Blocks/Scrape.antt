-- ===== src/WalletSource/Blocks/Scrape.antt =====
-- `ScrapeRecentWallets`: the loop over the blocks, and the wallets that it scrapes.
pub mod Balanced
pub mod Kept
use poison_trace.Base.{
  ℕ, zero, suc, ◌+◌, ◌-◌, ℤ, pos, negsuc, pos_part, ltb_ℤ, leb_ℤ, ltb, Bool, true, false, not, ◌&&◌,
  ◌||◌, List, [], ◌∷◌, ◌++◌, map, Option, none, some, if◌then◌else◌, ◌==◌, is_nil, foldl, length,
  select,
}
use poison_trace.Text.{Str, codes, str_eq, str_lt}
use poison_trace.Text.Sort.{sort_by}
use poison_trace.Dict.{Dict, get_or, put}
use poison_trace.Errors.{ErrorChain, Action, Result, ok, err, plain}
use poison_trace.Errors.Actions.{◌>>=◌, done, proceed, within}
use poison_trace.WalletSource.{ScrapedWallet}
use poison_trace.WalletSource.Blocks.{
  RpcBlock, RpcBlockTx, ScrapeOptions, BlockWalletObservation, with_scrape_defaults,
  quiet_transfer_like, parsed_transfer_owner_observations, signer_wallets,
}

pub record BlockWalletStats : Type 0 where
  pub count : ℕ
  pub outbound : ℕ
  pub inbound : ℕ

abbrev pub no_stats : BlockWalletStats
no_stats = record { count = 0; outbound = 0; inbound = 0 }

unfoldable pub count_observation :
    Dict BlockWalletStats → BlockWalletObservation → Dict BlockWalletStats
count_observation stats obs =
    let seen = get_or stats obs.address no_stats in
    let counted = record seen { count = seen.count + 1 } in
    put stats obs.address (
      if obs.outbound
      then record counted { outbound = counted.outbound + 1 }
      else record counted { inbound = counted.inbound + 1 })

-- The observations of a transaction: its signers stand in if it has no parsed transfer.
unfoldable pub tx_observations : ℤ → RpcBlockTx → List BlockWalletObservation
tx_observations min_lamports tx =
    let (observations, has_transfer) =
      parsed_transfer_owner_observations min_lamports [] false tx.instructions in
    if is_nil observations && not has_transfer
    then map (λ a. record { address = a; outbound = true }) (signer_wallets tx.account_keys)
    else observations

-- The loop over the transactions of a block; it stops at the cap.
unfoldable pub scan_block :
    ScrapeOptions → ℕ → List RpcBlockTx → Dict BlockWalletStats → Dict BlockWalletStats
unfolding count_observation tx_observations
scan_block opts inspected [] stats = stats
scan_block opts inspected (tx ∷ rest) stats =
    let skipped = scan_block opts inspected rest stats in
    let counted =
      scan_block opts (inspected + 1) rest
        (foldl count_observation stats (tx_observations opts.min_native_lamports tx)) in
    if tx.has_error
    then skipped
    else if not (quiet_transfer_like tx.instructions opts.max_noisy_instructions)
    then skipped
    else if ltb_ℤ (pos 0) opts.max_tx_per_block && ltb_ℤ opts.max_tx_per_block (pos (inspected + 1))
    then stats
    else counted

-- `slot - int64(n)`.
minus : ℤ → ℕ → ℤ
minus (pos m) n = if ltb m n then negsuc (n - m - 1) else pos (m - n)
minus (negsuc m) n = negsuc (m + n)

-- The client of the chain and the random generator: `random_below n` is `Intn(n)`.
pub record Rpc (S : Type 0) : Type 0 where
  pub get_slot : S → Result ℤ × S
  pub get_block : ℤ → S → Result RpcBlock × S
  pub random_below : ℕ → S → ℕ × S

module _ {S : Type 0} (rpc : Rpc S) (opts : ScrapeOptions) where
  after_block : Result RpcBlock × S → Dict BlockWalletStats → Dict BlockWalletStats × S
  unfolding scan_block
  after_block (err e, s) stats = (stats, s)
  after_block (ok block, s) stats = (scan_block opts 0 block.transactions stats, s)

  -- The loop over the blocks, `left` of the lookback left and `checked` done.
  unfoldable pub scan_blocks : ℕ → ℕ → ℤ → Dict BlockWalletStats → S → Dict BlockWalletStats × S
  unfolding after_block minus
  scan_blocks zero checked start_slot stats s = (stats, s)
  scan_blocks (suc left) checked start_slot stats s =
      let slot = minus start_slot checked in
      let (next, t) = after_block (rpc.get_block slot s) stats in
      let rest = scan_blocks left (checked + 1) start_slot next t in
      if ltb_ℤ (pos 0) opts.max_blocks && leb_ℤ opts.max_blocks (pos checked)
      then (stats, s)
      else if leb_ℤ slot (pos 0)
      then (stats, s)
      else rest

  -- The start inside the lookback, at random.
  unfoldable pub shift_start : ℤ → Action S ℤ
  unfolding minus
  shift_start latest s =
      let (offset, t) = rpc.random_below (pos_part opts.block_lookback) s in
      if ltb_ℤ (pos 1) opts.block_lookback then (ok (minus latest offset), t) else (ok latest, s)

  unfoldable pub find_start : Action S ℤ
  unfolding within proceed shift_start
  find_start =
      if leb_ℤ opts.start_slot (pos 0) && leb_ℤ (pos 0) opts.start_slot
      then within (codes "get latest slot") rpc.get_slot >>= shift_start
      else done (ok opts.start_slot)

-- The wallets that send at least as often as they receive, and are seen often enough.
unfoldable pub is_kept : ScrapeOptions → BlockWalletStats → Bool
is_kept opts stat =
    not (stat.outbound == 0 || ltb stat.outbound stat.inbound)
    && not (ltb_ℤ (pos stat.count) opts.min_scrape_count)

-- The least often seen come first.
unfoldable pub scored_before : Str × BlockWalletStats → Str × BlockWalletStats → Bool
scored_before a b = if a.1.count == b.1.count then str_lt a.0 b.0 else ltb a.1.count b.1.count

-- The last loop, which stops when the list is full.
unfoldable pub list_wallets :
    ScrapeOptions → List ScrapedWallet → List (Str × BlockWalletStats) → List ScrapedWallet
list_wallets opts out [] = out
list_wallets opts out ((address, stat) ∷ rest) =
    let longer =
      out
      ++ record {
        address = address;
        count = stat.count;
        outbound = stat.outbound;
        inbound = stat.inbound;
      }
        ∷ [] in
    let more = list_wallets opts longer rest in
    if ltb_ℤ (pos 0) opts.max_wallets && leb_ℤ opts.max_wallets (pos (length longer))
    then longer
    else more

unfoldable pub pick_wallets : ScrapeOptions → Dict BlockWalletStats → List ScrapedWallet
unfolding is_kept sort_by scored_before list_wallets
pick_wallets opts stats =
    list_wallets opts [] (sort_by scored_before (select (λ e. is_kept opts e.1) stats))

scrape : {S : Type 0} → Rpc S → ScrapeOptions → Action S (List ScrapedWallet)
unfolding scan_blocks find_start pick_wallets
scrape rpc opts = find_start rpc opts >>= λ start_slot s.
    let (stats, t) = scan_blocks rpc opts (pos_part opts.block_lookback) 0 start_slot [] s in
    (ok (pick_wallets opts stats), t)

-- No client is `nil`.
unfoldable pub scrape_recent_wallets :
    {S : Type 0} → Option (Rpc S) → ScrapeOptions → Action S (List ScrapedWallet)
unfolding scrape with_scrape_defaults
scrape_recent_wallets none opts = done (err (plain (codes "rpc client is required")))
scrape_recent_wallets (some rpc) opts = scrape rpc (with_scrape_defaults opts)
