-- ===== src/WalletSource/Blocks/Scrape/Balanced.antt =====
-- The counts of a wallet through the loops over blocks, transactions and observations.
use poison_trace.Base.{
  ℕ, zero, suc, ◌+◌, ℤ, pos, ltb_ℤ, leb_ℤ, Bool, true, false, not, ◌&&◌, List, [], ◌∷◌,
  if◌then◌else◌, foldl, All, ◌≡◌, inl, inr, refl, arith, Bool-cases,
}
use poison_trace.Dict.{Dict, get_or}
use poison_trace.Dict.Laws.{All-put, All-get_or}
use poison_trace.Errors.{Result, ok, err}
use poison_trace.WalletSource.Blocks.{
  RpcBlock, RpcBlockTx, ScrapeOptions, BlockWalletObservation, quiet_transfer_like,
}
use poison_trace.WalletSource.Blocks.Scrape.{
  BlockWalletStats, no_stats, minus, count_observation, tx_observations, scan_block, Rpc,
  after_block, scan_blocks,
}

-- Each observation is outbound or inbound.
abbrev pub IsBalanced : BlockWalletStats → Type 0
IsBalanced stat = stat.count ≡ stat.outbound + stat.inbound

abbrev pub AllBalanced : Dict BlockWalletStats → Type 0
AllBalanced stats = All (λ e. IsBalanced e.1) stats

count_observation-AllBalanced :
    (stats : Dict BlockWalletStats) (obs : BlockWalletObservation)
    → AllBalanced stats
    → AllBalanced (count_observation stats obs)
unfolding count_observation
count_observation-AllBalanced stats obs h = All-put IsBalanced stats obs.address _ h (
    one_more obs.outbound (get_or stats obs.address no_stats)
      (All-get_or IsBalanced stats obs.address no_stats h refl))
  where
    one_more :
        (outbound : Bool) (seen : BlockWalletStats)
        → IsBalanced seen
        → IsBalanced (
            if outbound
            then record seen { count = seen.count + 1; outbound = seen.outbound + 1 }
            else record seen { count = seen.count + 1; inbound = seen.inbound + 1 })
    one_more true seen h = omega (arith, h)
    one_more false seen h = omega (arith, h)

observations-AllBalanced :
    (list : List BlockWalletObservation) (stats : Dict BlockWalletStats)
    → AllBalanced stats
    → AllBalanced (foldl count_observation stats list)
observations-AllBalanced [] stats h = h
observations-AllBalanced (obs ∷ rest) stats h =
    observations-AllBalanced rest _ (count_observation-AllBalanced stats obs h)

module _ (opts : ScrapeOptions) where
  scan_block-AllBalanced :
      (inspected : ℕ) (txs : List RpcBlockTx) (stats : Dict BlockWalletStats)
      → AllBalanced stats
      → AllBalanced (scan_block opts inspected txs stats)
  unfolding scan_block
  scan_block-AllBalanced inspected [] stats h = h
  scan_block-AllBalanced inspected (tx ∷ rest) stats h = elim (Bool-cases tx.has_error) [
    | inl e ↦ rw e (scan_block-AllBalanced inspected rest stats h)
    | inr e ↦
        rw e
          (elim (Bool-cases
            (not (quiet_transfer_like tx.instructions opts.max_noisy_instructions))) [
              | inl e ↦ rw e (scan_block-AllBalanced inspected rest stats h)
              | inr e ↦
                  rw e
                    (elim (Bool-cases (
                      ltb_ℤ (pos 0) opts.max_tx_per_block
                      && ltb_ℤ opts.max_tx_per_block (pos (inspected + 1)))) [
                        | inl e ↦ rw e h
                        | inr e ↦ rw e (
                            scan_block-AllBalanced (inspected + 1) rest _ (
                              observations-AllBalanced (tx_observations opts.min_native_lamports tx)
                                stats h))
                      ])
            ])
  ]

  after_block-AllBalanced :
      {S : Type 0} (rpc : Rpc S) (r : Result RpcBlock × S) (stats : Dict BlockWalletStats)
      → AllBalanced stats
      → AllBalanced (after_block rpc opts r stats).0
  unfolding after_block
  after_block-AllBalanced rpc (err e, s) stats h = h
  after_block-AllBalanced rpc (ok block, s) stats h =
      scan_block-AllBalanced 0 block.transactions stats h

  pub scan_blocks-AllBalanced :
      {S : Type 0} (rpc : Rpc S) (left checked : ℕ) (start : ℤ) (stats : Dict BlockWalletStats)
      (s : S)
      → AllBalanced stats
      → AllBalanced (scan_blocks rpc opts left checked start stats s).0
  unfolding scan_blocks
  scan_blocks-AllBalanced rpc zero checked start stats s h = h
  scan_blocks-AllBalanced rpc (suc left) checked start stats s h =
      let rest =
        scan_blocks-AllBalanced rpc left (checked + 1) start _ _
          (after_block-AllBalanced rpc (rpc.get_block (minus start checked) s) stats h) in
      elim (Bool-cases (ltb_ℤ (pos 0) opts.max_blocks && leb_ℤ opts.max_blocks (pos checked))) [
        | inl e ↦ rw e h
        | inr e ↦ rw e (elim (Bool-cases (leb_ℤ (minus start checked) (pos 0))) [
          | inl e ↦ rw e h
          | inr e ↦ rw e rest
        ])
      ]
