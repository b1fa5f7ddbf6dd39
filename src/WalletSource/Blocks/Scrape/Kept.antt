-- ===== src/WalletSource/Blocks/Scrape/Kept.antt =====
-- The wallets that a scrape returns.
use poison_trace.Base.{
  ℕ, suc, ◌+◌, ◌≤◌, ◌<◌, pos, pos_part, ◌≤ℤ◌, ltb_ℤ, leb_ℤ, Bool, true, ◌&&◌, List, [], ◌∷◌, ◌++◌,
  some, length, length-append, select, All, All-append, subst, ◌≡◌, inl, inr, arith, Bool-cases,
}
use poison_trace.Text.{Str}
use poison_trace.Text.Sort.{sort_by, All-sort_by}
use poison_trace.Dict.{Dict}
use poison_trace.Errors.{ok}
use poison_trace.Errors.Actions.{OnOk, proceed-OnOk}
use poison_trace.WalletSource.{ScrapedWallet}
use poison_trace.WalletSource.Run.Positive.{or_default-positive}
use poison_trace.WalletSource.Blocks.{ScrapeOptions, with_scrape_defaults}
use poison_trace.WalletSource.Blocks.Scrape.{
  BlockWalletStats, Rpc, find_start, is_kept, scored_before, list_wallets, pick_wallets, scrape,
  scrape_recent_wallets,
}
use poison_trace.WalletSource.Blocks.Scrape.Balanced.{
  IsBalanced, AllBalanced, scan_blocks-AllBalanced,
}

module _ (opts : ScrapeOptions) where
  pub record IsScraped (w : ScrapedWallet) : Type 0 where
    pub counted : w.count ≡ w.outbound + w.inbound
    pub sends : 0 < w.outbound
    pub sends_more : w.inbound ≤ w.outbound
    pub seen : opts.min_scrape_count ≤ℤ pos w.count

  abbrev IsKept : Str × BlockWalletStats → Type 0
  IsKept e = IsBalanced e.1 × (is_kept opts e.1 ≡ true)

  select-IsKept :
      (stats : Dict BlockWalletStats)
      → AllBalanced stats
      → All IsKept (select (λ e. is_kept opts e.1) stats)
  select-IsKept [] h = tt
  select-IsKept (e ∷ stats) h = elim (Bool-cases (is_kept opts e.1)) [
    | inl k ↦ rw k ((h.0, k), select-IsKept stats h.1)
    | inr k ↦ rw k (select-IsKept stats h.1)
  ]

  abbrev IsScrape : List ScrapedWallet → Type 0
  IsScrape out = All IsScraped out × (length out ≤ pos_part opts.max_wallets)

  kept-IsScraped :
      (address : Str) (stat : BlockWalletStats)
      → IsKept (address, stat)
      → IsScraped (record {
        address = address;
        count = stat.count;
        outbound = stat.outbound;
        inbound = stat.inbound;
      })
  unfolding is_kept
  kept-IsScraped address stat h = record {
    counted = h.0;
    sends = ground (arith, h.1);
    sends_more = ground (arith, h.1);
    seen = ground (arith, h.1);
  }

  -- `len(out) >= opts.MaxWallets` for a positive cap.
  abbrev is_capped : List ScrapedWallet → Bool
  is_capped out = ltb_ℤ (pos 0) opts.max_wallets && leb_ℤ opts.max_wallets (pos (length out))

  list_wallets-IsScraped :
      (out : List ScrapedWallet) (list : List (Str × BlockWalletStats))
      → All IsScraped out
      → All IsKept list
      → All IsScraped (list_wallets opts out list)
  unfolding list_wallets
  list_wallets-IsScraped out [] h k = h
  list_wallets-IsScraped out ((address, stat) ∷ rest) h k =
      let longer = All-append IsScraped out _ h (kept-IsScraped address stat k.0, tt) in
      elim (Bool-cases (is_capped (out ++ row ∷ []))) [
        | inl e ↦ rw e longer
        | inr e ↦ rw e (list_wallets-IsScraped (out ++ row ∷ []) rest longer k.1)
      ]
    where
      row : ScrapedWallet
      row = record {
        address = address;
        count = stat.count;
        outbound = stat.outbound;
        inbound = stat.inbound;
      }

  list_wallets-bounded :
      (n : ℕ) (out : List ScrapedWallet) (list : List (Str × BlockWalletStats))
      → opts.max_wallets ≡ pos (suc n)
      → length out < suc n
      → length (list_wallets opts out list) ≤ suc n
  unfolding list_wallets
  list_wallets-bounded n out [] m l = omega (arith, l)
  list_wallets-bounded n out ((address, stat) ∷ rest) m l =
      elim (Bool-cases (is_capped (out ++ row ∷ []))) [
        | inl e ↦ rw e (omega (arith, l, length-append {0} out (row ∷ [])))
        | inr e ↦ rw e (
            list_wallets-bounded n (out ++ row ∷ []) rest m
              (ground (arith, m, e, length-append {0} out (row ∷ []))))
      ]
    where
      row : ScrapedWallet
      row = record {
        address = address;
        count = stat.count;
        outbound = stat.outbound;
        inbound = stat.inbound;
      }

  pick_wallets-IsScrape :
      (n : ℕ) (stats : Dict BlockWalletStats)
      → opts.max_wallets ≡ pos (suc n)
      → AllBalanced stats
      → IsScrape (pick_wallets opts stats)
  unfolding pick_wallets
  pick_wallets-IsScrape n stats m h =
      let list = sort_by scored_before (select (λ e. is_kept opts e.1) stats) in
      (
        list_wallets-IsScraped [] list tt (
            All-sort_by scored_before IsKept (select (λ e. is_kept opts e.1) stats)
              (select-IsKept stats h)),
        at_cap n (length (list_wallets opts [] list)) m
            (list_wallets-bounded n [] list m (omega arith)),
      )
    where
      at_cap :
          (n k : ℕ) → opts.max_wallets ≡ pos (suc n) → k ≤ suc n → k ≤ pos_part opts.max_wallets
      at_cap n k e h = rw e h

  scrape-OnOk :
      {S : Type 0} (rpc : Rpc S) (n : ℕ) (s : S)
      → opts.max_wallets ≡ pos (suc n)
      → OnOk IsScrape (scrape rpc opts s)
  unfolding scrape
  scrape-OnOk rpc n s m = proceed-OnOk IsScrape (find_start rpc opts s) _ (λ start t.
      pick_wallets-IsScrape n _ m
        (scan_blocks-AllBalanced opts rpc (pos_part opts.block_lookback) 0 start [] t tt))

max_wallets-positive :
    (opts : ScrapeOptions) → (n : ℕ) × ((with_scrape_defaults opts).max_wallets ≡ pos (suc n))
unfolding with_scrape_defaults
max_wallets-positive opts = or_default-positive opts.max_wallets 99

-- If a scrape gives wallets, they are no more than `max_wallets`, and each of them was seen as often
-- as it sent and received, at least `min_scrape_count` times, sent at least once, and received no
-- more often than it sent. The defaults of the options are in place.
pub scrape_recent_wallets-IsScrape :
    {S : Type 0} (rpc : Rpc S) (opts : ScrapeOptions) (s : S) (out : List ScrapedWallet) (t : S)
    → scrape_recent_wallets (some rpc) opts s ≡ (ok out, t)
    → All (IsScraped (with_scrape_defaults opts)) out
      × (length out ≤ pos_part (with_scrape_defaults opts).max_wallets)
unfolding scrape_recent_wallets
scrape_recent_wallets-IsScrape rpc opts s out t e =
    subst (OnOk (IsScrape (with_scrape_defaults opts))) e (
      scrape-OnOk (with_scrape_defaults opts) rpc (max_wallets-positive opts).0 s
        (max_wallets-positive opts).1)
