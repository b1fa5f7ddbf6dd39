-- ===== src/WalletSource/Run/Calls.antt =====
-- The number of requests that the parts of a source run make.
use native.Mathlib.Nat.{mul-le-mul_right}
use poison_trace.Base.{
  ℕ, zero, suc, ◌+◌, ◌*◌, ◌≤◌, ℤ, pos, pos_part, leb_ℤ, Bool, true, false, not, List, [], ◌∷◌, ◌++◌,
  if◌then◌else◌, foldl, length, length-take, ◌≡◌, inl, inr, arith, Bool-cases,
}
use poison_trace.Text.{Str, codes}
use poison_trace.Text.Sort.{sort_by}
use poison_trace.Errors.{Action, Result, ok, err}
use poison_trace.Errors.Actions.{proceed, within, within-state}
use poison_trace.Helius.{Client}
use poison_trace.Pipeline.Fetch.Calls.{CountsRequests, fetch_enhanced_window-count}
use poison_trace.WalletSource.{Options, CandidateDiscovery, DeepDiveCandidate}
use poison_trace.WalletSource.Choice.{dive_before}
use poison_trace.WalletSource.Discovery.{sorted_discoveries}
use poison_trace.WalletSource.Select.{
  cap_list, Selection, candidate_step, dive_step, is_target_reached,
}
use poison_trace.WalletSource.Run.{
  Found, fetch, fetch_params, start_seed, discover_tx, discover, examine, dive_loop, deep_dives,
  select_wallets, nothing_selected,
}

pub cap_list-bounded {ℓ} :
    {A : Type ℓ} (n : ℕ) (xs : List A) → length (cap_list (pos (suc n)) xs) ≤ suc n
unfolding cap_list
cap_list-bounded n xs = ground (arith, length-take (suc n) xs)

module _ {S : Type 0} (count : S → ℕ) where
  -- A sequence adds the requests of its parts.
  pub proceed-count :
      {A B : Type 0} (r : Result A × S) (f : A → Action S B) (base n k : ℕ)
      → count r.1 ≤ base + n
      → ((a : A) (s : S) → count (f a s).1 ≤ count s + k)
      → count (proceed r f).1 ≤ base + (n + k)
  unfolding proceed
  proceed-count (ok a, s) f base n k h g = omega (arith, h, g a s)
  proceed-count (err e, s) f base n k h g = omega (arith, h)

  pub if-count :
      {A : Type 0} (b : Bool) (x y : Action S A) (s : S) (n : ℕ)
      → count (x s).1 ≤ n
      → count (y s).1 ≤ n
      → count ((if b then x else y) s).1 ≤ n
  if-count true x y s n h k = h
  if-count false x y s n h k = k

  pub at_most : {a b c : ℕ} → a ≤ b → b ≤ c → a ≤ c
  at_most h k = omega (arith, h, k)

  module _ (client : Client S) (counts : CountsRequests client count) (sha256_hex : Str → Str)
      (opts : Options) where
    -- The requests for one page, with its retries.
    abbrev pub per_page : ℕ
    per_page = pos_part opts.max_retries + 1

    fetch-count :
        (address : Str) (pages txs : ℤ) (s : S)
        → count (fetch client opts address pages txs s).1 ≤ count s + pos_part pages * per_page
    unfolding fetch fetch_params
    fetch-count address pages txs s =
        fetch_enhanced_window-count client count counts address (fetch_params opts pages txs) s

    pub discover-count :
        (seeds : List Str) (f : Found) (s : S)
        → count (discover sha256_hex client opts seeds f s).1
          ≤ count s + length seeds * (pos_part opts.seed_max_pages * per_page)
    unfolding discover
    discover-count [] f s = omega arith
    discover-count (seed ∷ rest) f s =
        let bound = pos_part opts.seed_max_pages * per_page in
        if-count (not opts.discover_neighbors) _ _ s _
          (omega (arith, discover-count rest (start_seed opts seed f) s))
          (at_most
            (proceed-count
              (within (codes "fetch seed wallet " ++ seed)
                (fetch client opts seed opts.seed_max_pages opts.max_tx_per_wallet) s)
              _ (count s) bound (length rest * bound)
              (rw within-state (fetch-count seed opts.seed_max_pages opts.max_tx_per_wallet s))
              (λ page t.
                discover-count rest
                  (foldl (discover_tx sha256_hex seed) (start_seed opts seed f) page.transactions)
                  t))
            (omega arith))

    pub discover-quiet :
        (seeds : List Str) (f : Found) (s : S)
        → opts.discover_neighbors ≡ false
        → count (discover sha256_hex client opts seeds f s).1 ≤ count s
    unfolding discover
    discover-quiet [] f s h = omega arith
    discover-quiet (seed ∷ rest) f s h = rw h (discover-quiet rest (start_seed opts seed f) s h)

    examine-count :
        (list : List CandidateDiscovery) (sel : Selection) (s : S)
        → count (examine sha256_hex client opts list sel s).1
          ≤ count s + length list * (pos_part opts.candidate_max_pages * per_page)
    unfolding examine
    examine-count [] sel s = omega arith
    examine-count (c ∷ rest) sel s =
        let reply = fetch client opts c.address opts.candidate_max_pages opts.max_tx_per_wallet s in
        omega (
          arith,
          examine-count rest (candidate_step sha256_hex opts c reply.0 sel) reply.1,
          fetch-count c.address opts.candidate_max_pages opts.max_tx_per_wallet s,
        )

    -- `k` bounds the deep dives that are left.
    dive_loop-count :
        (k idx : ℕ) (list : List DeepDiveCandidate) (sel : Selection) (s : S)
        → pos_part opts.deep_dive_top_n ≤ idx + k
        → count (dive_loop sha256_hex client opts idx list sel s).1
          ≤ count s + k * (pos_part opts.deep_dive_max_pages * per_page)
    unfolding dive_loop
    dive_loop-count k idx [] sel s h = omega arith
    dive_loop-count zero idx (d ∷ rest) sel s h =
        elim (Bool-cases (leb_ℤ opts.deep_dive_top_n (pos idx))) [
          | inl e ↦ rw e (dive_loop-count zero (idx + 1) rest _ s (omega (arith, h)))
          | inr e ↦ absurd (ground arith)
        ]
    dive_loop-count (suc k) idx (d ∷ rest) sel s h =
        let reply =
          fetch client opts d.discovery.address opts.deep_dive_max_pages opts.deep_dive_max_tx s in
        elim (Bool-cases (leb_ℤ opts.deep_dive_top_n (pos idx))) [
          | inl e ↦ rw e (dive_loop-count (suc k) (idx + 1) rest _ s (omega (arith, h)))
          | inr e ↦ rw e (elim (Bool-cases (is_target_reached opts (length sel.eligible))) [
            | inl e ↦ rw e (dive_loop-count (suc k) (idx + 1) rest _ s (omega (arith, h)))
            | inr e ↦ rw e (
                omega (
                  arith,
                  dive_loop-count k (idx + 1) rest (dive_step sha256_hex opts d reply.0 sel) reply.1
                      (omega (arith, h)),
                  fetch-count d.discovery.address opts.deep_dive_max_pages opts.deep_dive_max_tx s,
                ))
          ])
        ]

    deep_dives-count :
        (sel : Selection) (s : S)
        → count (deep_dives sha256_hex client opts (sel, s)).1
          ≤ count s + pos_part opts.deep_dive_top_n * (pos_part opts.deep_dive_max_pages * per_page)
    unfolding deep_dives
    deep_dives-count sel s = ground (
      arith,
      dive_loop-count (pos_part opts.deep_dive_top_n) 0 (sort_by dive_before sel.queue) sel s
          (omega arith),
    )

    -- The requests for the candidates and for the deep dives.
    abbrev pub wallet_requests : ℕ
    wallet_requests =
        pos_part opts.max_candidates * (pos_part opts.candidate_max_pages * per_page)
        + pos_part opts.deep_dive_top_n * (pos_part opts.deep_dive_max_pages * per_page)

    abbrev pub seed_requests : ℕ
    seed_requests = pos_part opts.max_seed_wallets * (pos_part opts.seed_max_pages * per_page)

    pub select_wallets-count_requests :
        (f : Found) (s : S) (n : ℕ)
        → opts.max_candidates ≡ pos (suc n)
        → count (select_wallets sha256_hex client opts f s).1 ≤ count s + wallet_requests
    unfolding select_wallets
    select_wallets-count_requests f s n h =
        let found = cap_list opts.max_candidates (sorted_discoveries f.discovered) in
        let seen = examine sha256_hex client opts found nothing_selected s in
        omega (arith, deep_dives-count seen.0 seen.1, examine-count found nothing_selected s, few)
      where
        few :
            length (cap_list opts.max_candidates (sorted_discoveries f.discovered))
              * (pos_part opts.candidate_max_pages * per_page)
            ≤ pos_part opts.max_candidates * (pos_part opts.candidate_max_pages * per_page)
        few = rw h (mul-le-mul_right _ (cap_list-bounded n (sorted_discoveries f.discovered)))
