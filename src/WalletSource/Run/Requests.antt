-- ===== src/WalletSource/Run/Requests.antt =====
-- The requests of a whole run, with its files.
use native.Mathlib.Nat.{mul-le-mul_right}
use poison_trace.Base.{
  ℕ, suc, ◌+◌, ◌*◌, ◌≤◌, ℤ, pos, pos_part, false, List, Option, none, some, length, is_nil, ◌≡◌,
  refl, arith,
}
use poison_trace.Text.{Str, codes, is_empty}
use poison_trace.Errors.{ErrorChain, Action}
use poison_trace.Helius.{Client}
use poison_trace.Pipeline.Fetch.Calls.{CountsRequests}
use poison_trace.WalletSource.{Options, SourceResult, AcceptedWallet, RejectedWallet}
use poison_trace.WalletSource.Choice.{with_defaults}
use poison_trace.WalletSource.Discovery.{
  Files, FileLines, lines, cannot_open, broken, after_read, read_wallet_lines, load_seed_wallets,
}
use poison_trace.WalletSource.Report.{
  write_accepted, write_rejected, after_mkdir, written, accepted_text, rejected_text,
}
use poison_trace.WalletSource.Select.{cap_list}
use poison_trace.WalletSource.Run.{
  discover, select_wallets, nothing_found, write_result, source_seeds, option_error, guarded,
  source, as_candidates, source_discovered,
}
use poison_trace.WalletSource.Run.Positive.{max_candidates-positive, max_seed_wallets-positive}
use poison_trace.WalletSource.Run.Calls.{
  cap_list-bounded, proceed-count, if-count, at_most, per_page, wallet_requests, seed_requests,
  discover-count, discover-quiet, select_wallets-count_requests,
}

-- The file system is not the provider.
pub record KeepsCount {S : Type 0} (files : Files S) (count : S → ℕ) : Type 0 where
  pub reading : (path : Str) (s : S) → count (files.read_lines path s).1 ≤ count s
  pub making : (path : Str) (s : S) → count (files.mkdir_all path s).1 ≤ count s
  pub writing : (path text : Str) (s : S) → count (files.write_file path text s).1 ≤ count s

as_candidates-quiet :
    (opts : Options) (seeds : List Str)
    → (with_defaults (as_candidates seeds opts)).discover_neighbors ≡ false
unfolding with_defaults as_candidates
as_candidates-quiet opts seeds = refl

cap_list-at_most {ℓ} :
    {A : Type ℓ} (n : ℕ) (m : ℤ) (xs : List A)
    → m ≡ pos (suc n)
    → length (cap_list m xs) ≤ pos_part m
cap_list-at_most n m xs e = rw e (cap_list-bounded n xs)

module _ {S : Type 0} (files : Files S) (count : S → ℕ) (quiet : KeepsCount files count) where
  written-count : (r : Option ErrorChain × S) → count (written r).1 ≡ count r.1
  unfolding written
  written-count (none, s) = refl
  written-count (some e, s) = refl

  after_mkdir-count :
      (path what text : Str) (r : Option ErrorChain × S)
      → count (after_mkdir files path what text r).1 ≤ count r.1
  unfolding after_mkdir
  after_mkdir-count path what text (none, s) =
      omega (arith, written-count (files.write_file path text s), quiet.writing path text s)
  after_mkdir-count path what text (some e, s) =
      ground (arith, written-count (files.write_file path text s), quiet.writing path text s)

  write_accepted-count :
      (path : Str) (rows : List AcceptedWallet) (s : S)
      → count (write_accepted files path rows s).1 ≤ count s
  unfolding write_accepted
  write_accepted-count path rows s =
      at_most count
        (after_mkdir-count path (codes "create accepted output dir") (accepted_text rows)
          (files.mkdir_all (files.dir path) s))
        (quiet.making (files.dir path) s)

  write_rejected-count :
      (path : Str) (rows : List RejectedWallet) (s : S)
      → count (write_rejected files path rows s).1 ≤ count s
  unfolding write_rejected
  write_rejected-count path rows s =
      at_most count
        (after_mkdir-count path (codes "create rejected output dir") (rejected_text rows)
          (files.mkdir_all (files.dir path) s))
        (quiet.making (files.dir path) s)

  after_read-count : (path : Str) (r : FileLines × S) → count (after_read path r).1 ≡ count r.1
  unfolding after_read
  after_read-count path (lines ls, s) = refl
  after_read-count path (cannot_open e, s) = refl
  after_read-count path (broken e, s) = refl

  load_seed_wallets-count :
      (path : Str) (explicit : List Str) (s : S)
      → count (load_seed_wallets files path explicit s).1 ≤ count s
  unfolding load_seed_wallets read_wallet_lines
  load_seed_wallets-count path explicit s = if-count count (is_empty path) _ _ s _ (omega arith) (
      at_most count
        (proceed-count count (read_wallet_lines files path s) _ (count s) 0 0
          (omega (arith, after_read-count path (files.read_lines path s), quiet.reading path s))
          (λ wallets t. omega arith))
        (omega arith))

  guarded-count :
      {A : Type 0} (e : Option Str) (m : Action S A) (s : S) (n : ℕ)
      → count s ≤ n
      → count (m s).1 ≤ n
      → count (guarded e m s).1 ≤ n
  unfolding guarded
  guarded-count none m s n h k = k
  guarded-count (some text) m s n h k = h

  write_result-count :
      (client : Client S) (sha256_hex : Str → Str) (opts : Options) (r : SourceResult) (s : S)
      → count (write_result sha256_hex client opts files r s).1 ≤ count s
  unfolding write_result
  write_result-count client sha256_hex opts r s =
      at_most count
        (proceed-count count (write_accepted files opts.out_path r.accepted s) _ (count s) 0 0
          (omega (arith, write_accepted-count opts.out_path r.accepted s))
          (λ _ t.
            at_most count
              (proceed-count count (write_rejected files opts.rejected_out_path r.rejected t) _
                (count t) 0 0
                (omega (arith, write_rejected-count opts.rejected_out_path r.rejected t))
                (λ _ u. omega arith))
              (omega arith)))
        (omega arith)

  module _ (client : Client S) (counts : CountsRequests client count) (sha256_hex : Str → Str) where
    source_seeds-count :
        (opts : Options) (seeds : List Str) (s : S) (q : ℕ)
        → ((n : ℕ) × (opts.max_candidates ≡ pos (suc n)))
        → ((t : S)
            → count
                (discover sha256_hex client opts
                  (cap_list opts.max_seed_wallets seeds)
                  nothing_found
                  t).1
              ≤ count t + q)
        → count (source_seeds sha256_hex client opts files seeds s).1
          ≤ count s + (q + wallet_requests count client counts sha256_hex opts)
    unfolding source_seeds
    source_seeds-count opts seeds s q h d = if-count count (is_nil seeds) _ _ s _ (omega arith) (
        proceed-count count
          (discover sha256_hex client opts (cap_list opts.max_seed_wallets seeds) nothing_found s) _
          (count s) q (wallet_requests count client counts sha256_hex opts) (d s)
          (λ f t.
            at_most count
              (write_result-count client sha256_hex opts
                (select_wallets sha256_hex client opts f t).0
                (select_wallets sha256_hex client opts f t).1)
              (select_wallets-count_requests count client counts sha256_hex opts f t h.0 h.1)))

    source-count_by :
        (opts : Options) (s : S) (q : ℕ)
        → ((seeds : List Str) (t : S)
            → count
                (discover sha256_hex client
                  (with_defaults opts)
                  (cap_list (with_defaults opts).max_seed_wallets seeds)
                  nothing_found
                  t).1
              ≤ count t + q)
        → count (source sha256_hex (some client) files opts s).1
          ≤ count s + (q + wallet_requests count client counts sha256_hex (with_defaults opts))
    unfolding source
    source-count_by opts s q d = guarded-count (option_error opts) _ s _ (omega arith) (
        at_most count
          (proceed-count count (load_seed_wallets files opts.seed_wallet_file opts.seed_wallets s) _
            (count s) 0 (q + wallet_requests count client counts sha256_hex (with_defaults opts))
            (omega (arith, load_seed_wallets-count opts.seed_wallet_file opts.seed_wallets s))
            (λ seeds t.
              source_seeds-count (with_defaults opts) seeds t q (max_candidates-positive opts)
                (d seeds)))
          (omega arith))

    -- By a count that a request raises by at most one, and a wait and the files do not raise, a run
    -- makes at most `max_seed_wallets * seed_max_pages + max_candidates * candidate_max_pages +
    -- deep_dive_top_n * deep_dive_max_pages` page requests, each at most `max_retries + 1` times, with
    -- the defaults of the options in place and whatever the provider answers.
    pub source-count :
        (opts : Options) (s : S)
        → count (source sha256_hex (some client) files opts s).1
          ≤ count s
            + (seed_requests count client counts sha256_hex (with_defaults opts)
                + wallet_requests count client counts sha256_hex (with_defaults opts))
    source-count opts s =
        source-count_by opts s (seed_requests count client counts sha256_hex (with_defaults opts))
          (λ seeds t.
            at_most count
              (discover-count count client counts sha256_hex (with_defaults opts)
                (cap_list (with_defaults opts).max_seed_wallets seeds) nothing_found t)
              (few_seeds (with_defaults opts) (max_seed_wallets-positive opts) seeds t))
      where
        few_seeds :
            (d : Options)
            → ((n : ℕ) × (d.max_seed_wallets ≡ pos (suc n)))
            → (seeds : List Str) (t : S)
            → count t
                + length (cap_list d.max_seed_wallets seeds)
                  * (pos_part d.seed_max_pages * per_page count client counts sha256_hex d)
              ≤ count t + seed_requests count client counts sha256_hex d
        few_seeds d h seeds t = omega (
          arith,
          mul-le-mul_right (pos_part d.seed_max_pages * per_page count client counts sha256_hex d)
              (cap_list-at_most h.0 d.max_seed_wallets seeds h.1),
        )

    -- With the seeds given as candidates, no request is made for the seeds.
    pub source_discovered-count :
        (opts : Options) (seeds : List Str) (s : S)
        → count (source_discovered sha256_hex (some client) files seeds opts s).1
          ≤ count s
            + wallet_requests count client counts sha256_hex
                (with_defaults (as_candidates seeds opts))
    unfolding source_discovered
    source_discovered-count opts seeds s =
        at_most count
          (source-count_by (as_candidates seeds opts) s 0 (λ found t.
            at_most count
              (discover-quiet count client counts sha256_hex
                (with_defaults (as_candidates seeds opts))
                (cap_list (with_defaults (as_candidates seeds opts)).max_seed_wallets found)
                nothing_found t (as_candidates-quiet opts seeds))
              (omega arith)))
          (omega arith)
