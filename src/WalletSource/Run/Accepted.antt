-- ===== src/WalletSource/Run/Accepted.antt =====
-- The wallets that a source run accepts.
use poison_trace.Base.{
  ℕ, suc, ◌+◌, ◌≤◌, pos, pos_part, ltb_ℤ, leb_ℤ, Bool, true, false, not, ◌&&◌, List, [], ◌∷◌,
  Option, none, some, if◌then◌else◌, length, is_nil, All, subst, ◌≡◌, inl, inr, Bool-cases,
}
use poison_trace.Text.{Str, codes}
use poison_trace.Text.Sort.{sort_by}
use poison_trace.Errors.{Action, ok}
use poison_trace.Errors.Actions.{OnOk, proceed-OnOk}
use poison_trace.Helius.{Client}
use poison_trace.WalletSource.{Options, SourceResult, CandidateDiscovery, DeepDiveCandidate}
use poison_trace.WalletSource.Choice.{with_defaults, dive_before}
use poison_trace.WalletSource.Discovery.{sorted_discoveries, Files, load_seed_wallets}
use poison_trace.WalletSource.Report.{write_accepted, write_rejected}
use poison_trace.WalletSource.Select.{cap_list, Selection, cap_reason, is_target_reached}
use poison_trace.WalletSource.Select.Eligible.{
  IsWanted, AllEligible, skip_dive-AllEligible, candidate_step-AllEligible, dive_step-AllEligible,
  choose_accepted-IsWanted, choose_accepted-bounded,
}
use poison_trace.WalletSource.Run.{
  Found, discover, examine, dive_loop, deep_dives, select_wallets, nothing_selected, nothing_found,
  write_result, source_seeds, option_error, guarded, source,
}
use poison_trace.WalletSource.Run.Positive.{target_count-positive}

if-OnOk :
    {S A : Type 0} (P : A → Type 0) (b : Bool) (x y : Action S A) (s : S)
    → OnOk P (x s)
    → OnOk P (y s)
    → OnOk P ((if b then x else y) s)
if-OnOk P true x y s h k = h
if-OnOk P false x y s h k = k

guarded-OnOk :
    {S A : Type 0} (P : A → Type 0) (e : Option Str) (m : Action S A) (s : S)
    → OnOk P (m s)
    → OnOk P (guarded e m s)
unfolding guarded
guarded-OnOk P none m s h = h
guarded-OnOk P (some text) m s h = tt

module _ {S : Type 0} (client : Client S) (sha256_hex : Str → Str) (opts : Options) where
  examine-AllEligible :
      (list : List CandidateDiscovery) (sel : Selection) (s : S)
      → AllEligible opts sel
      → AllEligible opts (examine sha256_hex client opts list sel s).0
  unfolding examine
  examine-AllEligible [] sel s h = h
  examine-AllEligible (c ∷ rest) sel s h =
      examine-AllEligible rest _ _ (candidate_step-AllEligible opts sha256_hex c _ sel h)

  dive_loop-AllEligible :
      (idx : ℕ) (list : List DeepDiveCandidate) (sel : Selection) (s : S)
      → AllEligible opts sel
      → AllEligible opts (dive_loop sha256_hex client opts idx list sel s).0
  unfolding dive_loop
  dive_loop-AllEligible idx [] sel s h = h
  dive_loop-AllEligible idx (d ∷ rest) sel s h =
      elim (Bool-cases (leb_ℤ opts.deep_dive_top_n (pos idx))) [
        | inl e ↦ rw e (
            dive_loop-AllEligible (idx + 1) rest _ s
              (skip_dive-AllEligible opts d (cap_reason d) sel h))
        | inr e ↦ rw e (elim (Bool-cases (is_target_reached opts (length sel.eligible))) [
          | inl e ↦ rw e (
              dive_loop-AllEligible (idx + 1) rest _ s
                (skip_dive-AllEligible opts d (codes "target_count_reached") sel h))
          | inr e ↦ rw e (
              dive_loop-AllEligible (idx + 1) rest _ _
                (dive_step-AllEligible opts sha256_hex d _ sel h))
        ])
      ]

  deep_dives-AllEligible :
      (sel : Selection) (s : S)
      → AllEligible opts sel
      → AllEligible opts (deep_dives sha256_hex client opts (sel, s)).0
  unfolding deep_dives
  deep_dives-AllEligible sel s h =
      elim (Bool-cases (not (is_nil sel.queue) && ltb_ℤ (pos 0) opts.deep_dive_top_n)) [
        | inl e ↦ rw e (dive_loop-AllEligible 0 (sort_by dive_before sel.queue) sel s h)
        | inr e ↦ rw e h
      ]

  -- The accepted wallets are wanted, and no more than the target.
  abbrev pub IsChoice : SourceResult → Type 0
  IsChoice r = All (IsWanted opts) r.accepted × (length r.accepted ≤ pos_part opts.target_count)

  select_wallets-IsChoice :
      (f : Found) (s : S)
      → ((n : ℕ) × (opts.target_count ≡ pos (suc n)))
      → IsChoice (select_wallets sha256_hex client opts f s).0
  unfolding select_wallets
  select_wallets-IsChoice f s t =
      let found = cap_list opts.max_candidates (sorted_discoveries f.discovered) in
      let seen = examine sha256_hex client opts found nothing_selected s in
      let sel = (deep_dives sha256_hex client opts seen).0 in
      (
        choose_accepted-IsWanted opts sel (
            deep_dives-AllEligible seen.0 seen.1 (examine-AllEligible found nothing_selected s tt)),
        within_target t.0 t.1 (choose_accepted-bounded opts t.0 sel t.1),
      )
    where
      within_target :
          (n : ℕ)
          → opts.target_count ≡ pos (suc n)
          → {m : ℕ} → m ≤ suc n
          → m ≤ pos_part opts.target_count
      within_target n e h = rw e h

  write_result-OnOk :
      (files : Files S) (r : SourceResult) (s : S)
      → IsChoice r
      → OnOk IsChoice (write_result sha256_hex client opts files r s)
  unfolding write_result
  write_result-OnOk files r s h =
      proceed-OnOk IsChoice (write_accepted files opts.out_path r.accepted s) _ (λ _ t.
        proceed-OnOk IsChoice (write_rejected files opts.rejected_out_path r.rejected t) _
          (λ _ u. h))

  source_seeds-OnOk :
      (files : Files S) (seeds : List Str) (s : S)
      → ((n : ℕ) × (opts.target_count ≡ pos (suc n)))
      → OnOk IsChoice (source_seeds sha256_hex client opts files seeds s)
  unfolding source_seeds
  source_seeds-OnOk files seeds s t = if-OnOk IsChoice (is_nil seeds) _ _ s tt (
      proceed-OnOk IsChoice
        (discover sha256_hex client opts (cap_list opts.max_seed_wallets seeds) nothing_found s) _
        (λ f u.
          write_result-OnOk files (select_wallets sha256_hex client opts f u).0 _
            (select_wallets-IsChoice f u t)))

source-OnOk :
    {S : Type 0} (client : Client S) (sha256_hex : Str → Str) (files : Files S) (opts : Options)
    (s : S)
    → OnOk
        (IsChoice client sha256_hex (with_defaults opts))
        (source sha256_hex (some client) files opts s)
unfolding source
source-OnOk client sha256_hex files opts s =
    guarded-OnOk (IsChoice client sha256_hex (with_defaults opts)) (option_error opts) _ s (
      proceed-OnOk (IsChoice client sha256_hex (with_defaults opts))
        (load_seed_wallets files opts.seed_wallet_file opts.seed_wallets s) _
        (λ seeds t.
          source_seeds-OnOk client sha256_hex (with_defaults opts) files seeds t
            (target_count-positive opts)))

-- If a run gives a result: no more wallets are accepted than the target, and each has been sampled
-- within the limit, with the outbound transfers and the dust that the options ask for; where the dust
-- that is sent counts, it went to as many recipients as they ask for. The defaults of the options are
-- in place.
pub source-IsChoice :
    {S : Type 0} (client : Client S) (sha256_hex : Str → Str) (files : Files S) (opts : Options)
    (s : S) (r : SourceResult) (t : S)
    → source sha256_hex (some client) files opts s ≡ (ok r, t)
    → All (IsWanted (with_defaults opts)) r.accepted
      × (length r.accepted ≤ pos_part (with_defaults opts).target_count)
source-IsChoice client sha256_hex files opts s r t e =
    subst (OnOk (IsChoice client sha256_hex (with_defaults opts))) e
      (source-OnOk client sha256_hex files opts s)
