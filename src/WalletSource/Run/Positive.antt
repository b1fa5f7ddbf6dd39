-- ===== src/WalletSource/Run/Positive.antt =====
-- The limits of a source run with the defaults in place.
use poison_trace.Base.{ℕ, zero, suc, ℤ, pos, negsuc, ◌≡◌, refl, arith}
use poison_trace.WalletSource.{Options}
use poison_trace.WalletSource.Choice.{with_defaults, or_default}

pub or_default-positive : (v : ℤ) (d : ℕ) → (n : ℕ) × (or_default v (pos (suc d)) ≡ pos (suc n))
or_default-positive (pos zero) d = (d, refl)
or_default-positive (pos (suc n)) d = (n, ground arith)
or_default-positive (negsuc n) d = (d, ground arith)

pub max_candidates-positive :
    (opts : Options) → (n : ℕ) × ((with_defaults opts).max_candidates ≡ pos (suc n))
unfolding with_defaults
max_candidates-positive opts = or_default-positive opts.max_candidates 99

pub max_seed_wallets-positive :
    (opts : Options) → (n : ℕ) × ((with_defaults opts).max_seed_wallets ≡ pos (suc n))
unfolding with_defaults
max_seed_wallets-positive opts = or_default-positive opts.max_seed_wallets 9

pub target_count-positive :
    (opts : Options) → (n : ℕ) × ((with_defaults opts).target_count ≡ pos (suc n))
unfolding with_defaults
target_count-positive opts = or_default-positive opts.target_count 29
