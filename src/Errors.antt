-- ===== src/Errors.antt =====
-- Go's `error` values, as `errors.Is` and `errors.As` see the chain that one wraps, with its text.
pub mod Actions
use poison_trace.Base.{ℕ, Bool, false, Option, none, ◌++◌}
use poison_trace.Text.{Str, codes}

-- Whether the chain holds a context's cancellation or deadline, `ErrWalletAlreadyLocked`, a
-- `StatusError` (and its code) or a `net.Error`.
pub record ErrorChain : Type 0 where
  pub is_canceled : Bool
  pub is_deadline_exceeded : Bool
  pub is_wallet_locked : Bool
  pub status_code : Option ℕ
  pub is_net_error : Bool
  pub message : Str

-- `fmt.Errorf(text)` with nothing wrapped.
abbrev pub plain : Str → ErrorChain
plain text = record {
  is_canceled = false;
  is_deadline_exceeded = false;
  is_wallet_locked = false;
  status_code = none;
  is_net_error = false;
  message = text;
}

-- `fmt.Errorf("text: %w", err)`.
abbrev pub wrap : Str → ErrorChain → ErrorChain
wrap text err = record err { message = text ++ (codes ": " ++ err.message) }

-- A result and an error, of which the caller reads one.
pub data Result {ℓ} (A : Type ℓ) : Type ℓ where
  ok : A → Result A
  err : ErrorChain → Result A

infixl 5 ◌>>=◌
abbrev pub ◌>>=◌ {ℓ κ} : {A : Type ℓ} {B : Type κ} → Result A → (A → Result B) → Result B
ok a >>= f = f a
err e >>= f = err e

-- Code that may fail and that changes the world's state `S`.
abbrev pub Action : Type 0 → Type 0 → Type 0
Action S A = S → Result A × S
