-- ===== src/Transactions/Positions.antt =====
-- The number and the numbering of the transfers of a transaction.
use mathlib.Core.List.{map-append}
use native.Mathlib.Nat.{zero-add}
use poison_trace.Base.{
  ◌≢◌, ℕ, zero, suc, ◌+◌, List, [], ◌∷◌, ◌++◌, map, some, length, ◌≡◌, refl, ap, true, arith,
}
use poison_trace.Text.{Str, is_empty}
use poison_trace.Helius.{NativeTransfer, TokenTransfer, EnhancedTransaction}
use poison_trace.Transactions.{NormalizedTransfer}
use poison_trace.Transactions.Normalize.{
  native_transfer, token_transfer, native_loop, token_loop, normalize_enhanced_tx,
}

-- The `n` numbers from `start`.
abbrev pub count_up : ℕ → ℕ → List ℕ
count_up start zero = []
count_up start (suc n) = start ∷ count_up (start + 1) n

abbrev pub indexes : List NormalizedTransfer → List ℕ
indexes = map (λ tr. tr.transfer_index)

count_up-append : (i m n : ℕ) → count_up i m ++ count_up (i + m) n ≡ count_up i (m + n)
count_up-append i zero n = ground arith
count_up-append i (suc m) n =
    let moved : i + suc m ≡ (i + 1) + m = omega arith in
    let grown : suc m + n ≡ suc (m + n) = omega arith in
    rw (moved, grown) (ap (◌∷◌ i) (count_up-append (i + 1) m n))

empty→nil : (s : Str) → is_empty s ≡ true → s ≡ []
empty→nil [] h = refl
empty→nil (c ∷ s) h = cc

module _ (sha256_hex : Str → Str) (tx : EnhancedTransaction) where
  native_indexes :
      (i : ℕ) (nts : List NativeTransfer)
      → indexes (native_loop sha256_hex tx i nts) ≡ count_up i (length nts)
  unfolding native_loop native_transfer
  native_indexes i [] = refl
  native_indexes i (nt ∷ nts) = rw (native_indexes (i + 1) nts)

  token_indexes :
      (i : ℕ) (tts : List TokenTransfer)
      → indexes (token_loop sha256_hex tx i tts) ≡ count_up i (length tts)
  unfolding token_loop token_transfer
  token_indexes i [] = refl
  token_indexes i (nt ∷ tts) = rw (token_indexes (i + 1) tts)

  numbered :
      indexes (
        native_loop sha256_hex tx 0 tx.native_transfers
        ++ token_loop sha256_hex tx (length tx.native_transfers) tx.token_transfers)
      ≡ count_up 0 (length tx.native_transfers + length tx.token_transfers)
  numbered =
      rw (map-append, native_indexes, token_indexes)
        (rw zero-add at
          (count_up-append 0 (length tx.native_transfers) (length tx.token_transfers)))

  -- A transaction that is normalized has a signature, and gives one transfer for each of its native
  -- and token transfers, numbered from 0 in order.
  pub normalize_enhanced_tx-indexes :
      (trs : List NormalizedTransfer)
      → normalize_enhanced_tx sha256_hex tx ≡ some trs
      → (tx.signature ≢ [])
        × (indexes trs ≡ count_up 0 (length tx.native_transfers + length tx.token_transfers))
  unfolding normalize_enhanced_tx
  normalize_enhanced_tx-indexes trs e =
      (ground (arith, empty→nil tx.signature), ground (arith, numbered))
