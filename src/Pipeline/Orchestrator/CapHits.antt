-- ===== src/Pipeline/Orchestrator/CapHits.antt =====
-- The texts that the orchestrator looks for in the reasons of a wallet.
use poison_trace.Base.{false, ◌≡◌, refl}
use poison_trace.Text.{contains}
use poison_trace.Pipeline.Fetch.{
  TruncationCode, no_code, max_tx_pages_per_wallet_reached, max_tx_per_wallet_reached,
  helius_retry_exhausted,
}
use poison_trace.Pipeline.Core.{truncation_reason}
use poison_trace.Pipeline.Core.Sync.{code_text}
use poison_trace.Pipeline.Runner.{merge_truncation_reason}
use poison_trace.Pipeline.Orchestrator.{is_cap_hit}
use poison_trace.Text.{join}
use poison_trace.Text.Trim.{is_blank}

-- Whatever truncated the two windows, the merged reason is not counted as a cap hit.
pub is_cap_hit-false :
    (baseline scan : TruncationCode)
    → is_cap_hit (merge_truncation_reason (code_text baseline) (code_text scan)) ≡ false
unfolding is_cap_hit merge_truncation_reason code_text contains truncation_reason join is_blank
is_cap_hit-false no_code no_code = refl
is_cap_hit-false no_code max_tx_pages_per_wallet_reached = refl
is_cap_hit-false no_code max_tx_per_wallet_reached = refl
is_cap_hit-false no_code helius_retry_exhausted = refl
is_cap_hit-false max_tx_pages_per_wallet_reached no_code = refl
is_cap_hit-false max_tx_pages_per_wallet_reached max_tx_pages_per_wallet_reached = refl
is_cap_hit-false max_tx_pages_per_wallet_reached max_tx_per_wallet_reached = refl
is_cap_hit-false max_tx_pages_per_wallet_reached helius_retry_exhausted = refl
is_cap_hit-false max_tx_per_wallet_reached no_code = refl
is_cap_hit-false max_tx_per_wallet_reached max_tx_pages_per_wallet_reached = refl
is_cap_hit-false max_tx_per_wallet_reached max_tx_per_wallet_reached = refl
is_cap_hit-false max_tx_per_wallet_reached helius_retry_exhausted = refl
is_cap_hit-false helius_retry_exhausted no_code = refl
is_cap_hit-false helius_retry_exhausted max_tx_pages_per_wallet_reached = refl
is_cap_hit-false helius_retry_exhausted max_tx_per_wallet_reached = refl
is_cap_hit-false helius_retry_exhausted helius_retry_exhausted = refl
