-- ===== src/Helius.antt =====
-- internal/helius: the enhanced transactions of the provider, its pages and the client's errors.
-- The client itself (HTTP, JSON) is a parameter of what uses it.
use poison_trace.Base.{
  ℕ, ℤ, Bool, true, false, ◌||◌, List, Option, none, some, ◌==◌, leb, if◌then◌else◌,
}
use poison_trace.Text.{Str, codes, contains}
use poison_trace.Text.Case.{to_lower}
use poison_trace.Time.{Time, unix}
use poison_trace.Errors.{ErrorChain}

pub record NativeTransfer : Type 0 where
  pub from_user_account : Str
  pub to_user_account : Str
  pub amount : Str

pub record TokenAmount : Type 0 where
  pub amount : Str
  pub decimals : Option ℤ

pub record TokenTransfer : Type 0 where
  pub from_user_account : Str
  pub to_user_account : Str
  pub from_token_account : Str
  pub to_token_account : Str
  pub mint : Str
  pub token_amount : TokenAmount
  pub token_standard : Str
  pub instruction_index : Option ℤ
  pub inner_index : Option ℤ

-- `TransactionError` is of type `any`: here its text, if it is not nil. The timestamp is a block
-- time, and so not negative.
pub record EnhancedTransaction : Type 0 where
  pub signature : Str
  pub slot : ℤ
  pub timestamp_unix : ℕ
  pub transaction_error : Option Str
  pub native_transfers : List NativeTransfer
  pub token_transfers : List TokenTransfer

pub record EnhancedPage : Type 0 where
  pub transactions : List EnhancedTransaction
  pub before : Str

unfoldable pub block_time_utc : EnhancedTransaction → Time
unfolding unix
block_time_utc t = unix t.timestamp_unix

unfoldable pub is_success : EnhancedTransaction → Bool
is_success t = elim t.transaction_error [ none ↦ true | some _ ↦ false ]

unfoldable pub is_retryable : ErrorChain → Bool
is_retryable e = if e.is_canceled || e.is_deadline_exceeded then false else elim e.status_code [
  | some code ↦ code == 429 || leb 500 code
  | none ↦
      if e.is_net_error
      then true
      else let msg = to_lower e.message in
        contains msg (codes "connection reset")
        || contains msg (codes "broken pipe")
        || contains msg (codes "eof")
        || contains msg (codes "timeout")
]

-- What one request gives.
pub data PageReply : Type 0 where
  page : EnhancedPage → PageReply
  refused : ErrorChain → PageReply

-- The interface `Client`, over the state `S` of the world that it talks to, and the wait of
-- `sleepContext`, which ends with the error of the context if that is done first.
pub record Client (S : Type 0) : Type 0 where
  pub fetch_enhanced_page : Str → Str → S → PageReply × S
  pub sleep : ℕ → S → Option ErrorChain × S
