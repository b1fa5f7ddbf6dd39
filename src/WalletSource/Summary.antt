-- ===== src/WalletSource/Summary.antt =====
-- `summarizeWallet`: what the fetched transactions of one wallet say about it. A map is an
-- association list, a set the list of its members; the loops over them sum and so have no order.
use poison_trace.Base.{
  ℕ, ◌+◌, ◌*◌, max, leb, Bool, true, false, not, ◌&&◌, ◌||◌, List, [], ◌∷◌, Option, none, some,
  if◌then◌else◌, ◌==◌, foldl, length, any, count_by,
}
use poison_trace.Text.{Str, str_eq, is_empty}
use poison_trace.Time.{Time, before}
use poison_trace.Dict.{Dict, get_or, put, add}
use poison_trace.Helius.{EnhancedTransaction, block_time_utc}
use poison_trace.Transactions.{NormalizedTransfer, DustStatus, dust_true, dust_false, dust_unknown}
use poison_trace.Transactions.Normalize.{is_resolved, normalize_enhanced_tx}
use poison_trace.Pipeline.Candidate.Lookalike.{common_prefix_length, common_suffix_length}
use poison_trace.WalletSource.{WalletStats, victim_inbound_dust, attacker_outbound_dust}
use poison_trace.WalletSource.Amounts.{source_dust_status, transfer_needs_known_dust_threshold}

unfoldable pub source_score : WalletStats → ℕ
source_score stats =
    stats.lookalike_inbound_dust_matches * 100
    + stats.repeated_inbound_dust_counterparts * 50
    + stats.scan_inbound_dust_transfers * 10
    + stats.legit_outbound_counterparties * 3
    + stats.discovered_from_seeds

-- The package has its own `commonPrefixLength` and `commonSuffixLength`, the same code as the
-- pipeline's.
unfoldable pub has_lookalike_match : Str → List Str → Bool
has_lookalike_match suspicious legit =
    any
      (λ candidate.
        let prefix = common_prefix_length suspicious candidate in
        let suffix = common_suffix_length suspicious candidate in
        (leb 4 prefix && leb 4 suffix) || leb 6 prefix || leb 6 suffix)
      legit

abbrev pub is_dust_true : DustStatus → Bool
is_dust_true dust_true = true
is_dust_true dust_false = false
is_dust_true dust_unknown = false

abbrev pub is_dust_false : DustStatus → Bool
is_dust_false dust_true = false
is_dust_false dust_false = true
is_dust_false dust_unknown = false

-- `m[k]++` on a map from timestamps to counts.
unfoldable pub count_of : ℕ → List (ℕ × ℕ) → ℕ
count_of k [] = 0
count_of k ((j, n) ∷ m) = if j == k then n else count_of k m

unfoldable pub count_up : ℕ → List (ℕ × ℕ) → List (ℕ × ℕ)
count_up k [] = (k, 1) ∷ []
count_up k ((j, n) ∷ m) = if j == k then (j, n + 1) ∷ m else (j, n) ∷ count_up k m

-- The variables of the loops over the transactions and their transfers.
pub record Sample : Type 0 where
  pub outbound : ℕ
  pub inbound : ℕ
  pub unknown_dust_spl : ℕ
  pub max_same_timestamp : ℕ
  pub max_transfers : ℕ
  pub transfers_in_tx : ℕ
  pub counterparties : List Str
  pub legit_outbound : List Str
  pub dust_by_counterparty : Dict ℕ
  pub same_timestamp : List (ℕ × ℕ)

abbrev pub empty_sample : Sample
empty_sample = record {
  outbound = 0;
  inbound = 0;
  unknown_dust_spl = 0;
  max_same_timestamp = 0;
  max_transfers = 0;
  transfers_in_tx = 0;
  counterparties = [];
  legit_outbound = [];
  dust_by_counterparty = [];
  same_timestamp = [];
}

-- `scanInboundDustByCounterparty[counterparty]++`.
unfoldable pub count_dust : Str → Sample → Sample
count_dust counterparty s = record s {
  dust_by_counterparty =
      put s.dust_by_counterparty counterparty (get_or s.dust_by_counterparty counterparty 0 + 1);
}

-- `other != "" && other != address`.
abbrev pub is_other : Str → Str → Bool
is_other address name = not (is_empty name) && not (str_eq name address)

module _ (address : Str) (scan_start : Time) (thresholds : Dict ℕ) (source_mode : Str) where
  unfoldable pub count_unknown : NormalizedTransfer → Sample → Sample
  count_unknown tr s =
      if transfer_needs_known_dust_threshold tr thresholds
      then record s { unknown_dust_spl = s.unknown_dust_spl + 1 }
      else s

  -- The case of a transfer that the wallet sends.
  unfoldable pub see_outbound : Time → NormalizedTransfer → Sample → Sample
  unfolding count_unknown
  see_outbound at tr s =
      let counted = record s {
        outbound = s.outbound + 1;
        transfers_in_tx = s.transfers_in_tx + 1;
      } in
      let known = record counted {
        counterparties = add s.counterparties tr.destination_owner_address;
      } in
      let legit = record known {
        legit_outbound = add s.legit_outbound tr.destination_owner_address;
      } in
      count_unknown tr (
        if not (is_other address tr.destination_owner_address)
        then counted
        else if before at scan_start && is_dust_false (source_dust_status tr thresholds)
        then legit
        else known)

  -- The case of a transfer that the wallet receives.
  unfoldable pub see_inbound : Time → NormalizedTransfer → Sample → Sample
  unfolding count_unknown count_dust
  see_inbound at tr s =
      let counted = record s { inbound = s.inbound + 1; transfers_in_tx = s.transfers_in_tx + 1 } in
      let known = record counted {
        counterparties = add s.counterparties tr.source_owner_address;
      } in
      count_unknown tr (
        if not (is_other address tr.source_owner_address)
        then counted
        else if str_eq source_mode victim_inbound_dust
            && not (before at scan_start)
            && is_dust_true (source_dust_status tr thresholds)
        then count_dust tr.source_owner_address known
        else known)

  -- The test after the cases: dust that the wallet sends, in the other mode.
  unfoldable pub see_outbound_dust : Time → NormalizedTransfer → Sample → Sample
  unfolding count_dust
  see_outbound_dust at tr s =
      if str_eq source_mode attacker_outbound_dust
        && str_eq tr.source_owner_address address
        && is_other address tr.destination_owner_address
        && not (before at scan_start)
        && is_dust_true (source_dust_status tr thresholds)
      then count_dust tr.destination_owner_address s
      else s

  -- The body of the loop over the transfers of a transaction.
  unfoldable pub see_transfer : Time → Sample → NormalizedTransfer → Sample
  unfolding see_outbound see_inbound see_outbound_dust
  see_transfer at s tr =
      if not tr.poisoning_eligible || not (is_resolved tr.normalization_status)
      then s
      else see_outbound_dust at tr (
          if str_eq tr.source_owner_address address
          then see_outbound at tr s
          else if str_eq tr.destination_owner_address address
          then see_inbound at tr s
          else s)

  -- `sameTimestamp[tx.TimestampUnix]++` and the maximum after it.
  unfoldable pub see_timestamp : Sample → EnhancedTransaction → Sample
  unfolding count_of count_up
  see_timestamp s tx =
      let counts = count_up tx.timestamp_unix s.same_timestamp in
      record s {
        same_timestamp = counts;
        max_same_timestamp = max s.max_same_timestamp (count_of tx.timestamp_unix counts);
      }

  -- `if transfersInTx > stats.maxTransfersPerTX`.
  unfoldable pub close_tx : Sample → Sample
  close_tx s = record s { max_transfers = max s.max_transfers s.transfers_in_tx }

  see_transfers : Time → Sample → Option (List NormalizedTransfer) → Sample
  unfolding see_transfer close_tx
  see_transfers at s none = s
  see_transfers at s (some transfers) =
      close_tx (foldl (see_transfer at) (record s { transfers_in_tx = 0 }) transfers)

  -- The body of the loop over the transactions; a fingerprint is not read.
  unfoldable pub see_tx : (Str → Str) → Sample → EnhancedTransaction → Sample
  unfolding see_timestamp see_transfers
  see_tx sha256_hex s tx =
      see_transfers (block_time_utc tx) (see_timestamp s tx) (normalize_enhanced_tx sha256_hex tx)

  -- The sum of the counts of a map.
  abbrev total : Dict ℕ → ℕ
  total [] = 0
  total ((k, n) ∷ m) = n + total m

  -- The statistics at the end of the loops, before the score.
  unfoldable pub read_sample : ℕ → Sample → WalletStats
  unfolding has_lookalike_match
  read_sample sample_size s = record {
    address = address;
    scrape_count = 0;
    scrape_outbound = 0;
    scrape_inbound = 0;
    sample_transactions = sample_size;
    outbound_transfers = s.outbound;
    inbound_transfers = s.inbound;
    unique_counterparties = length s.counterparties;
    legit_outbound_counterparties = length s.legit_outbound;
    scan_inbound_dust_transfers = total s.dust_by_counterparty;
    unique_dust_recipients = length s.dust_by_counterparty;
    repeated_inbound_dust_counterparts = count_by (λ e. leb 2 e.1) s.dust_by_counterparty;
    lookalike_inbound_dust_matches =
        count_by (λ e. has_lookalike_match e.0 s.legit_outbound) s.dust_by_counterparty;
    source_score = 0;
    max_same_timestamp_tx = s.max_same_timestamp;
    max_transfers_per_tx = s.max_transfers;
    unknown_dust_spl = s.unknown_dust_spl;
    discovered_from_seeds = 0;
  }

  unfoldable pub summarize_wallet : (Str → Str) → List EnhancedTransaction → WalletStats
  unfolding see_tx read_sample source_score
  summarize_wallet sha256_hex txs =
      let stats = read_sample (length txs) (foldl (see_tx sha256_hex) empty_sample txs) in
      record stats { source_score = source_score stats }
