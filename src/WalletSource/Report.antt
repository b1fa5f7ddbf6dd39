-- ===== src/WalletSource/Report.antt =====
-- The two files that a run writes.
use poison_trace.Base.{not, List, [], ◌∷◌, ◌++◌, map, Option, none, some, if◌then◌else◌}
use poison_trace.Text.{Str, codes, str_eq, join, decimal}
use poison_trace.Errors.{ErrorChain, Action, Result, ok, err, wrap}
use poison_trace.WalletSource.{
  AcceptedWallet, RejectedWallet, DeepDiveStatus, not_queued, queued_top_n_skip, retried_qualified,
  retried_cap_hit, retried_other_reject,
}
use poison_trace.WalletSource.Discovery.{Files}

unfoldable pub status_text : DeepDiveStatus → Str
status_text not_queued = codes "not_queued"
status_text queued_top_n_skip = codes "queued_top_n_skip"
status_text retried_qualified = codes "retried_qualified"
status_text retried_cap_hit = codes "retried_cap_hit"
status_text retried_other_reject = codes "retried_other_reject"

unfoldable pub accepted_text : List AcceptedWallet → Str
accepted_text accepted = join (codes "\n") (map (λ a. a.address) accepted) ++ codes "\n"

-- The columns of `rejected`, in order.
columns : List Str
columns =
    codes "address"
    ∷ codes "reason"
    ∷ codes "deep_dive_status"
    ∷ codes "scrape_count"
    ∷ codes "scrape_outbound"
    ∷ codes "scrape_inbound"
    ∷ codes "sample_transactions"
    ∷ codes "outbound_transfers"
    ∷ codes "inbound_transfers"
    ∷ codes "unique_counterparties"
    ∷ codes "legit_outbound_counterparties"
    ∷ codes "scan_inbound_dust_transfers"
    ∷ codes "unique_dust_recipients"
    ∷ codes "repeated_inbound_dust_counterparties"
    ∷ codes "lookalike_inbound_dust_matches"
    ∷ codes "source_score"
    ∷ codes "discovered_from_seeds"
    ∷ []

rejected_fields : RejectedWallet → List Str
unfolding status_text
rejected_fields r =
    r.address
    ∷ r.reason
    ∷ status_text r.deep_dive_status
    ∷ decimal r.scrape_count
    ∷ decimal r.scrape_outbound
    ∷ decimal r.scrape_inbound
    ∷ decimal r.sample_transactions
    ∷ decimal r.outbound_transfers
    ∷ decimal r.inbound_transfers
    ∷ decimal r.unique_counterparties
    ∷ decimal r.legit_outbound_counterparties
    ∷ decimal r.scan_inbound_dust_transfers
    ∷ decimal r.unique_dust_recipients
    ∷ decimal r.repeated_inbound_dust_counterparts
    ∷ decimal r.lookalike_inbound_dust_matches
    ∷ decimal r.source_score
    ∷ decimal r.discovered_from_seeds
    ∷ []

-- Fields between tabs, and the end of the line.
table_row : List Str → Str
table_row fields = join (codes "\t") fields ++ codes "\n"

rejected_rows : List RejectedWallet → Str
unfolding table_row rejected_fields
rejected_rows [] = []
rejected_rows (r ∷ rest) = table_row (rejected_fields r) ++ rejected_rows rest

unfoldable pub rejected_text : List RejectedWallet → Str
unfolding table_row columns rejected_rows
rejected_text rejected = table_row columns ++ rejected_rows rejected

-- `os.WriteFile`, whose error is not wrapped.
unfoldable pub written : {S : Type 0} → Option ErrorChain × S → Result {0} Unit × S
written (none, s) = (ok tt, s)
written (some e, s) = (err e, s)

module _ {S : Type 0} (files : Files S) (path : Str) where
  -- An error of `os.MkdirAll` counts only outside the working directory.
  unfoldable pub after_mkdir : Str → Str → Option ErrorChain × S → Result {0} Unit × S
  unfolding written
  after_mkdir what text (none, s) = written (files.write_file path text s)
  after_mkdir what text (some e, s) =
      if not (str_eq (files.dir path) (codes "."))
      then (err (wrap what e), s)
      else written (files.write_file path text s)

  unfoldable pub write_accepted : List AcceptedWallet → Action S Unit
  unfolding after_mkdir accepted_text
  write_accepted accepted s =
      after_mkdir (codes "create accepted output dir") (accepted_text accepted)
        (files.mkdir_all (files.dir path) s)

  unfoldable pub write_rejected : List RejectedWallet → Action S Unit
  unfolding after_mkdir rejected_text
  write_rejected rejected s =
      after_mkdir (codes "create rejected output dir") (rejected_text rejected)
        (files.mkdir_all (files.dir path) s)
