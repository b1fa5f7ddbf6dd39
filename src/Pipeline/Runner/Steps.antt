-- ===== src/Pipeline/Runner/Steps.antt =====
-- Actions on the variables and the world, and the loop of `RunWallet` that links observations.
use poison_trace.Base.{ℕ, ◌+◌, Bool, true, false, List, [], ◌∷◌}
use poison_trace.Text.{Str, codes}
use poison_trace.Errors.{ErrorChain, Action, Result, ok, err, wrap}
use poison_trace.Errors.Actions.{◌>>=◌, done}
use poison_trace.Pipeline.Candidate.{WalletTransferObservation}
use poison_trace.Pipeline.Core.{bump}
use poison_trace.Pipeline.Runner.{wallet_transfer_link_failed, counterparty_upsert_failed, Store}
use poison_trace.Pipeline.Runner.Run.{Locals, partial_with}

abbrev pub Step : Type 0 → Type 0 → Type 0
Step S A = Action (Locals × S) A

unfoldable pub attempt_pair :
    {S A : Type 0}
    → Str
    → (ErrorChain → S → Locals → Locals)
    → Locals
    → Result A × S
    → Result A × (Locals × S)
attempt_pair text on_error l (ok a, s) = (ok a, (l, s))
attempt_pair text on_error l (err e, s) = (err (wrap text e), (on_error e s l, s))

-- A call, and its error branch.
unfoldable pub attempt :
    {S A : Type 0} → Str → (ErrorChain → S → Locals → Locals) → Action S A → Step S A
unfolding attempt_pair
attempt text on_error m (l, s) = attempt_pair text on_error l (m s)

-- An assignment to the variables.
abbrev pub assign : {S : Type 0} → (Locals → Locals) → Step S (Unit {0})
assign f (l, s) = (ok tt, (f l, s))

abbrev pub locals : {S : Type 0} → Step S Locals
locals (l, s) = (ok l, (l, s))

abbrev add_linked : Locals → Locals
add_linked l = record l {
  counters = record l.counters { transactions_linked = l.counters.transactions_linked + 1 };
}

abbrev add_counterparty : Bool × Bool → Locals → Locals
add_counterparty (created, updated) l = record l {
  counters = record l.counters {
    counterparties_created = bump created l.counters.counterparties_created;
    counterparties_updated = bump updated l.counters.counterparties_updated;
  };
}

module _ {S : Type 0} (store : Store S) (wallet_id : ℕ) where
  unfoldable pub record_counterparty : WalletTransferObservation → Bool → Step S (Unit {0})
  record_counterparty obs false = done (ok tt)
  record_counterparty obs true = do
    _ ← assign add_linked
    change ←
        attempt (codes "upsert counterparty event")
          (λ e _.
            partial_with counterparty_upsert_failed
              (codes "unknown_required_gates:counterparty_persistence_failed") e)
          (store.upsert_counterparty_event (record {
            focal_wallet_id = wallet_id;
            counterparty_address = obs.counterparty_address;
            relation_type = obs.relation_type;
            occurred_at = obs.transfer.block_time;
          }))
    assign (add_counterparty change)

  -- The body of the loop over the observations.
  unfoldable pub link_observation : WalletTransferObservation → Step S (Unit {0})
  unfolding record_counterparty
  link_observation obs = do
    linked ←
        attempt (codes "link wallet transfer")
          (λ e _.
            partial_with wallet_transfer_link_failed
              (codes "unknown_required_gates:wallet_link_persistence_failed") e)
          (store.link_wallet_transfer wallet_id obs.relation_type obs.transfer)
    record_counterparty obs linked

  unfoldable pub link_observations : List WalletTransferObservation → Step S (Unit {0})
  link_observations [] = done (ok tt)
  link_observations (obs ∷ rest) = do _ ← link_observation obs; link_observations rest
