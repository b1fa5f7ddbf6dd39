-- ===== src/Counterparties.antt =====
-- internal/counterparties: which side of a transfer the focal wallet is on, and the record that is
-- kept of each counterparty.
pub mod Fold
use poison_trace.Base.{
  ℕ, ◌+◌, ℤ, Bool, true, false, ◌||◌, Option, none, some, ◌==◌, if◌then◌else◌, [],
}
use poison_trace.Text.{Str, str_eq, is_empty}
use poison_trace.Text.Trim.{trim_space}
use poison_trace.Time.{Time, before, after}
use poison_trace.Transactions.{NormalizedTransfer}

pub data RelationType : Type 0 where
  sender receiver : RelationType

pub record Event : Type 0 where
  pub focal_wallet_id : ℕ
  pub counterparty_address : Str
  pub relation_type : RelationType
  pub occurred_at : Time

pub record RelationMapping : Type 0 where
  pub relation_type : RelationType
  pub counterparty_address : Str

-- `MapWalletRelation`; `none` is the result `false`.
unfoldable pub map_wallet_relation : Str → NormalizedTransfer → Option RelationMapping
map_wallet_relation focal_wallet_address tr =
    let focal = trim_space focal_wallet_address in
    let src = trim_space tr.source_owner_address in
    let dst = trim_space tr.destination_owner_address in
    if is_empty focal || is_empty src || is_empty dst
    then none
    else if str_eq src dst
    then none
    else if str_eq src focal
    then some (record { relation_type = sender; counterparty_address = dst })
    else if str_eq dst focal
    then some (record { relation_type = receiver; counterparty_address = src })
    else none

unfoldable pub derive_event : ℕ → Str → NormalizedTransfer → Option Event
derive_event focal_wallet_id focal_wallet_address tr =
    elim (map_wallet_relation focal_wallet_address tr) [
      | none ↦ none
      | some mapping ↦ some (record {
        focal_wallet_id = focal_wallet_id;
        counterparty_address = mapping.counterparty_address;
        relation_type = mapping.relation_type;
        occurred_at = tr.block_time;
      })
    ]

-- The fields that an event changes, and the address. The row's keys and times are the database's.
pub record Counterparty : Type 0 where
  pub counterparty_address : Str
  pub first_seen_at : Time
  pub last_seen_at : Time
  pub interaction_count : ℕ
  pub first_inbound_at : Option Time
  pub last_inbound_at : Option Time
  pub inbound_count : ℕ
  pub first_outbound_at : Option Time
  pub last_outbound_at : Option Time
  pub outbound_count : ℕ

-- `Counterparty{}`.
abbrev pub zero_counterparty : Counterparty
zero_counterparty = record {
  counterparty_address = [];
  first_seen_at = 0;
  last_seen_at = 0;
  interaction_count = 0;
  first_inbound_at = none;
  last_inbound_at = none;
  inbound_count = 0;
  first_outbound_at = none;
  last_outbound_at = none;
  outbound_count = 0;
}

-- `if p == nil || t.Before(*p) { p = &t }`.
abbrev pub earliest : Option Time → Time → Option Time
earliest none t = some t
earliest (some u) t = if before t u then some t else some u

-- `if p == nil || t.After(*p) { p = &t }`.
abbrev pub latest : Option Time → Time → Option Time
latest none t = some t
latest (some u) t = if after t u then some t else some u

-- The last two blocks of `ApplyEvent`.
unfoldable pub apply_direction : RelationType → Time → Counterparty → Counterparty
apply_direction receiver t cp = record cp {
  inbound_count = cp.inbound_count + 1;
  first_inbound_at = earliest cp.first_inbound_at t;
  last_inbound_at = latest cp.last_inbound_at t;
}
apply_direction sender t cp = record cp {
  outbound_count = cp.outbound_count + 1;
  first_outbound_at = earliest cp.first_outbound_at t;
  last_outbound_at = latest cp.last_outbound_at t;
}

-- Its first block.
unfoldable pub see : Time → Counterparty → Counterparty
see t cp = record cp {
  first_seen_at =
      (if cp.interaction_count == 0 || before t cp.first_seen_at then t else cp.first_seen_at);
  last_seen_at = (if after t cp.last_seen_at then t else cp.last_seen_at);
  interaction_count = cp.interaction_count + 1;
}

unfoldable pub apply_event : Counterparty → Event → Counterparty
apply_event cp event =
    apply_direction event.relation_type event.occurred_at (see event.occurred_at cp)
