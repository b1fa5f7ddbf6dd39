-- ===== src/Counterparties/Fold.antt =====
-- The record of a counterparty after a list of events (internal/counterparties, `ApplyEvent`).
use mathlib.Core.List.{Permᴰ, reverse_aux}
use mathlib.Core.List.{reverse-cons}
use poison_trace.Base.{
  count_by-append, ◌∙◌, In-append, In-last, reverse, ◌+◌, ◌≤◌, Bool, true, false, List, [], ◌∷◌,
  foldl, foldl-perm, reverse, count_by, Option, ◌≡◌, refl, arith, In, here, there,
}
use poison_trace.Time.{Time}
use poison_trace.Counterparties.{
  RelationType, sender, receiver, Event, Counterparty, zero_counterparty, earliest, latest,
  apply_event, see, apply_direction,
}

earliest_comm :
    (o : Option Time) (t u : Time) → earliest (earliest o t) u ≡ earliest (earliest o u) t
earliest_comm o t u = ground arith

latest_comm : (o : Option Time) (t u : Time) → latest (latest o t) u ≡ latest (latest o u) t
latest_comm o t u = ground arith

see_comm : (cp : Counterparty) (t u : Time) → see u (see t cp) ≡ see t (see u cp)
unfolding see
see_comm cp t u = ground arith

direction_comm :
    (r q : RelationType) (t u : Time) (cp : Counterparty)
    → apply_direction q u (apply_direction r t cp) ≡ apply_direction r t (apply_direction q u cp)
unfolding apply_direction
direction_comm receiver receiver t u cp =
    rw (earliest_comm cp.first_inbound_at t u, latest_comm cp.last_inbound_at t u)
direction_comm sender sender t u cp =
    rw (earliest_comm cp.first_outbound_at t u, latest_comm cp.last_outbound_at t u)
direction_comm _ _ t u cp = refl

see-direction :
    (r : RelationType) (t u : Time) (cp : Counterparty)
    → see u (apply_direction r t cp) ≡ apply_direction r t (see u cp)
unfolding see apply_direction
see-direction receiver t u cp = refl
see-direction sender t u cp = refl

apply_comm :
    (cp : Counterparty) (e f : Event)
    → apply_event (apply_event cp e) f ≡ apply_event (apply_event cp f) e
unfolding apply_event
apply_comm cp e f = cc (
  see-direction e.relation_type e.occurred_at f.occurred_at (see e.occurred_at cp),
  see-direction f.relation_type f.occurred_at e.occurred_at (see f.occurred_at cp),
  see_comm cp e.occurred_at f.occurred_at,
  direction_comm e.relation_type f.relation_type e.occurred_at f.occurred_at
      (see f.occurred_at (see e.occurred_at cp)),
)

-- The events of a counterparty may be applied in any order.
pub apply_event-perm :
    {events events' : List Event} (cp : Counterparty)
    → Permᴰ events events'
    → foldl apply_event cp events ≡ foldl apply_event cp events'
apply_event-perm cp h = foldl-perm apply_event apply_comm h cp

abbrev pub is_inbound : Event → Bool
is_inbound e = elim e.relation_type [ sender ↦ false | receiver ↦ true ]

abbrev pub is_outbound : Event → Bool
is_outbound e = elim e.relation_type [ sender ↦ true | receiver ↦ false ]

-- What the record says of the events.
pub record Summarizes (events : List Event) (cp : Counterparty) : Type 0 where
  pub inbound : cp.inbound_count ≡ count_by is_inbound events
  pub outbound : cp.outbound_count ≡ count_by is_outbound events
  pub total : cp.interaction_count ≡ cp.inbound_count + cp.outbound_count
  pub seen :
      (e : Event)
      → In e events
      → (cp.first_seen_at ≤ e.occurred_at) × (e.occurred_at ≤ cp.last_seen_at)

zero-Summarizes : Summarizes [] zero_counterparty
zero-Summarizes = record {
  inbound = refl;
  outbound = refl;
  total = omega arith;
  seen = λ e i. elim i [ ];
}

-- The first block and the last two, field by field.
direction_fields :
    (r : RelationType) (t : Time) (cp : Counterparty)
    → ((apply_direction r t cp).interaction_count ≡ cp.interaction_count)
      × ((apply_direction r t cp).first_seen_at ≡ cp.first_seen_at)
      × ((apply_direction r t cp).last_seen_at ≡ cp.last_seen_at)
      × ((apply_direction r t cp).inbound_count
          ≡ (elim r [ sender ↦ 0 | receiver ↦ 1 ]) + cp.inbound_count)
      × ((apply_direction r t cp).outbound_count
          ≡ (elim r [ sender ↦ 1 | receiver ↦ 0 ]) + cp.outbound_count)
unfolding apply_direction
direction_fields receiver t cp = omega arith
direction_fields sender t cp = omega arith

In-counted :
    {e : Event} (events : List Event)
    → In e events
    → 1 ≤ count_by is_inbound events + count_by is_outbound events
In-counted [] i = elim i [ ]
In-counted (x ∷ events) i = ground arith

see_fields :
    (t : Time) (cp : Counterparty)
    → ((see t cp).inbound_count ≡ cp.inbound_count)
      × ((see t cp).outbound_count ≡ cp.outbound_count)
      × ((see t cp).interaction_count ≡ cp.interaction_count + 1)
      × ((see t cp).first_seen_at ≤ t)
      × (t ≤ (see t cp).last_seen_at)
      × (cp.last_seen_at ≤ (see t cp).last_seen_at)
      × (1 ≤ cp.interaction_count → (see t cp).first_seen_at ≤ cp.first_seen_at)
unfolding see
see_fields t cp = ground arith

event_fields :
    (r : RelationType) (t : Time) (cp : Counterparty)
    → let c : Counterparty = apply_direction r t (see t cp) in
      (c.interaction_count ≡ cp.interaction_count + 1)
      × (c.inbound_count + c.outbound_count ≡ cp.inbound_count + cp.outbound_count + 1)
      × (c.first_seen_at ≤ t)
      × (t ≤ c.last_seen_at)
      × (cp.last_seen_at ≤ c.last_seen_at)
      × (1 ≤ cp.interaction_count → c.first_seen_at ≤ cp.first_seen_at)
event_fields receiver t cp = grind (arith, see_fields t cp, direction_fields receiver t (see t cp))
event_fields sender t cp = grind (arith, see_fields t cp, direction_fields sender t (see t cp))

-- One more event, put in front.
apply-Summarizes :
    (cp : Counterparty) (e : Event) (events : List Event)
    → Summarizes events cp
    → Summarizes (e ∷ events) (apply_event cp e)
unfolding apply_event
apply-Summarizes cp e events s = record {
  inbound = ground (
    arith,
    s.inbound,
    direction_fields e.relation_type e.occurred_at (see e.occurred_at cp),
    see_fields e.occurred_at cp,
  );
  outbound = ground (
    arith,
    s.outbound,
    direction_fields e.relation_type e.occurred_at (see e.occurred_at cp),
    see_fields e.occurred_at cp,
  );
  total = omega (arith, s.total, event_fields e.relation_type e.occurred_at cp);
  seen = widened;
}
  where
    widened :
        (f : Event)
        → In f (e ∷ events)
        → ((apply_event cp e).first_seen_at ≤ f.occurred_at)
          × (f.occurred_at ≤ (apply_event cp e).last_seen_at)
    widened f (here same) = rw same (omega (arith, event_fields e.relation_type e.occurred_at cp))
    widened f (there i) = grind (
      arith,
      event_fields e.relation_type e.occurred_at cp,
      s.seen f i,
      In-counted events i,
      s.total,
      s.inbound,
      s.outbound,
    )

fold-Summarizes :
    (cp : Counterparty) (seen events : List Event)
    → Summarizes seen cp
    → Summarizes (reverse_aux events seen) (foldl apply_event cp events)
fold-Summarizes cp seen [] s = s
fold-Summarizes cp seen (e ∷ events) s =
    fold-Summarizes (apply_event cp e) (e ∷ seen) events (apply-Summarizes cp e seen s)

foldl-Summarizes :
    (events : List Event) → Summarizes (reverse events) (foldl apply_event zero_counterparty events)
foldl-Summarizes events = fold-Summarizes zero_counterparty [] events zero-Summarizes

count_by-reverse : (f : Event → Bool) (xs : List Event) → count_by f (reverse xs) ≡ count_by f xs
count_by-reverse f [] = refl
count_by-reverse f (x ∷ xs) =
    rw (reverse-cons, count_by-append, count_by-reverse f xs) (omega arith)

In-reverse : (e : Event) (xs : List Event) → In e xs → In e (reverse xs)
In-reverse e [] i = i
In-reverse e (x ∷ xs) (here s) = rw (reverse-cons, s) (In-last x (reverse xs))
In-reverse e (x ∷ xs) (there i) =
    rw reverse-cons (In-append e (reverse xs) (x ∷ []) (In-reverse e xs i))

-- From an empty record and after any events, the counters are the numbers of inbound and outbound events, and each of the
-- events lies between the first and the last time seen.
pub foldl-counts :
    (events : List Event) (e : Event)
    → In e events
    → ((foldl apply_event zero_counterparty events).inbound_count ≡ count_by is_inbound events)
      × ((foldl apply_event zero_counterparty events).outbound_count ≡ count_by is_outbound events)
      × ((foldl apply_event zero_counterparty events).interaction_count
          ≡ count_by is_inbound events + count_by is_outbound events)
      × ((foldl apply_event zero_counterparty events).first_seen_at ≤ e.occurred_at)
      × (e.occurred_at ≤ (foldl apply_event zero_counterparty events).last_seen_at)
foldl-counts events e i =
    let s = foldl-Summarizes events in
    let inbound = s.inbound ∙ count_by-reverse is_inbound events in
    let outbound = s.outbound ∙ count_by-reverse is_outbound events in
    let (first, last) = s.seen e (In-reverse e events i) in
    (inbound, outbound, omega (arith, s.total, inbound, outbound), first, last)
