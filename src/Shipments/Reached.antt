-- ===== src/Shipments/Reached.antt =====
-- `checkpointReachedAt` of `formatShipment` (shipments.service.ts): when a shipment reached each
-- checkpoint of its route. The `Map` is a list of pairs; a JavaScript `Map` looks a key up so.
use egypt_supply_chain_visib.Base.{
  ℕ, ◌≤◌, ◌==◌, ==_refl, ◌≡◌, refl, inl, inr, Bool-cases, Option, none, some, is_some, List, [],
  ◌∷◌, arith, if◌then◌else◌, All, ◌is◌,
}
use egypt_supply_chain_visib.Domain.{ShipmentEvent}
use mathlib.Core.List.{Memᴰ}

-- `Map.get`
unfoldable pub get : ℕ → List (ℕ × ℕ) → Option ℕ
get k [] = none
get k ((j, v) ∷ m) = if j == k then some v else get k m

-- The body of the loop: the first event of a checkpoint sets its time.
unfoldable pub note_event : List (ℕ × ℕ) → ShipmentEvent → List (ℕ × ℕ)
unfolding get
note_event m event = elim event.event_checkpoint_id [
  | none ↦ m
  | some checkpoint ↦
      if is_some (get checkpoint m) then m else (checkpoint, event.event_occurred_at) ∷ m
]

unfoldable pub note_events : List (ℕ × ℕ) → List ShipmentEvent → List (ℕ × ℕ)
note_events m [] = m
note_events m (event ∷ events) = note_events (note_event m event) events

-- `checkpointReachedAt.get(checkpoint_id) ?? null`
unfoldable pub reached_at : List ShipmentEvent → ℕ → Option ℕ
unfolding note_events
reached_at events checkpoint = get checkpoint (note_events [] events)

-- The first event of the checkpoint in the list.
abbrev pub first_time : ℕ → List ShipmentEvent → Option ℕ
first_time checkpoint [] = none
first_time checkpoint (event ∷ events) =
    if event.event_checkpoint_id is checkpoint
    then some event.event_occurred_at
    else first_time checkpoint events

-- A time that is noted stays; else the first event of the rest decides.
abbrev or_first : Option ℕ → Option ℕ → Option ℕ
or_first none later = later
or_first (some t) later = some t

get-note_event :
    (checkpoint : ℕ) (m : List (ℕ × ℕ)) (event : ShipmentEvent)
    → get checkpoint (note_event m event)
      ≡ or_first
          (get checkpoint m)
          (if event.event_checkpoint_id is checkpoint then some event.event_occurred_at else none)
unfolding note_event
get-note_event checkpoint m event = ground arith

get-note_events :
    (checkpoint : ℕ) (m : List (ℕ × ℕ)) (events : List ShipmentEvent)
    → get checkpoint (note_events m events)
      ≡ or_first (get checkpoint m) (first_time checkpoint events)
unfolding note_events
get-note_events checkpoint m [] = ground arith
get-note_events checkpoint m (event ∷ events) = ground (
  arith,
  get-note_events checkpoint (note_event m event) events,
  get-note_event checkpoint m event,
)

-- Sorted by time, earliest first or latest first.
abbrev pub Ascending : List ShipmentEvent → Type 0
Ascending [] = Unit {0}
Ascending (e ∷ es) = All (λ f. e.event_occurred_at ≤ f.event_occurred_at) es × Ascending es

abbrev pub Descending : List ShipmentEvent → Type 0
Descending [] = Unit {0}
Descending (e ∷ es) = All (λ f. f.event_occurred_at ≤ e.event_occurred_at) es × Descending es

-- The event is of the checkpoint and not before, or not after, the time.
abbrev pub NotBefore : ℕ → ℕ → ShipmentEvent → Type 0
NotBefore checkpoint t e = e.event_checkpoint_id ≡ some checkpoint → t ≤ e.event_occurred_at

abbrev pub NotAfter : ℕ → ℕ → ShipmentEvent → Type 0
NotAfter checkpoint t e = e.event_checkpoint_id ≡ some checkpoint → e.event_occurred_at ≤ t

weaken :
    (P Q : ShipmentEvent → Type 0) (es : List ShipmentEvent)
    → ((e : ShipmentEvent) → P e → Q e)
    → All P es
    → All Q es
weaken P Q [] f h = tt
weaken P Q (e ∷ es) f h = (f e h.0, weaken P Q es f h.1)

first_time-Ascending :
    (checkpoint t : ℕ) (es : List ShipmentEvent)
    → Ascending es
    → first_time checkpoint es ≡ some t
    → All (NotBefore checkpoint t) es
first_time-Ascending checkpoint t [] sorted h = tt
first_time-Ascending checkpoint t (e ∷ es) sorted h =
    elim (Bool-cases (e.event_checkpoint_id is checkpoint)) [
      | inl here ↦
          let now : e.event_occurred_at ≡ t = ground arith in
          (
            λ _. omega arith,
            weaken (λ f. e.event_occurred_at ≤ f.event_occurred_at) (NotBefore checkpoint t) es
                (λ f l _. omega arith) sorted.0,
          )
      | inr elsewhere ↦ (
        λ same. absurd (ground (arith, ==_refl checkpoint)),
        first_time-Ascending checkpoint t es sorted.1 (ground arith),
      )
    ]

first_time-Descending :
    (checkpoint t : ℕ) (es : List ShipmentEvent)
    → Descending es
    → first_time checkpoint es ≡ some t
    → All (NotAfter checkpoint t) es
first_time-Descending checkpoint t [] sorted h = tt
first_time-Descending checkpoint t (e ∷ es) sorted h =
    elim (Bool-cases (e.event_checkpoint_id is checkpoint)) [
      | inl here ↦
          let now : e.event_occurred_at ≡ t = ground arith in
          (
            λ _. omega arith,
            weaken (λ f. f.event_occurred_at ≤ e.event_occurred_at) (NotAfter checkpoint t) es
                (λ f l _. omega arith) sorted.0,
          )
      | inr elsewhere ↦ (
        λ same. absurd (ground (arith, ==_refl checkpoint)),
        first_time-Descending checkpoint t es sorted.1 (ground arith),
      )
    ]

-- Such an event is there.
abbrev pub HasVisit : ℕ → ℕ → List ShipmentEvent → Type 0
HasVisit checkpoint t events =
    (e : ShipmentEvent) × Memᴰ e events
    × (e.event_checkpoint_id ≡ some checkpoint)
    × (e.event_occurred_at ≡ t)

first_time-HasVisit :
    (checkpoint t : ℕ) (es : List ShipmentEvent)
    → first_time checkpoint es ≡ some t
    → HasVisit checkpoint t es
first_time-HasVisit checkpoint t [] h = cc
first_time-HasVisit checkpoint t (e ∷ es) h =
    elim (Bool-cases (e.event_checkpoint_id is checkpoint)) [
      | inl here ↦ (e, Memᴰ.head refl, ground arith, ground arith)
      | inr elsewhere ↦
          let (f, there, at, time) = first_time-HasVisit checkpoint t es (ground arith) in
          (f, Memᴰ.tail there, at, time)
    ]

reached_at-first_time :
    (checkpoint : ℕ) (events : List ShipmentEvent)
    → reached_at events checkpoint ≡ first_time checkpoint events
unfolding reached_at get
reached_at-first_time checkpoint events = get-note_events checkpoint [] events

-- Over events sorted earliest first, as `findAll` reads them, the time that is noted is that of an
-- event at the checkpoint, and no event at the checkpoint is earlier.
reached_at_earliest :
    (events : List ShipmentEvent) (checkpoint t : ℕ)
    → Ascending events
    → reached_at events checkpoint ≡ some t
    → HasVisit checkpoint t events × All (NotBefore checkpoint t) events
reached_at_earliest events checkpoint t sorted h =
    let first = rw (reached_at-first_time checkpoint events) at h in
    (
      first_time-HasVisit checkpoint t events first,
      first_time-Ascending checkpoint t events sorted first,
    )

-- Over events sorted latest first, as `findOne` reads them, it is that of an event at the
-- checkpoint, and no event at the checkpoint is later: not the earliest that the comment promises.
pub reached_at_latest :
    (events : List ShipmentEvent) (checkpoint t : ℕ)
    → Descending events
    → reached_at events checkpoint ≡ some t
    → HasVisit checkpoint t events × All (NotAfter checkpoint t) events
reached_at_latest events checkpoint t sorted h =
    let first = rw (reached_at-first_time checkpoint events) at h in
    (
      first_time-HasVisit checkpoint t events first,
      first_time-Descending checkpoint t events sorted first,
    )
