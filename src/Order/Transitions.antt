-- ===== src/Order/Transitions.antt =====
-- The states that a delivery can pass through.
use mathlib.Core.Path.{subst, sym}
use b2b_stm.Prelude.{ℕ, suc, ◌≡◌, ◌≢◌, refl, true, none, some, Option, arith, nat_eq, beq_refl}
use b2b_stm.Json.{Json}
use b2b_stm.Table.{lookup, modify}
use b2b_stm.Table.Laws.{lookup-modify}
use b2b_stm.Schema.{Db, Delivery, DeliveryStatus, Response}
use b2b_stm.Tx.{Error, Result, ok, err}
use b2b_stm.Order.Delivery.{
  Action, Change, change, delivery_work, schedule, dispatch, deliver, fail, schedule_change,
  dispatch_change, deliver_change, fail_change, can_schedule,
}

-- The arrows of a delivery: it is scheduled (again) until it leaves, and ends delivered or failed;
-- a failed one can be scheduled again.
pub data Follows : DeliveryStatus → DeliveryStatus → Type 0 where
  first_schedule : Follows DeliveryStatus.ready DeliveryStatus.scheduled
  new_schedule : Follows DeliveryStatus.scheduled DeliveryStatus.scheduled
  retry : Follows DeliveryStatus.failed DeliveryStatus.scheduled
  departure : Follows DeliveryStatus.scheduled DeliveryStatus.in_transit
  arrival : Follows DeliveryStatus.in_transit DeliveryStatus.delivered
  failure : Follows DeliveryStatus.in_transit DeliveryStatus.failed

scheduled_from : (s : DeliveryStatus) → can_schedule s ≡ true → Follows s DeliveryStatus.scheduled
scheduled_from DeliveryStatus.ready h = first_schedule
scheduled_from DeliveryStatus.scheduled h = new_schedule
scheduled_from DeliveryStatus.failed h = retry
scheduled_from DeliveryStatus.in_transit h = cc
scheduled_from DeliveryStatus.delivered h = cc

-- The delivery of a shipment after an action.
abbrev pub Moved : Delivery → Option Delivery → Type 0
Moved d none = ⊥
Moved d (some e) = Follows d.status e.status × (e.version ≡ suc d.version)

schedule_follows :
    (actor : ℕ) (body : Json) (d : Delivery) (c : Change)
    → schedule_change actor body d ≡ ok c
    → Moved d (some c.1)
unfolding schedule_change
schedule_follows actor body d c e =
    let status : c.1.status ≡ DeliveryStatus.scheduled = ground arith in
    let could : can_schedule d.status ≡ true = ground arith in
    (rw status (scheduled_from d.status could), ground arith)

dispatch_follows :
    (actor now : ℕ) (d : Delivery) (c : Change)
    → dispatch_change actor now d ≡ ok c
    → Moved d (some c.1)
unfolding dispatch_change
dispatch_follows actor now d c e =
    let status : c.1.status ≡ DeliveryStatus.in_transit = ground arith in
    let before : d.status ≡ DeliveryStatus.scheduled = ground arith in
    (rw (status, before) departure, ground arith)

deliver_follows :
    (actor now : ℕ) (body : Json) (d : Delivery) (c : Change)
    → deliver_change actor now body d ≡ ok c
    → Moved d (some c.1)
unfolding deliver_change
deliver_follows actor now body d c e =
    let status : c.1.status ≡ DeliveryStatus.delivered = ground arith in
    let before : d.status ≡ DeliveryStatus.in_transit = ground arith in
    (rw (status, before) arrival, ground arith)

fail_follows :
    (actor : ℕ) (body : Json) (d : Delivery) (c : Change)
    → fail_change actor body d ≡ ok c
    → Moved d (some c.1)
unfolding fail_change
fail_follows actor body d c e =
    let status : c.1.status ≡ DeliveryStatus.failed = ground arith in
    let before : d.status ≡ DeliveryStatus.in_transit = ground arith in
    (rw (status, before) failure, ground arith)

change_follows :
    (action : Action) (actor now : ℕ) (body : Json) (d : Delivery) (c : Change)
    → change action actor now body d ≡ ok c
    → Moved d (some c.1)
unfolding change
change_follows schedule actor now body d c e = schedule_follows actor body d c e
change_follows dispatch actor now body d c e = dispatch_follows actor now d c e
change_follows deliver actor now body d c e = deliver_follows actor now body d c e
change_follows fail actor now body d c e = fail_follows actor body d c e

module _ (action : Action) (actor shipment : ℕ) (body : Json) (a : Response) (db db' : Db)
    (d : Delivery) (ran : delivery_work action actor shipment body db ≡ ok (a, db'))
    (there : lookup shipment db.deliveries ≡ some d) where
  written :
      (c : Change)
      → change action actor db.now body d ≡ ok c
      → db'.deliveries ≡ modify shipment (λ _. c.1) db.deliveries
  unfolding delivery_work
  written c e = ground (arith, there, e)

  accepted : (e : Error) → change action actor db.now body d ≢ err e
  unfolding delivery_work
  accepted e refused = ground (arith, there, refused)

  stored :
      (c : Change)
      → change action actor db.now body d ≡ ok c
      → lookup shipment db'.deliveries ≡ some c.1
  stored c e = ground (
    arith,
    there,
    written c e,
    lookup-modify shipment shipment (λ _. c.1) db.deliveries,
    beq_refl shipment,
  )

  followed :
      (x : Result Change)
      → change action actor db.now body d ≡ x
      → Moved d (lookup shipment db'.deliveries)
  followed (ok c) e =
      subst (Moved d) (sym (stored c e)) (change_follows action actor db.now body d c e)
  followed (err f) e = absurd (accepted f e)

-- A delivery moves only along its arrows: to scheduled from ready, scheduled or failed, to in transit
-- from scheduled, and to delivered or failed from in transit; its version grows by one.
pub delivery-follows :
    (action : Action) (actor shipment : ℕ) (body : Json) (a : Response) (db db' : Db) (d : Delivery)
    → delivery_work action actor shipment body db ≡ ok (a, db')
    → lookup shipment db.deliveries ≡ some d
    → Moved d (lookup shipment db'.deliveries)
delivery-follows action actor shipment body a db db' d ran there =
    followed action actor shipment body a db db' d ran there (change action actor db.now body d)
      refl

arrived : (e : Option Delivery) (d : Delivery) → Moved d e → d.status ≢ DeliveryStatus.delivered
arrived none d m e = m
arrived (some x) d m e = ends d.status x.status m.0 e
  where
    ends : (s t : DeliveryStatus) → Follows s t → s ≢ DeliveryStatus.delivered
    ends s t first_schedule h = cc
    ends s t new_schedule h = cc
    ends s t retry h = cc
    ends s t departure h = cc
    ends s t arrival h = cc
    ends s t failure h = cc
