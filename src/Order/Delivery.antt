-- ===== src/Order/Delivery.antt =====
-- `updateDelivery` of apps/api/src/orders/order.service.ts: the states of a delivery.
use b2b_stm.Prelude.{
  ℕ, suc, Bool, true, false, ◌||◌, not, none, some, [], ◌∷◌, String, length, ◌==◌, nat_eq,
  string_eq, pair_eq, if◌then◌else◌, ltb,
}
use b2b_stm.Text.{Text, text_eq, uuid_test, uuid_value}
use b2b_stm.Json.{Json, get, string}
use b2b_stm.Dates.{is_real_date}
use b2b_stm.Table.{lookup, modify, insert}
use b2b_stm.Schema.{Db, Delivery, DeliveryStatus, Response, delivery_updated}
use b2b_stm.Tx.{
  Tx, Result, ok, err, bad_request, conflict, not_found, pure, ◌>>=◌, ◌>>◌, query, execute,
  or_throw, random_uuid, transaction, command,
}
use b2b_stm.Order.Input.{request_id}

pub data Action : Type 0 where
  schedule dispatch deliver fail : Action

abbrev pub can_schedule : DeliveryStatus → Bool
can_schedule DeliveryStatus.ready = true
can_schedule DeliveryStatus.scheduled = true
can_schedule DeliveryStatus.failed = true
can_schedule _ = false

abbrev pub is_scheduled : DeliveryStatus → Bool
is_scheduled DeliveryStatus.scheduled = true
is_scheduled _ = false

abbrev pub is_in_transit : DeliveryStatus → Bool
is_in_transit DeliveryStatus.in_transit = true
is_in_transit _ = false

abbrev is_failed : DeliveryStatus → Bool
is_failed DeliveryStatus.failed = true
is_failed _ = false

-- `!text || text.length > limit`
unfoldable pub missing_or_long : ℕ → Text → Bool
missing_or_long limit s = length s == 0 || ltb limit (length s)

-- 'signature', 'photo' and 'staff_confirmation'
unfoldable pub proof_methods : Text → Bool
proof_methods m =
    m == (b's' ∷ b'i' ∷ b'g' ∷ b'n' ∷ b'a' ∷ b't' ∷ b'u' ∷ b'r' ∷ b'e' ∷ [])
    || m == (b'p' ∷ b'h' ∷ b'o' ∷ b't' ∷ b'o' ∷ [])
    || m == (
        b's' ∷ b't' ∷ b'a' ∷ b'f' ∷ b'f' ∷ b'_' ∷ b'c' ∷ b'o' ∷ b'n' ∷ b'f' ∷ b'i' ∷ b'r' ∷ b'm'
        ∷ b'a' ∷ b't' ∷ b'i' ∷ b'o' ∷ b'n' ∷ [])

-- The event's name, and the delivery after the step.
abbrev pub Change : Type 0
Change = String × Delivery

unfoldable pub schedule_change : ℕ → Json → Delivery → Result Change
unfolding missing_or_long
schedule_change actor body d =
    let date = string (get "scheduledDate" body) in
    let carrier = string (get "carrierName" body) in
    let tracking = string (get "trackingNumber" body) in
    if not (is_real_date date) || missing_or_long 100 carrier || missing_or_long 100 tracking
    then err (bad_request "Valid schedule, carrier and tracking number are required")
    else if not (can_schedule d.status)
    then err (conflict "Delivery cannot be scheduled")
    else ok (
      (if is_failed d.status then "rescheduled" else "scheduled"),
      record d {
        status = DeliveryStatus.scheduled;
        scheduled_date = some date;
        carrier_name = some carrier;
        tracking_number = some tracking;
        failure_reason = none;
        updated_by = actor;
        version = suc d.version;
      },
    )

unfoldable pub dispatch_change : ℕ → ℕ → Delivery → Result Change
dispatch_change actor now d =
    if not (is_scheduled d.status)
    then err (conflict "Only scheduled delivery can dispatch")
    else ok (
      "dispatched",
      record d {
        status = DeliveryStatus.in_transit;
        dispatched_at = some now;
        updated_by = actor;
        version = suc d.version;
      },
    )

unfoldable pub deliver_change : ℕ → ℕ → Json → Delivery → Result Change
unfolding missing_or_long proof_methods
deliver_change actor now body d =
    let recipient = string (get "recipientName" body) in
    let method = string (get "proofMethod" body) in
    let note = string (get "proofNote" body) in
    if missing_or_long 100 recipient || not (proof_methods method) || missing_or_long 500 note
    then err (bad_request "Valid delivery proof is required")
    else if not (is_in_transit d.status)
    then err (conflict "Only in-transit delivery can complete")
    else ok (
      "delivered",
      record d {
        status = DeliveryStatus.delivered;
        delivered_at = some now;
        recipient_name = some recipient;
        proof_method = some method;
        proof_note = some note;
        updated_by = actor;
        version = suc d.version;
      },
    )

unfoldable pub fail_change : ℕ → Json → Delivery → Result Change
unfolding missing_or_long
fail_change actor body d =
    let reason = string (get "reason" body) in
    if missing_or_long 500 reason
    then err (bad_request "Valid failure reason is required")
    else if not (is_in_transit d.status)
    then err (conflict "Only in-transit delivery can fail")
    else ok (
      "failed",
      record d {
        status = DeliveryStatus.failed;
        failure_reason = some reason;
        updated_by = actor;
        version = suc d.version;
      },
    )

unfoldable pub change : Action → ℕ → ℕ → Json → Delivery → Result Change
unfolding schedule_change dispatch_change deliver_change fail_change
change schedule actor now body d = schedule_change actor body d
change dispatch actor now body d = dispatch_change actor now d
change deliver actor now body d = deliver_change actor now body d
change fail actor now body d = fail_change actor body d

abbrev pub lift : {A : Type 0} → Result A → Tx A
lift (ok a) db = ok (a, db)
lift (err e) db = err e

unfoldable pub delivery_work : Action → ℕ → ℕ → Json → Tx Response
unfolding random_uuid
delivery_work action actor shipment body = do
  found ← query (λ db. lookup shipment db.deliveries)
  current ← or_throw found (not_found "Delivery unavailable")
  now ← query (λ db. db.now)
  next ← lift (change action actor now body current)
  event ← random_uuid
  execute (λ db. record db {
    deliveries = modify shipment (λ _. next.1) db.deliveries;
    delivery_events =
        insert event
          (record {
            shipment_id = shipment;
            event_type = next.0;
            actor_id = actor;
            from_status = some current.status;
            to_status = next.1.status;
          })
          db.delivery_events;
  })
  pure (delivery_updated shipment next.1.status)

abbrev pub delivery_command : Action → String
delivery_command schedule = "delivery.schedule"
delivery_command dispatch = "delivery.dispatch"
delivery_command deliver = "delivery.deliver"
delivery_command fail = "delivery.fail"

unfoldable pub update_delivery : Action → ℕ → Text → Json → Db → Result Response × Db
update_delivery action actor shipment body db =
    if not (uuid_test shipment)
    then (err (bad_request "Invalid shipment ID"), db)
    else (elim (request_id body) [
      | err e ↦ (err e, db)
      | ok request ↦
          transaction "Order service unavailable"
            (command (actor, (delivery_command action, request))
              (delivery_work action actor (uuid_value shipment) body))
            db
    ])
