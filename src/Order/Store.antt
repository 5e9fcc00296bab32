-- ===== src/Order/Store.antt =====
-- The statements that several order commands share: the availability of a SKU, the hold on its
-- stock, stock counts, cancellation reviews, shipment work assignments and notifications
-- (apps/api/src/orders/order.service.ts and apps/api/src/notifications/notification-outbox.ts).
use b2b_stm.Prelude.{
  ℕ, suc, ◌+◌, ◌-◌, Bool, true, false, ◌&&◌, ◌||◌, not, Option, none, some, [], ◌∷◌, String, any,
  filter, ◌==◌, nat_eq, pair_eq, ltb,
}
use b2b_stm.Text.{Text}
use b2b_stm.Table.{Table, lookup, insert, upsert}
use b2b_stm.Schema.{
  Db, Sku, Balance, Order, OrderLine, OrderStatus, Reservation, ReservationStatus, CountStatus,
  StockCount, RequestStatus, CancellationRequest, AccountType, User, AssignmentEvent,
}
use b2b_stm.Tx.{Tx, conflict, ◌>>=◌, ◌>>◌, query, execute, throw_if, random_uuid}

abbrev pub is_active : ReservationStatus → Bool
is_active ReservationStatus.active = true
is_active _ = false

abbrev pub is_confirmed : OrderStatus → Bool
is_confirmed OrderStatus.confirmed = true
is_confirmed _ = false

abbrev pub is_submitted : OrderStatus → Bool
is_submitted OrderStatus.submitted = true
is_submitted _ = false

unfoldable pub is_open_count : CountStatus → Bool
is_open_count CountStatus.counting = true
is_open_count _ = false

is_pending : RequestStatus → Bool
is_pending RequestStatus.pending = true
is_pending _ = false

abbrev pub sku_of : Reservation → Sku
sku_of r = (r.warehouse_id, r.product_id)

-- `SELECT 1 FROM stock_counts WHERE warehouse_id=$1 AND product_id=$2 AND status='counting'`
unfoldable pub is_counting : Sku → Db → Bool
unfolding is_open_count
is_counting s db =
    any (λ c. is_open_count c.1.status && s == (c.1.warehouse_id, c.1.product_id)) db.stock_counts

-- `balance.rowCount ? Math.max(0, on_hand - reserved) : 0`
unfoldable pub available : Sku → Db → ℕ
available s db = elim (lookup s db.balances) [
  | none ↦ 0
  | some b ↦ b.on_hand_quantity - b.reserved_quantity
]

abbrev pub hold : ℕ → Balance → Balance
hold q b = record b { reserved_quantity = b.reserved_quantity + q; version = suc b.version }

abbrev pub unhold : ℕ → Balance → Balance
unhold q b = record b { reserved_quantity = b.reserved_quantity - q; version = suc b.version }

unfoldable pub log_reservation : ℕ → String → ℕ → ℕ → Tx (Unit {0})
unfolding random_uuid
log_reservation reservation event quantity actor = do
  id ← random_uuid
  execute (λ db. record db {
    reservation_events =
        insert id
          (record {
            reservation_id = reservation;
            event_type = event;
            quantity = quantity;
            created_by = actor;
          })
          db.reservation_events;
  })

-- `SELECT ... FROM order_cancellation_requests WHERE order_id=$1 AND status='submitted'`
unfoldable pub review_pending : ℕ → Db → Bool
unfolding is_pending
review_pending order db =
    any (λ r. r.1.order_id == order && is_pending r.1.status) db.cancellation_requests

unfoldable pub log_assignment : ℕ → String → ℕ → ℕ → Option Text → Tx (Unit {0})
unfolding random_uuid
log_assignment order event actor assignee reason = do
  id ← random_uuid
  execute (λ db. record db {
    assignment_events =
        insert id
          (record {
            order_id = order;
            event_type = event;
            actor_id = actor;
            assignee_id = assignee;
            reason = reason;
          })
          db.assignment_events;
  })

-- The order that a reservation belongs to, through its order line.
unfoldable pub order_of : Db → Reservation → Option ℕ
order_of db r = elim (lookup r.order_line_id db.order_lines) [
  | none ↦ none
  | some line ↦ some line.order_id
]

unfoldable pub belongs_to : Db → ℕ → Reservation → Bool
unfolding order_of
belongs_to db order r = elim (order_of db r) [ none ↦ false | some o ↦ o == order ]

-- A reservation of the order that is active and not fully shipped.
unfoldable pub has_open_reservation : ℕ → Db → Bool
unfolding belongs_to
has_open_reservation order db =
    any
      (λ r.
        belongs_to db order r.1 && is_active r.1.status && ltb r.1.shipped_quantity r.1.quantity)
      db.reservations

-- Take the work over if nobody has it; refuse if another worker has it.
unfoldable pub take_assignment : ℕ → ℕ → Tx (Unit {0})
unfolding log_assignment
take_assignment actor order = do
  assignment ← query (λ db. lookup order db.assignments)
  elim assignment [
    | some worker ↦
        throw_if (not (worker == actor)) (conflict "Shipment work is assigned to another worker")
    | none ↦ do
      execute (λ db. record db { assignments = insert order actor db.assignments })
      log_assignment order "claimed" actor actor none
  ]

is_customer_account : AccountType → Bool
is_customer_account AccountType.customer_account = true
is_customer_account AccountType.internal = false

abbrev pub notification : String → ℕ → ℕ × User → ((ℕ × ℕ) × b2b_stm.Schema.Notification)
notification event aggregate user = (
  (aggregate, user.0),
  record {
    event_type = event;
    aggregate_id = aggregate;
    recipient_user_id = user.0;
    recipient_email = user.1.email;
  },
)

-- `INSERT INTO notification_outbox ... ON CONFLICT DO NOTHING` for each recipient. The aggregate's
-- kind follows from its id, so the key is (aggregate, recipient).
unfoldable pub notify : String → ℕ → Table ℕ User → Db → Db
notify event aggregate [] db = db
notify event aggregate (user ∷ users) db =
    let entry = notification event aggregate user in
    notify event aggregate users
      (record db { outbox = upsert entry.0 entry.1 (λ old. old) db.outbox })

unfoldable pub customer_users : ℕ → Db → Table ℕ User
unfolding is_customer_account
customer_users customer db =
    filter
      (λ u.
        (elim u.1.customer_id [ none ↦ false | some c ↦ c == customer ])
        && u.1.active
        && is_customer_account u.1.account_type)
      db.users

unfoldable pub notify_customer : ℕ → String → ℕ → Db → Db
unfolding notify
notify_customer customer event aggregate db = notify event aggregate (customer_users customer db) db

-- The roles are always `operations` and `system`.
unfoldable pub internal_users : Db → Table ℕ User
unfolding is_customer_account
internal_users db =
    filter
      (λ u.
        u.1.active
        && not (is_customer_account u.1.account_type)
        && (u.1.is_operations || u.1.is_system))
      db.users

unfoldable pub notify_internal : String → ℕ → Db → Db
unfolding notify
notify_internal event aggregate db = notify event aggregate (internal_users db) db
