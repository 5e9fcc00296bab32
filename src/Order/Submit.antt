-- ===== src/Order/Submit.antt =====
-- `submit` of apps/api/src/orders/order.service.ts: a customer's order is stored with the prices
-- and the tax policy of the moment.
use b2b_stm.Prelude.{
  ℕ, ◌-◌, ◌^◌, Bool, false, ◌&&◌, not, Option, none, some, List, [], ◌∷◌, map, any, length, ◌==◌,
  nat_eq, string_eq, pair_eq, if◌then◌else◌, ltb,
}
use b2b_stm.Text.{uuid_value, is_canonical}
use b2b_stm.Json.{Json}
use b2b_stm.Table.{Table, lookup, insert}
use b2b_stm.Schema.{Db, Product, CustomerPrice, Order, OrderStatus, Response, order_submitted}
use b2b_stm.Tx.{
  Tx, Result, ok, err, bad_request, fault, pure, ◌>>=◌, ◌>>◌, query, execute, throw_if, or_throw,
  random_uuid, transaction, command,
}
use b2b_stm.Order.Input.{Line, SubmitInput, submit_input}
use b2b_stm.Order.Store.{notify_internal}

customer_active : ℕ → Db → Bool
customer_active id db = elim (lookup id db.customers) [ none ↦ false | some c ↦ c.active ]

warehouse_active : ℕ → Db → Bool
warehouse_active id db = elim (lookup id db.warehouses) [ none ↦ false | some w ↦ w.active ]

abbrev pub Offer : Type 0
Offer = Product × CustomerPrice

active_price : ℕ → ℕ → Db → Option CustomerPrice
active_price customer product db = elim (lookup (customer, product) db.customer_prices) [
  | none ↦ none
  | some price ↦ if price.active then some price else none
]

-- The active products among the ids for which the customer has an active price.
offers_from : ℕ → List ℕ → Db → Table ℕ Product → Table ℕ Offer
offers_from customer ids db [] = []
offers_from customer ids db ((id, product) ∷ products) =
    let rest = offers_from customer ids db products in
    if product.active && any (λ wanted. wanted == id) ids
    then (elim (active_price customer id db) [
      | none ↦ rest
      | some price ↦ (id, (product, price)) ∷ rest
    ])
    else rest

unfoldable pub offers : ℕ → List ℕ → Db → Table ℕ Offer
unfolding offers_from active_price
offers customer ids db = offers_from customer ids db db.products

-- The largest `integer` of the database.
abbrev pub int4_max : ℕ
int4_max = 2 ^ 31 - 1

-- `productsById.get(line.productId)!`: the keys of the map are the database's texts, and the fields
-- of `undefined` cannot be read.
unfoldable pub offer_for : Table ℕ Offer → Line → Option Offer
offer_for found line = if is_canonical line.id then lookup (uuid_value line.id) found else none

unfoldable pub submit_line : Table ℕ Offer → ℕ → Line → Tx (Unit {0})
unfolding offer_for random_uuid
submit_line found order line = do
  offer ← or_throw (offer_for found line) (fault "TypeError")
  id ← random_uuid
  throw_if (ltb int4_max line.quantity) (fault "integer out of range")
  execute (λ db. record db {
    order_lines =
        insert id
          (record {
            order_id = order;
            product_id = uuid_value line.id;
            sku = offer.0.sku;
            product_name = offer.0.name;
            sale_unit = offer.0.sale_unit;
            requested_quantity = line.quantity;
            reserved_quantity = 0;
            unit_price = some offer.1.unit_price;
            tax_category = offer.1.tax_category;
            tax_rate_bps = offer.1.tax_rate_bps;
          })
          db.order_lines;
  })

unfoldable pub submit_lines : Table ℕ Offer → ℕ → List Line → Tx (Unit {0})
submit_lines found order [] = pure tt
submit_lines found order (line ∷ lines) = do
  submit_line found order line
  submit_lines found order lines

abbrev pub new_order : ℕ → ℕ → SubmitInput → Order
new_order customer actor input = record {
  customer_id = customer;
  warehouse_id = input.warehouse_id;
  status = OrderStatus.submitted;
  requested_by = actor;
  confirmed_by = none;
  version = 1;
}

unfoldable pub insert_order : ℕ → ℕ → SubmitInput → Tx ℕ
unfolding random_uuid
insert_order customer actor input = do
  id ← random_uuid
  execute (λ db. record db { orders = insert id (new_order customer actor input) db.orders })
  pure id

unfoldable pub place_order : ℕ → ℕ → SubmitInput → Table ℕ Offer → Tx Response
place_order customer actor input found = do
  id ← insert_order customer actor input
  submit_lines found id input.lines
  execute (notify_internal "order_submitted" id)
  pure (order_submitted id)

unfoldable pub submit_work : ℕ → ℕ → SubmitInput → Tx Response
unfolding customer_active warehouse_active
submit_work customer actor input = do
  customer_found ← query (customer_active customer)
  warehouse_found ← query (warehouse_active input.warehouse_id)
  throw_if (not (customer_found && warehouse_found))
      (bad_request "Customer or warehouse unavailable")
  found ← query (offers customer (map (λ line. uuid_value line.id) input.lines))
  throw_if (not (length found == length input.lines)) (bad_request "Product unavailable")
  place_order customer actor input found

unfoldable pub submit : ℕ → ℕ → Json → Db → Result Response × Db
submit customer actor body db = elim (submit_input body) [
  | err e ↦ (err e, db)
  | ok input ↦
      transaction "Order service unavailable"
        (command (actor, ("order.submit", input.request_id)) (submit_work customer actor input)) db
]
