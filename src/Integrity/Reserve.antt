-- ===== src/Integrity/Reserve.antt =====
-- `confirm` keeps the books in order.
use mathlib.Core.Path.{subst, sym}
use native.Mathlib.Decide.{ℕ_discrete as dec_eq}
use b2b_stm.Prelude.{
  ℕ, suc, ◌≡◌, refl, false, none, some, ◌==◌, nat_eq, pair_eq, arith, ◌∙◌, any, min, inl, inr, ◌≢◌,
  Bool, String, Option, Option-cases, [], ◌∷◌, All, All-map, All-sort_by, All-filter_of, All-filter,
  All-zip,
}
use b2b_stm.Table.{Table, lookup}
use b2b_stm.Table.Laws.{lookup-modify}
use b2b_stm.Schema.{
  Db, Sku, Balance, OrderLine, Reservation, ReservationStatus, Response, Order, OrderStatus,
}
use b2b_stm.Tx.{ok}
use b2b_stm.Tx.Inversion.{bind_ok}
use b2b_stm.Order.Store.{available, is_submitted}
use b2b_stm.Order.Confirm.{reserve_line, reserve_lines, lines_of, order_in, confirm_work}
use b2b_stm.Integrity.{books, IsIntegral, place_of}
use b2b_stm.Integrity.Hold.{held_new, reserving, held_new-IsIntegral}
use b2b_stm.Integrity.Rows.{IsRow, rows_found}
use b2b_stm.Integrity.Orders.{marked-IsIntegral}
use b2b_stm.Integrity.Ids.{same-IsIntegral}

abbrev pub created : ℕ → ℕ → Sku → ℕ → Reservation
created actor line sku q = record {
  order_line_id = line;
  warehouse_id = sku.0;
  product_id = sku.1;
  quantity = q;
  shipped_quantity = 0;
  status = ReservationStatus.active;
  created_by = actor;
}

abbrev requested_of : Option OrderLine → Option ℕ
requested_of none = none
requested_of (some l) = some l.requested_quantity

module _ (actor warehouse id : ℕ) (line : OrderLine) (a : ℕ × ℕ) (db db' : Db)
    (ran : reserve_line actor warehouse (id, line) db ≡ ok (a, db')) where
  abbrev sku : Sku
  sku = (warehouse, line.product_id)

  abbrev amount : ℕ
  amount = min line.requested_quantity (available sku db)

  idle : amount ≡ 0 → db' ≡ db
  unfolding reserve_line
  idle e = ground arith

  held_books :
      (amount ≡ 0 → ⊥)
      → books db' ≡ record (held_new sku id amount (created actor id sku amount) (books db)) {
        next_id = suc (suc db.next_id);
      }
  unfolding reserve_line
  held_books e = ground arith

  unreserved : (amount ≡ 0 → ⊥) → any (λ x. x.1.order_line_id == id) db.reservations ≡ false
  unfolding reserve_line
  unreserved e = ground arith

  -- What a line asks for is not changed.
  requested_kept :
      (k : ℕ) → requested_of (lookup k db'.order_lines) ≡ requested_of (lookup k db.order_lines)
  unfolding reserve_line
  requested_kept k = ground (arith, lookup-modify k id (reserving amount) db.order_lines)

  -- Nor is the place where its stock lies.
  place_kept :
      (k : ℕ)
      → place_of (lookup k db'.order_lines) db'.orders
        ≡ place_of (lookup k db.order_lines) db.orders
  unfolding reserve_line
  place_kept k = ground (arith, lookup-modify k id (reserving amount) db.order_lines)

  module _ (h : IsIntegral (books db))
      (row : requested_of (lookup id db.order_lines) ≡ some line.requested_quantity)
      (place : place_of (lookup id db.order_lines) db.orders ≡ some sku) where
    held_line :
        (b : Balance) (l : OrderLine)
        → (amount ≡ 0 → ⊥)
        → lookup sku db.balances ≡ some b
        → lookup id db.order_lines ≡ some l
        → IsIntegral (books db')
    unfolding available
    held_line b l e there its_row =
        same-IsIntegral (held_new sku id amount (created actor id sku amount) (books db))
          (books db')
          (held_new-IsIntegral (books db) h sku b id l amount (created actor id sku amount) there
            (ground arith) (ground arith) its_row (ground (arith, row)) (unreserved e)
            (rw its_row at place) refl refl refl refl refl)
          (ground (arith, held_books e)) (ground (arith, held_books e))

    stocked : (amount ≡ 0 → ⊥) → lookup sku db.balances ≢ none
    unfolding available
    stocked e n = ground arith

    reserve_line-IsIntegral : IsIntegral (books db')
    reserve_line-IsIntegral = elim (dec_eq amount 0) [
      | yes e ↦ subst (λ (d : Db). IsIntegral (books d)) (sym (idle e)) h
      | no e ↦ elim (Option-cases (lookup sku db.balances)) [
        | inl missing ↦ absurd (stocked e missing)
        | inr (b, there) ↦ elim (Option-cases (lookup id db.order_lines)) [
          | inl missing ↦ ground arith
          | inr (l, its_row) ↦ held_line b l e there its_row
        ]
      ]
    ]

-- What a loop over lines needs of each line that is still to come.
abbrev Asked : ℕ → Db → ℕ × OrderLine → Type 0
Asked warehouse db (id, line) =
    (requested_of (lookup id db.order_lines) ≡ some line.requested_quantity)
    × (place_of (lookup id db.order_lines) db.orders ≡ some (warehouse, line.product_id))

pub reserve_lines-IsIntegral :
    (actor warehouse : ℕ) (lines : Table ℕ OrderLine) (a : ℕ × ℕ) (db db' : Db)
    → IsIntegral (books db)
    → All (Asked warehouse db) lines
    → reserve_lines actor warehouse lines db ≡ ok (a, db')
    → IsIntegral (books db')
unfolding reserve_lines
reserve_lines-IsIntegral actor warehouse [] a db db' h asked ran = ground (arith, h)
reserve_lines-IsIntegral actor warehouse ((id, line) ∷ lines) a db db' h asked ran =
    bind_ok (reserve_line actor warehouse (id, line)) _ a db db' ran λ first d one rest.
      bind_ok (reserve_lines actor warehouse lines) _ a d db' rest λ sums d' more last.
        let step : IsIntegral (books d) =
          reserve_line-IsIntegral actor warehouse id line first db d one h asked.0.0 asked.0.1 in
        let asked' : All (Asked warehouse d) lines =
          All-map (Asked warehouse db) (Asked warehouse d) lines
            (λ row e. (
              requested_kept actor warehouse id line first db d one row.0 ∙ e.0,
              place_kept actor warehouse id line first db d one row.0 ∙ e.1,
            ))
            asked.1 in
        let done : IsIntegral (books d') =
          reserve_lines-IsIntegral actor warehouse lines sums d d' step asked' more in
        ground (arith, done)

-- The lines of an order, as the query gives them.
pub lines_found :
    (order : ℕ) (db : Db) → IsIntegral (books db) → All (IsRow db.order_lines) (lines_of order db)
unfolding lines_of
lines_found order db h =
    All-sort_by (IsRow db.order_lines) (λ row. row.1.product_id) _
      (All-filter_of (IsRow db.order_lines) (λ row. row.1.order_id == order) db.order_lines
        (rows_found db.order_lines h.keyed_lines))

abbrev pub IsOf : ℕ → ℕ × OrderLine → Type 0
IsOf order row = row.1.order_id ≡ order

pub lines_theirs : (order : ℕ) (db : Db) → All (IsOf order) (lines_of order db)
unfolding lines_of
lines_theirs order db =
    All-sort_by (IsOf order) (λ row. row.1.product_id) _
      (All-filter (IsOf order) (λ row. row.1.order_id == order) db.order_lines
        (λ row e. ground arith))

lines-Asked :
    (id : ℕ) (o : Order) (db : Db)
    → lookup id db.orders ≡ some o
    → IsIntegral (books db)
    → All (Asked o.warehouse_id db) (lines_of id db)
lines-Asked id o db there h =
    All-zip (IsRow db.order_lines) (IsOf id) (Asked o.warehouse_id db) (lines_of id db)
      (λ row found mine. (rw found, ground (arith, found, mine, there))) (lines_found id db h)
      (lines_theirs id db)

pub order_in-same :
    (wanted : OrderStatus → Bool) (message : String) (id : ℕ) (o : Order) (db d : Db)
    → order_in wanted message id db ≡ ok (o, d)
    → d ≡ db
unfolding order_in
order_in-same wanted message id o db d h = elim (Option-cases (lookup id db.orders)) [
  | inl e ↦ ground arith
  | inr (x, e) ↦ ground arith
]

pub order_in_found :
    (wanted : OrderStatus → Bool) (message : String) (id : ℕ) (o : Order) (db d : Db)
    → order_in wanted message id db ≡ ok (o, d)
    → lookup id db.orders ≡ some o
unfolding order_in
order_in_found wanted message id o db d h = elim (Option-cases (lookup id db.orders)) [
  | inl e ↦ ground arith
  | inr (x, e) ↦ ground arith
]

pub confirm_work-IsIntegral :
    (actor id : ℕ) (a : Response) (db db' : Db)
    → IsIntegral (books db)
    → confirm_work actor id db ≡ ok (a, db')
    → IsIntegral (books db')
unfolding confirm_work
confirm_work-IsIntegral actor id a db db' h ran =
    bind_ok (order_in is_submitted "Order is already processed" id) _ a db db' ran λ o d found rest.
      bind_ok (reserve_lines actor o.warehouse_id (lines_of id d)) _ a d db' rest
        λ sums d' more last.
          let same : d ≡ db = order_in-same is_submitted _ id o db d found in
          let done : IsIntegral (books d') =
            reserve_lines-IsIntegral actor o.warehouse_id (lines_of id d) sums d d' (rw same h)
              (lines-Asked id o d (rw same (order_in_found is_submitted _ id o db d found))
                (rw same h))
              more in
          let marked : IsIntegral (books db') = subst IsIntegral (ground arith) (
            marked-IsIntegral (books d') done id
              (λ (x : Order). record x {
                status = OrderStatus.confirmed;
                confirmed_by = some actor;
                version = suc x.version;
              })
              (λ x. refl)) in
          marked
