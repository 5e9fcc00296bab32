-- ===== src/Integrity/Allocation.antt =====
-- `allocate` over all lines of its order: each line is as the query read it, since a line is
-- written once.
use b2b_stm.Table.{Table, lookup}
use b2b_stm.Integrity.{books, IsIntegral, place_of}
use b2b_stm.Integrity.Rows.{IsRow}
use mathlib.Core.Path.{subst, sym}
use native.Mathlib.Decide.{ℕ_discrete as dec_eq}
use b2b_stm.Prelude.{ℕ, ◌-◌, ◌≡◌, some, ◌==◌, nat_eq, pair_eq, arith, min, [], ◌∷◌, All, All-map}
use b2b_stm.Schema.{Db, OrderLine, Response, Order}
use b2b_stm.Tx.{ok}
use b2b_stm.Tx.Inversion.{bind_ok, final_ok}
use b2b_stm.Order.Store.{available, is_confirmed}
use b2b_stm.Order.Confirm.{allocate_line, allocate_lines, lines_of, order_in, allocate_work}
use b2b_stm.Integrity.Hold.{adding}
use b2b_stm.Integrity.Distinct.{
  IsDistinct, Without, IsDistinct-of_keyed, IsDistinct-filter, IsDistinct-sort_by, rows_kept,
}
use b2b_stm.Integrity.Reserve.{order_in-same, order_in_found, lines_found, lines_theirs, IsOf}
use b2b_stm.Integrity.Allocate.{allocate_line-IsIntegral, orders_kept, lines_same, lines_kept}

-- What the loop needs of the place of each line.
abbrev Placed : ℕ → Db → ℕ × OrderLine → Type 0
Placed warehouse db row = place_of (some row.1) db.orders ≡ some (warehouse, row.1.product_id)

rows_still :
    (actor warehouse id : ℕ) (line : OrderLine) (a : ℕ × ℕ) (db d : Db)
    → allocate_line actor warehouse (id, line) db ≡ ok (a, d)
    → (rows : Table ℕ OrderLine) → Without id rows
    → All (IsRow db.order_lines) rows
    → All (IsRow d.order_lines) rows
rows_still actor warehouse id line a db d ran rows apart found =
    let amount : ℕ =
      min (line.requested_quantity - line.reserved_quantity)
        (available (warehouse, line.product_id) db) in
    elim (dec_eq amount 0) [
      | yes e ↦
          subst (λ (t : Table ℕ OrderLine). All (IsRow t) rows)
            (sym (lines_same actor warehouse id line a db d ran e)) found
      | no e ↦
          subst (λ (t : Table ℕ OrderLine). All (IsRow t) rows)
            (sym (lines_kept actor warehouse id line a db d ran e))
            (rows_kept id (adding amount) db.order_lines rows apart found)
    ]

pub allocate_lines-IsIntegral :
    (actor warehouse : ℕ) (lines : Table ℕ OrderLine) (a : ℕ × ℕ) (db db' : Db)
    → IsIntegral (books db)
    → IsDistinct lines
    → All (IsRow db.order_lines) lines
    → All (Placed warehouse db) lines
    → allocate_lines actor warehouse lines db ≡ ok (a, db')
    → IsIntegral (books db')
unfolding allocate_lines
allocate_lines-IsIntegral actor warehouse [] a db db' h apart found placed ran = ground (arith, h)
allocate_lines-IsIntegral actor warehouse ((id, line) ∷ lines) a db db' h apart found placed ran =
    bind_ok (allocate_line actor warehouse (id, line)) _ a db db' ran λ first d one rest.
      bind_ok (allocate_lines actor warehouse lines) _ a d db' rest λ sums d' more last.
        let step : IsIntegral (books d) =
          allocate_line-IsIntegral actor warehouse id line first db d one h found.0 placed.0 in
        let placed' : All (Placed warehouse d) lines =
          All-map (Placed warehouse db) (Placed warehouse d) lines
            (λ row e. rw (orders_kept actor warehouse id line first db d one, e)) placed.1 in
        let done : IsIntegral (books d') =
          allocate_lines-IsIntegral actor warehouse lines sums d d' step apart.1
            (rows_still actor warehouse id line first db d one lines apart.0 found.1) placed'
            more in
        ground (arith, done)

lines_apart : (id : ℕ) (db : Db) → IsIntegral (books db) → IsDistinct (lines_of id db)
unfolding lines_of
lines_apart id db h =
    IsDistinct-sort_by (λ row. row.1.product_id) _
      (IsDistinct-filter (λ row. row.1.order_id == id) db.order_lines
        (IsDistinct-of_keyed db.order_lines h.keyed_lines))

lines-Placed :
    (id : ℕ) (o : Order) (db : Db)
    → lookup id db.orders ≡ some o
    → All (Placed o.warehouse_id db) (lines_of id db)
lines-Placed id o db there =
    All-map (IsOf id) (Placed o.warehouse_id db) (lines_of id db)
      (λ row mine. ground (arith, mine, there)) (lines_theirs id db)

pub allocate_work-IsIntegral :
    (actor id : ℕ) (a : Response) (db db' : Db)
    → IsIntegral (books db)
    → allocate_work actor id db ≡ ok (a, db')
    → IsIntegral (books db')
unfolding allocate_work
allocate_work-IsIntegral actor id a db db' h ran =
    bind_ok (order_in is_confirmed "Order cannot receive inventory allocation" id) _ a db db' ran
      λ o d found rest.
        let same : d ≡ db = order_in-same is_confirmed _ id o db d found in
        let there : lookup id d.orders ≡ some o =
          rw same (order_in_found is_confirmed _ id o db d found) in
        let sound : IsIntegral (books d) = rw same h in
        let lines =
          final_ok (allocate_lines actor o.warehouse_id (lines_of id d) d) db'
            (ground (arith, rest)) in
        allocate_lines-IsIntegral actor o.warehouse_id (lines_of id d) lines.0 d db' sound
          (lines_apart id d sound) (lines_found id d sound) (lines-Placed id o d there) lines.1
