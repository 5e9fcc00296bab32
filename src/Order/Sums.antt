-- ===== src/Order/Sums.antt =====
-- What `confirm` and `allocate` answer adds up to what was asked for.
use mathlib.Core.Path.{subst}
use b2b_stm.Integrity.Reserve.{order_in-same}
use b2b_stm.Prelude.{ℕ, ◌+◌, ◌-◌, ◌≡◌, none, some, Option, arith, nat_eq, pair_eq, [], ◌∷◌, sum_map}
use b2b_stm.Table.{Table}
use b2b_stm.Schema.{Db, OrderLine, Response, order_confirmed, order_allocated}
use b2b_stm.Tx.{Result, ok, err}
use b2b_stm.Tx.Inversion.{bind_ok}
use b2b_stm.Order.Store.{is_submitted, is_confirmed}
use b2b_stm.Order.Confirm.{
  reserve_line, reserve_lines, lines_of, order_in, confirm_work, allocate_line, allocate_lines,
  allocate_work,
}

abbrev pub asked : ℕ × OrderLine → ℕ
asked row = row.1.requested_quantity

reserve_line_sum :
    (actor warehouse : ℕ) (row : ℕ × OrderLine) (a : ℕ × ℕ) (db db' : Db)
    → reserve_line actor warehouse row db ≡ ok (a, db')
    → a.0 + a.1 ≡ asked row
unfolding reserve_line
reserve_line_sum actor warehouse row a db db' ran = ground arith

reserve_lines_sum :
    (actor warehouse : ℕ) (lines : Table ℕ OrderLine) (a : ℕ × ℕ) (db db' : Db)
    → reserve_lines actor warehouse lines db ≡ ok (a, db')
    → a.0 + a.1 ≡ sum_map asked lines
unfolding reserve_lines
reserve_lines_sum actor warehouse [] a db db' ran = ground arith
reserve_lines_sum actor warehouse (row ∷ rows) a db db' ran =
    bind_ok (reserve_line actor warehouse row) _ a db db' ran λ first d one rest.
      bind_ok (reserve_lines actor warehouse rows) _ a d db' rest λ sums d' more last.
        let head : first.0 + first.1 ≡ asked row =
          reserve_line_sum actor warehouse row first db d one in
        let tail : sums.0 + sums.1 ≡ sum_map asked rows =
          reserve_lines_sum actor warehouse rows sums d d' more in
        ground (arith, head, tail, last)

abbrev pub waiting : ℕ × OrderLine → ℕ
waiting row = row.1.requested_quantity - row.1.reserved_quantity

allocate_line_sum :
    (actor warehouse : ℕ) (row : ℕ × OrderLine) (a : ℕ × ℕ) (db db' : Db)
    → allocate_line actor warehouse row db ≡ ok (a, db')
    → a.0 + a.1 ≡ waiting row
unfolding allocate_line
allocate_line_sum actor warehouse row a db db' ran = ground arith

allocate_lines_sum :
    (actor warehouse : ℕ) (lines : Table ℕ OrderLine) (a : ℕ × ℕ) (db db' : Db)
    → allocate_lines actor warehouse lines db ≡ ok (a, db')
    → a.0 + a.1 ≡ sum_map waiting lines
unfolding allocate_lines
allocate_lines_sum actor warehouse [] a db db' ran = ground arith
allocate_lines_sum actor warehouse (row ∷ rows) a db db' ran =
    bind_ok (allocate_line actor warehouse row) _ a db db' ran λ first d one rest.
      bind_ok (allocate_lines actor warehouse rows) _ a d db' rest λ sums d' more last.
        let head : first.0 + first.1 ≡ waiting row =
          allocate_line_sum actor warehouse row first db d one in
        let tail : sums.0 + sums.1 ≡ sum_map waiting rows =
          allocate_lines_sum actor warehouse rows sums d d' more in
        ground (arith, head, tail, last)

-- The pieces reserved and the pieces left open in the answer of `confirm` are together the pieces
-- that the lines of the order ask for.
pub confirm-sum :
    (actor id order reserved unreserved : ℕ) (db db' : Db)
    → confirm_work actor id db ≡ ok (order_confirmed order reserved unreserved, db')
    → reserved + unreserved ≡ sum_map asked (lines_of id db)
unfolding confirm_work
confirm-sum actor id order reserved unreserved db db' ran =
    bind_ok (order_in is_submitted "Order is already processed" id) _ _ db db' ran λ o d found rest.
      bind_ok (reserve_lines actor o.warehouse_id (lines_of id d)) _ _ d db' rest
        λ sums d' more last.
          let same : d ≡ db = order_in-same is_submitted _ id o db d found in
          let total : sums.0 + sums.1 ≡ sum_map asked (lines_of id d) =
            reserve_lines_sum actor o.warehouse_id (lines_of id d) sums d d' more in
          subst (λ (x : Db). reserved + unreserved ≡ sum_map asked (lines_of id x)) same
            (ground (arith, total, last))

-- The sums that an allocation answers with.
abbrev answer : ℕ → Result ((ℕ × ℕ) × Db) → Option (Response × Db)
answer id (ok (sums, d)) = some (order_allocated id sums.0 sums.1, d)
answer id (err e) = none

answered :
    (x : Result ((ℕ × ℕ) × Db)) (id : ℕ) (r : Response) (d : Db)
    → answer id x ≡ some (r, d)
    → (sums : ℕ × ℕ) × (x ≡ ok (sums, d)) × (order_allocated id sums.0 sums.1 ≡ r)
answered (ok (sums, d')) id r d h = (sums, ground (arith, h), ground (arith, h))
answered (err e) id r d h = cc

answer_sum :
    (id order a b c d n : ℕ)
    → order_allocated id a b ≡ order_allocated order c d
    → a + b ≡ n
    → c + d ≡ n
answer_sum id order a b c d n e total = ground arith

-- The pieces allocated and the pieces still open in the answer of `allocate` are together the pieces
-- that the lines of the order were waiting for.
pub allocate-sum :
    (actor id order allocated open_pieces : ℕ) (db db' : Db)
    → allocate_work actor id db ≡ ok (order_allocated order allocated open_pieces, db')
    → allocated + open_pieces ≡ sum_map waiting (lines_of id db)
unfolding allocate_work
allocate-sum actor id order allocated open_pieces db db' ran =
    bind_ok (order_in is_confirmed "Order cannot receive inventory allocation" id) _ _ db db' ran
      λ o d found rest.
        let same : d ≡ db = order_in-same is_confirmed _ id o db d found in
        let sums =
          answered (allocate_lines actor o.warehouse_id (lines_of id d) d) id
            (order_allocated order allocated open_pieces) db' (ground (arith, rest)) in
        let total : sums.0.0 + sums.0.1 ≡ sum_map waiting (lines_of id d) =
          allocate_lines_sum actor o.warehouse_id (lines_of id d) sums.0 d db' sums.1 in
        subst (λ (x : Db). allocated + open_pieces ≡ sum_map waiting (lines_of id x)) same
          (answer_sum id order sums.0.0 sums.0.1 allocated open_pieces _ sums.2 total)
