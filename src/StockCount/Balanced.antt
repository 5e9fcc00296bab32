-- ===== src/StockCount/Balanced.antt =====
-- What a finished count leaves.
use b2b_stm.Prelude.{
  ℕ, zero, suc, ◌+◌, ◌-◌, ◌≡◌, none, some, Option, arith, nat_eq, pair_eq, min, [], ◌∷◌, beq_refl,
  ◌∙◌,
}
use b2b_stm.Prelude.Int.{ℤ, pos, negsuc, ◌-ℤ◌}
use b2b_stm.Text.{Text}
use b2b_stm.Table.{Table, lookup, modify}
use b2b_stm.Table.Laws.{lookup-modify}
use b2b_stm.Schema.{Db, Sku, Balance, Reservation, Response, StockCount}
use native.Mathlib.Decide.{ℕ_discrete as dec_eq}
use b2b_stm.Tx.{ok}
use b2b_stm.Tx.Inversion.{bind_ok}
use b2b_stm.Order.Store.{log_reservation}
use b2b_stm.StockCount.{
  cut_reservation, cut_reservations, record_delta, set_counted, close_work, open_reservations,
  recorded, finalize_work,
}

cut_reservation-balances :
    (actor count q : ℕ) (row : ℕ × Reservation) (u : Unit {0}) (db d : Db)
    → cut_reservation actor count q row db ≡ ok (u, d)
    → d.balances ≡ db.balances
unfolding cut_reservation log_reservation
cut_reservation-balances actor count q row u db d ran = ground arith

-- The shortage is either released or still short, and the balances are left for the end.
pub cut_reservations-sum :
    (actor count shortage : ℕ) (rows : Table ℕ Reservation) (cuts : ℕ × ℕ) (db d : Db)
    → cut_reservations actor count shortage rows db ≡ ok (cuts, d)
    → (cuts.0 + cuts.1 ≡ shortage) × (d.balances ≡ db.balances)
unfolding cut_reservations
cut_reservations-sum actor count shortage [] cuts db d ran = (ground arith, ground arith)
cut_reservations-sum actor count zero (row ∷ rows) cuts db d ran = (ground arith, ground arith)
cut_reservations-sum actor count (suc n) ((id, r) ∷ rows) cuts db d ran =
    let q : ℕ = min (suc n) (r.quantity - r.shipped_quantity) in
    bind_ok (cut_reservation actor count q (id, r)) _ cuts db d ran λ u d1 one rest.
      bind_ok (cut_reservations actor count (suc n - q) rows) _ cuts d1 d rest λ sums d2 more last.
        let first : d1.balances ≡ db.balances =
          cut_reservation-balances actor count q (id, r) u db d1 one in
        let others = cut_reservations-sum actor count (suc n - q) rows sums d1 d2 more in
        (ground (arith, others.0, last), ground (arith, others.1, first, last))

pub record_delta-balances :
    (actor : ℕ) (sku : Sku) (reason : Text) (delta : ℤ) (o : Option ℕ) (db d : Db)
    → record_delta actor sku reason delta db ≡ ok (o, d)
    → d.balances ≡ db.balances
unfolding record_delta
record_delta-balances actor sku reason (pos zero) o db d ran = ground arith
record_delta-balances actor sku reason (pos (suc n)) o db d ran = ground arith
record_delta-balances actor sku reason (negsuc n) o db d ran = ground arith

-- The two quantities of a balance.
abbrev pub stock_of : Option Balance → Option (ℕ × ℕ)
stock_of none = none
stock_of (some b) = some (b.on_hand_quantity, b.reserved_quantity)

close-balanced :
    (actor id : ℕ) (sku : Sku) (counted : ℕ) (reason : Text) (b : Balance) (a : Response)
    (db db' : Db)
    → lookup sku db.balances ≡ some b
    → close_work actor id sku counted reason b db ≡ ok (a, db')
    → stock_of (lookup sku db'.balances) ≡ some (counted, min b.reserved_quantity counted)
unfolding close_work
close-balanced actor id sku counted reason b a db db' there ran =
    let rows : Table ℕ Reservation = open_reservations sku db in
    let short : ℕ = b.reserved_quantity - counted in
    bind_ok (cut_reservations actor id short rows) _ a db db' ran λ cuts d one rest.
      let sums = cut_reservations-sum actor id short rows cuts db d one in
      let delta : ℤ = pos counted -ℤ pos b.on_hand_quantity in
      elim (dec_eq cuts.0 0) [
        | no left ↦ ground (arith, rest, left)
        | yes all ↦
            bind_ok (record_delta actor sku reason delta)
              (recorded actor id sku counted reason cuts delta) a d db' (ground (arith, rest, all))
              λ o d1 two last.
                let same : d1.balances ≡ db.balances =
                  record_delta-balances actor sku reason delta o d d1 two ∙ sums.1 in
                let table : db'.balances ≡ modify sku (set_counted counted cuts.1) db.balances =
                  ground (arith, last, same) in
                let whole : cuts.1 ≡ short = ground (arith, sums.0, all) in
                ground (
                  arith,
                  table,
                  whole,
                  there,
                  beq_refl sku,
                  lookup-modify sku sku (set_counted counted cuts.1) db.balances,
                )
      ]

-- After a count is finished its SKU has exactly the counted pieces on hand, and what was reserved is
-- cut down to them: no more is reserved than there is.
pub finalize-balanced :
    (actor id counted : ℕ) (reason : Text) (c : StockCount) (b : Balance) (a : Response)
    (db db' : Db)
    → lookup id db.stock_counts ≡ some c
    → lookup (c.warehouse_id, c.product_id) db.balances ≡ some b
    → finalize_work actor id counted reason db ≡ ok (a, db')
    → stock_of (lookup (c.warehouse_id, c.product_id) db'.balances)
      ≡ some (counted, min b.reserved_quantity counted)
unfolding finalize_work
finalize-balanced actor id counted reason c b a db db' there balance ran =
    close-balanced actor id (c.warehouse_id, c.product_id) counted reason b a db db' balance
      (ground (arith, there, balance, ran))
