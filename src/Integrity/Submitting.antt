-- ===== src/Integrity/Submitting.antt =====
-- `submit` keeps the books in order.
use mathlib.Core.Path.{subst, sym}
use b2b_stm.Prelude.{
  ℕ, suc, ◌≡◌, refl, none, some, nat_eq, pair_eq, arith, inl, inr, ◌≢◌, Option-cases, List, [], ◌∷◌,
  map,
}
use b2b_stm.Text.{uuid_value}
use b2b_stm.Table.{Table, insert}
use b2b_stm.Schema.{Db, OrderLine, Response}
use b2b_stm.Tx.{ok}
use b2b_stm.Tx.Inversion.{bind_ok}
use b2b_stm.Order.Input.{Line, SubmitInput}
use b2b_stm.Order.Store.{notify_internal}
use b2b_stm.Order.Submit.{
  Offer, offer_for, offers, submit_line, submit_lines, submit_work, insert_order, place_order,
  new_order,
}
use b2b_stm.Integrity.{books, IsIntegral}
use b2b_stm.Integrity.Orders.{ordered-IsIntegral, lined-IsIntegral}
use b2b_stm.Integrity.Quiet.{quiet-IsIntegral, notify_internal-IsQuiet}

abbrev new_line : ℕ → Line → Offer → OrderLine
new_line order line offer = record {
  order_id = order;
  product_id = uuid_value line.id;
  sku = offer.0.sku;
  product_name = offer.0.name;
  sale_unit = offer.0.sale_unit;
  requested_quantity = line.quantity;
  reserved_quantity = 0;
  unit_price = some offer.1.unit_price;
  tax_category = offer.1.tax_category;
  tax_rate_bps = offer.1.tax_rate_bps;
}

module _ (found : Table ℕ Offer) (order : ℕ) (line : Line) (u : Unit {0}) (db db' : Db)
    (ran : submit_line found order line db ≡ ok (u, db')) where
  offered : offer_for found line ≢ none
  unfolding submit_line
  offered missing = ground (arith, missing)

  line_books :
      (offer : Offer)
      → offer_for found line ≡ some offer
      → books db' ≡ record (books db) {
        next_id = suc db.next_id;
        order_lines = insert db.next_id (new_line order line offer) db.order_lines;
      }
  unfolding submit_line
  line_books offer there = ground (arith, there)

  submit_line-IsIntegral : IsIntegral (books db) → IsIntegral (books db')
  submit_line-IsIntegral h = elim (Option-cases (offer_for found line)) [
    | inl missing ↦ absurd (offered missing)
    | inr (offer, there) ↦
        subst IsIntegral (sym (line_books offer there))
          (lined-IsIntegral (books db) h (new_line order line offer) refl)
  ]

submit_lines-IsIntegral :
    (found : Table ℕ Offer) (order : ℕ) (lines : List Line) (u : Unit {0}) (db db' : Db)
    → IsIntegral (books db)
    → submit_lines found order lines db ≡ ok (u, db')
    → IsIntegral (books db')
unfolding submit_lines
submit_lines-IsIntegral found order [] u db db' h ran = ground (arith, h)
submit_lines-IsIntegral found order (line ∷ lines) u db db' h ran =
    bind_ok (submit_line found order line) _ u db db' ran λ v d first rest.
      submit_lines-IsIntegral found order lines u d db'
        (submit_line-IsIntegral found order line v db d first h) rest

inserted :
    (customer actor : ℕ) (input : SubmitInput) (id : ℕ) (db d : Db)
    → insert_order customer actor input db ≡ ok (id, d)
    → books d ≡ record (books db) {
      next_id = suc db.next_id;
      orders = insert db.next_id (new_order customer actor input) db.orders;
    }
unfolding insert_order
inserted customer actor input id db d one = ground arith

place_order-IsIntegral :
    (customer actor : ℕ) (input : SubmitInput) (found : Table ℕ Offer) (a : Response) (db db' : Db)
    → IsIntegral (books db)
    → place_order customer actor input found db ≡ ok (a, db')
    → IsIntegral (books db')
unfolding place_order
place_order-IsIntegral customer actor input found a db db' h ran =
    bind_ok (insert_order customer actor input) _ a db db' ran λ id d one rest.
      bind_ok (submit_lines found id input.lines) _ a d db' rest λ u d1 two last.
        let ordered : IsIntegral (books d) =
          subst IsIntegral (sym (inserted customer actor input id db d one))
            (ordered-IsIntegral (books db) h _) in
        let lined : IsIntegral (books d1) =
          submit_lines-IsIntegral found id input.lines u d d1 ordered two in
        let same : notify_internal "order_submitted" id d1 ≡ db' = ground (arith, last) in
        subst (λ (d : Db). IsIntegral (books d)) same
          (quiet-IsIntegral d1 (notify_internal "order_submitted" id d1)
            (notify_internal-IsQuiet "order_submitted" id d1) lined)

pub submit_work-IsIntegral :
    (customer actor : ℕ) (input : SubmitInput) (a : Response) (db db' : Db)
    → IsIntegral (books db)
    → submit_work customer actor input db ≡ ok (a, db')
    → IsIntegral (books db')
unfolding submit_work
submit_work-IsIntegral customer actor input a db db' h ran =
    place_order-IsIntegral customer actor input
      (offers customer (map (λ line. uuid_value line.id) input.lines) db) a db db' h
      (ground (arith, ran))
