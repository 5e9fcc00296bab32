-- ===== src/Integrity/Allocate.antt =====
-- `allocate` keeps the books in order.
use mathlib.Core.Path.{subst, sym}
use native.Mathlib.Decide.{ℕ_discrete as dec_eq}
use b2b_stm.Prelude.{
  ℕ, suc, ◌-◌, ◌≡◌, refl, false, none, some, ◌==◌, nat_eq, pair_eq, arith, any, min, inl, inr, ◌≢◌,
  Option-cases,
}
use b2b_stm.Table.{lookup, modify}
use b2b_stm.Table.Laws.{modify_agree}
use b2b_stm.Schema.{Db, Sku, Balance, OrderLine, Reservation}
use b2b_stm.Tx.{ok}
use b2b_stm.Order.Store.{available}
use b2b_stm.Order.Confirm.{allocate_line, reservation_of_line}
use b2b_stm.Integrity.{books, IsIntegral, place_of}
use b2b_stm.Integrity.Hold.{
  held_new, reserving, held_new-IsIntegral, held_more, adding, held_more-IsIntegral,
}
use b2b_stm.Integrity.Rows.{held_for_none, reservation_of_line-lookup, reservation_of_line_line}
use b2b_stm.Integrity.Reserve.{created}
use b2b_stm.Integrity.Ids.{same-IsIntegral}

module _ (actor warehouse id : ℕ) (line : OrderLine) (a : ℕ × ℕ) (db db' : Db)
    (ran : allocate_line actor warehouse (id, line) db ≡ ok (a, db')) where
  abbrev sku : Sku
  sku = (warehouse, line.product_id)

  abbrev amount : ℕ
  amount = min (line.requested_quantity - line.reserved_quantity) (available sku db)

  idle : amount ≡ 0 → db' ≡ db
  unfolding allocate_line
  idle e = ground arith

  extended_books :
      (k : ℕ) (r : Reservation)
      → (amount ≡ 0 → ⊥)
      → reservation_of_line id db.reservations ≡ some (k, r)
      → books db' ≡ record (held_more sku id k amount (books db)) { next_id = suc db.next_id }
  unfolding allocate_line
  extended_books k r e found = ground arith

  new_books :
      (amount ≡ 0 → ⊥)
      → reservation_of_line id db.reservations ≡ none
      → books db' ≡ record (held_new sku id amount (created actor id sku amount) (books db)) {
        next_id = suc (suc db.next_id);
        order_lines = modify id (adding amount) db.order_lines;
      }
  unfolding allocate_line
  new_books e found = ground arith

  unreserved :
      (amount ≡ 0 → ⊥)
      → reservation_of_line id db.reservations ≡ none
      → any (λ x. x.1.order_line_id == id) db.reservations ≡ false
  unfolding allocate_line
  unreserved e found = ground arith

  pub orders_kept : db'.orders ≡ db.orders
  unfolding allocate_line
  orders_kept = ground arith

  pub lines_same : amount ≡ 0 → db'.order_lines ≡ db.order_lines
  lines_same e = rw (idle e)

  pub lines_kept : (amount ≡ 0 → ⊥) → db'.order_lines ≡ modify id (adding amount) db.order_lines
  unfolding allocate_line
  lines_kept e = ground arith

  stocked : (amount ≡ 0 → ⊥) → lookup sku db.balances ≢ none
  unfolding available
  stocked e n = ground arith

  module _ (h : IsIntegral (books db)) (row : lookup id db.order_lines ≡ some line)
      (place : place_of (some line) db.orders ≡ some sku) where
    empty_line :
        (amount ≡ 0 → ⊥)
        → reservation_of_line id db.reservations ≡ none
        → line.reserved_quantity ≡ 0
    empty_line e found =
        ground (arith, h.lined id, held_for_none id db.reservations (unreserved e found))

    line_set :
        (amount ≡ 0 → ⊥)
        → reservation_of_line id db.reservations ≡ none
        → modify id (adding amount) db.order_lines ≡ modify id (reserving amount) db.order_lines
    line_set e found =
        modify_agree id (adding amount) (reserving amount) line db.order_lines row
          (ground (arith, empty_line e found))

    allocated_new :
        (b : Balance)
        → (amount ≡ 0 → ⊥)
        → lookup sku db.balances ≡ some b
        → reservation_of_line id db.reservations ≡ none
        → IsIntegral (books db')
    unfolding available
    allocated_new b e there found =
        same-IsIntegral (held_new sku id amount (created actor id sku amount) (books db))
          (books db')
          (held_new-IsIntegral (books db) h sku b id line amount (created actor id sku amount) there
            (ground arith) (ground arith) row (ground arith) (unreserved e found) place refl refl
            refl refl refl)
          (ground (arith, new_books e found)) (ground (arith, new_books e found, line_set e found))

    allocated_more :
        (b : Balance) (k : ℕ) (r : Reservation)
        → (amount ≡ 0 → ⊥)
        → lookup sku db.balances ≡ some b
        → reservation_of_line id db.reservations ≡ some (k, r)
        → IsIntegral (books db')
    unfolding available
    allocated_more b k r e there found =
        let its_row : lookup k db.reservations ≡ some r =
          reservation_of_line-lookup id k r db.reservations h.keyed_reservations found in
        let its_line : r.order_line_id ≡ id =
          reservation_of_line_line id k r db.reservations found in
        same-IsIntegral (held_more sku id k amount (books db)) (books db')
          (held_more-IsIntegral (books db) h sku b id line amount k r there (ground arith)
            (ground arith) row (ground (arith, h.limited id)) its_row
            (ground (arith, h.placed k r its_row, its_line, place)) its_line)
          (ground (arith, extended_books k r e found)) (ground (arith, extended_books k r e found))

    pub allocate_line-IsIntegral : IsIntegral (books db')
    allocate_line-IsIntegral = elim (dec_eq amount 0) [
      | yes e ↦ subst (λ (d : Db). IsIntegral (books d)) (sym (idle e)) h
      | no e ↦ elim (Option-cases (lookup sku db.balances)) [
        | inl missing ↦ absurd (stocked e missing)
        | inr (b, there) ↦ elim (Option-cases (reservation_of_line id db.reservations)) [
          | inl missing ↦ allocated_new b e there missing
          | inr ((k, r), found) ↦ allocated_more b k r e there found
        ]
      ]
    ]
