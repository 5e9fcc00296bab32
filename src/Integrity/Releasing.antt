-- ===== src/Integrity/Releasing.antt =====
-- Releasing the reservations of an order keeps the books in order.
use mathlib.Core.Path.{subst, sym}
use native.Mathlib.Decide.{ℕ_discrete as dec_eq}
use b2b_stm.Prelude.{
  ℕ, suc, ◌-◌, ◌≤◌, ◌≡◌, true, none, some, nat_eq, pair_eq, arith, inl, inr, ◌≢◌, Option-cases, [],
  ◌∷◌, All, All-map, All-zip, All-sort_by, All-filter, All-filter_of, ◌&&◌,
}
use b2b_stm.Text.{Text, codes}
use b2b_stm.Table.{Table, lookup, modify}
use b2b_stm.Schema.{Db, Balance, Reservation}
use b2b_stm.Tx.{ok}
use b2b_stm.Tx.Inversion.{bind_ok}
use b2b_stm.Order.Store.{belongs_to, order_of, is_active, sku_of}
use b2b_stm.Order.Cancel.{
  release_reservation, release_reservations, release_order_reservations, active_reservations,
  reset_shipment_work, started_work, drop_assignment,
}
use b2b_stm.Integrity.{books, IsIntegral}
use b2b_stm.Integrity.Ids.{same-IsIntegral}
use b2b_stm.Integrity.Release.{given_back, releasing, given_back-IsIntegral}
use b2b_stm.Integrity.Rows.{IsRow, rows_found}
use b2b_stm.Integrity.Distinct.{
  IsDistinct, Without, IsDistinct-of_keyed, IsDistinct-filter, IsDistinct-sort_by, rows_kept,
}
use b2b_stm.Integrity.Reset.{picked_at, Kept, reset_lines-IsIntegral, reset-idle}
use b2b_stm.Integrity.Quiet.{quiet-IsIntegral, drop_assignment-IsQuiet}

module _ (actor id : ℕ) (r : Reservation) (a : ℕ) (db db' : Db)
    (ran : release_reservation actor (id, r) db ≡ ok (a, db')) where
  abbrev q : ℕ
  q = r.quantity - r.shipped_quantity

  nothing_left : q ≡ 0 → db' ≡ db
  unfolding release_reservation
  nothing_left e = ground arith

  released_books :
      (q ≡ 0 → ⊥) → books db' ≡ record (given_back id r q (books db)) { next_id = suc db.next_id }
  unfolding release_reservation
  released_books e = ground arith

  balance_there : (q ≡ 0 → ⊥) → lookup (sku_of r) db.balances ≢ none
  unfolding release_reservation
  balance_there e missing = ground arith

  balance_enough :
      (b : Balance) → (q ≡ 0 → ⊥) → lookup (sku_of r) db.balances ≡ some b → q ≤ b.reserved_quantity
  unfolding release_reservation
  balance_enough b e there = ground arith

  pub rows_released :
      (rows : Table ℕ Reservation)
      → Without id rows
      → All (IsRow db.reservations) rows
      → All (IsRow db'.reservations) rows
  unfolding release_reservation
  rows_released rows apart found = elim (dec_eq q 0) [
    | yes e ↦
        let same : db ≡ db' = sym (nothing_left e) in
        subst (λ (d : Db). All (IsRow d.reservations) rows) same found
    | no e ↦
        let same : modify id releasing db.reservations ≡ db'.reservations = ground arith in
        subst (λ (t : Table ℕ Reservation). All (IsRow t) rows) same
          (rows_kept id releasing db.reservations rows apart found)
  ]

  pub work_kept : db'.work_lines ≡ db.work_lines
  unfolding release_reservation
  work_kept = ground arith

  pub release_reservation-IsIntegral :
      IsIntegral (books db)
      → lookup id db.reservations ≡ some r
      → is_active r.status ≡ true
      → picked_at id db.work_lines ≡ 0
      → IsIntegral (books db')
  release_reservation-IsIntegral h found active idle = elim (dec_eq q 0) [
    | yes e ↦ subst (λ (d : Db). IsIntegral (books d)) (sym (nothing_left e)) h
    | no e ↦ elim (Option-cases (lookup (sku_of r) db.balances)) [
      | inl missing ↦ absurd (balance_there e missing)
      | inr (b, there) ↦
          same-IsIntegral (given_back id r q (books db)) (books db')
            (given_back-IsIntegral (books db) h id r b found active there (balance_enough b e there)
              (λ w work. ground (arith, idle, work)))
            (ground (arith, released_books e)) (ground (arith, released_books e))
    ]
  ]

-- What the loop needs of each reservation that is still to come.
abbrev pub Idle : Db → ℕ × Reservation → Type 0
Idle db row = picked_at row.0 db.work_lines ≡ 0

abbrev pub Active : ℕ × Reservation → Type 0
Active row = is_active row.1.status ≡ true

pub release_reservations-IsIntegral :
    (actor : ℕ) (rows : Table ℕ Reservation) (a : ℕ) (db db' : Db)
    → IsIntegral (books db)
    → IsDistinct rows
    → All (IsRow db.reservations) rows
    → All Active rows
    → All (Idle db) rows
    → release_reservations actor rows db ≡ ok (a, db')
    → IsIntegral (books db')
unfolding release_reservations
release_reservations-IsIntegral actor [] a db db' h apart found active idle ran = ground (arith, h)
release_reservations-IsIntegral actor ((id, r) ∷ rows) a db db' h apart found active idle ran =
    bind_ok (release_reservation actor (id, r)) _ a db db' ran λ q d one rest.
      bind_ok (release_reservations actor rows) _ a d db' rest λ sum d' more last.
        let step : IsIntegral (books d) =
          release_reservation-IsIntegral actor id r q db d one h found.0 active.0 idle.0 in
        let still : All (Idle d) rows =
          All-map (Idle db) (Idle d) rows (λ row e. rw (work_kept actor id r q db d one, e))
            idle.1 in
        let done : IsIntegral (books d') =
          release_reservations-IsIntegral actor rows sum d d' step apart.1
            (rows_released actor id r q db d one rows apart.0 found.1) active.1 still more in
        ground (arith, done)

-- The reservations that a cancellation releases.
module _ (order : ℕ) (db : Db) (h : IsIntegral (books db)) where
  released_rows : All (IsRow db.reservations) (active_reservations order db)
  unfolding active_reservations
  released_rows =
      All-sort_by (IsRow db.reservations) (λ row. row.1.product_id) _
        (All-filter_of (IsRow db.reservations)
          (λ row. belongs_to db order row.1 && is_active row.1.status) db.reservations
          (rows_found db.reservations h.keyed_reservations))

  released_apart : IsDistinct (active_reservations order db)
  unfolding active_reservations
  released_apart =
      IsDistinct-sort_by (λ row. row.1.product_id) _
        (IsDistinct-filter (λ row. belongs_to db order row.1 && is_active row.1.status)
          db.reservations (IsDistinct-of_keyed db.reservations h.keyed_reservations))

abbrev Theirs : ℕ → Db → ℕ × Reservation → Type 0
Theirs order db row = (belongs_to db order row.1 ≡ true) × (is_active row.1.status ≡ true)

released-Theirs : (order : ℕ) (db : Db) → All (Theirs order db) (active_reservations order db)
unfolding active_reservations
released-Theirs order db =
    All-sort_by (Theirs order db) (λ row. row.1.product_id) _
      (All-filter (Theirs order db) (λ row. belongs_to db order row.1 && is_active row.1.status)
        db.reservations (λ row e. (ground arith, ground arith)))

belongs_kept :
    (order : ℕ) (r : Reservation) (db d : Db)
    → d.order_lines ≡ db.order_lines
    → belongs_to d order r ≡ belongs_to db order r
unfolding belongs_to
belongs_kept order r db d e = rw (e, order_of)

pub reset-IsIntegral :
    (actor order : ℕ) (reason : Text) (u : Unit {0}) (db d : Db)
    → IsIntegral (books db)
    → reset_shipment_work actor order reason db ≡ ok (u, d)
    → IsIntegral (books d) × Kept db d
unfolding reset_shipment_work
reset-IsIntegral actor order reason u db d h ran =
    reset_lines-IsIntegral actor reason (started_work order db) u db d h ran

pub release_order-IsIntegral :
    (actor order : ℕ) (a : ℕ) (db db' : Db)
    → IsIntegral (books db)
    → release_order_reservations actor order db ≡ ok (a, db')
    → IsIntegral (books db')
unfolding release_order_reservations
release_order-IsIntegral actor order a db db' h ran =
    bind_ok (reset_shipment_work actor order (codes "주문 취소로 피킹·검수 초기화")) _ a db db' ran
      λ u d one rest.
        bind_ok (release_reservations actor (active_reservations order d)) _ a d db' rest
          λ sum d1 two rest1.
            bind_ok (drop_assignment actor order) _ a d1 db' rest1 λ v d2 three last.
              let start = reset-IsIntegral actor order _ u db d h one in
              let rows = active_reservations order d in
              let idle : All (Idle d) rows =
                All-zip (IsRow d.reservations) (Theirs order d) (Idle d) rows
                  (λ row found its.
                    reset-idle actor order _ u db d row.0 row.1 one (rw (sym start.1.0) found)
                      (rw (sym (belongs_kept order row.1 db d start.1.1)) its.0))
                  (released_rows order d start.0) (released-Theirs order d) in
              let active : All Active rows =
                All-map (Theirs order d) Active rows (λ row its. its.1) (released-Theirs order d) in
              let released : IsIntegral (books d1) =
                release_reservations-IsIntegral actor rows sum d d1 start.0
                  (released_apart order d start.0) (released_rows order d start.0) active idle
                  two in
              let dropped : IsIntegral (books d2) =
                quiet-IsIntegral d1 d2 (drop_assignment-IsQuiet actor order v d1 d2 three)
                  released in
              let same : d2 ≡ db' = ground (arith, last) in
              subst (λ (d : Db). IsIntegral (books d)) same dropped
