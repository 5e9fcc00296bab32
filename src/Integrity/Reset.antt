-- ===== src/Integrity/Reset.antt =====
-- Resetting the picking and inspection of an order.
use mathlib.Core.Path.{subst}
use native.Mathlib.Decide.{ℕ_discrete as dec_eq}
use b2b_stm.Prelude.{
  ℕ, suc, ◌≡◌, refl, true, none, some, ◌==◌, nat_eq, pair_eq, arith, ◌∙◌, any, inl, inr, Bool,
  Option-cases, [], ◌∷◌, Bool-cases, filter, sort_by, insert_by, ◌||◌,
}
use b2b_stm.Text.{Text}
use b2b_stm.Table.{Table, lookup, modify}
use b2b_stm.Table.Laws.{lookup-modify}
use b2b_stm.Schema.{Db, Reservation, WorkLine}
use b2b_stm.Tx.{ok}
use b2b_stm.Tx.Inversion.{bind_ok}
use b2b_stm.Order.Store.{belongs_to}
use b2b_stm.Order.Cancel.{
  started_work, clear_work, reset_work_line, reset_work_lines, reset_shipment_work,
}
use b2b_stm.Integrity.{Books, books, IsIntegral}
use b2b_stm.Integrity.Ids.{same-IsIntegral}

abbrev pub picked_at : ℕ → Table ℕ WorkLine → ℕ
picked_at k t = elim (lookup k t) [ none ↦ 0 | some w ↦ w.picked_quantity ]

module _ (actor : ℕ) (t : Books) (h : IsIntegral t) (id : ℕ) where
  cleared-IsIntegral :
      IsIntegral (record t { work_lines = modify id (clear_work actor) t.work_lines })
  cleared-IsIntegral = record {
    covered = h.covered;
    matched = h.matched;
    lined = h.lined;
    limited = h.limited;
    sound = h.sound;
    placed = h.placed;
    inspected = λ k w e.
        ground (arith, h.inspected k w, lookup-modify k id (clear_work actor) t.work_lines);
    picked =
        λ k w e. ground (arith, h.picked k w, lookup-modify k id (clear_work actor) t.work_lines);
    keyed_lines = h.keyed_lines;
    keyed_reservations = h.keyed_reservations;
    fresh_order = h.fresh_order;
    fresh_line = h.fresh_line;
    fresh_reservation = h.fresh_reservation;
  }

-- What a reset of some work lines leaves as it is.
abbrev pub Kept : Db → Db → Type 0
Kept db d =
    (d.reservations ≡ db.reservations) × (d.order_lines ≡ db.order_lines) × (d.orders ≡ db.orders)

module _ (actor : ℕ) (reason : Text) (id : ℕ) (w : WorkLine) (u : Unit {0}) (db d : Db)
    (ran : reset_work_line actor reason (id, w) db ≡ ok (u, d)) where
  reset_books : books d ≡ record (books db) {
    next_id = suc db.next_id;
    work_lines = modify id (clear_work actor) db.work_lines;
  }
  unfolding reset_work_line
  reset_books = ground arith

  reset_work : d.work_lines ≡ modify id (clear_work actor) db.work_lines
  unfolding reset_work_line
  reset_work = ground arith

  reset_line-IsIntegral : IsIntegral (books db) → IsIntegral (books d)
  reset_line-IsIntegral h =
      same-IsIntegral
        (record (books db) { work_lines = modify id (clear_work actor) db.work_lines }) (books d)
        (cleared-IsIntegral actor (books db) h id) (ground (arith, reset_books))
        (ground (arith, reset_books))

  reset_self : picked_at id d.work_lines ≡ 0
  reset_self = ground (arith, reset_work, lookup-modify id id (clear_work actor) db.work_lines)

  reset_zero : (k : ℕ) → picked_at k db.work_lines ≡ 0 → picked_at k d.work_lines ≡ 0
  reset_zero k e = ground (arith, reset_work, lookup-modify k id (clear_work actor) db.work_lines)

  reset-Kept : Kept db d
  unfolding reset_work_line
  reset-Kept = (ground arith, ground arith, ground arith)

abbrev pub among : ℕ → Table ℕ WorkLine → Bool
among k rows = any (λ row. row.0 == k) rows

module _ (actor : ℕ) (reason : Text) where
  pub reset_lines-IsIntegral :
      (rows : Table ℕ WorkLine) (u : Unit {0}) (db d : Db)
      → IsIntegral (books db)
      → reset_work_lines actor reason rows db ≡ ok (u, d)
      → IsIntegral (books d) × Kept db d
  unfolding reset_work_lines
  reset_lines-IsIntegral [] u db d h ran =
      (ground (arith, ran, h), (ground arith, ground arith, ground arith))
  reset_lines-IsIntegral ((id, w) ∷ rows) u db d h ran =
      bind_ok (reset_work_line actor reason (id, w)) _ u db d ran λ v d1 one rest.
        let step : IsIntegral (books d1) = reset_line-IsIntegral actor reason id w v db d1 one h in
        let kept : Kept db d1 = reset-Kept actor reason id w v db d1 one in
        let more = reset_lines-IsIntegral rows u d1 d step rest in
        (more.0, (more.1.0 ∙ kept.0, more.1.1 ∙ kept.1, more.1.2 ∙ kept.2))

  reset_lines_zero :
      (rows : Table ℕ WorkLine) (u : Unit {0}) (db d : Db) (k : ℕ)
      → reset_work_lines actor reason rows db ≡ ok (u, d)
      → picked_at k db.work_lines ≡ 0
      → picked_at k d.work_lines ≡ 0
  unfolding reset_work_lines
  reset_lines_zero [] u db d k ran e = ground arith
  reset_lines_zero ((id, w) ∷ rows) u db d k ran e =
      bind_ok (reset_work_line actor reason (id, w)) _ u db d ran λ v d1 one rest.
        reset_lines_zero rows u d1 d k rest (reset_zero actor reason id w v db d1 one k e)

  reset_lines_all :
      (rows : Table ℕ WorkLine) (u : Unit {0}) (db d : Db) (k : ℕ)
      → reset_work_lines actor reason rows db ≡ ok (u, d)
      → among k rows ≡ true
      → picked_at k d.work_lines ≡ 0
  unfolding reset_work_lines any
  reset_lines_all [] u db d k ran e = cc
  reset_lines_all ((id, w) ∷ rows) u db d k ran e =
      bind_ok (reset_work_line actor reason (id, w)) _ u db d ran λ v d1 one rest.
        elim (Bool-cases (id == k)) [
          | inl same ↦
              let here : id ≡ k = ground arith in
              reset_lines_zero rows u d1 d k rest (
                subst (λ (j : ℕ). picked_at j d1.work_lines ≡ 0) here
                  (reset_self actor reason id w v db d1 one))
          | inr other ↦ reset_lines_all rows u d1 d k rest (ground arith)
        ]

-- The work lines that a reset finds.
Among-insert_by :
    (k : ℕ) (key : ℕ × WorkLine → ℕ) (row : ℕ × WorkLine) (rows : Table ℕ WorkLine)
    → among k (insert_by key row rows) ≡ (row.0 == k || among k rows)
unfolding insert_by any
Among-insert_by k key row [] = refl
Among-insert_by k key row (r ∷ rows) = ground (arith, Among-insert_by k key row rows)

Among-sort_by :
    (k : ℕ) (key : ℕ × WorkLine → ℕ) (rows : Table ℕ WorkLine)
    → among k (sort_by key rows) ≡ among k rows
unfolding sort_by any
Among-sort_by k key [] = refl
Among-sort_by k key (row ∷ rows) =
    ground (arith, Among-insert_by k key row (sort_by key rows), Among-sort_by k key rows)

Among-filter :
    (k : ℕ) (test : ℕ × WorkLine → Bool) (w : WorkLine) (t : Table ℕ WorkLine)
    → lookup k t ≡ some w
    → test (k, w) ≡ true
    → among k (filter test t) ≡ true
unfolding lookup filter any
Among-filter k test w [] there passed = cc
Among-filter k test w ((j, v) ∷ t) there passed = elim (Bool-cases (j == k)) [
  | inl same ↦
      let here : j ≡ k = ground arith in
      let its : v ≡ w = ground arith in
      let both : test (j, v) ≡ true = rw (here, its, passed) in rw (both, same)
  | inr other ↦ ground (arith, Among-filter k test w t)
]

started_found :
    (order : ℕ) (db : Db) (k : ℕ) (r : Reservation)
    → lookup k db.reservations ≡ some r
    → belongs_to db order r ≡ true
    → (picked_at k db.work_lines ≡ 0 → ⊥)
    → among k (started_work order db) ≡ true
unfolding started_work
started_found order db k r found its started = elim (Option-cases (lookup k db.work_lines)) [
  | inl missing ↦ absurd (started (ground (arith, missing)))
  | inr (w, there) ↦
      Among-sort_by k (λ row. row.0) _
      ∙ Among-filter k _ w db.work_lines there (ground (arith, found, its, started, there))
]

-- After the reset nothing of the order's reservations is picked.
pub reset-idle :
    (actor order : ℕ) (reason : Text) (u : Unit {0}) (db d : Db) (k : ℕ) (r : Reservation)
    → reset_shipment_work actor order reason db ≡ ok (u, d)
    → lookup k db.reservations ≡ some r
    → belongs_to db order r ≡ true
    → picked_at k d.work_lines ≡ 0
unfolding reset_shipment_work
reset-idle actor order reason u db d k r ran found its =
    elim (dec_eq (picked_at k db.work_lines) 0) [
      | yes zero ↦ reset_lines_zero actor reason (started_work order db) u db d k ran zero
      | no started ↦
          reset_lines_all actor reason (started_work order db) u db d k ran
            (started_found order db k r found its started)
    ]
