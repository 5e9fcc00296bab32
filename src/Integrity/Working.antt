-- ===== src/Integrity/Working.antt =====
-- `setShipmentWorkQuantities` keeps the books in order.
use mathlib.Core.Path.{subst, sym}
use b2b_stm.Prelude.{
  ℕ, suc, ◌≤◌, ◌≡◌, false, none, some, ◌==◌, nat_eq, pair_eq, arith, ◌∙◌, inl, inr, Bool-cases,
  Option, List, [], ◌∷◌, sort_by,
}
use b2b_stm.Text.{uuid_value, collation_rank}
use b2b_stm.Table.{Table, lookup}
use b2b_stm.Table.Laws.{lookup-upsert_self, lookup-upsert_ne}
use b2b_stm.Schema.{Db, WorkLine, Response}
use b2b_stm.Tx.{ok}
use b2b_stm.Tx.Inversion.{bind_ok, final_ok}
use b2b_stm.Order.Input.{Line}
use b2b_stm.Order.Work.{
  Stage, set_work_line, set_work_lines, set_work, workable, progress, set_stage, write_work,
  first_work, next_work,
}
use b2b_stm.Integrity.{books, IsIntegral, remaining_of}
use b2b_stm.Integrity.Ids.{same-IsIntegral}

-- The two quantities of a work line.
abbrev pub quantities_of : Option WorkLine → ℕ × ℕ
quantities_of none = (0, 0)
quantities_of (some w) = (w.picked_quantity, w.inspected_quantity)

module _ (db : Db) (h : IsIntegral (books db)) (stage : Stage) (actor id : ℕ) (next : ℕ × ℕ)
    (inspected : next.1 ≤ next.0) (picked : next.0 ≤ remaining_of (lookup id db.reservations)) where
  abbrev after : Db
  after = write_work stage actor next id db

  written_self : quantities_of (lookup id after.work_lines) ≡ next
  written_self = ground (
    arith,
    lookup-upsert_self id (first_work stage actor next db.now) (next_work stage actor next db.now)
        db.work_lines,
  )

  written_ne : (k : ℕ) → (id == k) ≡ false → lookup k after.work_lines ≡ lookup k db.work_lines
  written_ne k ne = lookup-upsert_ne k id _ _ db.work_lines ne

  inspected_written :
      (k : ℕ) (w : WorkLine)
      → lookup k after.work_lines ≡ some w
      → w.inspected_quantity ≤ w.picked_quantity
  inspected_written k w e = elim (Bool-cases (id == k)) [
    | inl same ↦
        let here : id ≡ k = ground arith in
        let there : quantities_of (lookup k after.work_lines) ≡ next =
          subst (λ (j : ℕ). quantities_of (lookup j after.work_lines) ≡ next) here written_self in
        ground (arith, there, e, inspected)
    | inr ne ↦ h.inspected k w (sym (written_ne k ne) ∙ e)
  ]

  picked_written :
      (k : ℕ) (w : WorkLine)
      → lookup k after.work_lines ≡ some w
      → w.picked_quantity ≤ remaining_of (lookup k db.reservations)
  picked_written k w e = elim (Bool-cases (id == k)) [
    | inl same ↦
        let here : id ≡ k = ground arith in
        let there : quantities_of (lookup k after.work_lines) ≡ next =
          subst (λ (j : ℕ). quantities_of (lookup j after.work_lines) ≡ next) here written_self in
        let enough : next.0 ≤ remaining_of (lookup k db.reservations) =
          subst (λ (j : ℕ). next.0 ≤ remaining_of (lookup j db.reservations)) here picked in
        ground (arith, there, e, enough)
    | inr ne ↦ h.picked k w (sym (written_ne k ne) ∙ e)
  ]

  -- Quantities within the reservation keep the books in order.
  written-IsIntegral : IsIntegral (books after)
  written-IsIntegral = record {
    covered = h.covered;
    matched = h.matched;
    lined = h.lined;
    limited = h.limited;
    sound = h.sound;
    placed = h.placed;
    inspected = inspected_written;
    picked = picked_written;
    keyed_lines = h.keyed_lines;
    keyed_reservations = h.keyed_reservations;
    fresh_order = h.fresh_order;
    fresh_line = h.fresh_line;
    fresh_reservation = h.fresh_reservation;
  }

module _ (stage : Stage) (actor order : ℕ) (line : Line) (a : ℕ × (ℕ × ℕ)) (db db' : Db)
    (ran : set_work_line stage actor order line db ≡ ok (a, db')) where
  abbrev line_id : ℕ
  line_id = uuid_value line.id

  abbrev next : ℕ × ℕ
  next = set_stage stage line.quantity (progress (lookup line_id db.work_lines))

  line_books :
      books db'
      ≡ record (books (write_work stage actor next line_id db)) { next_id = suc db.next_id }
  unfolding set_work_line
  line_books = ground arith

  line_inspected : next.1 ≤ next.0
  unfolding set_work_line
  line_inspected = ground arith

  line_picked : next.0 ≤ remaining_of (lookup line_id db.reservations)
  unfolding set_work_line workable
  line_picked = ground arith

  set_work_line-IsIntegral : IsIntegral (books db) → IsIntegral (books db')
  set_work_line-IsIntegral h =
      same-IsIntegral (books (write_work stage actor next line_id db)) (books db')
        (written-IsIntegral db h stage actor line_id next line_inspected line_picked)
        (ground (arith, line_books)) (ground (arith, line_books))

set_work_lines-IsIntegral :
    (stage : Stage) (actor order : ℕ) (lines : List Line) (a : Table ℕ (ℕ × ℕ)) (db db' : Db)
    → IsIntegral (books db)
    → set_work_lines stage actor order lines db ≡ ok (a, db')
    → IsIntegral (books db')
unfolding set_work_lines
set_work_lines-IsIntegral stage actor order [] a db db' h ran = ground (arith, h)
set_work_lines-IsIntegral stage actor order (line ∷ lines) a db db' h ran =
    bind_ok (set_work_line stage actor order line) _ a db db' ran λ one d first rest.
      bind_ok (set_work_lines stage actor order lines) _ a d db' rest λ others d1 more last.
        let done : IsIntegral (books d1) =
          set_work_lines-IsIntegral stage actor order lines others d d1
            (set_work_line-IsIntegral stage actor order line one db d first h) more in
        ground (arith, done)

pub set_work-IsIntegral :
    (stage : Stage) (actor order : ℕ) (lines : List Line) (a : Response) (db db' : Db)
    → IsIntegral (books db)
    → set_work stage actor order lines db ≡ ok (a, db')
    → IsIntegral (books db')
unfolding set_work
set_work-IsIntegral stage actor order lines a db db' h ran =
    let sorted : List Line = sort_by (λ l. collation_rank l.id) lines in
    let done = final_ok (set_work_lines stage actor order sorted db) db' (ground (arith, ran)) in
    set_work_lines-IsIntegral stage actor order sorted done.0 db db' h done.1
