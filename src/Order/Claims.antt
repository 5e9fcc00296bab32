-- ===== src/Order/Claims.antt =====
-- Shipment work belongs to one worker at a time.
use b2b_stm.Prelude.{ℕ, ◌≡◌, ◌≢◌, false, some, Option-cases, inl, inr, arith, ◌==◌, nat_eq, List}
use b2b_stm.Text.{Text}
use b2b_stm.Table.{lookup}
use b2b_stm.Table.Laws.{lookup-insert}
use b2b_stm.Schema.{Db, Response}
use b2b_stm.Tx.{ok}
use b2b_stm.Order.Input.{Line}
use b2b_stm.Order.Store.{take_assignment, log_assignment}
use b2b_stm.Order.Work.{claim_work, release_work, set_work, Stage}

pub claim-assigned :
    (actor order : ℕ) (a : Response) (db db' : Db)
    → claim_work actor order db ≡ ok (a, db')
    → lookup order db'.assignments ≡ some actor
unfolding claim_work take_assignment log_assignment
claim-assigned actor order a db db' ran = elim (Option-cases (lookup order db.assignments)) [
  | inl free ↦ ground (arith, free, lookup-insert order order actor db.assignments)
  | inr (worker, taken) ↦ ground (arith, taken)
]

module _ (actor other order : ℕ) (db : Db) (mine : lookup order db.assignments ≡ some actor)
    (different : (actor == other) ≡ false) where
  claim_refused : (b : Response) (d : Db) → claim_work other order db ≢ ok (b, d)
  unfolding claim_work take_assignment
  claim_refused b d ran = ground (arith, mine, different)

  work_refused :
      (stage : Stage) (lines : List Line) (b : Response) (d : Db)
      → set_work stage other order lines db ≢ ok (b, d)
  unfolding set_work
  work_refused stage lines b d ran = ground (arith, mine, different)

  return_refused :
      (reason : Text) (b : Response) (d : Db) → release_work other order reason db ≢ ok (b, d)
  unfolding release_work
  return_refused reason b d ran = ground (arith, mine, different)

-- After a worker has claimed an order, another worker can neither claim it, nor record picked or
-- inspected quantities for it, nor give it back.
pub claim-exclusive :
    (actor other order : ℕ) (a : Response) (db db' : Db)
    → claim_work actor order db ≡ ok (a, db')
    → (actor == other) ≡ false
    → ((b : Response) (d : Db) → claim_work other order db' ≢ ok (b, d))
      × ((stage : Stage) (lines : List Line) (b : Response) (d : Db)
          → set_work stage other order lines db' ≢ ok (b, d))
      × ((reason : Text) (b : Response) (d : Db) → release_work other order reason db' ≢ ok (b, d))
claim-exclusive actor other order a db db' ran different =
    let mine = claim-assigned actor order a db db' ran in
    (
      claim_refused actor other order db' mine different,
      work_refused actor other order db' mine different,
      return_refused actor other order db' mine different,
    )
