-- ===== src/Integrity/Quiet.antt =====
-- The operations that leave the books as they are, but for the ids that they use.
use b2b_stm.Prelude.{
  ℕ, ◌≤◌, ◌≡◌, refl, nat_eq, pair_eq, arith, inl, inr, String, Option-cases, [], ◌∷◌,
}
use b2b_stm.Text.{Text}
use b2b_stm.Json.{Json}
use b2b_stm.Table.{Table, lookup}
use b2b_stm.Schema.{Db, Response, User}
use b2b_stm.Tx.{ok}
use b2b_stm.Order.Store.{
  take_assignment, log_assignment, notify_customer, notify_internal, notify, customer_users,
  internal_users,
}
use b2b_stm.Order.Ship.{Row, create_shipment, finish_work}
use b2b_stm.Order.Work.{claim_work, release_work}
use b2b_stm.Order.Delivery.{Action, delivery_work}
use b2b_stm.Order.Cancel.{drop_assignment}
use b2b_stm.Integrity.{books, IsIntegral}
use b2b_stm.Integrity.Ids.{same-IsIntegral}

abbrev pub IsQuiet : Db → Db → Type 0
IsQuiet db d = (db.next_id ≤ d.next_id) × (books d ≡ record (books db) { next_id = d.next_id })

pub quiet-IsIntegral : (db d : Db) → IsQuiet db d → IsIntegral (books db) → IsIntegral (books d)
quiet-IsIntegral db d q h = same-IsIntegral (books db) (books d) h q.0 q.1

pub IsQuiet-trans : (a b c : Db) → IsQuiet a b → IsQuiet b c → IsQuiet a c
IsQuiet-trans a b c p q = (omega (arith, p.0, q.0), ground (arith, p.1, q.1))

pub take_assignment-IsQuiet :
    (actor order : ℕ) (u : Unit {0}) (db d : Db)
    → take_assignment actor order db ≡ ok (u, d)
    → IsQuiet db d
unfolding take_assignment
take_assignment-IsQuiet actor order u db d ran = elim (Option-cases (lookup order db.assignments)) [
  | inl e ↦ (ground (arith, e), ground (arith, e))
  | inr (w, e) ↦ (ground (arith, e), ground (arith, e))
]

pub create_shipment-IsQuiet :
    (actor : ℕ) (row : Row) (id : ℕ) (db d : Db)
    → create_shipment actor row db ≡ ok (id, d)
    → IsQuiet db d
unfolding create_shipment
create_shipment-IsQuiet actor row id db d ran = (ground arith, ground arith)

pub finish_work-IsQuiet :
    (actor order : ℕ) (u : Unit {0}) (db d : Db)
    → finish_work actor order db ≡ ok (u, d)
    → IsQuiet db d
unfolding finish_work log_assignment
finish_work-IsQuiet actor order u db d ran = (ground arith, ground arith)

pub drop_assignment-IsQuiet :
    (actor order : ℕ) (u : Unit {0}) (db d : Db)
    → drop_assignment actor order db ≡ ok (u, d)
    → IsQuiet db d
unfolding drop_assignment log_assignment
drop_assignment-IsQuiet actor order u db d ran = elim (Option-cases (lookup order db.assignments)) [
  | inl e ↦ (ground (arith, e), ground (arith, e))
  | inr (w, e) ↦ (ground (arith, e), ground (arith, e))
]

notify-IsQuiet :
    (event : String) (id : ℕ) (users : Table ℕ User) (db : Db)
    → IsQuiet db (notify event id users db)
unfolding notify
notify-IsQuiet event id [] db = (ground arith, refl)
notify-IsQuiet event id (u ∷ users) db = notify-IsQuiet event id users _

pub notify_customer-IsQuiet :
    (customer : ℕ) (event : String) (id : ℕ) (db : Db)
    → IsQuiet db (notify_customer customer event id db)
unfolding notify_customer
notify_customer-IsQuiet customer event id db =
    notify-IsQuiet event id (customer_users customer db) db

pub notify_internal-IsQuiet :
    (event : String) (id : ℕ) (db : Db) → IsQuiet db (notify_internal event id db)
unfolding notify_internal
notify_internal-IsQuiet event id db = notify-IsQuiet event id (internal_users db) db

pub claim_work-IsQuiet :
    (actor order : ℕ) (a : Response) (db d : Db)
    → claim_work actor order db ≡ ok (a, d)
    → IsQuiet db d
unfolding claim_work take_assignment
claim_work-IsQuiet actor order a db d ran = elim (Option-cases (lookup order db.assignments)) [
  | inl e ↦ (ground (arith, e), ground (arith, e))
  | inr (w, e) ↦ (ground (arith, e), ground (arith, e))
]

pub release_work-IsQuiet :
    (actor order : ℕ) (reason : Text) (a : Response) (db d : Db)
    → release_work actor order reason db ≡ ok (a, d)
    → IsQuiet db d
unfolding release_work
release_work-IsQuiet actor order reason a db d ran = (ground arith, ground arith)

pub delivery_work-IsQuiet :
    (action : Action) (actor shipment : ℕ) (body : Json) (a : Response) (db d : Db)
    → delivery_work action actor shipment body db ≡ ok (a, d)
    → IsQuiet db d
unfolding delivery_work
delivery_work-IsQuiet action actor shipment body a db d ran = (ground arith, ground arith)
