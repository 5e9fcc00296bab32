-- ===== src/Integrity.antt =====
-- The operational integrity of stock and reservations, as scripts/lib/operational-integrity.mjs
-- checks it by SQL on a running database: invalid_inventory_balances,
-- inventory_reservation_mismatch, order_line_reservation_mismatch and
-- invalid_shipment_work_lines, and what the constraints of the tables add to them.
pub mod Rows
pub mod Hold
pub mod Release
pub mod Dispatch
pub mod Ids
pub mod Quiet
pub mod Orders
pub mod Reserve
pub mod Distinct
pub mod Allocate
pub mod Allocation
pub mod Shipping
pub mod Shipments
pub mod Reset
pub mod Releasing
pub mod Cancelling
pub mod Working
pub mod Submitting
pub mod Reach
pub mod Cut
pub mod Counting
pub mod Counts
use b2b_stm.Prelude.{
  ℕ, ◌+◌, ◌-◌, ◌≤◌, ◌<◌, ◌≡◌, Bool, true, false, Option, none, some, ◌==◌, nat_eq, pair_eq,
  if◌then◌else◌, [], ◌∷◌, Eq,
}
use b2b_stm.Table.{Table, lookup, total}
use b2b_stm.Schema.{Db, Sku, Balance, Order, OrderLine, Reservation, ReservationStatus, WorkLine}
use b2b_stm.Order.Store.{is_active, sku_of}

abbrev pub reserved_at : Sku → Table Sku Balance → ℕ
reserved_at s t = elim (lookup s t) [ none ↦ 0 | some b ↦ b.reserved_quantity ]

abbrev pub on_hand_at : Sku → Table Sku Balance → ℕ
on_hand_at s t = elim (lookup s t) [ none ↦ 0 | some b ↦ b.on_hand_quantity ]

abbrev pub line_reserved : ℕ → Table ℕ OrderLine → ℕ
line_reserved l t = elim (lookup l t) [ none ↦ 0 | some line ↦ line.reserved_quantity ]

abbrev pub line_requested : ℕ → Table ℕ OrderLine → ℕ
line_requested l t = elim (lookup l t) [ none ↦ 0 | some line ↦ line.requested_quantity ]

-- `CASE WHEN r.status='active' THEN r.quantity-r.shipped_quantity ELSE 0 END`
abbrev pub remaining : Reservation → ℕ
remaining r = if is_active r.status then r.quantity - r.shipped_quantity else 0

-- `CASE WHEN r.status='released' THEN r.shipped_quantity ELSE r.quantity END`
abbrev pub held : Reservation → ℕ
held r = elim r.status [ ReservationStatus.released ↦ r.shipped_quantity | _ ↦ r.quantity ]

abbrev pub remaining_at : Sku → Reservation → ℕ
remaining_at s r = if sku_of r == s then remaining r else 0

abbrev pub held_for : ℕ → Reservation → ℕ
held_for l r = if r.order_line_id == l then held r else 0

abbrev pub remaining_of : Option Reservation → ℕ
remaining_of none = 0
remaining_of (some r) = remaining r

-- `shipped_quantity <= quantity`, and what the states mean.
abbrev pub IsSound : Reservation → Type 0
IsSound r =
    (r.shipped_quantity ≤ r.quantity)
    × (r.status ≡ ReservationStatus.active → r.shipped_quantity < r.quantity)
    × (r.status ≡ ReservationStatus.shipped → r.shipped_quantity ≡ r.quantity)

-- No key occurs twice.
abbrev pub IsKeyed {ℓ κ} : {K : Type ℓ} {V : Type κ} ⦃e : Eq K⦄ → Table K V → Type κ
IsKeyed [] = Unit
IsKeyed ((k, v) ∷ t) = (lookup k t ≡ none) × IsKeyed t

-- Where the stock of a line lies: the warehouse of its order, and its product.
abbrev pub place_of : Option OrderLine → Table ℕ Order → Option Sku
place_of none orders = none
place_of (some l) orders = elim (lookup l.order_id orders) [
  | none ↦ none
  | some o ↦ some (o.warehouse_id, l.product_id)
]

-- The tables that the invariant is about.
pub record Books : Type 0 where
  pub next_id : ℕ
  pub balances : Table Sku Balance
  pub orders : Table ℕ Order
  pub order_lines : Table ℕ OrderLine
  pub reservations : Table ℕ Reservation
  pub work_lines : Table ℕ WorkLine

abbrev pub books : Db → Books
books db = record {
  next_id = db.next_id;
  balances = db.balances;
  orders = db.orders;
  order_lines = db.order_lines;
  reservations = db.reservations;
  work_lines = db.work_lines;
}

pub record IsIntegral (t : Books) : Type 0 where
  -- Nothing is reserved that is not there.
  pub covered : (s : Sku) → reserved_at s t.balances ≤ on_hand_at s t.balances
  -- What a SKU has reserved is what its active reservations still wait for.
  pub matched : (s : Sku) → reserved_at s t.balances ≡ total (remaining_at s) t.reservations
  -- What a line has reserved is what its reservations hold.
  pub lined : (l : ℕ) → line_reserved l t.order_lines ≡ total (held_for l) t.reservations
  -- A line has no more reserved than it asks for.
  pub limited : (l : ℕ) → line_reserved l t.order_lines ≤ line_requested l t.order_lines
  pub sound : (k : ℕ) (r : Reservation) → lookup k t.reservations ≡ some r → IsSound r
  -- A reservation is for the SKU of its line.
  pub placed :
      (k : ℕ) (r : Reservation)
      → lookup k t.reservations ≡ some r
      → place_of (lookup r.order_line_id t.order_lines) t.orders ≡ some (sku_of r)
  -- What is inspected was picked, and what is picked still waits to be shipped.
  pub inspected :
      (k : ℕ) (w : WorkLine)
      → lookup k t.work_lines ≡ some w
      → w.inspected_quantity ≤ w.picked_quantity
  pub picked :
      (k : ℕ) (w : WorkLine)
      → lookup k t.work_lines ≡ some w
      → w.picked_quantity ≤ remaining_of (lookup k t.reservations)
  pub keyed_lines : IsKeyed t.order_lines
  pub keyed_reservations : IsKeyed t.reservations
  pub fresh_order : (k : ℕ) (o : Order) → lookup k t.orders ≡ some o → k < t.next_id
  pub fresh_line : (k : ℕ) (l : OrderLine) → lookup k t.order_lines ≡ some l → k < t.next_id
  pub fresh_reservation :
      (k : ℕ) (r : Reservation) → lookup k t.reservations ≡ some r → k < t.next_id
