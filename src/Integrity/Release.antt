-- ===== src/Integrity/Release.antt =====
-- Giving back what an active reservation still waits for.
use b2b_stm.Prelude.{ℕ, ◌-◌, ◌≤◌, ◌≡◌, true, some, nat_eq, pair_eq, arith}
use b2b_stm.Table.{lookup, modify, total}
use b2b_stm.Table.Laws.{lookup-modify}
use b2b_stm.Table.Sums.{total-modify, le-total}
use b2b_stm.Schema.{Sku, Balance, OrderLine, Reservation, ReservationStatus, WorkLine}
use b2b_stm.Order.Store.{unhold, sku_of, is_active}
use b2b_stm.Integrity.{
  Books, IsIntegral, IsSound, place_of, reserved_at, on_hand_at, line_reserved, line_requested,
  remaining_at, held_for, remaining_of,
}
use b2b_stm.Integrity.Rows.{IsKeyed-modify}

abbrev pub releasing : Reservation → Reservation
releasing r = record r { status = ReservationStatus.released }

abbrev pub giving : ℕ → OrderLine → OrderLine
giving q l = record l { reserved_quantity = l.reserved_quantity - q }

abbrev pub given_back : ℕ → Reservation → ℕ → Books → Books
given_back k r q t = record t {
  balances = modify (sku_of r) (unhold q) t.balances;
  reservations = modify k releasing t.reservations;
  order_lines = modify r.order_line_id (giving q) t.order_lines;
}

module _ (t : Books) (h : IsIntegral t) (k : ℕ) (r : Reservation) (b : Balance)
    (found : lookup k t.reservations ≡ some r) (active : is_active r.status ≡ true)
    (balance : lookup (sku_of r) t.balances ≡ some b)
    (enough : r.quantity - r.shipped_quantity ≤ b.reserved_quantity)
    (idle : (w : WorkLine) → lookup k t.work_lines ≡ some w → w.picked_quantity ≡ 0) where
  abbrev q : ℕ
  q = r.quantity - r.shipped_quantity

  covered_back :
      (s : Sku)
      → reserved_at s (modify (sku_of r) (unhold q) t.balances)
        ≤ on_hand_at s (modify (sku_of r) (unhold q) t.balances)
  covered_back s = ground (arith, h.covered s, lookup-modify s (sku_of r) (unhold q) t.balances)

  matched_back :
      (s : Sku)
      → reserved_at s (modify (sku_of r) (unhold q) t.balances)
        ≡ total (remaining_at s) (modify k releasing t.reservations)
  matched_back s = ground (
    arith,
    h.matched s,
    lookup-modify s (sku_of r) (unhold q) t.balances,
    total-modify (remaining_at s) k releasing r t.reservations,
  )

  lined_back :
      (j : ℕ)
      → line_reserved j (modify r.order_line_id (giving q) t.order_lines)
        ≡ total (held_for j) (modify k releasing t.reservations)
  lined_back j = ground (
    arith,
    h.lined j,
    h.sound k r found,
    lookup-modify j r.order_line_id (giving q) t.order_lines,
    le-total (held_for j) k r t.reservations found,
    total-modify (held_for j) k releasing r t.reservations,
  )

  limited_back :
      (j : ℕ)
      → line_reserved j (modify r.order_line_id (giving q) t.order_lines)
        ≤ line_requested j (modify r.order_line_id (giving q) t.order_lines)
  limited_back j =
      ground (arith, h.limited j, lookup-modify j r.order_line_id (giving q) t.order_lines)

  IsSound-back :
      (j : ℕ) (x : Reservation) → lookup j (modify k releasing t.reservations) ≡ some x → IsSound x
  IsSound-back j x e =
      ground (arith, h.sound j x, h.sound k r found, lookup-modify j k releasing t.reservations)

  placed_back :
      (j : ℕ) (x : Reservation)
      → lookup j (modify k releasing t.reservations) ≡ some x
      → place_of (lookup x.order_line_id (modify r.order_line_id (giving q) t.order_lines)) t.orders
        ≡ some (sku_of x)
  placed_back j x e = ground (
    arith,
    h.placed j x,
    h.placed k r found,
    lookup-modify j k releasing t.reservations,
    lookup-modify x.order_line_id r.order_line_id (giving q) t.order_lines,
    lookup-modify r.order_line_id r.order_line_id (giving q) t.order_lines,
  )

  picked_back :
      (j : ℕ) (w : WorkLine)
      → lookup j t.work_lines ≡ some w
      → w.picked_quantity ≤ remaining_of (lookup j (modify k releasing t.reservations))
  picked_back j w e =
      ground (arith, h.picked j w e, idle w, lookup-modify j k releasing t.reservations)

  -- A release of a reservation with no work on it keeps the books in order.
  pub given_back-IsIntegral : IsIntegral (given_back k r q t)
  given_back-IsIntegral = record {
    covered = covered_back;
    matched = matched_back;
    lined = lined_back;
    limited = limited_back;
    sound = IsSound-back;
    placed = placed_back;
    inspected = h.inspected;
    picked = picked_back;
    keyed_lines = IsKeyed-modify r.order_line_id (giving q) t.order_lines h.keyed_lines;
    keyed_reservations = IsKeyed-modify k releasing t.reservations h.keyed_reservations;
    fresh_order = h.fresh_order;
    fresh_line = λ j x e.
        grind (arith, h.fresh_line j, lookup-modify j r.order_line_id (giving q) t.order_lines);
    fresh_reservation =
        λ j x e. grind (arith, h.fresh_reservation j, lookup-modify j k releasing t.reservations);
  }
