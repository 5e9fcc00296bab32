-- ===== src/Integrity/Dispatch.antt =====
-- Shipping a part of a reservation, and the quantities of its work line.
use b2b_stm.Prelude.{ℕ, ◌-◌, ◌≤◌, ◌<◌, ◌≡◌, some, nat_eq, pair_eq, arith}
use b2b_stm.Table.{lookup, modify, total}
use b2b_stm.Table.Laws.{lookup-modify}
use b2b_stm.Table.Sums.{total-modify}
use b2b_stm.Schema.{Sku, Balance, Reservation, WorkLine}
use b2b_stm.Order.Store.{sku_of}
use b2b_stm.Order.Ship.{take_out, ship_reserved, take_off}
use b2b_stm.Integrity.{
  Books, IsIntegral, IsSound, place_of, reserved_at, on_hand_at, line_reserved, remaining, held,
  remaining_at, held_for, remaining_of,
}
use b2b_stm.Integrity.Rows.{IsKeyed-modify}

abbrev pub dispatched : ℕ → Sku → ℕ → ℕ → Books → Books
dispatched actor sku k q t = record t {
  balances = modify sku (take_out q) t.balances;
  reservations = modify k (ship_reserved q) t.reservations;
  work_lines = modify k (take_off q actor) t.work_lines;
}

module _ (t : Books) (h : IsIntegral t) (actor k q : ℕ) (sku : Sku) (r : Reservation) (b : Balance)
    (w : WorkLine) (found : lookup k t.reservations ≡ some r) (its_sku : sku_of r ≡ sku)
    (balance : lookup sku t.balances ≡ some b) (work : lookup k t.work_lines ≡ some w)
    (positive : 0 < q) (enough : q ≤ w.inspected_quantity) (on_hand : q ≤ b.on_hand_quantity)
    (reserved : q ≤ b.reserved_quantity) where
  -- What was inspected can be shipped.
  open_pieces : q ≤ remaining r
  open_pieces = ground (arith, h.picked k w work, h.inspected k w work)

  remaining-ship : remaining (ship_reserved q r) ≡ remaining r - q
  remaining-ship = ground (arith, open_pieces)

  held-ship : held (ship_reserved q r) ≡ held r
  held-ship = ground (arith, open_pieces)

  covered_ship :
      (s : Sku)
      → reserved_at s (modify sku (take_out q) t.balances)
        ≤ on_hand_at s (modify sku (take_out q) t.balances)
  covered_ship s = ground (arith, h.covered s, lookup-modify s sku (take_out q) t.balances)

  matched_ship :
      (s : Sku)
      → reserved_at s (modify sku (take_out q) t.balances)
        ≡ total (remaining_at s) (modify k (ship_reserved q) t.reservations)
  matched_ship s = ground (
    arith,
    h.matched s,
    lookup-modify s sku (take_out q) t.balances,
    open_pieces,
    remaining-ship,
    total-modify (remaining_at s) k (ship_reserved q) r t.reservations,
  )

  lined_ship :
      (j : ℕ)
      → line_reserved j t.order_lines
        ≡ total (held_for j) (modify k (ship_reserved q) t.reservations)
  lined_ship j =
      ground (
        arith,
        h.lined j,
        held-ship,
        total-modify (held_for j) k (ship_reserved q) r t.reservations,
      )

  IsSound-ship :
      (j : ℕ) (x : Reservation)
      → lookup j (modify k (ship_reserved q) t.reservations) ≡ some x
      → IsSound x
  IsSound-ship j x e =
      ground (arith, h.sound j x, open_pieces, lookup-modify j k (ship_reserved q) t.reservations)

  placed_ship :
      (j : ℕ) (x : Reservation)
      → lookup j (modify k (ship_reserved q) t.reservations) ≡ some x
      → place_of (lookup x.order_line_id t.order_lines) t.orders ≡ some (sku_of x)
  placed_ship j x e =
      ground (
        arith,
        h.placed j x,
        h.placed k r found,
        lookup-modify j k (ship_reserved q) t.reservations,
      )

  inspected_ship :
      (j : ℕ) (x : WorkLine)
      → lookup j (modify k (take_off q actor) t.work_lines) ≡ some x
      → x.inspected_quantity ≤ x.picked_quantity
  inspected_ship j x e = ground (
    arith,
    h.inspected j x,
    h.inspected k w work,
    lookup-modify j k (take_off q actor) t.work_lines,
  )

  picked_ship :
      (j : ℕ) (x : WorkLine)
      → lookup j (modify k (take_off q actor) t.work_lines) ≡ some x
      → x.picked_quantity ≤ remaining_of (lookup j (modify k (ship_reserved q) t.reservations))
  picked_ship j x e = ground (
    arith,
    h.picked j x,
    h.picked k w work,
    remaining-ship,
    open_pieces,
    lookup-modify j k (take_off q actor) t.work_lines,
    lookup-modify j k (ship_reserved q) t.reservations,
  )

  -- Shipping inspected pieces keeps the books in order.
  pub dispatched-IsIntegral : IsIntegral (dispatched actor sku k q t)
  dispatched-IsIntegral = record {
    covered = covered_ship;
    matched = matched_ship;
    lined = lined_ship;
    limited = h.limited;
    sound = IsSound-ship;
    placed = placed_ship;
    inspected = inspected_ship;
    picked = picked_ship;
    keyed_lines = h.keyed_lines;
    keyed_reservations = IsKeyed-modify k (ship_reserved q) t.reservations h.keyed_reservations;
    fresh_order = h.fresh_order;
    fresh_line = h.fresh_line;
    fresh_reservation = λ j x e.
        grind (arith, h.fresh_reservation j, lookup-modify j k (ship_reserved q) t.reservations);
  }
