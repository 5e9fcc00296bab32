-- ===== src/Integrity/Orders.antt =====
-- Orders that change their state, and new orders and lines, keep the books in order.
use b2b_stm.Prelude.{ℕ, suc, ◌≡◌, none, some, nat_eq, arith, Option-cases, inl, inr}
use b2b_stm.Table.{lookup, modify, insert}
use b2b_stm.Table.Laws.{lookup-modify, lookup-insert}
use b2b_stm.Schema.{Order, OrderLine, Reservation}
use b2b_stm.Order.Store.{sku_of}
use b2b_stm.Integrity.{Books, IsIntegral, place_of}
use b2b_stm.Integrity.Rows.{IsKeyed-insert}

module _ (t : Books) (h : IsIntegral t) (id : ℕ) (f : Order → Order)
    (stays : (o : Order) → (f o).warehouse_id ≡ o.warehouse_id) where
  placed_marked :
      (k : ℕ) (r : Reservation)
      → lookup k t.reservations ≡ some r
      → place_of (lookup r.order_line_id t.order_lines) (modify id f t.orders) ≡ some (sku_of r)
  placed_marked k r e = elim (Option-cases (lookup r.order_line_id t.order_lines)) [
    | inl missing ↦ ground (arith, h.placed k r e)
    | inr (l, found) ↦ elim (Option-cases (lookup l.order_id t.orders)) [
      | inl missing ↦ ground (arith, h.placed k r e)
      | inr (o, there) ↦
          ground (arith, h.placed k r e, stays o, lookup-modify l.order_id id f t.orders)
    ]
  ]

  pub marked-IsIntegral : IsIntegral (record t { orders = modify id f t.orders })
  marked-IsIntegral = record {
    covered = h.covered;
    matched = h.matched;
    lined = h.lined;
    limited = h.limited;
    sound = h.sound;
    placed = placed_marked;
    inspected = h.inspected;
    picked = h.picked;
    keyed_lines = h.keyed_lines;
    keyed_reservations = h.keyed_reservations;
    fresh_order = λ k o e. grind (arith, h.fresh_order k, lookup-modify k id f t.orders);
    fresh_line = h.fresh_line;
    fresh_reservation = h.fresh_reservation;
  }

module _ (t : Books) (h : IsIntegral t) (o : Order) where
  placed_ordered :
      (k : ℕ) (r : Reservation)
      → lookup k t.reservations ≡ some r
      → place_of (lookup r.order_line_id t.order_lines) (insert t.next_id o t.orders)
        ≡ some (sku_of r)
  placed_ordered k r e = elim (Option-cases (lookup r.order_line_id t.order_lines)) [
    | inl missing ↦ ground (arith, h.placed k r e)
    | inr (l, found) ↦ elim (Option-cases (lookup l.order_id t.orders)) [
      | inl missing ↦ ground (arith, h.placed k r e)
      | inr (x, there) ↦ ground (
        arith,
        h.placed k r e,
        h.fresh_order l.order_id x there,
        lookup-insert l.order_id t.next_id o t.orders,
      )
    ]
  ]

  pub ordered-IsIntegral :
      IsIntegral (record t { next_id = suc t.next_id; orders = insert t.next_id o t.orders })
  ordered-IsIntegral = record {
    covered = h.covered;
    matched = h.matched;
    lined = h.lined;
    limited = h.limited;
    sound = h.sound;
    placed = placed_ordered;
    inspected = h.inspected;
    picked = h.picked;
    keyed_lines = h.keyed_lines;
    keyed_reservations = h.keyed_reservations;
    fresh_order = λ k x e. ground (arith, h.fresh_order k x, lookup-insert k t.next_id o t.orders);
    fresh_line = λ k l e. omega (arith, h.fresh_line k l e);
    fresh_reservation = λ k r e. omega (arith, h.fresh_reservation k r e);
  }

module _ (t : Books) (h : IsIntegral t) (l : OrderLine) (empty : l.reserved_quantity ≡ 0) where
  unknown_line : lookup t.next_id t.order_lines ≡ none
  unknown_line = elim (Option-cases (lookup t.next_id t.order_lines)) [
    | inl e ↦ e
    | inr (x, e) ↦ absurd (omega (arith, h.fresh_line t.next_id x e))
  ]

  placed_lined :
      (k : ℕ) (r : Reservation)
      → lookup k t.reservations ≡ some r
      → place_of (lookup r.order_line_id (insert t.next_id l t.order_lines)) t.orders
        ≡ some (sku_of r)
  placed_lined k r e =
      ground (
        arith,
        h.placed k r e,
        unknown_line,
        lookup-insert r.order_line_id t.next_id l t.order_lines,
      )

  -- A new line, with nothing reserved yet.
  pub lined-IsIntegral :
      IsIntegral
        (record t { next_id = suc t.next_id; order_lines = insert t.next_id l t.order_lines })
  lined-IsIntegral = record {
    covered = h.covered;
    matched = h.matched;
    lined = λ k. ground (
      arith,
      h.lined k,
      h.lined t.next_id,
      unknown_line,
      lookup-insert k t.next_id l t.order_lines,
    );
    limited = λ k. ground (arith, h.limited k, lookup-insert k t.next_id l t.order_lines);
    sound = h.sound;
    placed = placed_lined;
    inspected = h.inspected;
    picked = h.picked;
    keyed_lines = IsKeyed-insert t.next_id l t.order_lines unknown_line h.keyed_lines;
    keyed_reservations = h.keyed_reservations;
    fresh_order = λ k o e. omega (arith, h.fresh_order k o e);
    fresh_line =
        λ k x e. ground (arith, h.fresh_line k x, lookup-insert k t.next_id l t.order_lines);
    fresh_reservation = λ k r e. omega (arith, h.fresh_reservation k r e);
  }
