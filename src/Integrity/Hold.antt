-- ===== src/Integrity/Hold.antt =====
-- Reserving stock for an order line, with a new reservation or with one that it has already.
use b2b_stm.Prelude.{
  ℕ, suc, ◌+◌, ◌-◌, ◌≤◌, ◌<◌, ◌≡◌, false, none, some, ◌==◌, nat_eq, pair_eq, arith, if◌then◌else◌,
  any, Option-cases, inl, inr,
}
use b2b_stm.Table.{lookup, modify, insert, total}
use b2b_stm.Table.Laws.{lookup-modify, lookup-insert}
use b2b_stm.Table.Sums.{total-modify, total-insert}
use b2b_stm.Schema.{Sku, Balance, OrderLine, Reservation, ReservationStatus, WorkLine}
use b2b_stm.Order.Store.{hold, sku_of}
use b2b_stm.Order.Confirm.{top_up}
use b2b_stm.Integrity.{
  Books, IsIntegral, IsSound, place_of, reserved_at, on_hand_at, line_reserved, line_requested,
  remaining, held, remaining_at, held_for, remaining_of,
}
use b2b_stm.Integrity.Rows.{IsKeyed-modify, IsKeyed-insert, held_for_none}

abbrev pub reserving : ℕ → OrderLine → OrderLine
reserving q l = record l { reserved_quantity = q }

-- The books after a line with no reservation has got one for q pieces.
abbrev pub held_new : Sku → ℕ → ℕ → Reservation → Books → Books
held_new sku line q r t = record {
  next_id = suc t.next_id;
  balances = modify sku (hold q) t.balances;
  orders = t.orders;
  order_lines = modify line (reserving q) t.order_lines;
  reservations = insert t.next_id r t.reservations;
  work_lines = t.work_lines;
}

module _ (t : Books) (h : IsIntegral t) (sku : Sku) (b : Balance) (line : ℕ) (l : OrderLine) (q : ℕ)
    (balance : lookup sku t.balances ≡ some b) (free : q ≤ b.on_hand_quantity - b.reserved_quantity)
    (positive : 0 < q) where
  covered_hold :
      (s : Sku)
      → reserved_at s (modify sku (hold q) t.balances)
        ≤ on_hand_at s (modify sku (hold q) t.balances)
  covered_hold s =
      ground (arith, h.covered s, h.covered sku, lookup-modify s sku (hold q) t.balances)

  reserved_hold :
      (s : Sku)
      → reserved_at s (modify sku (hold q) t.balances)
        ≡ (if sku == s then q else 0) + reserved_at s t.balances
  reserved_hold s = ground (arith, lookup-modify s sku (hold q) t.balances, h.covered s)

module _ (t : Books) (h : IsIntegral t) (sku : Sku) (b : Balance) (line : ℕ) (l : OrderLine) (q : ℕ)
    (r : Reservation) (balance : lookup sku t.balances ≡ some b)
    (free : q ≤ b.on_hand_quantity - b.reserved_quantity) (positive : 0 < q)
    (row : lookup line t.order_lines ≡ some l) (wanted : q ≤ l.requested_quantity)
    (unreserved : any (λ x. x.1.order_line_id == line) t.reservations ≡ false)
    (place : place_of (some l) t.orders ≡ some sku) (its_sku : sku_of r ≡ sku)
    (its_line : r.order_line_id ≡ line) (its_quantity : r.quantity ≡ q)
    (its_shipped : r.shipped_quantity ≡ 0) (its_status : r.status ≡ ReservationStatus.active) where
  unknown : lookup t.next_id t.reservations ≡ none
  unknown = elim (Option-cases (lookup t.next_id t.reservations)) [
    | inl e ↦ e
    | inr (x, e) ↦ absurd (omega (arith, h.fresh_reservation t.next_id x e))
  ]

  matched_new :
      (s : Sku)
      → reserved_at s (modify sku (hold q) t.balances)
        ≡ total (remaining_at s) (insert t.next_id r t.reservations)
  matched_new s = ground (
    arith,
    h.matched s,
    reserved_hold t h sku b line l q balance free positive s,
    total-insert (remaining_at s) t.next_id r t.reservations,
  )

  lined_new :
      (k : ℕ)
      → line_reserved k (modify line (reserving q) t.order_lines)
        ≡ total (held_for k) (insert t.next_id r t.reservations)
  lined_new k = ground (
    arith,
    h.lined k,
    held_for_none line t.reservations unreserved,
    lookup-modify k line (reserving q) t.order_lines,
    total-insert (held_for k) t.next_id r t.reservations,
  )

  limited_new :
      (k : ℕ)
      → line_reserved k (modify line (reserving q) t.order_lines)
        ≤ line_requested k (modify line (reserving q) t.order_lines)
  limited_new k = ground (arith, h.limited k, lookup-modify k line (reserving q) t.order_lines)

  IsSound-new :
      (k : ℕ) (x : Reservation) → lookup k (insert t.next_id r t.reservations) ≡ some x → IsSound x
  IsSound-new k x e = ground (arith, h.sound k x, lookup-insert k t.next_id r t.reservations)

  placed_new :
      (k : ℕ) (x : Reservation)
      → lookup k (insert t.next_id r t.reservations) ≡ some x
      → place_of (lookup x.order_line_id (modify line (reserving q) t.order_lines)) t.orders
        ≡ some (sku_of x)
  placed_new k x e = ground (
    arith,
    h.placed k x,
    lookup-insert k t.next_id r t.reservations,
    lookup-modify x.order_line_id line (reserving q) t.order_lines,
  )

  picked_new :
      (k : ℕ) (w : WorkLine)
      → lookup k t.work_lines ≡ some w
      → w.picked_quantity ≤ remaining_of (lookup k (insert t.next_id r t.reservations))
  picked_new k w e =
      ground (arith, h.picked k w e, unknown, lookup-insert k t.next_id r t.reservations)

  -- A new reservation keeps the books in order.
  pub held_new-IsIntegral : IsIntegral (held_new sku line q r t)
  held_new-IsIntegral = record {
    covered = covered_hold t h sku b line l q balance free positive;
    matched = matched_new;
    lined = lined_new;
    limited = limited_new;
    sound = IsSound-new;
    placed = placed_new;
    inspected = h.inspected;
    picked = picked_new;
    keyed_lines = IsKeyed-modify line (reserving q) t.order_lines h.keyed_lines;
    keyed_reservations = IsKeyed-insert t.next_id r t.reservations unknown h.keyed_reservations;
    fresh_order = λ k x e. ground (arith, h.fresh_order k x e);
    fresh_line =
        λ k x e. grind (arith, h.fresh_line k, lookup-modify k line (reserving q) t.order_lines);
    fresh_reservation = λ k x e.
        ground (arith, h.fresh_reservation k x, lookup-insert k t.next_id r t.reservations);
  }

abbrev pub adding : ℕ → OrderLine → OrderLine
adding q l = record l { reserved_quantity = l.reserved_quantity + q }

-- The books after a line's reservation k has got q pieces more.
abbrev pub held_more : Sku → ℕ → ℕ → ℕ → Books → Books
held_more sku line k q t = record t {
  balances = modify sku (hold q) t.balances;
  order_lines = modify line (adding q) t.order_lines;
  reservations = modify k (top_up q) t.reservations;
}

module _ (t : Books) (h : IsIntegral t) (sku : Sku) (b : Balance) (line : ℕ) (l : OrderLine) (q : ℕ)
    (k : ℕ) (r : Reservation) (balance : lookup sku t.balances ≡ some b)
    (free : q ≤ b.on_hand_quantity - b.reserved_quantity) (positive : 0 < q)
    (row : lookup line t.order_lines ≡ some l)
    (wanted : l.reserved_quantity + q ≤ l.requested_quantity)
    (found : lookup k t.reservations ≡ some r) (its_sku : sku_of r ≡ sku)
    (its_line : r.order_line_id ≡ line) where
  remaining-top_up : remaining (top_up q r) ≡ remaining r + q
  remaining-top_up = ground (arith, h.sound k r found)

  held-top_up : held (top_up q r) ≡ held r + q
  held-top_up = ground (arith, h.sound k r found)

  matched_more :
      (s : Sku)
      → reserved_at s (modify sku (hold q) t.balances)
        ≡ total (remaining_at s) (modify k (top_up q) t.reservations)
  matched_more s = ground (
    arith,
    h.matched s,
    reserved_hold t h sku b line l q balance free positive s,
    remaining-top_up,
    total-modify (remaining_at s) k (top_up q) r t.reservations,
  )

  lined_more :
      (j : ℕ)
      → line_reserved j (modify line (adding q) t.order_lines)
        ≡ total (held_for j) (modify k (top_up q) t.reservations)
  lined_more j = ground (
    arith,
    h.lined j,
    held-top_up,
    lookup-modify j line (adding q) t.order_lines,
    total-modify (held_for j) k (top_up q) r t.reservations,
  )

  limited_more :
      (j : ℕ)
      → line_reserved j (modify line (adding q) t.order_lines)
        ≤ line_requested j (modify line (adding q) t.order_lines)
  limited_more j = ground (arith, h.limited j, lookup-modify j line (adding q) t.order_lines)

  IsSound-more :
      (j : ℕ) (x : Reservation) → lookup j (modify k (top_up q) t.reservations) ≡ some x → IsSound x
  IsSound-more j x e =
      ground (arith, h.sound j x, h.sound k r found, lookup-modify j k (top_up q) t.reservations)

  placed_more :
      (j : ℕ) (x : Reservation)
      → lookup j (modify k (top_up q) t.reservations) ≡ some x
      → place_of (lookup x.order_line_id (modify line (adding q) t.order_lines)) t.orders
        ≡ some (sku_of x)
  placed_more j x e = ground (
    arith,
    h.placed j x,
    h.placed k r found,
    lookup-modify j k (top_up q) t.reservations,
    lookup-modify x.order_line_id line (adding q) t.order_lines,
    lookup-modify r.order_line_id line (adding q) t.order_lines,
  )

  picked_more :
      (j : ℕ) (w : WorkLine)
      → lookup j t.work_lines ≡ some w
      → w.picked_quantity ≤ remaining_of (lookup j (modify k (top_up q) t.reservations))
  picked_more j w e =
      ground (arith, h.picked j w e, remaining-top_up, lookup-modify j k (top_up q) t.reservations)

  -- Pieces added to a reservation, whatever its state was, keep the books in order.
  pub held_more-IsIntegral : IsIntegral (held_more sku line k q t)
  held_more-IsIntegral = record {
    covered = covered_hold t h sku b line l q balance free positive;
    matched = matched_more;
    lined = lined_more;
    limited = limited_more;
    sound = IsSound-more;
    placed = placed_more;
    inspected = h.inspected;
    picked = picked_more;
    keyed_lines = IsKeyed-modify line (adding q) t.order_lines h.keyed_lines;
    keyed_reservations = IsKeyed-modify k (top_up q) t.reservations h.keyed_reservations;
    fresh_order = h.fresh_order;
    fresh_line =
        λ j x e. grind (arith, h.fresh_line j, lookup-modify j line (adding q) t.order_lines);
    fresh_reservation =
        λ j x e. grind (arith, h.fresh_reservation j, lookup-modify j k (top_up q) t.reservations);
  }
