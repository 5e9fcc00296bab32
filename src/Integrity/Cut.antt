-- ===== src/Integrity/Cut.antt =====
-- Cutting reservations down at the end of a stock count. The balance is written last, so until then
-- the books are in order up to the pieces that were cut already.
use b2b_stm.Prelude.{ℕ, ◌+◌, ◌-◌, ◌≤◌, ◌≡◌, true, some, ◌==◌, nat_eq, pair_eq, arith, Bool}
use b2b_stm.Table.{lookup, modify, total}
use b2b_stm.Table.Laws.{lookup-modify}
use b2b_stm.Table.Sums.{total-modify, le-total}
use b2b_stm.Schema.{Sku, Balance, Reservation, WorkLine}
use b2b_stm.Order.Store.{sku_of, is_active}
use b2b_stm.StockCount.{cut, set_counted}
use b2b_stm.Integrity.{
  Books, IsIntegral, IsSound, place_of, reserved_at, on_hand_at, line_reserved, line_requested,
  remaining, held, remaining_at, held_for, remaining_of,
}
use b2b_stm.Integrity.Release.{giving}
use b2b_stm.Integrity.Rows.{IsKeyed-modify}

abbrev pub lower : ℕ → Balance → Balance
lower n b = record b { reserved_quantity = b.reserved_quantity - n }

-- The books as they will be when n pieces are taken off the balance.
abbrev pub ahead : Sku → ℕ → Books → Books
ahead sku n t = record t { balances = modify sku (lower n) t.balances }

abbrev pub cut_down : ℕ → Reservation → ℕ → Bool → Books → Books
cut_down k r q full t = record t {
  reservations = modify k (cut full q) t.reservations;
  order_lines = modify r.order_line_id (giving q) t.order_lines;
}

module _ (t : Books) (sku : Sku) (n : ℕ) (h : IsIntegral (ahead sku n t)) (k : ℕ) (r : Reservation)
    (q : ℕ) (found : lookup k t.reservations ≡ some r) (active : is_active r.status ≡ true)
    (its_sku : sku_of r ≡ sku) (within : q ≤ r.quantity - r.shipped_quantity)
    (idle : (w : WorkLine) → lookup k t.work_lines ≡ some w → w.picked_quantity ≡ 0) where
  abbrev full : Bool
  full = q == (r.quantity - r.shipped_quantity)

  remaining-cut : remaining (cut full q r) + q ≡ remaining r
  remaining-cut = ground (arith, h.sound k r found)

  held-cut : held (cut full q r) + q ≡ held r
  held-cut = ground (arith, h.sound k r found)

  covered_cut :
      (s : Sku)
      → reserved_at s (modify sku (lower (n + q)) t.balances)
        ≤ on_hand_at s (modify sku (lower (n + q)) t.balances)
  covered_cut s = ground (
    arith,
    h.covered s,
    lookup-modify s sku (lower n) t.balances,
    lookup-modify s sku (lower (n + q)) t.balances,
  )

  matched_cut :
      (s : Sku)
      → reserved_at s (modify sku (lower (n + q)) t.balances)
        ≡ total (remaining_at s) (modify k (cut full q) t.reservations)
  matched_cut s = ground (
    arith,
    h.matched s,
    remaining-cut,
    lookup-modify s sku (lower n) t.balances,
    lookup-modify s sku (lower (n + q)) t.balances,
    le-total (remaining_at s) k r t.reservations found,
    total-modify (remaining_at s) k (cut full q) r t.reservations,
  )

  lined_cut :
      (j : ℕ)
      → line_reserved j (modify r.order_line_id (giving q) t.order_lines)
        ≡ total (held_for j) (modify k (cut full q) t.reservations)
  lined_cut j = ground (
    arith,
    h.lined j,
    held-cut,
    lookup-modify j r.order_line_id (giving q) t.order_lines,
    le-total (held_for j) k r t.reservations found,
    total-modify (held_for j) k (cut full q) r t.reservations,
  )

  limited_cut :
      (j : ℕ)
      → line_reserved j (modify r.order_line_id (giving q) t.order_lines)
        ≤ line_requested j (modify r.order_line_id (giving q) t.order_lines)
  limited_cut j =
      ground (arith, h.limited j, lookup-modify j r.order_line_id (giving q) t.order_lines)

  IsSound-cut :
      (j : ℕ) (x : Reservation)
      → lookup j (modify k (cut full q) t.reservations) ≡ some x
      → IsSound x
  IsSound-cut j x e =
      ground (arith, h.sound j x, h.sound k r found, lookup-modify j k (cut full q) t.reservations)

  placed_cut :
      (j : ℕ) (x : Reservation)
      → lookup j (modify k (cut full q) t.reservations) ≡ some x
      → place_of (lookup x.order_line_id (modify r.order_line_id (giving q) t.order_lines)) t.orders
        ≡ some (sku_of x)
  placed_cut j x e = ground (
    arith,
    h.placed j x,
    h.placed k r found,
    lookup-modify j k (cut full q) t.reservations,
    lookup-modify x.order_line_id r.order_line_id (giving q) t.order_lines,
    lookup-modify r.order_line_id r.order_line_id (giving q) t.order_lines,
  )

  picked_cut :
      (j : ℕ) (w : WorkLine)
      → lookup j t.work_lines ≡ some w
      → w.picked_quantity ≤ remaining_of (lookup j (modify k (cut full q) t.reservations))
  picked_cut j w e =
      ground (arith, h.picked j w e, idle w, lookup-modify j k (cut full q) t.reservations)

  -- One more reservation cut down keeps the books in order, up to the balance.
  pub cut_down-IsIntegral : IsIntegral (ahead sku (n + q) (cut_down k r q full t))
  cut_down-IsIntegral = record {
    covered = covered_cut;
    matched = matched_cut;
    lined = lined_cut;
    limited = limited_cut;
    sound = IsSound-cut;
    placed = placed_cut;
    inspected = h.inspected;
    picked = picked_cut;
    keyed_lines = IsKeyed-modify r.order_line_id (giving q) t.order_lines h.keyed_lines;
    keyed_reservations = IsKeyed-modify k (cut full q) t.reservations h.keyed_reservations;
    fresh_order = h.fresh_order;
    fresh_line = λ j x e.
        grind (arith, h.fresh_line j, lookup-modify j r.order_line_id (giving q) t.order_lines);
    fresh_reservation = λ j x e.
        grind (arith, h.fresh_reservation j, lookup-modify j k (cut full q) t.reservations);
  }

module _ (t : Books) (sku : Sku) where
  -- At the start nothing has been cut.
  pub ahead_none : IsIntegral t → IsIntegral (ahead sku 0 t)
  ahead_none h = record {
    covered = λ s. ground (arith, h.covered s, lookup-modify s sku (lower 0) t.balances);
    matched = λ s. ground (arith, h.matched s, lookup-modify s sku (lower 0) t.balances);
    lined = h.lined;
    limited = h.limited;
    sound = h.sound;
    placed = h.placed;
    inspected = h.inspected;
    picked = h.picked;
    keyed_lines = h.keyed_lines;
    keyed_reservations = h.keyed_reservations;
    fresh_order = h.fresh_order;
    fresh_line = h.fresh_line;
    fresh_reservation = h.fresh_reservation;
  }

  -- At the end the balance has what was counted.
  pub ahead_done :
      (n counted : ℕ) (b : Balance)
      → IsIntegral (ahead sku n t)
      → lookup sku t.balances ≡ some b
      → b.reserved_quantity - n ≤ counted
      → IsIntegral (record t { balances = modify sku (set_counted counted n) t.balances })
  ahead_done n counted b h there enough = record {
    covered = λ s. ground (
      arith,
      h.covered s,
      there,
      enough,
      lookup-modify s sku (lower n) t.balances,
      lookup-modify s sku (set_counted counted n) t.balances,
    );
    matched = λ s. ground (
      arith,
      h.matched s,
      lookup-modify s sku (lower n) t.balances,
      lookup-modify s sku (set_counted counted n) t.balances,
    );
    lined = h.lined;
    limited = h.limited;
    sound = h.sound;
    placed = h.placed;
    inspected = h.inspected;
    picked = h.picked;
    keyed_lines = h.keyed_lines;
    keyed_reservations = h.keyed_reservations;
    fresh_order = h.fresh_order;
    fresh_line = h.fresh_line;
    fresh_reservation = h.fresh_reservation;
  }
