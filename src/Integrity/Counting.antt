-- ===== src/Integrity/Counting.antt =====
-- Stock counts keep the books in order.
use mathlib.Core.Path.{subst, sym}
use b2b_stm.Table.Laws.{any-lookup}
use b2b_stm.Prelude.{
  ℕ, beq_refl, zero, suc, ◌+◌, ◌-◌, ◌≤◌, ◌≡◌, true, false, some, Option-cases, inl, inr, ◌==◌,
  nat_eq, pair_eq, arith, Bool, min, [], ◌∷◌, All, All-map, All-sort_by, All-filter, All-filter_of,
}
use b2b_stm.Table.{Table, lookup, modify}
use b2b_stm.Schema.{Db, Sku, Reservation}
use b2b_stm.Tx.{ok}
use b2b_stm.Tx.Inversion.{bind_ok}
use b2b_stm.Order.Store.{sku_of, is_active, log_reservation}
use b2b_stm.StockCount.{cut, cut_reservation, cut_reservations, open_reservations, work_started}
use b2b_stm.Integrity.{books, IsIntegral}
use b2b_stm.Integrity.Ids.{same-IsIntegral}
use b2b_stm.Integrity.Rows.{IsRow, rows_found}
use b2b_stm.Integrity.Distinct.{
  IsDistinct, IsDistinct-of_keyed, IsDistinct-filter, IsDistinct-sort_by, rows_kept,
}
use b2b_stm.Integrity.Reset.{picked_at}
use b2b_stm.Integrity.Cut.{ahead, cut_down, cut_down-IsIntegral}

module _ (actor count q id : ℕ) (r : Reservation) (u : Unit {0}) (db d : Db)
    (ran : cut_reservation actor count q (id, r) db ≡ ok (u, d)) where
  abbrev full : Bool
  full = q == (r.quantity - r.shipped_quantity)

  cut_books : books d ≡ record (cut_down id r q full (books db)) { next_id = suc (suc db.next_id) }
  unfolding cut_reservation log_reservation
  cut_books = ground arith

  cut_rows : d.reservations ≡ modify id (cut full q) db.reservations
  unfolding cut_reservation log_reservation
  cut_rows = ground arith

  cut_work : d.work_lines ≡ db.work_lines
  unfolding cut_reservation log_reservation
  cut_work = ground arith

  cut_reservation-IsIntegral :
      (sku : Sku) (n : ℕ)
      → IsIntegral (ahead sku n (books db))
      → lookup id db.reservations ≡ some r
      → is_active r.status ≡ true
      → sku_of r ≡ sku
      → q ≤ r.quantity - r.shipped_quantity
      → picked_at id db.work_lines ≡ 0
      → IsIntegral (ahead sku (n + q) (books d))
  cut_reservation-IsIntegral sku n h found active its within idle =
      same-IsIntegral (ahead sku (n + q) (cut_down id r q full (books db)))
        (ahead sku (n + q) (books d))
        (cut_down-IsIntegral (books db) sku n h id r q found active its within
          (λ w work. ground (arith, idle, work)))
        (ground (arith, cut_books)) (ground (arith, cut_books))

-- What the loop needs of each reservation that is still to come.
abbrev pub Open : Sku → ℕ × Reservation → Type 0
Open sku row = (sku_of row.1 ≡ sku) × (is_active row.1.status ≡ true)

abbrev pub Unpicked : Db → ℕ × Reservation → Type 0
Unpicked db row = picked_at row.0 db.work_lines ≡ 0

nothing_cut :
    (sku : Sku) (n : ℕ) (cuts : ℕ × ℕ) (db db' : Db)
    → IsIntegral (ahead sku n (books db))
    → cuts.1 ≡ 0
    → db ≡ db'
    → IsIntegral (ahead sku (n + cuts.1) (books db'))
nothing_cut sku n cuts db db' h none_cut same =
    let whole : n ≡ n + cuts.1 = omega (arith, none_cut) in
    subst (λ (x : Db). IsIntegral (ahead sku (n + cuts.1) (books x))) same
      (subst (λ (k : ℕ). IsIntegral (ahead sku k (books db))) whole h)

pub cut_reservations-IsIntegral :
    (actor count : ℕ) (sku : Sku) (n shortage : ℕ) (rows : Table ℕ Reservation) (cuts : ℕ × ℕ)
    (db db' : Db)
    → IsIntegral (ahead sku n (books db))
    → IsDistinct rows
    → All (IsRow db.reservations) rows
    → All (Open sku) rows
    → All (Unpicked db) rows
    → cut_reservations actor count shortage rows db ≡ ok (cuts, db')
    → IsIntegral (ahead sku (n + cuts.1) (books db'))
unfolding cut_reservations
cut_reservations-IsIntegral actor count sku n shortage [] cuts db db' h apart found open_rows
      unpicked ran =
    nothing_cut sku n cuts db db' h (ground arith) (ground arith)
cut_reservations-IsIntegral actor count sku n zero (row ∷ rows) cuts db db' h apart found open_rows
      unpicked ran =
    nothing_cut sku n cuts db db' h (ground arith) (ground arith)
cut_reservations-IsIntegral actor count sku n (suc m) ((id, r) ∷ rows) cuts db db' h apart found
      open_rows unpicked ran =
    let q : ℕ = min (suc m) (r.quantity - r.shipped_quantity) in
    bind_ok (cut_reservation actor count q (id, r)) _ cuts db db' ran λ u d one rest.
      bind_ok (cut_reservations actor count (suc m - q) rows) _ cuts d db' rest λ sums d' more last.
        let step : IsIntegral (ahead sku (n + q) (books d)) =
          cut_reservation-IsIntegral actor count q id r u db d one sku n h found.0 open_rows.0.1
            open_rows.0.0 (omega arith) unpicked.0 in
        let kept : All (IsRow d.reservations) rows =
          subst (λ (t : Table ℕ Reservation). All (IsRow t) rows)
            (sym (cut_rows actor count q id r u db d one))
            (rows_kept id (cut (q == (r.quantity - r.shipped_quantity)) q) db.reservations rows
              apart.0 found.1) in
        let still : All (Unpicked d) rows =
          All-map (Unpicked db) (Unpicked d) rows
            (λ row e. rw (cut_work actor count q id r u db d one, e)) unpicked.1 in
        let done : IsIntegral (ahead sku (n + q + sums.1) (books d')) =
          cut_reservations-IsIntegral actor count sku (n + q) (suc m - q) rows sums d d' step
            apart.1 kept open_rows.1 still more in
        let whole : n + q + sums.1 ≡ n + cuts.1 = ground (arith, last) in
        let same : d' ≡ db' = ground (arith, last) in
        subst (λ (x : Db). IsIntegral (ahead sku (n + cuts.1) (books x))) same
          (subst (λ (k : ℕ). IsIntegral (ahead sku k (books d'))) whole done)

-- The open reservations of a SKU.
module _ (sku : Sku) (db : Db) (h : IsIntegral (books db)) where
  pub open_rows : All (IsRow db.reservations) (open_reservations sku db)
  unfolding open_reservations
  open_rows = All-sort_by (IsRow db.reservations) _ _ (
      All-sort_by (IsRow db.reservations) _ _ (
        All-filter_of (IsRow db.reservations) _ db.reservations
          (rows_found db.reservations h.keyed_reservations)))

  pub open_apart : IsDistinct (open_reservations sku db)
  unfolding open_reservations
  open_apart = IsDistinct-sort_by _ _ (
      IsDistinct-sort_by _ _ (
        IsDistinct-filter _ db.reservations
          (IsDistinct-of_keyed db.reservations h.keyed_reservations)))

pub rows-Open : (sku : Sku) (db : Db) → All (Open sku) (open_reservations sku db)
unfolding open_reservations
rows-Open sku db = All-sort_by (Open sku) _ _ (
    All-sort_by (Open sku) _ _
      (All-filter (Open sku) _ db.reservations (λ row e. (ground arith, ground arith))))

pub row-Unpicked :
    (sku : Sku) (db : Db) (row : ℕ × Reservation)
    → work_started sku db ≡ false
    → IsRow db.reservations row
    → Open sku row
    → Unpicked db row
unfolding work_started
row-Unpicked sku db row idle found its = elim (Option-cases (lookup row.0 db.work_lines)) [
  | inl missing ↦ ground (arith, missing)
  | inr (w, there) ↦
      ground (arith, found, its, there, beq_refl sku, any-lookup _ row.0 w db.work_lines idle there)
]
