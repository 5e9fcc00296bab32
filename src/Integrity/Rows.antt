-- ===== src/Integrity/Rows.antt =====
-- Keyed tables under their operations, and rows found by another column than the key.
use b2b_stm.Prelude.{
  ℕ, ◌≡◌, refl, false, none, some, [], ◌∷◌, Eq, ◌==◌, nat_eq, arith, any, beq_refl, All, All-map,
}
use b2b_stm.Table.{Table, lookup, modify, insert, total}
use b2b_stm.Table.Laws.{lookup-modify}
use b2b_stm.Schema.{Reservation}
use b2b_stm.Order.Confirm.{reservation_of_line}
use b2b_stm.Integrity.{IsKeyed, held_for}

module _ {ℓ κ} {K : Type ℓ} {V : Type κ} ⦃e : Eq K⦄ where
  pub IsKeyed-modify : (k : K) (f : V → V) (t : Table K V) → IsKeyed t → IsKeyed (modify k f t)
  unfolding modify
  IsKeyed-modify k f [] h = tt
  IsKeyed-modify k f ((j, v) ∷ t) h =
      ground (arith, IsKeyed-modify k f t h.1, lookup-modify j k f t)

  pub IsKeyed-insert :
      (k : K) (v : V) (t : Table K V) → lookup k t ≡ none → IsKeyed t → IsKeyed (insert k v t)
  unfolding insert
  IsKeyed-insert k v t n h = (n, h)

-- A row that is found by its order line is found by its id.
pub reservation_of_line-lookup :
    (l k : ℕ) (r : Reservation) (t : Table ℕ Reservation)
    → IsKeyed t
    → reservation_of_line l t ≡ some (k, r)
    → lookup k t ≡ some r
unfolding reservation_of_line lookup
reservation_of_line-lookup l k r [] h e = ground arith
reservation_of_line-lookup l k r ((j, x) ∷ t) h e =
    ground (arith, reservation_of_line-lookup l k r t h.1)

pub reservation_of_line_line :
    (l k : ℕ) (r : Reservation) (t : Table ℕ Reservation)
    → reservation_of_line l t ≡ some (k, r)
    → r.order_line_id ≡ l
unfolding reservation_of_line
reservation_of_line_line l k r [] e = ground arith
reservation_of_line_line l k r ((j, x) ∷ t) e = ground (arith, reservation_of_line_line l k r t)

-- A line with no reservation holds nothing.
pub held_for_none :
    (l : ℕ) (t : Table ℕ Reservation)
    → any (λ row. row.1.order_line_id == l) t ≡ false
    → total (held_for l) t ≡ 0
unfolding any total
held_for_none l [] h = refl
held_for_none l ((k, r) ∷ t) h = ground (arith, held_for_none l t)

module _ {ℓ κ} {K : Type ℓ} {V : Type κ} ⦃e : Eq K⦄ where
  abbrev pub IsRow : Table K V → K × V → Type κ
  IsRow t row = lookup row.0 t ≡ some row.1

  IsRow-below :
      (k : K) (v : V) (t : Table K V) (row : K × V)
      → lookup k t ≡ none
      → IsRow t row
      → IsRow ((k, v) ∷ t) row
  unfolding lookup
  IsRow-below k v t row n h = ground (arith, e.beq_iff k row.0)

  -- Every row of a keyed table is found by its key.
  pub rows_found : (t : Table K V) → IsKeyed t → All (IsRow t) t
  unfolding lookup
  rows_found [] h = tt
  rows_found ((k, v) ∷ t) h = (
    ground (arith, beq_refl k),
    All-map (IsRow t) (IsRow ((k, v) ∷ t)) t (λ row found. IsRow-below k v t row h.0 found)
        (rows_found t h.1),
  )
