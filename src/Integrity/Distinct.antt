-- ===== src/Integrity/Distinct.antt =====
-- Lists of rows with different keys, which a loop can work through without meeting its own writes.
use b2b_stm.Prelude.{
  ℕ, ◌≡◌, false, none, [], ◌∷◌, Eq, ◌==◌, arith, All, All-filter_of, All-insert_by, All-sort_by,
  All-zip, filter, insert_by, sort_by, Bool, beq_refl, Bool-cases, inl, inr,
}
use b2b_stm.Table.{Table, lookup, modify}
use b2b_stm.Table.Laws.{lookup-modify_ne}
use b2b_stm.Integrity.{IsKeyed}
use b2b_stm.Integrity.Rows.{IsRow}

beq_sym {ℓ} : {K : Type ℓ} ⦃e : Eq K⦄ (a b : K) → (a == b) ≡ false → (b == a) ≡ false
beq_sym ⦃e⦄ a b h = ground (arith, e.beq_iff b a, e.beq_iff a b, beq_refl a)

module _ {ℓ κ} {K : Type ℓ} {V : Type κ} ⦃e : Eq K⦄ where
  abbrev pub Without : K → Table K V → Type 0
  Without k t = All (λ row. (k == row.0) ≡ false) t

  abbrev pub IsDistinct : Table K V → Type 0
  IsDistinct [] = Unit
  IsDistinct (row ∷ t) = Without row.0 t × IsDistinct t

  without : (k : K) (t : Table K V) → lookup k t ≡ none → Without k t
  unfolding lookup
  without k [] h = tt
  without k ((j, v) ∷ t) h = elim (Bool-cases (j == k)) [
    | inl same ↦ ground arith
    | inr ne ↦ (beq_sym j k ne, without k t (ground arith))
  ]

  pub IsDistinct-of_keyed : (t : Table K V) → IsKeyed t → IsDistinct t
  IsDistinct-of_keyed [] h = tt
  IsDistinct-of_keyed ((k, v) ∷ t) h = (without k t h.0, IsDistinct-of_keyed t h.1)

  pub IsDistinct-filter :
      (test : K × V → Bool) (t : Table K V) → IsDistinct t → IsDistinct (filter test t)
  unfolding filter
  IsDistinct-filter test [] h = tt
  IsDistinct-filter test (row ∷ t) h = ground (
    arith,
    IsDistinct-filter test t h.1,
    All-filter_of (λ (r : K × V). (row.0 == r.0) ≡ false) test t h.0,
  )

  IsDistinct-insert_by :
      (key : K × V → ℕ) (row : K × V) (t : Table K V)
      → Without row.0 t
      → IsDistinct t
      → IsDistinct (insert_by key row t)
  unfolding insert_by
  IsDistinct-insert_by key row [] n h = (tt, tt)
  IsDistinct-insert_by key row (r ∷ t) n h = ground (
    arith,
    IsDistinct-insert_by key row t n.1 h.1,
    All-insert_by (λ (x : K × V). (r.0 == x.0) ≡ false) key row t (beq_sym row.0 r.0 n.0) h.0,
  )

  pub IsDistinct-sort_by :
      (key : K × V → ℕ) (t : Table K V) → IsDistinct t → IsDistinct (sort_by key t)
  unfolding sort_by
  IsDistinct-sort_by key [] h = tt
  IsDistinct-sort_by key (row ∷ t) h =
      IsDistinct-insert_by key row _ (without_sorted key row.0 t h.0) (IsDistinct-sort_by key t h.1)
    where
      without_sorted :
          (f : K × V → ℕ) (k : K) (s : Table K V) → Without k s → Without k (sort_by f s)
      without_sorted f k s n = All-sort_by (λ (r : K × V). (k == r.0) ≡ false) f s n

  -- A write to one row leaves the rows of other keys as they are.
  pub rows_kept :
      (k : K) (f : V → V) (t s : Table K V)
      → Without k s
      → All (IsRow t) s
      → All (IsRow (modify k f t)) s
  rows_kept k f t s n h =
      All-zip (λ (r : K × V). (k == r.0) ≡ false) (IsRow t) (IsRow (modify k f t)) s
        (λ r ne found. ground (arith, lookup-modify_ne r.0 k f t ne)) n h
