-- ===== src/Table.antt =====
-- A database table by its primary key: a list of rows. `modify` is `UPDATE ... WHERE key = k`,
-- `insert` an `INSERT` of a row whose key is new, `delete` a `DELETE ... WHERE key = k`, and
-- `select` the rows that a `WHERE` clause picks.
pub mod Laws
pub mod Sums
use b2b_stm.Prelude.{
  ℕ, ◌+◌, Bool, true, false, Option, none, some, List, [], ◌∷◌, Eq, ◌==◌, if◌then◌else◌, is_some,
  filter, not,
}

abbrev pub Table {ℓ κ} : Type ℓ → Type κ → Type (ℓ ⊔ κ)
Table K V = List (K × V)

module _ {ℓ κ} {K : Type ℓ} {V : Type κ} ⦃e : Eq K⦄ where
  unfoldable pub lookup : K → Table K V → Option V
  lookup k [] = none
  lookup k ((j, v) ∷ t) = if j == k then some v else lookup k t

  unfoldable pub modify : K → (V → V) → Table K V → Table K V
  modify k f [] = []
  modify k f ((j, v) ∷ t) = if j == k then (j, f v) ∷ t else (j, v) ∷ modify k f t

  unfoldable pub insert : K → V → Table K V → Table K V
  insert k v t = (k, v) ∷ t

  -- `INSERT ... ON CONFLICT(key) DO UPDATE`
  unfoldable pub upsert : K → V → (V → V) → Table K V → Table K V
  unfolding lookup modify insert
  upsert k v f t = if is_some (lookup k t) then modify k f t else insert k v t

  unfoldable pub delete : K → Table K V → Table K V
  unfolding filter
  delete k t = filter (λ r. not (r.0 == k)) t

-- The sum of a quantity over all rows: `SELECT sum(f)`.
module _ {ℓ κ} {K : Type ℓ} {V : Type κ} where
  unfoldable pub total : (V → ℕ) → Table K V → ℕ
  total f [] = 0
  total f ((k, v) ∷ t) = f v + total f t
