-- ===== src/Table/Sums.antt =====
-- Sums over a table, and how each operation changes them.
use b2b_stm.Prelude.{ℕ, ◌+◌, ◌≤◌, ◌≡◌, refl, some, [], ◌∷◌, Eq, arith}
use b2b_stm.Table.{Table, lookup, modify, insert, total}

module _ {ℓ κ} {K : Type ℓ} {V : Type κ} ⦃e : Eq K⦄ (f : V → ℕ) where
  pub total-modify :
      (k : K) (g : V → V) (v : V) (t : Table K V)
      → lookup k t ≡ some v
      → total f (modify k g t) + f v ≡ total f t + f (g v)
  unfolding lookup modify total
  total-modify k g v [] h = ground arith
  total-modify k g v ((j, w) ∷ t) h = ground (arith, total-modify k g v t)

  pub total-insert : (k : K) (v : V) (t : Table K V) → total f (insert k v t) ≡ f v + total f t
  unfolding insert total
  total-insert k v t = refl

  -- One row is at most the sum.
  pub le-total : (k : K) (v : V) (t : Table K V) → lookup k t ≡ some v → f v ≤ total f t
  unfolding lookup total
  le-total k v [] h = ground arith
  le-total k v ((j, w) ∷ t) h = ground (arith, le-total k v t)
