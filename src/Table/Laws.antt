-- ===== src/Table/Laws.antt =====
-- What a lookup finds after each operation on a table.
use mathlib.Core.Option
use mathlib.Core.Path.{subst}
use b2b_stm.Prelude.{
  ℕ, any, nat_eq, inl, inr, Bool-cases, Bool, false, ◌≡◌, refl, false, none, some, [], ◌∷◌, Eq,
  ◌==◌, arith, if◌then◌else◌, beq_refl,
}
use b2b_stm.Table.{Table, lookup, modify, insert, upsert, delete}

module _ {ℓ κ} {K : Type ℓ} {V : Type κ} ⦃e : Eq K⦄ where
  pub lookup-modify :
      (j k : K) (f : V → V) (t : Table K V)
      → lookup j (modify k f t) ≡ (if k == j then Option.map f (lookup j t) else lookup j t)
  unfolding lookup modify
  lookup-modify j k f [] = ground arith
  lookup-modify j k f ((i, v) ∷ t) =
      ground (arith, lookup-modify j k f t, e.beq_iff i k, e.beq_iff i j, e.beq_iff k j)

  pub lookup-modify_self :
      (k : K) (f : V → V) (t : Table K V) {v : V}
      → lookup k t ≡ some v
      → lookup k (modify k f t) ≡ some (f v)
  lookup-modify_self k f t h = ground (arith, lookup-modify k k f t, beq_refl k)

  pub lookup-modify_ne :
      (j k : K) (f : V → V) (t : Table K V)
      → (k == j) ≡ false
      → lookup j (modify k f t) ≡ lookup j t
  lookup-modify_ne j k f t h = ground (arith, lookup-modify j k f t)

  pub lookup-insert :
      (j k : K) (v : V) (t : Table K V)
      → lookup j (insert k v t) ≡ (if k == j then some v else lookup j t)
  unfolding lookup insert
  lookup-insert j k v t = refl

  pub lookup-insert_self : (k : K) (v : V) (t : Table K V) → lookup k (insert k v t) ≡ some v
  lookup-insert_self k v t = ground (arith, lookup-insert k k v t, beq_refl k)

  pub lookup-upsert_self :
      (k : K) (v : V) (f : V → V) (t : Table K V)
      → lookup k (upsert k v f t) ≡ elim (lookup k t) [ none ↦ some v | some w ↦ some (f w) ]
  unfolding upsert
  lookup-upsert_self k v f t =
      ground (arith, lookup-modify k k f t, lookup-insert k k v t, beq_refl k)

  pub lookup-upsert_ne :
      (j k : K) (v : V) (f : V → V) (t : Table K V)
      → (k == j) ≡ false
      → lookup j (upsert k v f t) ≡ lookup j t
  unfolding upsert
  lookup-upsert_ne j k v f t h = ground (arith, lookup-modify j k f t, lookup-insert j k v t)

  pub lookup-delete :
      (j k : K) (t : Table K V) → lookup j (delete k t) ≡ (if k == j then none else lookup j t)
  unfolding delete lookup
  lookup-delete j k [] = ground arith
  lookup-delete j k ((i, v) ∷ t) =
      ground (arith, lookup-delete j k t, e.beq_iff i k, e.beq_iff i j, e.beq_iff k j)

module _ {ℓ κ} {K : Type ℓ} {V : Type κ} ⦃e : Eq K⦄ where
  -- Two changes that agree on the row that is there do the same.
  pub modify_agree :
      (k : K) (f g : V → V) (v : V) (t : Table K V)
      → lookup k t ≡ some v
      → f v ≡ g v
      → modify k f t ≡ modify k g t
  unfolding lookup modify
  modify_agree k f g v [] h same = refl
  modify_agree k f g v ((j, w) ∷ t) h same = ground (arith, modify_agree k f g v t)

-- A test that holds of no row does not hold of one that is found.
pub any-lookup {κ} :
    {V : Type κ} (test : ℕ × V → Bool) (k : ℕ) (v : V) (t : Table ℕ V)
    → any test t ≡ false
    → lookup k t ≡ some v
    → test (k, v) ≡ false
unfolding any lookup
any-lookup {V = X} test k v [] h e = cc
any-lookup {V = X} test k v ((j, w) ∷ t) h e = elim (Bool-cases (j == k)) [
  | inl same ↦
      let here : j ≡ k = ground arith in
      let its : w ≡ v = ground arith in
      let first : test (j, w) ≡ false = ground arith in
      subst (λ (x : ℕ). test (x, v) ≡ false) here (subst (λ (y : X). test (j, y) ≡ false) its first)
  | inr ne ↦ any-lookup test k v t (ground arith) (ground arith)
]
