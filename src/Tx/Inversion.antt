-- ===== src/Tx/Inversion.antt =====
-- Taking a successful run apart.
use b2b_stm.Prelude.{◌≡◌, refl, Option, none, some, arith}
use b2b_stm.Schema.{Db}
use b2b_stm.Tx.{Result, ok, err, Tx, Error, or_throw, ◌>>=◌}

module _ {ℓ} {A B : Type 0} {C : Type ℓ} (f : A → Tx B) (b : B) (db'' : Db) where
  continued :
      (x : Result (A × Db))
      → ◌≡◌ {A = Result (B × Db)} (elim x [ ok (a, d) ↦ f a d | err e ↦ err e ]) (ok (b, db''))
      → ((a : A) (d : Db) → x ≡ ok (a, d) → f a d ≡ ok (b, db'') → C)
      → C
  continued (ok (a, d)) h k = k a d refl h
  continued (err e) h k = cc

-- A bind succeeds because both of its parts do.
pub bind_ok {ℓ} :
    {A B : Type 0} {C : Type ℓ} (m : Tx A) (f : A → Tx B) (b : B) (db db'' : Db)
    → (m >>= f) db ≡ ok (b, db'')
    → ((a : A) (d : Db) → m db ≡ ok (a, d) → f a d ≡ ok (b, db'') → C)
    → C
bind_ok m f b db db'' h k = continued f b db'' (m db) h k

-- The state that a successful run leaves.
abbrev pub final : {A : Type 0} → Result (A × Db) → Option Db
final (ok (a, d)) = some d
final (err e) = none

pub final_ok :
    {A : Type 0} (x : Result (A × Db)) (d : Db) → final x ≡ some d → (a : A) × (x ≡ ok (a, d))
final_ok (ok (a, d')) d h = (a, ground (arith, h))
final_ok (err e) d h = cc

-- A row that was found, without a change.
pub or_throw_ok :
    {A : Type 0} (o : Option A) (e : Error) (a : A) (db d : Db)
    → or_throw o e db ≡ ok (a, d)
    → (o ≡ some a) × (d ≡ db)
or_throw_ok none e a db d h = cc
or_throw_ok (some x) e a db d h = (ground (arith, h), ground (arith, h))
