-- ===== src/Identity/Inversion.antt =====
-- Successful runs of the identity services, taken apart.
use b2b_stm.Prelude.{ℕ, ◌≡◌, refl, Bool, true, false, Option, none, some, arith}
use b2b_stm.Text.{Text}
use b2b_stm.Tx.{Error, Result, ok, err}
use b2b_stm.Identity.{Accounts, Act, settle_with, ◌>>=◌, or_throw, throw_if, administrator}
use b2b_stm.Identity.Tokens.{active_customer, checked}

continued {ℓ} :
    {A B : Type 0} {C : Type ℓ} (f : A → Act B) (b : B) (t : Accounts) (x : Result (A × Accounts))
    → ◌≡◌ {A = Result (B × Accounts)} (elim x [ ok (a, u) ↦ f a u | err e ↦ err e ]) (ok (b, t))
    → ((a : A) (u : Accounts) → x ≡ ok (a, u) → f a u ≡ ok (b, t) → C)
    → C
continued f b t (ok (a, u)) h k = k a u refl h
continued f b t (err e) h k = cc

pub bind_ok {ℓ} :
    {A B : Type 0} {C : Type ℓ} (m : Act A) (f : A → Act B) (b : B) (s t : Accounts)
    → (m >>= f) s ≡ ok (b, t)
    → ((a : A) (u : Accounts) → m s ≡ ok (a, u) → f a u ≡ ok (b, t) → C)
    → C
bind_ok m f b s t h k = continued f b t (m s) h k

-- Steps that only look.
pub or_throw_same :
    {A : Type 0} (o : Option A) (e : Error) (a : A) (s t : Accounts)
    → or_throw o e s ≡ ok (a, t)
    → s ≡ t
or_throw_same none e a s t h = cc
or_throw_same (some b) e a s t h = ground (arith, h)

pub throw_if_same :
    (b : Bool) (e : Error) (a : Unit {0}) (s t : Accounts) → throw_if b e s ≡ ok (a, t) → s ≡ t
throw_if_same true e a s t h = cc
throw_if_same false e a s t h = ground (arith, h)

pub checked_same :
    {A : Type 0} (r : Result A) (a : A) (s t : Accounts) → checked r s ≡ ok (a, t) → s ≡ t
checked_same (ok b) a s t h = ground (arith, h)
checked_same (err e) a s t h = cc

pub administrator_same :
    (session : Text) (actor : ℕ) (s t : Accounts) → administrator session s ≡ ok (actor, t) → s ≡ t
unfolding administrator
administrator_same session actor s t h = or_throw_same _ _ actor s t h

pub active_customer_same :
    (c : Option ℕ) (a : Unit {0}) (s t : Accounts) → active_customer c s ≡ ok (a, t) → s ≡ t
unfolding active_customer
active_customer_same c a s t h = throw_if_same _ _ a s t h

pub or_throw_found :
    {A : Type 0} (o : Option A) (e : Error) (a : A) (s t : Accounts)
    → or_throw o e s ≡ ok (a, t)
    → o ≡ some a
or_throw_found none e a s t h = cc
or_throw_found (some b) e a s t h = ground (arith, h)

pub settled_ok :
    {A : Type 0} (as_error : Error → Error) (s : Accounts) (o : Result (A × Accounts)) (a : A)
    (t : Accounts)
    → settle_with as_error s o ≡ (ok a, t)
    → o ≡ ok (a, t)
settled_ok as_error s (ok x) a t h = ground (arith, h)
settled_ok as_error s (err e) a t h = ground (arith, h)
