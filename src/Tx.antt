-- ===== src/Tx.antt =====
-- Transactions: `transaction`, `stored` and the answer that every command records, which the
-- services write alike (apps/api/src/orders/order.service.ts and its siblings). The statements of
-- one transaction run as one step: each service takes row locks or an advisory lock on what it
-- changes. Leaving by an exception gives the state up, which is what `ROLLBACK` does.
pub mod Replay
pub mod Inversion
use b2b_stm.Prelude.{
  ℕ, suc, Bool, true, false, Option, none, some, String, if◌then◌else◌, nat_eq, string_eq, pair_eq,
}
use b2b_stm.Table.{lookup, insert}
use b2b_stm.Schema.{Db, Response, CommandKey}

-- The HTTP exceptions with their messages, and any other error: one of the database (a violated
-- constraint) or of the language.
pub data Error : Type 0 where
  bad_request conflict not_found service_unavailable fault : String → Error
  forbidden unauthorized too_many_requests : String → Error

pub data Result {ℓ} (A : Type ℓ) : Type ℓ where
  ok : A → Result A
  err : Error → Result A

abbrev pub Tx : Type 0 → Type 0
Tx A = Db → Result (A × Db)

module _ {A : Type 0} where
  abbrev pub pure : A → Tx A
  pure a db = ok (a, db)

  abbrev pub throw : Error → Tx A
  throw e db = err e

  abbrev pub query : (Db → A) → Tx A
  query f db = ok (f db, db)

  -- The first row, or an exception where there is none.
  abbrev pub or_throw : Option A → Error → Tx A
  or_throw none e = throw e
  or_throw (some a) e = pure a

infixl 5 ◌>>=◌ ◌>>◌
abbrev pub ◌>>=◌ : {A B : Type 0} → Tx A → (A → Tx B) → Tx B
◌>>=◌ m f db = elim (m db) [ ok (a, db') ↦ f a db' | err e ↦ err e ]

abbrev pub ◌>>◌ : {A B : Type 0} → Tx A → Tx B → Tx B
m >> k = m >>= λ _. k

abbrev pub throw_if : Bool → Error → Tx (Unit {0})
throw_if true e = throw e
throw_if false e = pure tt

abbrev pub execute : (Db → Db) → Tx (Unit {0})
execute f db = ok (tt, f db)

unfoldable pub random_uuid : Tx ℕ
random_uuid db = ok (db.next_id, record db { next_id = suc db.next_id })

-- An exception that is not an HTTP exception becomes `ServiceUnavailableException(name)`.
abbrev pub http_error : String → Error → Error
http_error name (bad_request m) = bad_request m
http_error name (conflict m) = conflict m
http_error name (not_found m) = not_found m
http_error name (service_unavailable m) = service_unavailable m
http_error name (forbidden m) = forbidden m
http_error name (unauthorized m) = unauthorized m
http_error name (too_many_requests m) = too_many_requests m
http_error name (fault m) = service_unavailable name

abbrev pub settle {ℓ} : {A : Type ℓ} → String → Db → Result (A × Db) → Result A × Db
settle name db (ok (a, db')) = (ok a, db')
settle name db (err e) = (err (http_error name e), db)

-- `BEGIN`, the work, and `COMMIT`; or `ROLLBACK` and the exception.
unfoldable pub transaction : {A : Type 0} → String → Tx A → Db → Result A × Db
transaction name work db = settle name db (work db)

-- The answer of an earlier run of the same command by the same actor.
unfoldable pub stored : CommandKey → Tx (Option Response)
stored key = query (λ db. lookup key db.command_results)

unfoldable pub remember : CommandKey → Response → Db → Db
remember key response db = record db { command_results = insert key response db.command_results }

abbrev pub run_or_replay : CommandKey → Tx Response → Option Response → Tx Response
run_or_replay key work (some response) = pure response
run_or_replay key work none = do response ← work; execute (remember key response); pure response

-- The frame of every command: replay a stored answer, or do the work and store its answer.
unfoldable pub command : CommandKey → Tx Response → Tx Response
unfolding stored
command key work = do existing ← stored key; run_or_replay key work existing
