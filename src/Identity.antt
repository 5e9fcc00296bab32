-- ===== src/Identity.antt =====
-- Accounts, sessions and second factors: apps/api/src/identity. Times are seconds. Hashes, ciphers,
-- `toLowerCase` and one-time passwords are parameters; random tokens and codes are arguments of the
-- operations that draw them.
pub mod Password
pub mod Login
pub mod Lockout
pub mod Guard
pub mod Tokens
pub mod Requests
pub mod Mfa
pub mod Reset
pub mod Access
pub mod Inversion
pub mod Limited
pub mod Lifecycle
pub mod Factors
pub mod Run
pub mod ShutOut
pub mod Once
mod Examples
use b2b_stm.Prelude.{
  ℕ, ◌+◌, Bool, true, false, ◌&&◌, ◌||◌, not, Option, none, some, List, [], ◌∷◌, String, any, ltb,
  leb, is_some, ◌==◌, nat_eq, if◌then◌else◌,
}
use b2b_stm.Text.{Text, text_eq}
use b2b_stm.Table.{Table, lookup, modify, insert}
use b2b_stm.Tx.{Error, Result, ok, err, forbidden, conflict, service_unavailable, http_error}

-- What node:crypto, argon2, otplib and the tables of Unicode compute. An exception is `none`.
pub record Crypto : Type 0 where
  pub digest : Text → Text
  pub lower : Text → Text
  pub argon2_verify : Text → Text → Option Bool
  pub argon2_hash : Text → Text
  pub scrypt : Text → Text → Option Text
  pub base64url : Text → Text
  pub seal : Text → ℕ → Text
  pub unseal : Text → ℕ → Text
  -- The time step of a code that is valid now and later than a given step.
  pub totp : Text → Text → Option ℕ → Option ℕ

pub data AccountType : Type 0 where
  internal customer : AccountType

pub data Role : Type 0 where
  customer_role warehouse operations settlement system : Role

-- A row of `users`, with its rows of `user_roles`.
pub record Account : Type 0 where
  pub email : Text
  pub password_hash : Option Text
  pub account_type : AccountType
  pub customer_id : Option ℕ
  pub active : Bool
  pub roles : List Role

pub record Session : Type 0 where
  pub user_id : ℕ
  pub expires_at : ℕ
  pub last_seen_at : ℕ
  pub revoked_at : Option ℕ
  pub mfa_verified_at : Option ℕ

pub data Scope : Type 0 where
  by_email by_ip : Scope

pub record Failure : Type 0 where
  pub scope : Scope
  pub scope_key : Text
  pub failed_at : ℕ

pub data Purpose : Type 0 where
  invitation password_reset : Purpose

pub record AccountToken : Type 0 where
  pub user_id : ℕ
  pub purpose : Purpose
  pub expires_at : ℕ
  pub consumed_at : Option ℕ
  pub revoked_at : Option ℕ

pub record Credential : Type 0 where
  pub encrypted_secret : Option Text
  pub enrollment_session_hash : Option Text
  pub enrollment_expires_at : Option ℕ
  pub confirmed_at : Option ℕ
  pub last_time_step : Option ℕ
  pub failed_attempts : ℕ
  pub locked_until : Option ℕ

pub record RecoveryCode : Type 0 where
  pub user_id : ℕ
  pub code_hash : Text
  pub consumed_at : Option ℕ

pub data Event : Type 0 where
  failed enrolled confirmed verified recovered recovery_codes_regenerated reset : Event
  invitation_issued password_reset_issued invitation_accepted password_reset_completed mfa_reset :
      Event

pub record StatusChange : Type 0 where
  pub user_id : ℕ
  pub changed_by : ℕ
  pub active : Bool
  pub reason : Text

pub record DeviceReset : Type 0 where
  pub user_id : ℕ
  pub reset_by : ℕ
  pub reason : Text

-- The tables. Sessions and tokens are found by the digest of the secret that their holder has.
pub record Accounts : Type 0 where
  pub next_id : ℕ
  pub now : ℕ
  pub customers : Table ℕ Bool
  pub users : Table ℕ Account
  pub sessions : Table Text Session
  pub login_failures : List Failure
  pub account_tokens : Table Text AccountToken
  pub mfa_credentials : Table ℕ Credential
  pub mfa_recovery_codes : List RecoveryCode
  pub mfa_events : List (ℕ × Event)
  pub identity_events : List (ℕ × ℕ × Event)
  pub status_changes : Table ℕ StatusChange
  pub device_resets : Table ℕ DeviceReset
  -- The answers of `mfa.reset`: which account was reset, by actor and request.
  pub mfa_resets : Table (ℕ × ℕ) ℕ

-- A transaction gives an answer and new tables, or an exception. The answer may be an exception, too,
-- where the code commits before it throws.
abbrev pub Act : Type 0 → Type 0
Act A = Accounts → Result (A × Accounts)

infixl 5 ◌>>=◌ ◌>>◌
abbrev pub ◌>>=◌ : {A B : Type 0} → Act A → (A → Act B) → Act B
◌>>=◌ m f s = elim (m s) [ ok (a, s') ↦ f a s' | err e ↦ err e ]

abbrev pub ◌>>◌ : {A B : Type 0} → Act A → Act B → Act B
m >> k = m >>= λ _. k

module _ {A : Type 0} where
  abbrev pub pure : A → Act A
  pure a s = ok (a, s)

  abbrev pub throw : Error → Act A
  throw e s = err e

  abbrev pub read : (Accounts → A) → Act A
  read f s = ok (f s, s)

  abbrev pub or_throw : Option A → Error → Act A
  or_throw none e = throw e
  or_throw (some a) e = pure a

abbrev pub throw_if : Bool → Error → Act (Unit {0})
throw_if true e = throw e
throw_if false e = pure tt

abbrev pub write : (Accounts → Accounts) → Act (Unit {0})
write f s = ok (tt, f s)

-- `BEGIN`, the work, and `COMMIT`; or `ROLLBACK` and the exception.
abbrev pub settle_with :
    {A : Type 0} → (Error → Error) → Accounts → Result (A × Accounts) → Result A × Accounts
settle_with as_error s (ok (a, s')) = (ok a, s')
settle_with as_error s (err e) = (err (as_error e), s)

abbrev pub committed : {A : Type 0} → Result (Result A) × Accounts → Result A × Accounts
committed (ok r, s) = (r, s)
committed (err e, s) = (err e, s)

abbrev pub is_some_time : Option ℕ → Bool
is_some_time t = is_some t

-- `revoked_at IS NULL AND expires_at>now() AND last_seen_at>now()-interval '2 hours'`
unfoldable pub is_live : ℕ → Session → Bool
is_live now x =
    not (is_some x.revoked_at) && ltb now x.expires_at && ltb now (x.last_seen_at + 7200)

abbrev pub revoke : ℕ → Session → Session
revoke now x = record x { revoked_at = elim x.revoked_at [ none ↦ some now | some t ↦ some t ] }

-- `UPDATE sessions SET revoked_at=now() WHERE user_id=$1 AND revoked_at IS NULL`
unfoldable pub revoke_all : ℕ → ℕ → Table Text Session → Table Text Session
revoke_all user now [] = []
revoke_all user now ((h, x) ∷ t) =
    (h, if x.user_id == user then revoke now x else x) ∷ revoke_all user now t

abbrev pub is_internal : AccountType → Bool
is_internal internal = true
is_internal customer = false

abbrev pub has_system : Role → Bool
has_system system = true
has_system _ = false

-- `administrator`: an active internal account with the system role, whose session is live and has its
-- second factor.
abbrev pub administers : Session → Option Account → Bool
unfolding any
administers x none = false
administers x (some u) =
    u.active && is_internal u.account_type && any has_system u.roles && is_some x.mfa_verified_at

unfoldable pub administrator_of : Option Session → Accounts → Option ℕ
unfolding is_live any
administrator_of none s = none
administrator_of (some x) s =
    if is_live s.now x && administers x (lookup x.user_id s.users) then some x.user_id else none

unfoldable pub administrator : Text → Act ℕ
unfolding administrator_of
administrator hash = do
  found ← read (λ s. administrator_of (lookup hash s.sessions) s)
  or_throw found (forbidden "System role and MFA required")

-- A customer's account needs its customer to be active.
unfoldable pub has_active_customer : Option ℕ → Accounts → Bool
has_active_customer none s = true
has_active_customer (some c) s = elim (lookup c s.customers) [ none ↦ false | some active ↦ active ]
