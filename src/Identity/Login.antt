-- ===== src/Identity/Login.antt =====
-- `login` of apps/api/src/identity/password-login.service.ts, and login and logout of
-- identity.controller.ts.
use b2b_stm.Prelude.{
  ℕ, ◌+◌, Bool, true, false, ◌&&◌, ◌||◌, not, Option, none, some, [], ◌∷◌, filter, length, is_some,
  ltb, leb, ◌==◌, nat_eq, if◌then◌else◌,
}
use b2b_stm.Text.{Text, text_eq, trim}
use b2b_stm.Json.{Json, str, get}
use b2b_stm.Table.{Table, lookup, modify, insert}
use b2b_stm.Tx.{Error, Result, ok, err, forbidden, unauthorized, too_many_requests, fault}
use b2b_stm.Identity.{
  Crypto, Accounts, Account, Session, Scope, by_email, by_ip, Failure, settle_with, committed,
  revoke_all,
}
use b2b_stm.Identity.Password.{verify_password}

abbrev pub maximum_failures : ℕ
maximum_failures = 5

-- `failureWindow`, in seconds
abbrev pub failure_window : ℕ
failure_window = 900

abbrev pub same_scope : Scope → Scope → Bool
same_scope by_email by_email = true
same_scope by_ip by_ip = true
same_scope _ _ = false

abbrev pub counts : ℕ → Scope → Text → Failure → Bool
counts now scope key f =
    same_scope f.scope scope && f.scope_key == key && ltb now (f.failed_at + failure_window)

-- The failures of a key in the window.
unfoldable pub failures : Scope → Text → Accounts → ℕ
unfolding filter
failures scope key s = length (filter (counts s.now scope key) s.login_failures)

-- `isBlocked`
unfoldable pub is_blocked : Text → Text → Accounts → Bool
unfolding failures
is_blocked email_key ip_key s =
    leb maximum_failures (failures by_email email_key s)
    || leb maximum_failures (failures by_ip ip_key s)

-- `SELECT id, password_hash FROM users WHERE email=$1 AND active=true`
unfoldable pub active_user : Text → Table ℕ Account → Option (ℕ × Account)
active_user email [] = none
active_user email (u ∷ us) =
    if u.1.email == email && u.1.active then some u else active_user email us

abbrev pub record_failures : Text → Text → Accounts → Accounts
record_failures email_key ip_key s = record s {
  login_failures =
      record { scope = by_email; scope_key = email_key; failed_at = s.now }
      ∷ record { scope = by_ip; scope_key = ip_key; failed_at = s.now }
      ∷ s.login_failures;
}

abbrev pub is_of_email : Text → Failure → Bool
is_of_email key f = same_scope f.scope by_email && f.scope_key == key

abbrev pub new_session : ℕ → ℕ → Session
new_session user now = record {
  user_id = user;
  expires_at = now + 43200;
  last_seen_at = now;
  revoked_at = none;
  mfa_verified_at = none;
}

-- The failures of the email are forgotten, the sessions of the user end, and a new one starts.
unfoldable pub open_session : Text → Text → ℕ → Accounts → Accounts
unfolding filter
open_session email_key hash user s = record s {
  login_failures = filter (λ f. not (is_of_email email_key f)) s.login_failures;
  sessions = insert hash (new_session user s.now) (revoke_all user s.now s.sessions);
}

module _ (crypto : Crypto) where
  abbrev pub matches_user : Text → Option (ℕ × Account) → Bool
  matches_user password none = false
  matches_user password (some u) = verify_password crypto password u.1.password_hash

  abbrev pub user_id_of : Option (ℕ × Account) → ℕ
  user_id_of none = 0
  user_id_of (some u) = u.0

  -- The token's digest is the session's key in its table.
  unfoldable pub start_session : Text → Text → ℕ → Accounts → Result (Result Text × Accounts)
  unfolding open_session
  start_session email_key token user s =
      if is_some (lookup (crypto.digest token) s.sessions)
      then err (fault "duplicate key")
      else ok (ok token, open_session email_key (crypto.digest token) user s)

  abbrev pub try_password :
      Text → Text → Text → Text → Option (ℕ × Account) → Accounts → Result (Result Text × Accounts)
  try_password password token email_key ip_key found s =
      if matches_user password found
      then start_session email_key token (user_id_of found) s
      else ok (err (unauthorized "Invalid email or password"), record_failures email_key ip_key s)

  unfoldable pub login_work : Text → Text → Text → Text → Accounts → Result (Result Text × Accounts)
  unfolding active_user is_blocked start_session trim
  login_work email password ip token s =
      let normalized_email = crypto.lower (trim email) in
      let email_key = crypto.digest normalized_email in
      let ip_key = crypto.digest ip in
      if is_blocked email_key ip_key s
      then err (too_many_requests "Too many login attempts")
      else try_password password token email_key ip_key (active_user normalized_email s.users) s

  abbrev pub as_it_is : Error → Error
  as_it_is e = e

  -- `PasswordLoginService.login`, with the token that it draws.
  unfoldable pub login : Text → Text → Text → Text → Accounts → Result Text × Accounts
  unfolding login_work
  login email password ip token s =
      committed (settle_with as_it_is s (login_work email password ip token s))

  abbrev pub login_body : Json → Json → Text → Text → Accounts → Result Text × Accounts
  unfolding login trim
  login_body (str email) (str password) ip token s =
      if length (trim email) == 0 || length password == 0
      then (err (forbidden "Invalid email or password"), s)
      else login email password ip token s
  login_body _ _ ip token s = (err (forbidden "Invalid email or password"), s)

  -- `IdentityController.login`
  unfoldable pub login_request : Json → Text → Text → Accounts → Result Text × Accounts
  unfolding get login
  login_request body ip token s = login_body (get "email" body) (get "password" body) ip token s

  abbrev pub revoke_session : ℕ → Session → Session
  revoke_session now x = record x {
    revoked_at = elim x.revoked_at [ none ↦ some now | some t ↦ some t ];
  }

  -- `IdentityController.logout`
  unfoldable pub logout : Text → Accounts → Accounts
  logout token s = record s {
    sessions = modify (crypto.digest token) (revoke_session s.now) s.sessions;
  }
