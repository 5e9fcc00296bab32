-- ===== src/Identity/Tokens.antt =====
-- The lifecycle of accounts: apps/api/src/identity/account-lifecycle.service.ts. The mail that carries
-- a token is sent after the transaction.
use b2b_stm.Prelude.{
  ℕ, suc, ◌+◌, Bool, true, false, ◌&&◌, not, Option, none, some, List, [], ◌∷◌, any, is_some, ltb,
  ◌==◌, nat_eq, if◌then◌else◌,
}
use b2b_stm.Text.{Text, text_eq, uuid_value, is_canonical}
use b2b_stm.Table.{Table, lookup, modify, insert}
use b2b_stm.Tx.{Result, ok, err, bad_request, conflict, not_found}
use b2b_stm.Identity.{
  Accounts, Account, AccountType, Role, AccountToken, Purpose, invitation, password_reset, Event,
  StatusChange, Act, ◌>>=◌, ◌>>◌, pure, throw, read, write, throw_if, or_throw, administrator,
  has_active_customer, revoke_all,
}

-- A token that can still be used, but for its time.
abbrev pub is_open : AccountToken → Bool
is_open t = not (is_some t.consumed_at) && not (is_some t.revoked_at)

abbrev pub same_purpose : Purpose → Purpose → Bool
same_purpose invitation invitation = true
same_purpose password_reset password_reset = true
same_purpose _ _ = false

abbrev pub revoke_token : ℕ → AccountToken → AccountToken
revoke_token now t = record t { revoked_at = some now }

-- `UPDATE account_tokens SET revoked_at=now() WHERE user_id=$1 AND consumed_at IS NULL AND revoked_at IS NULL`
unfoldable pub revoke_tokens : ℕ → ℕ → Table Text AccountToken → Table Text AccountToken
revoke_tokens user now [] = []
revoke_tokens user now ((h, t) ∷ ts) =
    (h, if t.user_id == user && is_open t then revoke_token now t else t)
    ∷ revoke_tokens user now ts

abbrev pub lifetime : Purpose → ℕ
lifetime invitation = 86400
lifetime password_reset = 1800

abbrev pub issued_event : Purpose → Event
issued_event invitation = Event.invitation_issued
issued_event password_reset = Event.password_reset_issued

abbrev pub new_token : ℕ → Purpose → ℕ → AccountToken
new_token user purpose now = record {
  user_id = user;
  purpose = purpose;
  expires_at = now + lifetime purpose;
  consumed_at = none;
  revoked_at = none;
}

-- The writes of `issue`, for a token with this digest.
unfoldable pub issue_token : Text → ℕ → ℕ → Purpose → Accounts → Accounts
unfolding revoke_tokens
issue_token hash user actor purpose s = record s {
  account_tokens =
      insert hash (new_token user purpose s.now) (revoke_tokens user s.now s.account_tokens);
  identity_events = (user, actor, issued_event purpose) ∷ s.identity_events;
}

pub record Issued : Type 0 where
  pub user_id : ℕ
  pub token : Text
  pub expires_at : ℕ
  pub recipient : Text
  pub purpose : Purpose

-- `issue`
unfoldable pub issue : Text → Text → ℕ → ℕ → Text → Purpose → Act Issued
unfolding issue_token
issue hash token user actor recipient purpose = do
  taken ← read (λ s. is_some (lookup hash s.account_tokens))
  throw_if taken (conflict "Account already exists")
  now ← read (λ s. s.now)
  write (issue_token hash user actor purpose)
  pure (record {
    user_id = user;
    token = token;
    expires_at = now + lifetime purpose;
    recipient = recipient;
    purpose = purpose;
  })

-- `activeCustomer`
unfoldable pub active_customer : Option ℕ → Act (Unit {0})
unfolding has_active_customer
active_customer c = do
  active ← read (has_active_customer c)
  throw_if (not active) (bad_request "Customer unavailable")

-- An invitation that has passed its check.
pub record Invitation : Type 0 where
  pub email : Text
  pub account_type : AccountType
  pub customer_id : Option ℕ
  pub roles : List Role

abbrev pub email_taken : Text → Table ℕ Account → Bool
unfolding any
email_taken email users = any (λ u. u.1.email == email) users

abbrev pub new_account : Invitation → Account
new_account i = record {
  email = i.email;
  password_hash = none;
  account_type = i.account_type;
  customer_id = i.customer_id;
  active = true;
  roles = i.roles;
}

abbrev pub insert_account : ℕ → Invitation → Accounts → Accounts
insert_account id i s = record s {
  next_id = suc s.next_id;
  users = insert id (new_account i) s.users;
}

-- What a check of the body gives inside a transaction.
abbrev pub checked : {A : Type 0} → Result A → Act A
checked (ok a) = pure a
checked (err e) = throw e

-- The transaction of `invite`.
unfoldable pub invite_work : Text → Text → Text → Result Invitation → Act Issued
unfolding administrator active_customer issue any
invite_work session hash token body = do
  actor ← administrator session
  i ← checked body
  active_customer i.customer_id
  taken ← read (λ s. email_taken i.email s.users)
  throw_if taken (conflict "Account already exists")
  id ← read (λ s. s.next_id)
  write (insert_account id i)
  issue hash token id actor i.email invitation

abbrev pub has_password : Account → Bool
has_password u = is_some u.password_hash

-- `(purpose === 'invitation') !== (user.password_hash === null)`
abbrev pub wrong_purpose : Purpose → Account → Bool
wrong_purpose invitation u = has_password u
wrong_purpose password_reset u = not (has_password u)

abbrev pub if_active : Option Account → Option Account
if_active none = none
if_active (some u) = if u.active then some u else none

-- The transaction of `reissue`.
unfoldable pub reissue_work : Text → Text → Text → ℕ → Purpose → Act Issued
unfolding administrator active_customer issue
reissue_work session hash token user purpose = do
  actor ← administrator session
  found ← read (λ s. if_active (lookup user s.users))
  u ← or_throw found (not_found "Account unavailable")
  throw_if (wrong_purpose purpose u) (conflict "Account state does not match token purpose")
  active_customer u.customer_id
  issue hash token user actor u.email purpose

-- A token that is there for this purpose, open and not yet expired.
abbrev pub usable : ℕ → Purpose → Option AccountToken → Option AccountToken
usable now purpose none = none
usable now purpose (some t) =
    if same_purpose t.purpose purpose && is_open t && ltb now t.expires_at then some t else none

abbrev pub consume : ℕ → AccountToken → AccountToken
consume now t = record t { consumed_at = some now }

abbrev pub completed_event : Purpose → Event
completed_event invitation = Event.invitation_accepted
completed_event password_reset = Event.password_reset_completed

-- The writes of `complete`: the token is consumed, the password is set, and the sessions and the other
-- tokens of the account end.
unfoldable pub set_password : Text → ℕ → Text → Purpose → Accounts → Accounts
unfolding revoke_all revoke_tokens
set_password hash user password_hash purpose s = record s {
  account_tokens = revoke_tokens user s.now (modify hash (consume s.now) s.account_tokens);
  users = modify user (λ u. record u { password_hash = some password_hash }) s.users;
  sessions = revoke_all user s.now s.sessions;
  identity_events = (user, user, completed_event purpose) ∷ s.identity_events;
}

-- The transaction of `complete`, for the account of the token that was found before it.
unfoldable pub complete_work : Text → Text → Purpose → ℕ → Act (Unit {0})
unfolding active_customer set_password
complete_work hash password_hash purpose user = do
  found ← read (λ s. if_active (lookup user s.users))
  u ← or_throw found (bad_request "Invalid or expired token")
  throw_if (wrong_purpose purpose u) (bad_request "Invalid or expired token")
  active_customer u.customer_id
  token ← read (λ s. usable s.now purpose (lookup hash s.account_tokens))
  consumed ← or_throw token (bad_request "Invalid or expired token")
  write (set_password hash user password_hash purpose)

abbrev pub status_change : ℕ → ℕ → Bool → Text → StatusChange
status_change user actor active reason = record {
  user_id = user;
  changed_by = actor;
  active = active;
  reason = reason;
}

abbrev pub set_active : Bool → Account → Account
set_active active u = record u { active = active }

-- The sessions and tokens of an account that is switched off end.
abbrev pub end_access : Bool → ℕ → Accounts → Accounts
unfolding revoke_all revoke_tokens
end_access true user s = s
end_access false user s = record s {
  sessions = revoke_all user s.now s.sessions;
  account_tokens = revoke_tokens user s.now s.account_tokens;
}

abbrev pub log_status : ℕ → ℕ → Bool → Text → Accounts → Accounts
log_status user actor active reason s = record s {
  next_id = suc s.next_id;
  status_changes = insert s.next_id (status_change user actor active reason) s.status_changes;
}

abbrev pub customer_for : Bool → Option ℕ → Option ℕ
customer_for true c = c
customer_for false c = none

abbrev pub same_bool : Bool → Bool → Bool
same_bool true b = b
same_bool false b = not b

unfoldable pub write_status : ℕ → ℕ → Bool → Text → Account → Act Bool
unfolding active_customer revoke_all revoke_tokens
write_status actor user active reason u = do
  active_customer (customer_for active u.customer_id)
  write (λ s. record s { users = modify user (set_active active) s.users })
  write (end_access active user)
  write (log_status user actor active reason)
  pure true

abbrev pub change_status : ℕ → ℕ → Bool → Text → Account → Act Bool
unfolding write_status
change_status actor user active reason u =
    if same_bool u.active active then pure false else write_status actor user active reason u

-- `actor === userId`: the text is the one that the database prints for the actor.
unfoldable pub is_own : ℕ → Text → Bool
unfolding uuid_value is_canonical
is_own actor user = actor == uuid_value user && is_canonical user

-- The transaction of `setStatus`; the answer says whether anything changed.
unfoldable pub set_status_work : Text → Text → Bool → Text → Act Bool
unfolding administrator is_own uuid_value write_status
set_status_work session user active reason = do
  actor ← administrator session
  throw_if (is_own actor user) (conflict "Cannot change your own account status")
  found ← read (λ s. lookup (uuid_value user) s.users)
  u ← or_throw found (not_found "Account unavailable")
  change_status actor (uuid_value user) active reason u
