-- ===== src/Identity/Reset.antt =====
-- `resetByAdministrator` of apps/api/src/identity/mfa.service.ts, and the calls of all identity
-- services as one type.
use b2b_stm.Prelude.{
  ℕ, suc, Bool, false, ◌||◌, not, Option, none, some, ◌∷◌, filter, is_some, ltb, ◌==◌, nat_eq,
  pair_eq, if◌then◌else◌,
}
use b2b_stm.Text.{Text, text_eq, uuid_test, uuid_value}
use b2b_stm.Json.{Json, get, string}
use b2b_stm.Table.{lookup, modify, insert}
use b2b_stm.Tx.{Result, err, bad_request, conflict, not_found}
use b2b_stm.Identity.{
  Crypto, Accounts, Credential, Event, Purpose, Act, ◌>>=◌, ◌>>◌, pure, read, write, throw_if,
  or_throw, settle_with, administrator, revoke_all,
}
use b2b_stm.Identity.Tokens.{if_active, is_own}
use b2b_stm.Identity.Requests.{text_value, character_count, invite, reissue, complete, set_status}
use b2b_stm.Identity.Login.{login, logout}
use b2b_stm.Identity.Guard.{session_guard}
use b2b_stm.Identity.Mfa.{MfaAction, Drawn, blank, execute_mfa, mfa_error}

abbrev pub is_enrolled : Option Credential → Bool
is_enrolled none = false
is_enrolled (some c) = is_some c.confirmed_at

-- The writes of a reset: the factor and its recovery codes are gone, and the sessions of the account end.
unfoldable pub forget_factor : ℕ → ℕ → ℕ → Text → Accounts → Accounts
unfolding revoke_all filter
forget_factor actor user request reason s = record s {
  next_id = suc s.next_id;
  mfa_credentials = modify user (λ _. blank) s.mfa_credentials;
  mfa_recovery_codes = filter (λ r. not (r.user_id == user)) s.mfa_recovery_codes;
  sessions = revoke_all user s.now s.sessions;
  device_resets =
      insert s.next_id (record { user_id = user; reset_by = actor; reason = reason })
        s.device_resets;
  mfa_events = (user, Event.reset) ∷ s.mfa_events;
  identity_events = (user, actor, Event.mfa_reset) ∷ s.identity_events;
  mfa_resets = insert (actor, request) user s.mfa_resets;
}

abbrev pub reset_unless : ℕ → ℕ → ℕ → Text → Option ℕ → Act ℕ
unfolding forget_factor lookup
reset_unless actor user request reason (some answer) = pure answer
reset_unless actor user request reason none = do
  found ← read (λ s. if_active (lookup user s.users))
  u ← or_throw found (not_found "Account unavailable")
  credential ← read (λ s. lookup user s.mfa_credentials)
  throw_if (not (is_enrolled credential)) (conflict "MFA is not enrolled")
  write (forget_factor actor user request reason)
  pure user

-- The transaction; its answer is the account that was reset.
unfoldable pub reset_mfa_work : Text → Text → ℕ → Text → Act ℕ
unfolding administrator is_own uuid_value forget_factor lookup
reset_mfa_work session user request reason = do
  actor ← administrator session
  throw_if (is_own actor user) (conflict "Administrator cannot reset own MFA")
  existing ← read (λ s. lookup (actor, request) s.mfa_resets)
  reset_unless actor (uuid_value user) request reason existing

abbrev pub bad_reset_reason : Text → Bool
unfolding character_count
bad_reset_reason reason = ltb (character_count reason) 4 || ltb 300 (character_count reason)

module _ (crypto : Crypto) where
  -- `resetByAdministrator`
  unfoldable pub reset_mfa : Text → Text → Json → Accounts → Result ℕ × Accounts
  unfolding reset_mfa_work character_count
  reset_mfa session user body s =
      let request = text_value (get "requestId" body) in
      let reason = string (get "reason" body) in
      if not (uuid_test user) || not (uuid_test request) || bad_reset_reason reason
      then (err (bad_request "Invalid MFA reset request"), s)
      else settle_with (mfa_error crypto) s
          (reset_mfa_work (crypto.digest session) user (uuid_value request) reason s)

-- A call of one of the identity services, with what it draws, at some time.
pub data IdentityCall : Type 0 where
  login_call : (email password ip token : Text) → IdentityCall
  logout_call : (token : Text) → IdentityCall
  visit_call : (cookie : Text) → IdentityCall
  invite_call : (session : Text) (body : Json) (token : Text) → IdentityCall
  reissue_call : (session user : Text) (purpose : Purpose) (token : Text) → IdentityCall
  complete_call : (body : Json) (purpose : Purpose) → IdentityCall
  status_call : (session user : Text) (body : Json) → IdentityCall
  mfa_call :
      (configured : Bool) (token : Text) (action : MfaAction) (body : Json) (drawn : Drawn)
      → IdentityCall
  reset_call : (session user : Text) (body : Json) → IdentityCall

module _ (crypto : Crypto) where
  -- What the call leaves.
  abbrev pub run_identity : IdentityCall → Accounts → Accounts
  unfolding login logout session_guard invite reissue complete set_status execute_mfa reset_mfa
  run_identity (login_call email password ip token) s = (login crypto email password ip token s).1
  run_identity (logout_call token) s = logout crypto token s
  run_identity (visit_call cookie) s = (session_guard crypto cookie s).1
  run_identity (invite_call session body token) s = (invite crypto session body token s).1
  run_identity (reissue_call session user purpose token) s =
      (reissue crypto session user purpose token s).1
  run_identity (complete_call body purpose) s = (complete crypto body purpose s).1
  run_identity (status_call session user body) s = (set_status crypto session user body s).1
  run_identity (mfa_call configured token action body drawn) s =
      (execute_mfa crypto configured token action body drawn s).1
  run_identity (reset_call session user body) s = (reset_mfa crypto session user body s).1
