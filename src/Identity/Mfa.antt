-- ===== src/Identity/Mfa.antt =====
-- Second factors: `execute_mfa` of apps/api/src/identity/mfa.service.ts. The secret and the recovery codes
-- that it draws are arguments, and drawn recovery codes are new.
use b2b_stm.Prelude.{
  ℕ, ◌+◌, Bool, false, ◌&&◌, ◌||◌, not, Option, none, some, List, ◌∷◌, ◌++◌, map, any, filter,
  length, is_some, leb, ltb, ◌==◌, nat_eq, if◌then◌else◌,
}
use b2b_stm.Text.{Text, text_eq, is_digit}
use b2b_stm.Json.{Json, str, get}
use b2b_stm.Table.{lookup, modify, upsert}
use b2b_stm.Tx.{
  Error, Result, ok, err, bad_request, conflict, unauthorized, too_many_requests,
  service_unavailable, http_error,
}
use b2b_stm.Identity.{
  Crypto, Accounts, Account, Session, Credential, RecoveryCode, Event, is_live, has_active_customer,
  settle_with, committed,
}
use b2b_stm.Identity.Password.{verify_password}
use b2b_stm.Identity.Guard.{is_token_digit}

-- `Action`
pub data MfaAction : Type 0 where
  enroll confirm verify recover regenerate : MfaAction

pub data MfaAnswer : Type 0 where
  done : MfaAnswer
  enrollment : (secret : Text) → MfaAnswer
  recovery_codes : List Text → MfaAnswer

-- What the body gives: texts, or nothing.
pub record MfaInput : Type 0 where
  pub password : Option Text
  pub code : Option Text

-- What the operation draws.
pub record Drawn : Type 0 where
  pub secret : Text
  pub codes : List Text

abbrev pub blank : Credential
blank = record {
  encrypted_secret = none;
  enrollment_session_hash = none;
  enrollment_expires_at = none;
  confirmed_at = none;
  last_time_step = none;
  failed_attempts = 0;
  locked_until = none;
}

abbrev pub credential_of : ℕ → Accounts → Credential
unfolding lookup
credential_of user s = elim (lookup user s.mfa_credentials) [ none ↦ blank | some c ↦ c ]

-- The credential of the account, which a first use inserts.
abbrev pub put_credential : ℕ → Credential → Accounts → Accounts
unfolding upsert
put_credential user c s = record s { mfa_credentials = upsert user c (λ _. c) s.mfa_credentials }

abbrev pub later_than : ℕ → Option ℕ → Bool
later_than now none = false
later_than now (some t) = ltb now t

-- The update of `fail`: the fifth failure locks for fifteen minutes, and the first one after a lock
-- counts from one again.
unfoldable pub count_failure : ℕ → Credential → Credential
count_failure now c = record c {
  failed_attempts = if is_some c.locked_until then 1 else c.failed_attempts + 1;
  locked_until =
      if not (is_some c.locked_until) && leb 4 c.failed_attempts then some (now + 900) else none;
}

abbrev pub log_event : ℕ → Event → Accounts → Accounts
log_event user event s = record s { mfa_events = (user, event) ∷ s.mfa_events }

abbrev pub Outcome : Type 0
Outcome = Result (Result MfaAnswer × Accounts)

-- `fail`
unfoldable pub fail : ℕ → Credential → Accounts → Outcome
unfolding count_failure
fail user c s = ok (
  err (unauthorized "Invalid MFA credentials"),
  log_event user Event.failed (put_credential user (count_failure s.now c) s),
)

abbrev pub mark_verified : ℕ → Session → Session
mark_verified now x = record x { mfa_verified_at = some now }

abbrev pub cleared : Credential → Credential
cleared c = record c { failed_attempts = 0; locked_until = none }

-- The end of a successful action other than enrolling.
unfoldable pub succeed : Text → ℕ → Event → MfaAnswer → Credential → Accounts → Outcome
succeed hash user event answer c s = ok (
  ok answer,
  log_event user event (
      put_credential user (cleared c)
        (record s { sessions = modify hash (mark_verified s.now) s.sessions })),
)

abbrev pub is_six_digits : Text → Bool
unfolding any is_digit
is_six_digits s = length s == 6 && not (any (λ c. not (is_digit c)) s)

abbrev pub is_recovery_code : Text → Bool
unfolding any is_digit
is_recovery_code s = length s == 32 && not (any (λ c. not (is_token_digit c)) s)

abbrev pub is_usable_code : ℕ → Text → RecoveryCode → Bool
is_usable_code user hash r = r.user_id == user && r.code_hash == hash && not (is_some r.consumed_at)

abbrev pub use_code : ℕ → Text → ℕ → RecoveryCode → RecoveryCode
use_code user hash now r =
    if is_usable_code user hash r then record r { consumed_at = some now } else r

abbrev pub use_codes : ℕ → Text → Accounts → Accounts
use_codes user hash s = record s {
  mfa_recovery_codes = map (use_code user hash s.now) s.mfa_recovery_codes;
}

module _ (crypto : Crypto) where
  abbrev pub password_matches : Option Text → Account → Bool
  unfolding verify_password
  password_matches none u = false
  password_matches (some p) u = not (ltb 512 (length p)) && verify_password crypto p u.password_hash

  -- The time step of a code of six digits, where it is valid for the sealed secret.
  abbrev pub step_for : ℕ → Credential → Option Text → Option Text → Option ℕ
  unfolding any is_digit
  step_for user c none code = none
  step_for user c (some sealed) none = none
  step_for user c (some sealed) (some code) =
      if is_six_digits code
      then crypto.totp (crypto.unseal sealed user) code c.last_time_step
      else none

  unfoldable pub code_step : ℕ → Credential → Option Text → Option ℕ
  unfolding any is_digit
  code_step user c code = step_for user c c.encrypted_secret code

  abbrev pub new_code : ℕ → Text → RecoveryCode
  new_code user code = record { user_id = user; code_hash = crypto.digest code; consumed_at = none }

  abbrev pub add_codes : ℕ → List Text → Accounts → Accounts
  add_codes user codes s = record s {
    mfa_recovery_codes = map (new_code user) codes ++ s.mfa_recovery_codes;
  }

  abbrev pub drop_codes : ℕ → Accounts → Accounts
  unfolding filter
  drop_codes user s = record s {
    mfa_recovery_codes = filter (λ r. not (r.user_id == user)) s.mfa_recovery_codes;
  }

  abbrev pub set_step : ℕ → Credential → Credential
  set_step step c = record c { last_time_step = some step }

  abbrev pub enrolling : ℕ → Text → Text → ℕ → Credential → Credential
  enrolling user hash secret now c = record c {
    encrypted_secret = some (crypto.seal secret user);
    enrollment_session_hash = some hash;
    enrollment_expires_at = some (now + 600);
    last_time_step = none;
    failed_attempts = 0;
    locked_until = none;
  }

  unfoldable pub do_enroll : Text → ℕ → Account → MfaInput → Drawn → Credential → Accounts → Outcome
  unfolding fail verify_password
  do_enroll hash user u input drawn c s =
      if is_some c.confirmed_at
      then err (conflict "MFA already enrolled")
      else if not (password_matches input.password u)
      then fail user c s
      else ok (
        ok (enrollment drawn.secret),
        log_event user Event.enrolled
            (put_credential user (enrolling user hash drawn.secret s.now c) s),
      )

  abbrev pub same_hash : Text → Option Text → Bool
  same_hash hash none = false
  same_hash hash (some h) = h == hash

  abbrev pub confirm_factor : ℕ → Credential → Credential
  confirm_factor now c = record c {
    confirmed_at = some now;
    enrollment_session_hash = none;
    enrollment_expires_at = none;
  }

  abbrev pub confirm_with : Text → ℕ → Drawn → Credential → Accounts → Option ℕ → Outcome
  unfolding fail succeed
  confirm_with hash user drawn c s none = fail user c s
  confirm_with hash user drawn c s (some step) =
      succeed hash user Event.confirmed (recovery_codes drawn.codes)
        (confirm_factor s.now (set_step step c)) (add_codes user drawn.codes s)

  unfoldable pub do_confirm : Text → ℕ → MfaInput → Drawn → Credential → Accounts → Outcome
  unfolding code_step fail succeed
  do_confirm hash user input drawn c s =
      if is_some c.confirmed_at
        || not (later_than s.now c.enrollment_expires_at)
        || not (same_hash hash c.enrollment_session_hash)
      then err (bad_request "Enrollment unavailable")
      else confirm_with hash user drawn c s (code_step user c input.code)

  abbrev pub verify_with : Text → ℕ → Credential → Accounts → Option ℕ → Outcome
  unfolding fail succeed
  verify_with hash user c s none = fail user c s
  verify_with hash user c s (some step) = succeed hash user Event.verified done (set_step step c) s

  unfoldable pub do_verify : Text → ℕ → MfaInput → Credential → Accounts → Outcome
  unfolding code_step fail succeed
  do_verify hash user input c s = verify_with hash user c s (code_step user c input.code)

  abbrev pub recover_with : Text → ℕ → Credential → Accounts → Option Text → Outcome
  unfolding any is_digit fail succeed
  recover_with hash user c s none = fail user c s
  recover_with hash user c s (some code) =
      if is_recovery_code code
        && any (is_usable_code user (crypto.digest code)) s.mfa_recovery_codes
      then succeed hash user Event.recovered done c (use_codes user (crypto.digest code) s)
      else fail user c s

  unfoldable pub do_recover : Text → ℕ → MfaInput → Credential → Accounts → Outcome
  unfolding any is_digit fail succeed
  do_recover hash user input c s = recover_with hash user c s input.code

  abbrev pub regenerate_with : Text → ℕ → Drawn → Credential → Accounts → Option ℕ → Outcome
  unfolding filter fail succeed
  regenerate_with hash user drawn c s none = fail user c s
  regenerate_with hash user drawn c s (some step) =
      succeed hash user Event.recovery_codes_regenerated (recovery_codes drawn.codes)
        (set_step step c) (add_codes user drawn.codes (drop_codes user s))

  unfoldable pub do_regenerate :
      Text → ℕ → Account → Session → MfaInput → Drawn → Credential → Accounts → Outcome
  unfolding code_step filter fail succeed verify_password
  do_regenerate hash user u x input drawn c s =
      if not (is_some x.mfa_verified_at) || not (password_matches input.password u)
      then fail user c s
      else regenerate_with hash user drawn c s (code_step user c input.code)

  abbrev pub if_enrolled : Credential → Outcome → Outcome
  if_enrolled c outcome =
      if is_some c.confirmed_at then outcome else err (bad_request "MFA not enrolled")

  unfoldable pub act :
      MfaAction → Text → ℕ → Account → Session → MfaInput → Drawn → Credential → Accounts → Outcome
  unfolding do_enroll do_confirm do_verify do_recover do_regenerate
  act enroll hash user u x input drawn c s = do_enroll hash user u input drawn c s
  act confirm hash user u x input drawn c s = do_confirm hash user input drawn c s
  act verify hash user u x input drawn c s = if_enrolled c (do_verify hash user input c s)
  act recover hash user u x input drawn c s = if_enrolled c (do_recover hash user input c s)
  act regenerate hash user u x input drawn c s =
      if_enrolled c (do_regenerate hash user u x input drawn c s)

  -- The account of a session, where it may act.
  abbrev pub act_as :
      MfaAction → Text → Session → MfaInput → Drawn → Accounts → Option Account → Outcome
  unfolding is_live has_active_customer act lookup
  act_as action hash x input drawn s none = err (unauthorized "Unauthorized")
  act_as action hash x input drawn s (some u) =
      if not (u.active && is_live s.now x && has_active_customer u.customer_id s)
      then err (unauthorized "Unauthorized")
      else if later_than s.now (credential_of x.user_id s).locked_until
      then err (too_many_requests "Too many MFA attempts")
      else act action hash x.user_id u x input drawn (credential_of x.user_id s) s

  abbrev pub act_for : MfaAction → Text → MfaInput → Drawn → Accounts → Option Session → Outcome
  unfolding is_live has_active_customer act lookup
  act_for action hash input drawn s none = err (unauthorized "Unauthorized")
  act_for action hash input drawn s (some x) =
      act_as action hash x input drawn s (lookup x.user_id s.users)

  -- The transaction of `execute_mfa`.
  unfoldable pub execute_work : MfaAction → Text → MfaInput → Drawn → Accounts → Outcome
  unfolding is_live has_active_customer act lookup
  execute_work action hash input drawn s =
      act_for action hash input drawn s (lookup hash s.sessions)

  abbrev pub text_of : Json → Option Text
  text_of (str s) = some s
  text_of _ = none

  abbrev pub mfa_error : Error → Error
  mfa_error e = http_error "MFA unavailable" e

  -- `execute_mfa`; `configured` says whether there is a key for the secrets.
  unfoldable pub execute_mfa :
      Bool → Text → MfaAction → Json → Drawn → Accounts → Result MfaAnswer × Accounts
  unfolding execute_work get
  execute_mfa configured token action body drawn s =
      if not configured
      then (err (service_unavailable "MFA encryption key is not configured"), s)
      else committed (
          settle_with mfa_error s (
            execute_work action (crypto.digest token)
              (record {
                password = text_of (get "password" body);
                code = text_of (get "code" body);
              })
              drawn s))
