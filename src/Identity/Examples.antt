-- ===== src/Identity/Examples.antt =====
-- The identity services on concrete accounts: a system administrator, and a customer's account.
use b2b_stm.Prelude.{
  ℕ, ◌≤◌, ◌≡◌, ◌≢◌, refl, true, false, none, some, [], ◌∷◌, filter, arith, nat_eq,
}
use b2b_stm.Text.{Text, text_eq, codes, trim, uuid_test, uuid_value}
use b2b_stm.Json.{Json, str, bool, obj, field, end, get, string}
use b2b_stm.Table.{lookup, modify}
use b2b_stm.Tx.{ok, err, bad_request, too_many_requests}
use b2b_stm.Identity.{
  Crypto, Accounts, Account, internal, customer, customer_role, system, Session, invitation,
  password_reset,
}
use b2b_stm.Identity.Password.{verify_password}
use b2b_stm.Identity.Login.{login, login_work, is_blocked, failures, active_user}
use b2b_stm.Identity.Lockout.{at_time, Failed, none_yet, one_more, login-locked}
use b2b_stm.Identity.Guard.{Principal, session_guard}
use b2b_stm.Identity.Requests.{complete, set_status}
use b2b_stm.Identity.Access.{open_sessions, open_tokens, IsLimited}
use b2b_stm.Identity.Reset.{login_call, complete_call, run_identity}
use b2b_stm.Identity.Run.{start, then_call, leads-IsLimited}
use b2b_stm.Identity.ShutOut.{status-shuts_out}
use b2b_stm.Identity.Once.{complete-once}

-- Digests that keep the text, and a password that is its own hash.
abbrev plain_crypto : Crypto
plain_crypto = record {
  digest = λ s. s;
  lower = λ s. s;
  argon2_verify = λ encoded password. some false;
  argon2_hash = λ s. s;
  scrypt = λ password salt. none;
  base64url = λ s. s;
  seal = λ secret user. secret;
  unseal = λ encoded user. encoded;
  totp = λ secret code step. none;
}

abbrev admin_account : Account
admin_account = record {
  email = codes "admin@shop.kr";
  password_hash = some (codes "$argon2id$x");
  account_type = internal;
  customer_id = none;
  active = true;
  roles = system ∷ [];
}

abbrev invited_account : Account
invited_account = record {
  email = codes "buyer@shop.kr";
  password_hash = none;
  account_type = customer;
  customer_id = some 7;
  active = true;
  roles = customer_role ∷ [];
}

abbrev admin_session : Session
admin_session = record {
  user_id = 1;
  expires_at = 50000;
  last_seen_at = 1000;
  revoked_at = none;
  mfa_verified_at = some 1000;
}

-- 64 hexadecimal digits.
abbrev the_token : Text
the_token = codes "0123456789abcdef0123456789abcdef0123456789abcdef0123456789abcdef"

abbrev admin_token : Text
admin_token = codes "fedcba9876543210fedcba9876543210fedcba9876543210fedcba9876543210"

abbrev buyer_text : Text
buyer_text = codes "00000000-0000-0000-0000-000000000002"

abbrev office : Accounts
office = record {
  next_id = 100;
  now = 2000;
  customers = (7, true) ∷ [];
  users = (1, admin_account) ∷ (2, invited_account) ∷ [];
  sessions = (admin_token, admin_session) ∷ [];
  login_failures = [];
  account_tokens =
      (
        the_token,
        record {
          user_id = 2;
          purpose = invitation;
          expires_at = 9000;
          consumed_at = none;
          revoked_at = none;
        },
      )
      ∷ [];
  mfa_credentials = [];
  mfa_recovery_codes = [];
  mfa_events = [];
  identity_events = [];
  status_changes = [];
  device_resets = [];
  mfa_resets = [];
}

-- Five failed logins, a minute apart.
abbrev fail_at : ℕ → Accounts → Accounts
unfolding login
fail_at now s =
    (login plain_crypto (codes " admin@shop.kr") (codes "guess") (codes "10.0.0.1") the_token
      (at_time now s)).1

abbrev failed_once : Accounts
unfolding login
failed_once = fail_at 2000 office

abbrev failed_twice : Accounts
unfolding login
failed_twice = fail_at 2060 failed_once

abbrev failed_thrice : Accounts
unfolding login
failed_thrice = fail_at 2120 failed_twice

abbrev failed_four_times : Accounts
unfolding login
failed_four_times = fail_at 2180 failed_thrice

abbrev failed_five_times : Accounts
unfolding login
failed_five_times = fail_at 2240 failed_four_times

first_failure : Failed plain_crypto (codes " admin@shop.kr") 2000 office 1 failed_once
unfolding login login_work is_blocked failures filter active_user trim verify_password
first_failure =
    one_more 0 2000 office failed_once (codes "guess") (codes "10.0.0.1") the_token none_yet
      (ground arith) refl

second_failure : Failed plain_crypto (codes " admin@shop.kr") 2000 office 2 failed_twice
unfolding login login_work is_blocked failures filter active_user trim verify_password
second_failure =
    one_more 1 2060 failed_once failed_twice (codes "guess") (codes "10.0.0.1") the_token
      first_failure (ground arith) refl

third_failure : Failed plain_crypto (codes " admin@shop.kr") 2000 office 3 failed_thrice
unfolding login login_work is_blocked failures filter active_user trim verify_password
third_failure =
    one_more 2 2120 failed_twice failed_thrice (codes "guess") (codes "10.0.0.1") the_token
      second_failure (ground arith) refl

fourth_failure : Failed plain_crypto (codes " admin@shop.kr") 2000 office 4 failed_four_times
unfolding login login_work is_blocked failures filter active_user trim verify_password
fourth_failure =
    one_more 3 2180 failed_thrice failed_four_times (codes "guess") (codes "10.0.0.1") the_token
      third_failure (ground arith) refl

fifth_failure : Failed plain_crypto (codes " admin@shop.kr") 2000 office 5 failed_five_times
unfolding login login_work is_blocked failures filter active_user trim verify_password
fifth_failure =
    one_more 4 2240 failed_four_times failed_five_times (codes "guess") (codes "10.0.0.1") the_token
      fourth_failure (ground arith) refl

login-locked_example :
    login plain_crypto
      (codes " admin@shop.kr")
      (codes "guess")
      (codes "10.0.0.2")
      the_token
      (at_time 2800 failed_five_times)
    ≡ (err (too_many_requests "Too many login attempts"), at_time 2800 failed_five_times)
login-locked_example =
    login-locked plain_crypto (codes " admin@shop.kr") 2000 5 2800 office failed_five_times
      (codes "guess") (codes "10.0.0.2") the_token fifth_failure (ground arith) (ground arith)

-- The accounts are limited: one open session of the administrator and one open token of the buyer.
sessions_limited : (user : ℕ) → open_sessions user office.sessions ≤ 1
unfolding open_sessions
sessions_limited user = ground arith

tokens_limited : (user : ℕ) → open_tokens user office.account_tokens ≤ 1
unfolding open_tokens
tokens_limited user = ground arith

office-IsLimited : IsLimited office
office-IsLimited = record { one_session = sessions_limited; one_token = tokens_limited }

abbrev new_password : Json
new_password =
    obj (field "token" (str the_token) (field "password" (str (codes "correct horse battery")) end))

abbrev after_acceptance : Accounts
unfolding complete
after_acceptance =
    run_identity plain_crypto (complete_call new_password invitation) (at_time 2500 office)

abbrev after_failed_login : Accounts
unfolding login complete
after_failed_login =
    run_identity plain_crypto
      (login_call (codes "buyer@shop.kr") (codes "guess") (codes "10.0.0.1") the_token)
      (at_time 2600 after_acceptance)

leads-IsLimited_example : IsLimited after_failed_login
unfolding after_acceptance after_failed_login
leads-IsLimited_example = leads-IsLimited plain_crypto office after_failed_login office-IsLimited (
    then_call (login_call (codes "buyer@shop.kr") (codes "guess") (codes "10.0.0.1") the_token) 2600
      after_acceptance (then_call (complete_call new_password invitation) 2500 office start))

abbrev accepted : Accounts
unfolding complete
accepted = (complete plain_crypto new_password invitation office).1

acceptance_works : complete plain_crypto new_password invitation office ≡ (ok tt, accepted)
unfolding complete get
acceptance_works = refl

complete-once_example :
    complete plain_crypto new_password password_reset (at_time 2600 accepted)
    ≡ (err (bad_request "Invalid or expired token"), at_time 2600 accepted)
complete-once_example =
    complete-once plain_crypto new_password invitation password_reset office tt accepted 2600
      acceptance_works

abbrev switch_off : Json
switch_off = obj (field "active" (bool false) (field "reason" (str (codes "left the company")) end))

abbrev switched_off : Accounts
unfolding set_status
switched_off = (set_status plain_crypto admin_token buyer_text switch_off office).1

switch_off_works :
    set_status plain_crypto admin_token buyer_text switch_off office ≡ (ok true, switched_off)
unfolding set_status get uuid_test string lookup
switch_off_works = refl

abbrev admin_cookie : Text
admin_cookie =
    codes "lang=ko; b2b_session=fedcba9876543210fedcba9876543210fedcba9876543210fedcba9876543210"

abbrev admin_principal : Principal
admin_principal = record { id = 1; customer_id = none; roles = system ∷ []; mfa_verified = true }

abbrev after_visit : Accounts
unfolding session_guard
after_visit = (session_guard plain_crypto admin_cookie (at_time 3000 switched_off)).1

visit_works :
    session_guard plain_crypto admin_cookie (at_time 3000 switched_off)
    ≡ (ok admin_principal, after_visit)
unfolding session_guard switched_off get uuid_test string modify
visit_works = refl

active_given : get "active" switch_off ≡ bool false
unfolding get
active_given = refl

status-shuts_out_example : 1 ≢ uuid_value buyer_text
status-shuts_out_example =
    status-shuts_out plain_crypto admin_token buyer_text switch_off office true switched_off 3000
      admin_cookie admin_principal after_visit switch_off_works active_given visit_works
