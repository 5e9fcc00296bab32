-- ===== src/Identity/Limited.antt =====
-- What leaves no more sessions and tokens usable, and what logging in and out leaves.
use mathlib.Core.Path.{subst}
use b2b_stm.Prelude.{
  ℕ, ◌≤◌, ◌≡◌, refl, sym, Bool, true, false, not, Option, none, some, arith, nat_eq, if◌then◌else◌,
}
use b2b_stm.Text.{Text, text_eq, trim}
use b2b_stm.Table.{Table, lookup, insert}
use b2b_stm.Tx.{Error, Result, ok, err}
use b2b_stm.Identity.{
  Crypto, Accounts, Account, Session, AccountToken, Purpose, revoke_all, settle_with, committed,
}
use b2b_stm.Identity.Access.{
  open_sessions, open_tokens, open_sessions-revoke_all, open_tokens-revoke_tokens,
  open_sessions-modify, IsLimited,
}
use b2b_stm.Identity.Login.{
  login, login_work, open_session, start_session, try_password, matches_user, user_id_of,
  record_failures, logout, revoke_session, active_user, is_blocked,
}
use b2b_stm.Identity.Guard.{
  Principal, session_guard, guard_token, let_in, session_token, is_token, touch, admit,
}
use b2b_stm.Identity.Tokens.{issue_token, revoke_tokens}

-- The second state has no more usable sessions and tokens of any account.
abbrev pub Fewer : Accounts → Accounts → Type 0
Fewer s s' =
    ((k : ℕ) → open_sessions k s'.sessions ≤ open_sessions k s.sessions)
    × ((k : ℕ) → open_tokens k s'.account_tokens ≤ open_tokens k s.account_tokens)

pub Fewer-IsLimited : (s s' : Accounts) → Fewer s s' → IsLimited s → IsLimited s'
Fewer-IsLimited s s' f h = record {
  one_session = λ k. ground (arith, f.0 k, h.one_session k);
  one_token = λ k. ground (arith, f.1 k, h.one_token k);
}

pub Fewer-same :
    (s s' : Accounts) → s.sessions ≡ s'.sessions → s.account_tokens ≡ s'.account_tokens → Fewer s s'
Fewer-same s s' e f = (λ k. ground (arith, e), λ k. ground (arith, f))

pub settled-IsLimited :
    {A : Type 0} (as_error : Error → Error) (s : Accounts) (o : Result (A × Accounts))
    → IsLimited s
    → ((a : A) (s' : Accounts) → o ≡ ok (a, s') → IsLimited s')
    → IsLimited (settle_with as_error s o).1
settled-IsLimited as_error s (ok x) h f = f x.0 x.1 refl
settled-IsLimited as_error s (err e) h f = h

pub committed_same : {A : Type 0} (x : Result (Result A) × Accounts) → (committed x).1 ≡ x.1
committed_same (ok r, s) = refl
committed_same (err e, s) = refl

pub fewer_revoked :
    (user now k : ℕ) (t : Table Text Session)
    → open_sessions k (revoke_all user now t) ≤ open_sessions k t
fewer_revoked user now k t = ground (arith, open_sessions-revoke_all user k now t)

pub fewer_tokens :
    (user now k : ℕ) (t : Table Text AccountToken)
    → open_tokens k (revoke_tokens user now t) ≤ open_tokens k t
fewer_tokens user now k t = ground (arith, open_tokens-revoke_tokens user k now t)

-- Logging in.
open_session-IsLimited :
    (email_key hash : Text) (user : ℕ) (s : Accounts)
    → IsLimited s
    → IsLimited (open_session email_key hash user s)
unfolding open_session insert open_sessions
open_session-IsLimited email_key hash user s h = record {
  one_session =
      λ k. ground (arith, open_sessions-revoke_all user k s.now s.sessions, h.one_session k);
  one_token = λ k. h.one_token k;
}

pub issue_token-IsLimited :
    (hash : Text) (user actor : ℕ) (purpose : Purpose) (s : Accounts)
    → IsLimited s
    → IsLimited (issue_token hash user actor purpose s)
unfolding issue_token insert open_tokens
issue_token-IsLimited hash user actor purpose s h = record {
  one_session = λ k. h.one_session k;
  one_token =
      λ k. ground (arith, open_tokens-revoke_tokens user k s.now s.account_tokens, h.one_token k);
}

module _ (crypto : Crypto) where
  start_session-IsLimited :
      (email_key token : Text) (user : ℕ) (s : Accounts) (r : Result Text) (s' : Accounts)
      → IsLimited s
      → start_session crypto email_key token user s ≡ ok (r, s')
      → IsLimited s'
  unfolding start_session
  start_session-IsLimited email_key token user s r s' h ran =
      let same : open_session email_key (crypto.digest token) user s ≡ s' = ground (arith, ran) in
      subst IsLimited same (open_session-IsLimited email_key (crypto.digest token) user s h)

  try_password-IsLimited :
      (password token email_key ip_key : Text) (found : Option (ℕ × Account)) (s : Accounts)
      (r : Result Text) (s' : Accounts)
      → IsLimited s
      → try_password crypto password token email_key ip_key found s ≡ ok (r, s')
      → IsLimited s'
  try_password-IsLimited password token email_key ip_key found s r s' h ran =
      go (matches_user crypto password found) ran
    where
      go :
          (b : Bool)
          → (if b
              then start_session crypto email_key token (user_id_of crypto found) s
              else ok (
                err (Error.unauthorized "Invalid email or password"),
                record_failures email_key ip_key s,
              ))
            ≡ ok (r, s')
          → IsLimited s'
      go true e = start_session-IsLimited email_key token (user_id_of crypto found) s r s' h e
      go false e =
          let same : record_failures email_key ip_key s ≡ s' = ground (arith, e) in
          subst IsLimited same (
            Fewer-IsLimited s (record_failures email_key ip_key s)
              (Fewer-same s (record_failures email_key ip_key s) refl refl) h)

  login_work-IsLimited :
      (email password ip token : Text) (s : Accounts) (r : Result Text) (s' : Accounts)
      → IsLimited s
      → login_work crypto email password ip token s ≡ ok (r, s')
      → IsLimited s'
  unfolding login_work
  login_work-IsLimited email password ip token s r s' h ran =
      go (is_blocked (crypto.digest (crypto.lower (trim email))) (crypto.digest ip) s) ran
    where
      work : Result (Result Text × Accounts)
      work =
          try_password crypto password token (crypto.digest (crypto.lower (trim email)))
            (crypto.digest ip) (active_user (crypto.lower (trim email)) s.users) s

      go :
          (b : Bool)
          → (if b then err (Error.too_many_requests "Too many login attempts") else work)
            ≡ ok (r, s')
          → IsLimited s'
      go true e = cc
      go false e =
          try_password-IsLimited password token (crypto.digest (crypto.lower (trim email)))
            (crypto.digest ip) (active_user (crypto.lower (trim email)) s.users) s r s' h e

  pub login-IsLimited :
      (email password ip token : Text) (s : Accounts)
      → IsLimited s
      → IsLimited (login crypto email password ip token s).1
  unfolding login
  login-IsLimited email password ip token s h =
      let work = login_work crypto email password ip token s in
      subst IsLimited (sym (committed_same (settle_with (λ e. e) s work))) (
        settled-IsLimited (λ e. e) s work h
          (λ r s' ran. login_work-IsLimited email password ip token s r s' h ran))

  pub logout-IsLimited :
      (token : Text) (s : Accounts) → IsLimited s → IsLimited (logout crypto token s)
  unfolding logout
  logout-IsLimited token s h =
      Fewer-IsLimited s _
        (
          λ k.
              open_sessions-modify k (crypto.digest token) (revoke_session crypto s.now) s.sessions
                (λ x. (refl, λ e. ground (arith, e))),
          λ k. ground arith,
        )
        h

  let_in-IsLimited :
      (hash : Text) (o : Option Principal) (s : Accounts)
      → IsLimited s
      → IsLimited (let_in crypto hash o s).1
  let_in-IsLimited hash none s h = h
  let_in-IsLimited hash (some p) s h =
      Fewer-IsLimited s _
        (
          λ k. open_sessions-modify k hash (touch s.now) s.sessions (λ x. (refl, λ e. e)),
          λ k. ground arith,
        )
        h

  guard_token-IsLimited :
      (o : Option Text) (s : Accounts) → IsLimited s → IsLimited (guard_token crypto o s).1
  unfolding is_token admit lookup
  guard_token-IsLimited none s h = h
  guard_token-IsLimited (some token) s h = go (not (is_token token))
    where
      go :
          (b : Bool)
          → IsLimited
              (if b
                then (err (Error.unauthorized "Unauthorized"), s)
                else let_in crypto
                    (crypto.digest token)
                    (admit (lookup (crypto.digest token) s.sessions) s)
                    s).1
      go true = h
      go false =
          let_in-IsLimited (crypto.digest token) (admit (lookup (crypto.digest token) s.sessions) s)
            s h

  pub visit-IsLimited :
      (cookie : Text) (s : Accounts) → IsLimited s → IsLimited (session_guard crypto cookie s).1
  unfolding session_guard
  visit-IsLimited cookie s h = guard_token-IsLimited (session_token cookie) s h
