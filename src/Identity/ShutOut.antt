-- ===== src/Identity/ShutOut.antt =====
-- Accounts that are switched off, and tokens and codes that were used.
use mathlib.Core.Path.{subst}
use b2b_stm.Prelude.{
  ℕ, ◌≡◌, ◌≢◌, refl, sym, ap, ◌∙◌, Bool, Bool-cases, true, false, ◌&&◌, ◌||◌, not, Option, inl, inr,
  none, some, [], ◌∷◌, arith, is_some, nat_eq, if◌then◌else◌,
}
use b2b_stm.Text.{Text, text_eq, uuid_test, uuid_value}
use b2b_stm.Json.{Json, bool, get, string}
use b2b_stm.Table.{Table, lookup, modify}
use b2b_stm.Table.Laws.{lookup-modify_self}
use b2b_stm.Tx.{Error, ok, err}
use b2b_stm.Identity.{
  Crypto, Accounts, Account, Session, revoke_all, is_live, has_active_customer, settle_with,
  administrator, or_throw, throw_if,
}
use b2b_stm.Identity.Inversion.{bind_ok, or_throw_same, or_throw_found, settled_ok}
use b2b_stm.Identity.Lockout.{at_time}
use b2b_stm.Identity.Guard.{
  Principal, session_guard, guard_token, let_in, admit, admitted, session_token, is_token,
}
use b2b_stm.Identity.Tokens.{
  active_customer, is_own, set_status_work, write_status, change_status, set_active,
}
use b2b_stm.Identity.Requests.{account_error, set_status, status_body, bad_reason_for_status}

-- Whom the guard lets in, has a session that is not revoked, and an account that is active.
record Entry (s : Accounts) (p : Principal) : Type 0 where
  hash : Text
  session : Session
  account : Account
  session_found : lookup hash s.sessions ≡ some session
  account_found : lookup p.id s.users ≡ some account
  same_user : session.user_id ≡ p.id
  not_revoked : session.revoked_at ≡ none
  is_active : account.active ≡ true

admitted-Entry :
    (hash : Text) (x : Session) (o : Option Account) (s : Accounts) (p : Principal)
    → lookup hash s.sessions ≡ some x
    → lookup x.user_id s.users ≡ o
    → admitted x o s ≡ some p
    → Entry s p
unfolding is_live has_active_customer
admitted-Entry hash x none s p there who e = cc
admitted-Entry hash x (some u) s p there who e =
    let fine : (is_live s.now x && u.active && has_active_customer u.customer_id s) ≡ true =
      ground (arith, e) in
    let id : x.user_id ≡ p.id = ground (arith, e) in
    record {
      hash = hash;
      session = x;
      account = u;
      session_found = there;
      account_found = subst (λ (k : ℕ). lookup k s.users ≡ some u) id who;
      same_user = id;
      not_revoked = ground (arith, fine);
      is_active = ground (arith, fine);
    }

admit-Entry :
    (hash : Text) (o : Option Session) (s : Accounts) (p : Principal)
    → lookup hash s.sessions ≡ o
    → admit o s ≡ some p
    → Entry s p
unfolding admit
admit-Entry hash none s p there e = cc
admit-Entry hash (some x) s p there e =
    admitted-Entry hash x (lookup x.user_id s.users) s p there refl e

module _ (crypto : Crypto) where
  let_in-some :
      (hash : Text) (o : Option Principal) (s s' : Accounts) (p : Principal)
      → let_in crypto hash o s ≡ (ok p, s')
      → o ≡ some p
  let_in-some hash none s s' p e = ground (arith, e)
  let_in-some hash (some q) s s' p e = ground (arith, e)

  token-Entry :
      (o : Option Text) (s s' : Accounts) (p : Principal)
      → guard_token crypto o s ≡ (ok p, s')
      → Entry s p
  unfolding is_token admit lookup
  token-Entry none s s' p e = ground (arith, e)
  token-Entry (some token) s s' p e = go (not (is_token token)) e
    where
      go :
          (b : Bool)
          → (if b
              then (err (Error.unauthorized "Unauthorized"), s)
              else let_in crypto
                  (crypto.digest token)
                  (admit (lookup (crypto.digest token) s.sessions) s)
                  s)
            ≡ (ok p, s')
          → Entry s p
      go true k = ground (arith, k)
      go false k =
          admit-Entry (crypto.digest token) (lookup (crypto.digest token) s.sessions) s p refl (
            let_in-some (crypto.digest token) (admit (lookup (crypto.digest token) s.sessions) s) s
              s' p k)

  guard-Entry :
      (cookie : Text) (s s' : Accounts) (p : Principal)
      → session_guard crypto cookie s ≡ (ok p, s')
      → Entry s p
  unfolding session_guard
  guard-Entry cookie s s' p e = token-Entry (session_token cookie) s s' p e

-- A revoked session.
revoked_lookup :
    (user now : ℕ) (hash : Text) (t : Table Text Session) (x : Session)
    → lookup hash (revoke_all user now t) ≡ some x
    → x.user_id ≡ user
    → is_some x.revoked_at ≡ true
unfolding lookup revoke_all
revoked_lookup user now hash [] x e same = cc
revoked_lookup user now hash ((h, y) ∷ t) x e same =
    ground (arith, e, same, revoked_lookup user now hash t x)

-- The account stands switched off.
record IsOff (user : ℕ) (s : Accounts) : Type 0 where
  account : Account
  found : lookup user s.users ≡ some account
  off : account.active ≡ false

write_status-IsOff :
    (actor user : ℕ) (reason : Text) (u : Account) (s : Accounts) (a : Bool) (s' : Accounts)
    → lookup user s.users ≡ some u
    → write_status actor user false reason u s ≡ ok (a, s')
    → IsOff user s'
unfolding write_status active_customer
write_status-IsOff actor user reason u s a s' there ran =
    let users : modify user (set_active false) s.users ≡ s'.users = ground (arith, ran) in
    record {
      account = set_active false u;
      found =
          ap (lookup user) (sym users) ∙ lookup-modify_self user (set_active false) s.users there;
      off = refl;
    }

change_status-IsOff :
    (actor user : ℕ) (reason : Text) (u : Account) (s : Accounts) (a : Bool) (s' : Accounts)
    → lookup user s.users ≡ some u
    → change_status actor user false reason u s ≡ ok (a, s')
    → IsOff user s'
unfolding write_status
change_status-IsOff actor user reason u s a s' there ran = elim (Bool-cases u.active) [
  | inl on ↦ write_status-IsOff actor user reason u s a s' there (ground (arith, on, ran))
  | inr off ↦
      let same : s ≡ s' = ground (arith, off, ran) in
      record {
        account = u;
        found = subst (λ (t : Accounts). lookup user t.users ≡ some u) same there;
        off = off;
      }
]

set_status_work-IsOff :
    (session user reason : Text) (s : Accounts) (a : Bool) (s' : Accounts)
    → set_status_work session user false reason s ≡ ok (a, s')
    → IsOff (uuid_value user) s'
unfolding set_status_work
set_status_work-IsOff session user reason s a s' ran =
    bind_ok (administrator session) _ a s s' ran λ actor t one rest.
      bind_ok (throw_if (is_own actor user) _) _ a t s' rest λ x v two last.
        bind_ok (or_throw (lookup (uuid_value user) v.users) _) _ a v s' last λ u w three done.
          let same : v ≡ w = or_throw_same _ _ u v w three in
          change_status-IsOff actor (uuid_value user) reason u w a s'
            (subst (λ (z : Accounts). lookup (uuid_value user) z.users ≡ some u) same
              (or_throw_found _ _ u v w three))
            done

module _ (crypto : Crypto) where
  status_body-IsOff :
      (session user : Text) (active : Json) (reason : Text) (s : Accounts) (a : Bool)
      (s' : Accounts)
      → active ≡ bool false
      → status_body crypto session user active reason s ≡ (ok a, s')
      → IsOff (uuid_value user) s'
  unfolding set_status_work
  status_body-IsOff session user active reason s a s' off ran =
      go (not (uuid_test user) || bad_reason_for_status crypto reason)
        (subst (λ (v : Json). status_body crypto session user v reason s ≡ (ok a, s')) off ran)
    where
      go :
          (b : Bool)
          → (if b
              then (err (Error.bad_request "Invalid account status change"), s)
              else settle_with account_error s
                  (set_status_work (crypto.digest session) user false reason s))
            ≡ (ok a, s')
          → IsOff (uuid_value user) s'
      go true e = ground (arith, e)
      go false e =
          set_status_work-IsOff (crypto.digest session) user reason s a s'
            (settled_ok account_error s _ a s' e)

  -- After an account has been switched off, the session guard lets nobody in as this account, with any
  -- cookie and at any time, while the tables stay as they are.
  pub status-shuts_out :
      (session user : Text) (body : Json) (s : Accounts) (a : Bool) (s' : Accounts) (now : ℕ)
      (cookie : Text) (p : Principal) (t : Accounts)
      → set_status crypto session user body s ≡ (ok a, s')
      → get "active" body ≡ bool false
      → session_guard crypto cookie (at_time now s') ≡ (ok p, t)
      → p.id ≢ uuid_value user
  unfolding set_status
  status-shuts_out session user body s a s' now cookie p t ran off guard same =
      let gone =
        status_body-IsOff session user (get "active" body) (string (get "reason" body)) s a s' off
          ran in
      let entry = guard-Entry crypto cookie (at_time now s') t p guard in
      let found = entry.account_found in
      let inactive = gone.found in ground (arith, found, inactive, gone.off, entry.is_active, same)
