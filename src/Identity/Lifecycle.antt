-- ===== src/Identity/Lifecycle.antt =====
-- What inviting, reissuing, completing and switching accounts leave of the sessions and tokens.
use mathlib.Core.Path.{subst}
use b2b_stm.Prelude.{
  ℕ, ◌≡◌, refl, ◌∙◌, Bool, true, false, ◌||◌, not, Option, none, some, arith, nat_eq, if◌then◌else◌,
}
use b2b_stm.Text.{Text, text_eq, uuid_test, uuid_value}
use b2b_stm.Json.{Json, bool, str, get, string}
use b2b_stm.Table.{lookup, modify}
use b2b_stm.Tx.{Error, Result, ok, err}
use b2b_stm.Identity.{
  Crypto, Accounts, Account, AccountToken, Purpose, revoke_all, settle_with, administrator,
  or_throw, throw_if, pure,
}
use b2b_stm.Identity.Access.{open_tokens-modify, IsLimited}
use b2b_stm.Identity.Inversion.{
  bind_ok, or_throw_same, throw_if_same, checked_same, administrator_same, active_customer_same,
}
use b2b_stm.Identity.Guard.{is_token}
use b2b_stm.Identity.Tokens.{
  Invitation, Issued, issue, issue_token, revoke_tokens, invite_work, reissue_work, complete_work,
  is_own, set_password, consume, set_status_work, write_status, change_status, active_customer,
  same_bool, checked, email_taken, insert_account, if_active, wrong_purpose,
}
use b2b_stm.Identity.Requests.{
  invite, invitation_of, reissue, complete, complete_body, complete_with, complete_for,
  bad_password, set_status, status_body, account_error, bad_reason_for_status,
}
use b2b_stm.Identity.Limited.{
  Fewer-IsLimited, Fewer-same, settled-IsLimited, fewer_revoked, fewer_tokens,
  issue_token-IsLimited,
}

set_password-IsLimited :
    (hash : Text) (user : ℕ) (password_hash : Text) (purpose : Purpose) (s : Accounts)
    → IsLimited s
    → IsLimited (set_password hash user password_hash purpose s)
unfolding set_password
set_password-IsLimited hash user password_hash purpose s h =
    Fewer-IsLimited s _
      (
        λ k. fewer_revoked user s.now k s.sessions,
        λ k.
            let used = modify hash (consume s.now) s.account_tokens in
            let fewer =
              open_tokens-modify k hash (consume s.now) s.account_tokens
                (λ x. (refl, λ e. ground arith)) in
            ground (arith, fewer, fewer_tokens user s.now k used),
      )
      h

complete_work-IsLimited :
    (hash password_hash : Text) (purpose : Purpose) (user : ℕ) (s : Accounts) (a : Unit {0})
    (s' : Accounts)
    → IsLimited s
    → complete_work hash password_hash purpose user s ≡ ok (a, s')
    → IsLimited s'
unfolding complete_work active_customer
complete_work-IsLimited hash password_hash purpose user s a s' h ran =
    let same : set_password hash user password_hash purpose s ≡ s' = ground (arith, ran) in
    subst IsLimited same (set_password-IsLimited hash user password_hash purpose s h)

-- Switching an account on or off.
write_status-IsLimited :
    (actor user : ℕ) (active : Bool) (reason : Text) (u : Account) (s : Accounts) (a : Bool)
    (s' : Accounts)
    → IsLimited s
    → write_status actor user active reason u s ≡ ok (a, s')
    → IsLimited s'
unfolding write_status active_customer
write_status-IsLimited actor user true reason u s a s' h ran =
    Fewer-IsLimited s s' (Fewer-same s s' (ground (arith, ran)) (ground (arith, ran))) h
write_status-IsLimited actor user false reason u s a s' h ran =
    let sessions : revoke_all user s.now s.sessions ≡ s'.sessions = ground (arith, ran) in
    let tokens : revoke_tokens user s.now s.account_tokens ≡ s'.account_tokens =
      ground (arith, ran) in
    Fewer-IsLimited s s'
      (
        λ k. ground (arith, sessions, fewer_revoked user s.now k s.sessions),
        λ k. ground (arith, tokens, fewer_tokens user s.now k s.account_tokens),
      )
      h

change_status-IsLimited :
    (actor user : ℕ) (active : Bool) (reason : Text) (u : Account) (s : Accounts) (a : Bool)
    (s' : Accounts)
    → IsLimited s
    → change_status actor user active reason u s ≡ ok (a, s')
    → IsLimited s'
unfolding write_status
change_status-IsLimited actor user active reason u s a s' h ran = go (same_bool u.active active) ran
  where
    go :
        (b : Bool)
        → (if b then pure false else write_status actor user active reason u) s ≡ ok (a, s')
        → IsLimited s'
    go true e = let same : s ≡ s' = ground (arith, e) in subst IsLimited same h
    go false e = write_status-IsLimited actor user active reason u s a s' h e

set_status_work-IsLimited :
    (session user : Text) (active : Bool) (reason : Text) (s : Accounts) (a : Bool) (s' : Accounts)
    → IsLimited s
    → set_status_work session user active reason s ≡ ok (a, s')
    → IsLimited s'
unfolding set_status_work
set_status_work-IsLimited session user active reason s a s' h ran =
    bind_ok (administrator session) _ a s s' ran λ actor t one rest.
      bind_ok (throw_if (is_own actor user) _) _ a t s' rest λ x v two last.
        bind_ok (or_throw (lookup (uuid_value user) v.users) _) _ a v s' last λ u w three done.
          let same : s ≡ w =
            administrator_same session actor s t one
            ∙ throw_if_same _ _ x t v two
            ∙ or_throw_same _ _ u v w three in
          change_status-IsLimited actor (uuid_value user) active reason u w a s'
            (subst IsLimited same h) done

-- Handing out a token.
issue-IsLimited :
    (hash token : Text) (user actor : ℕ) (recipient : Text) (purpose : Purpose) (s : Accounts)
    (a : Issued) (s' : Accounts)
    → IsLimited s
    → issue hash token user actor recipient purpose s ≡ ok (a, s')
    → IsLimited s'
unfolding issue
issue-IsLimited hash token user actor recipient purpose s a s' h ran =
    let same : issue_token hash user actor purpose s ≡ s' = ground (arith, ran) in
    subst IsLimited same (issue_token-IsLimited hash user actor purpose s h)

reissue_work-IsLimited :
    (session hash token : Text) (user : ℕ) (purpose : Purpose) (s : Accounts) (a : Issued)
    (s' : Accounts)
    → IsLimited s
    → reissue_work session hash token user purpose s ≡ ok (a, s')
    → IsLimited s'
unfolding reissue_work
reissue_work-IsLimited session hash token user purpose s a s' h ran =
    bind_ok (administrator session) _ a s s' ran λ actor t one rest.
      bind_ok (or_throw (if_active (lookup user t.users)) _) _ a t s' rest λ u v two more.
        bind_ok (throw_if (wrong_purpose purpose u) _) _ a v s' more λ x w three last.
          bind_ok (active_customer u.customer_id) _ a w s' last λ y z four done.
            let same : s ≡ z =
              administrator_same session actor s t one
              ∙ or_throw_same _ _ u t v two
              ∙ throw_if_same _ _ x v w three
              ∙ active_customer_same u.customer_id y w z four in
            issue-IsLimited hash token user actor u.email purpose z a s' (subst IsLimited same h)
              done

insert_account-IsLimited :
    (id : ℕ) (i : Invitation) (s : Accounts) → IsLimited s → IsLimited (insert_account id i s)
insert_account-IsLimited id i s h =
    Fewer-IsLimited s (insert_account id i s) (Fewer-same s (insert_account id i s) refl refl) h

invite_work-IsLimited :
    (session hash token : Text) (body : Result Invitation) (s : Accounts) (a : Issued)
    (s' : Accounts)
    → IsLimited s
    → invite_work session hash token body s ≡ ok (a, s')
    → IsLimited s'
unfolding invite_work
invite_work-IsLimited session hash token body s a s' h ran =
    bind_ok (administrator session) _ a s s' ran λ actor t one rest.
      bind_ok (checked body) _ a t s' rest λ i v two more.
        bind_ok (active_customer i.customer_id) _ a v s' more λ x w three last.
          bind_ok (throw_if (email_taken i.email w.users) _) _ a w s' last λ y z four done.
            let same : s ≡ z =
              administrator_same session actor s t one
              ∙ checked_same body i t v two
              ∙ active_customer_same i.customer_id x v w three
              ∙ throw_if_same _ _ y w z four in
            issue-IsLimited hash token z.next_id actor i.email Purpose.invitation
              (insert_account z.next_id i z) a s'
              (insert_account-IsLimited z.next_id i z (subst IsLimited same h)) done

module _ (crypto : Crypto) where
  pub invite-IsLimited :
      (session : Text) (body : Json) (token : Text) (s : Accounts)
      → IsLimited s
      → IsLimited (invite crypto session body token s).1
  unfolding invite
  invite-IsLimited session body token s h = settled-IsLimited (account_error) s _ h (λ a s' ran.
      invite_work-IsLimited (crypto.digest session) (crypto.digest token) token
        (invitation_of crypto body) s a s' h ran)

  pub reissue-IsLimited :
      (session user : Text) (purpose : Purpose) (token : Text) (s : Accounts)
      → IsLimited s
      → IsLimited (reissue crypto session user purpose token s).1
  unfolding reissue
  reissue-IsLimited session user purpose token s h = go (not (uuid_test user))
    where
      go :
          (b : Bool)
          → IsLimited
              (if b
                then (err (Error.bad_request "Invalid user ID"), s)
                else settle_with account_error s (
                    reissue_work
                      (crypto.digest session)
                      (crypto.digest token)
                      token
                      (uuid_value user)
                      purpose
                      s)).1
      go true = h
      go false = settled-IsLimited account_error s _ h (λ a s' ran.
          reissue_work-IsLimited (crypto.digest session) (crypto.digest token) token
            (uuid_value user) purpose s a s' h ran)

  complete_for-IsLimited :
      (hash password : Text) (purpose : Purpose) (o : Option AccountToken) (s : Accounts)
      → IsLimited s
      → IsLimited (complete_for crypto hash password purpose o s).1
  unfolding complete_work
  complete_for-IsLimited hash password purpose none s h = h
  complete_for-IsLimited hash password purpose (some t) s h =
      settled-IsLimited account_error s _ h (λ a s' ran.
        complete_work-IsLimited hash (crypto.argon2_hash password) purpose t.user_id s a s' h ran)

  complete_body-IsLimited :
      (token password : Json) (purpose : Purpose) (s : Accounts)
      → IsLimited s
      → IsLimited (complete_body crypto token password purpose s).1
  unfolding is_token bad_password lookup complete_work
  complete_body-IsLimited (str token) (str password) purpose s h =
      go (not (is_token token) || bad_password password)
    where
      go :
          (b : Bool)
          → IsLimited
              (if b
                then (
                  err (Error.bad_request "Invalid token or password (12–128 characters required)"),
                  s,
                )
                else complete_with crypto token password purpose s).1
      go true = h
      go false = complete_for-IsLimited (crypto.digest token) password purpose _ s h
  complete_body-IsLimited _ _ purpose s h = h

  pub complete-IsLimited :
      (body : Json) (purpose : Purpose) (s : Accounts)
      → IsLimited s
      → IsLimited (complete crypto body purpose s).1
  unfolding complete
  complete-IsLimited body purpose s h =
      complete_body-IsLimited (get "token" body) (get "password" body) purpose s h

  status_body-IsLimited :
      (session user : Text) (active : Json) (reason : Text) (s : Accounts)
      → IsLimited s
      → IsLimited (status_body crypto session user active reason s).1
  unfolding set_status_work
  status_body-IsLimited session user (bool active) reason s h =
      go (not (uuid_test user) || bad_reason_for_status crypto reason)
    where
      go :
          (b : Bool)
          → IsLimited
              (if b
                then (err (Error.bad_request "Invalid account status change"), s)
                else settle_with account_error s
                    (set_status_work (crypto.digest session) user active reason s)).1
      go true = h
      go false = settled-IsLimited account_error s _ h (λ a s' ran.
          set_status_work-IsLimited (crypto.digest session) user active reason s a s' h ran)
  status_body-IsLimited session user _ reason s h = h

  pub status-IsLimited :
      (session user : Text) (body : Json) (s : Accounts)
      → IsLimited s
      → IsLimited (set_status crypto session user body s).1
  unfolding set_status
  status-IsLimited session user body s h =
      status_body-IsLimited session user (get "active" body) (string (get "reason" body)) s h
