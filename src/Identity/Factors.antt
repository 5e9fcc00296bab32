-- ===== src/Identity/Factors.antt =====
-- What the actions on second factors leave of the sessions and tokens.
use mathlib.Core.Path.{subst}
use b2b_stm.Prelude.{
  ℕ, ◌≡◌, refl, sym, ap, ◌∙◌, any, filter, Bool, true, false, ◌&&◌, ◌||◌, not, Option, none, some,
  arith, is_some, nat_eq, pair_eq, if◌then◌else◌,
}
use b2b_stm.Text.{Text, text_eq, uuid_test, uuid_value, is_digit}
use b2b_stm.Json.{Json, get, string}
use b2b_stm.Table.{lookup, modify, upsert}
use b2b_stm.Tx.{Error, Result, ok, err}
use b2b_stm.Identity.{
  Crypto, Accounts, Account, Session, Credential, Event, settle_with, administrator, is_live,
  has_active_customer, or_throw, throw_if,
}
use b2b_stm.Identity.Access.{open_sessions-modify, IsLimited}
use b2b_stm.Identity.Inversion.{bind_ok, or_throw_same, throw_if_same, administrator_same}
use b2b_stm.Identity.Limited.{
  Fewer, Fewer-IsLimited, Fewer-same, settled-IsLimited, committed_same, fewer_revoked,
}
use b2b_stm.Identity.Mfa.{
  MfaAction, enroll, confirm, verify, recover, regenerate, MfaAnswer, MfaInput, Drawn, Outcome,
  execute_mfa, execute_work, act, act_for, act_as, fail, succeed, do_enroll, mark_verified,
  confirm_with, verify_with, recover_with, regenerate_with, code_step, credential_of,
  put_credential, later_than, text_of, mfa_error, log_event, count_failure, cleared, done,
  recovery_codes, confirm_factor, set_step, add_codes, drop_codes, use_codes, is_usable_code,
  is_recovery_code, enrolling, password_matches,
}
use b2b_stm.Identity.Reset.{
  reset_mfa, reset_mfa_work, reset_unless, forget_factor, bad_reset_reason, is_enrolled,
}
use b2b_stm.Identity.Tokens.{is_own, if_active}
use b2b_stm.Identity.Requests.{text_value}

-- An outcome that is written leaves no more sessions and tokens.
abbrev Kept : Accounts → Outcome → Type 0
Kept s o = (r : Result MfaAnswer) (s' : Accounts) → o ≡ ok (r, s') → Fewer s s'

state_or : Accounts → Outcome → Accounts
state_or s (ok (r, t)) = t
state_or s (err e) = s

written_state :
    (r r' : Result MfaAnswer) (t s' : Accounts)
    → ◌≡◌ {A = Outcome} (ok (r, t)) (ok (r', s'))
    → t ≡ s'
unfolding state_or
written_state r r' t s' h = ap (state_or t) h

fail-Kept :
    (user : ℕ) (c : Credential) (s t : Accounts)
    → s.sessions ≡ t.sessions
    → s.account_tokens ≡ t.account_tokens
    → Kept s (fail user c t)
unfolding fail upsert
fail-Kept user c s t e f r s' ran =
    let after : Accounts =
      log_event user Event.failed (put_credential user (count_failure t.now c) t) in
    subst (Fewer s) (written_state _ r after s' ran) (Fewer-same s after e f)

succeed-Kept :
    (hash : Text) (user : ℕ) (event : Event) (answer : MfaAnswer) (c : Credential) (s t : Accounts)
    → s.sessions ≡ t.sessions
    → s.account_tokens ≡ t.account_tokens
    → Kept s (succeed hash user event answer c t)
unfolding succeed upsert
succeed-Kept hash user event answer c s t e f r s' ran =
    let after : Accounts = log_event user event (
      put_credential user (cleared c)
        (record t { sessions = modify hash (mark_verified t.now) t.sessions })) in
    let fewer : Fewer s after = (
      λ k.
          rw e (open_sessions-modify k hash (mark_verified t.now) t.sessions (λ x. (refl, λ i. i))),
      λ k. ground (arith, f),
    ) in
    subst (Fewer s) (written_state _ r after s' ran) fewer

err-Kept : (s : Accounts) (e : Error) → Kept s (err e)
err-Kept s e r s' ran = cc

if-Kept :
    (s : Accounts) (b : Bool) (o p : Outcome) → Kept s o → Kept s p → Kept s (if b then o else p)
if-Kept s true o p h k = h
if-Kept s false o p h k = k

module _ (crypto : Crypto) (hash : Text) (user : ℕ) (u : Account) (x : Session) (input : MfaInput)
    (drawn : Drawn) (c : Credential) (s : Accounts) where
  confirm_with-Kept : (o : Option ℕ) → Kept s (confirm_with crypto hash user drawn c s o)
  unfolding fail succeed upsert
  confirm_with-Kept none = fail-Kept user c s s refl refl
  confirm_with-Kept (some step) =
      succeed-Kept hash user Event.confirmed (recovery_codes drawn.codes)
        (confirm_factor crypto s.now (set_step crypto step c)) s
        (add_codes crypto user drawn.codes s) refl refl

  verify_with-Kept : (o : Option ℕ) → Kept s (verify_with crypto hash user c s o)
  unfolding fail succeed upsert
  verify_with-Kept none = fail-Kept user c s s refl refl
  verify_with-Kept (some step) =
      succeed-Kept hash user Event.verified done (set_step crypto step c) s s refl refl

  recover_with-Kept : (o : Option Text) → Kept s (recover_with crypto hash user c s o)
  unfolding any is_digit fail succeed upsert
  recover_with-Kept none = fail-Kept user c s s refl refl
  recover_with-Kept (some code) =
      if-Kept s
        (is_recovery_code code
          && any (is_usable_code user (crypto.digest code)) s.mfa_recovery_codes)
        _ _
        (succeed-Kept hash user Event.recovered done c s (use_codes user (crypto.digest code) s)
          refl refl)
        (fail-Kept user c s s refl refl)

  regenerate_with-Kept : (o : Option ℕ) → Kept s (regenerate_with crypto hash user drawn c s o)
  unfolding filter fail succeed upsert
  regenerate_with-Kept none = fail-Kept user c s s refl refl
  regenerate_with-Kept (some step) =
      succeed-Kept hash user Event.recovery_codes_regenerated (recovery_codes drawn.codes)
        (set_step crypto step c) s (add_codes crypto user drawn.codes (drop_codes crypto user s))
        refl refl

  enrolled_state : Accounts
  unfolding upsert
  enrolled_state =
      log_event user Event.enrolled
        (put_credential user (enrolling crypto user hash drawn.secret s.now c) s)

  enroll-Kept : Kept s (do_enroll crypto hash user u input drawn c s)
  unfolding do_enroll upsert enrolled_state
  enroll-Kept = if-Kept s (is_some c.confirmed_at) _ _ (err-Kept s _) (
      if-Kept s (not (password_matches crypto input.password u)) _ _
        (fail-Kept user c s s refl refl)
        (λ r s' ran.
          subst (Fewer s) (written_state _ r enrolled_state s' ran)
            (Fewer-same s enrolled_state refl refl)))

  act-Kept : (action : MfaAction) → Kept s (act crypto action hash user u x input drawn c s)
  unfolding act
  act-Kept enroll = enroll-Kept
  act-Kept confirm =
      if-Kept s _ _ _ (err-Kept s _) (confirm_with-Kept (code_step crypto user c input.code))
  act-Kept verify =
      if-Kept s _ _ _ (verify_with-Kept (code_step crypto user c input.code)) (err-Kept s _)
  act-Kept recover = if-Kept s _ _ _ (recover_with-Kept input.code) (err-Kept s _)
  act-Kept regenerate =
      if-Kept s _ _ _
        (if-Kept s _ _ _ (fail-Kept user c s s refl refl)
          (regenerate_with-Kept (code_step crypto user c input.code)))
        (err-Kept s _)

module _ (crypto : Crypto) (action : MfaAction) (hash : Text) (input : MfaInput) (drawn : Drawn)
    (s : Accounts) where
  act_as-Kept :
      (x : Session) (o : Option Account) → Kept s (act_as crypto action hash x input drawn s o)
  unfolding is_live has_active_customer act lookup
  act_as-Kept x none = err-Kept s _
  act_as-Kept x (some u) =
      if-Kept s (not (u.active && is_live s.now x && has_active_customer u.customer_id s)) _ _
        (err-Kept s _)
        (if-Kept s (later_than s.now (credential_of x.user_id s).locked_until) _ _ (err-Kept s _)
          (act-Kept crypto hash x.user_id u x input drawn (credential_of x.user_id s) s action))

  act_for-Kept : (o : Option Session) → Kept s (act_for crypto action hash input drawn s o)
  unfolding is_live has_active_customer act lookup
  act_for-Kept none = err-Kept s _
  act_for-Kept (some x) = act_as-Kept x (lookup x.user_id s.users)

  execute_work-Kept : Kept s (execute_work crypto action hash input drawn s)
  unfolding execute_work
  execute_work-Kept = act_for-Kept (lookup hash s.sessions)

module _ (crypto : Crypto) where
  pub execute_mfa-IsLimited :
      (configured : Bool) (token : Text) (action : MfaAction) (body : Json) (drawn : Drawn)
      (s : Accounts)
      → IsLimited s
      → IsLimited (execute_mfa crypto configured token action body drawn s).1
  unfolding execute_mfa
  execute_mfa-IsLimited false token action body drawn s h = h
  execute_mfa-IsLimited true token action body drawn s h =
      let input : MfaInput = record {
        password = text_of crypto (get "password" body);
        code = text_of crypto (get "code" body);
      } in
      let work : Outcome = execute_work crypto action (crypto.digest token) input drawn s in
      subst IsLimited (sym (committed_same (settle_with (mfa_error crypto) s work))) (
        settled-IsLimited (mfa_error crypto) s work h (λ r s' ran.
          Fewer-IsLimited s s'
            (execute_work-Kept crypto action (crypto.digest token) input drawn s r s' ran) h))

state_after : Accounts → Result (ℕ × Accounts) → Accounts
state_after s (ok (a, t)) = t
state_after s (err e) = s

forget_factor-IsLimited :
    (actor user request : ℕ) (reason : Text) (s : Accounts)
    → IsLimited s
    → IsLimited (forget_factor actor user request reason s)
unfolding forget_factor
forget_factor-IsLimited actor user request reason s h =
    Fewer-IsLimited s _ (λ k. fewer_revoked user s.now k s.sessions, λ k. ground arith) h

reset_unless-IsLimited :
    (actor user request : ℕ) (reason : Text) (o : Option ℕ) (s : Accounts) (a : ℕ) (s' : Accounts)
    → IsLimited s
    → reset_unless actor user request reason o s ≡ ok (a, s')
    → IsLimited s'
unfolding forget_factor lookup state_after
reset_unless-IsLimited actor user request reason (some answer) s a s' h ran =
    let same : s ≡ s' = ground (arith, ran) in subst IsLimited same h
reset_unless-IsLimited actor user request reason none s a s' h ran =
    bind_ok (or_throw (if_active (lookup user s.users)) _) _ a s s' ran λ u t one rest.
      bind_ok (throw_if (not (is_enrolled (lookup user t.mfa_credentials))) _) _ a t s' rest
        λ x v two last.
          let before : s ≡ v = or_throw_same _ _ u s t one ∙ throw_if_same _ _ x t v two in
          let same : forget_factor actor user request reason v ≡ s' =
            ap (λ (o : Result (ℕ × Accounts)). state_after v o) last in
          subst IsLimited same
            (forget_factor-IsLimited actor user request reason v (subst IsLimited before h))

reset_mfa_work-IsLimited :
    (session user : Text) (request : ℕ) (reason : Text) (s : Accounts) (a : ℕ) (s' : Accounts)
    → IsLimited s
    → reset_mfa_work session user request reason s ≡ ok (a, s')
    → IsLimited s'
unfolding reset_mfa_work
reset_mfa_work-IsLimited session user request reason s a s' h ran =
    bind_ok (administrator session) _ a s s' ran λ actor t one rest.
      bind_ok (throw_if (is_own actor user) _) _ a t s' rest λ x v two last.
        let same : s ≡ v = administrator_same session actor s t one ∙ throw_if_same _ _ x t v two in
        reset_unless-IsLimited actor (uuid_value user) request reason
          (lookup (actor, request) v.mfa_resets) v a s' (subst IsLimited same h) last

module _ (crypto : Crypto) where
  pub reset_mfa-IsLimited :
      (session user : Text) (body : Json) (s : Accounts)
      → IsLimited s
      → IsLimited (reset_mfa crypto session user body s).1
  unfolding reset_mfa
  reset_mfa-IsLimited session user body s h = go (
      not (uuid_test user)
      || not (uuid_test (text_value (get "requestId" body)))
      || bad_reset_reason (string (get "reason" body)))
    where
      go :
          (b : Bool)
          → IsLimited
              (if b
                then (err (Error.bad_request "Invalid MFA reset request"), s)
                else settle_with (mfa_error crypto) s (
                    reset_mfa_work
                      (crypto.digest session)
                      user
                      (uuid_value (text_value (get "requestId" body)))
                      (string (get "reason" body))
                      s)).1
      go true = h
      go false = settled-IsLimited (mfa_error crypto) s _ h (λ a s' ran.
          reset_mfa_work-IsLimited (crypto.digest session) user
            (uuid_value (text_value (get "requestId" body))) (string (get "reason" body)) s a s' h
            ran)
