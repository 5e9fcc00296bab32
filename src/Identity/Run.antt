-- ===== src/Identity/Run.antt =====
-- All calls of the identity services together, in any order and at any times.
use b2b_stm.Prelude.{ℕ}
use b2b_stm.Identity.{Crypto, Accounts}
use b2b_stm.Identity.Access.{IsLimited}
use b2b_stm.Identity.Lockout.{at_time}
use b2b_stm.Identity.Limited.{login-IsLimited, logout-IsLimited, visit-IsLimited}
use b2b_stm.Identity.Lifecycle.{
  invite-IsLimited, reissue-IsLimited, complete-IsLimited, status-IsLimited,
}
use b2b_stm.Identity.Factors.{execute_mfa-IsLimited, reset_mfa-IsLimited}
use b2b_stm.Identity.Login.{login, logout}
use b2b_stm.Identity.Guard.{session_guard}
use b2b_stm.Identity.Requests.{invite, reissue, complete, set_status}
use b2b_stm.Identity.Mfa.{execute_mfa}
use b2b_stm.Identity.Reset.{
  reset_mfa, IdentityCall, login_call, logout_call, visit_call, invite_call, reissue_call,
  complete_call, status_call, mfa_call, reset_call, run_identity,
}

module _ (crypto : Crypto) where
  call-IsLimited :
      (call : IdentityCall) (s : Accounts) → IsLimited s → IsLimited (run_identity crypto call s)
  unfolding login logout session_guard invite reissue complete set_status execute_mfa reset_mfa
  call-IsLimited (login_call email password ip token) s h =
      login-IsLimited crypto email password ip token s h
  call-IsLimited (logout_call token) s h = logout-IsLimited crypto token s h
  call-IsLimited (visit_call cookie) s h = visit-IsLimited crypto cookie s h
  call-IsLimited (invite_call session body token) s h =
      invite-IsLimited crypto session body token s h
  call-IsLimited (reissue_call session user purpose token) s h =
      reissue-IsLimited crypto session user purpose token s h
  call-IsLimited (complete_call body purpose) s h = complete-IsLimited crypto body purpose s h
  call-IsLimited (status_call session user body) s h = status-IsLimited crypto session user body s h
  call-IsLimited (mfa_call configured token action body drawn) s h =
      execute_mfa-IsLimited crypto configured token action body drawn s h
  call-IsLimited (reset_call session user body) s h =
      reset_mfa-IsLimited crypto session user body s h

  -- The states that calls lead to; between two calls the time may be any.
  pub data Leads (s : Accounts) : Accounts → Type 0 where
    start : Leads s s
    then_call :
        (call : IdentityCall) (now : ℕ) (t : Accounts)
        → Leads s t
        → Leads s (run_identity crypto call (at_time now t))

  -- Whatever calls are made, in whatever order, no account ever has two sessions that are not revoked or two
  -- tokens that are neither used nor revoked, if none had before.
  pub leads-IsLimited : (s t : Accounts) → IsLimited s → Leads s t → IsLimited t
  leads-IsLimited s _ h start = h
  leads-IsLimited s _ h (then_call call now t before) =
      let earlier = leads-IsLimited s t h before in
      call-IsLimited call (at_time now t)
        (record { one_session = λ k. earlier.one_session k; one_token = λ k. earlier.one_token k })
