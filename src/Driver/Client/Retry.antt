-- ===== src/Driver/Client/Retry.antt =====
-- The fetch wrappers of packages/driver-app/src/lib/api.ts and packages/web-dashboard/src/lib/api.ts:
-- how many calls a request makes.
use marhaba_delivery_v.Prelude.{
  ℕ, ◌≡◌, List, [], ◌∷◌, ◌++◌, none, some, arith, if◌then◌else◌, Bool, true, false, ◌&&◌, not,
  String, ◌==◌, nat_eq, is_truthy,
}
use marhaba_delivery_v.Driver.Client.{
  Answer, Call, request, refresh, Client, failure, api_fetch, dashboard_request, is_ok, result_of,
}

module _ (fetch : List Call → Answer) (s : Client) where
  abbrev pub first_call : List Call
  first_call = s.calls ++ request s.access ∷ []

  abbrev pub first_answer : ℕ
  first_answer = (fetch first_call).status

  -- A request whose first answer is not a 401 makes that one call, and keeps the tokens.
  pub api_fetch_direct :
      first_answer == 401 ≡ false
      → api_fetch fetch s ≡ (result_of first_answer, record s { calls = first_call })
  unfolding api_fetch
  api_fetch_direct other = ground arith

  -- After a 401 with a refresh token there is one refresh; if it succeeds, the request is made once
  -- more, with the new access token, and its answer is final.
  pub api_fetch_refresh :
      (token : String)
      → first_answer ≡ 401
      → s.refresh_token ≡ some token
      → is_truthy (some token) ≡ true
      → let asked = first_call ++ refresh (some token) ∷ [] in
        let fresh = (fetch asked).access_token in
        let again = asked ++ request (some fresh) ∷ [] in
        api_fetch fetch s ≡ (
          if is_ok (fetch asked).status
          then (result_of (fetch again).status, record s { access = some fresh; calls = again })
          else (failure 401, record s { calls = asked }))
  unfolding api_fetch
  api_fetch_refresh token unauthorised has truthy = ground arith

  -- Without a refresh token, a 401 is the answer.
  pub api_fetch_signed_out :
      first_answer ≡ 401
      → s.refresh_token ≡ none
      → api_fetch fetch s ≡ (failure 401, record s { calls = first_call })
  unfolding api_fetch
  api_fetch_signed_out unauthorised none_left = ground arith

  -- The dashboard makes one call, or a call and a refresh, or a call, a refresh and a second call; it
  -- never refreshes for a path under /auth/.
  pub dashboard_request_calls :
      (is_auth : Bool)
      → (dashboard_request fetch is_auth s).1.calls ≡ (
          if first_answer == 401 && not is_auth
          then (if is_ok (fetch (first_call ++ refresh none ∷ [])).status
              then (first_call ++ refresh none ∷ []) ++ request s.access ∷ []
              else first_call ++ refresh none ∷ [])
          else first_call)
  unfolding dashboard_request
  dashboard_request_calls is_auth = ground arith
