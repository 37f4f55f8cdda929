-- ===== src/Driver/Client.antt =====
-- The fetch wrappers of packages/driver-app/src/lib/api.ts and
-- packages/web-dashboard/src/lib/api.ts: one refresh after a 401, then one more try.
pub mod Retry
use marhaba_delivery_v.Prelude.{
  ℕ, ◌+◌, String, Bool, true, false, not, ◌&&◌, List, [], ◌∷◌, ◌++◌, Option, none, some, ◌==◌,
  nat_eq, is_truthy, leb, ltb, if◌then◌else◌,
}

-- A response's status, and the access token that a refresh answers with.
pub record Answer : Type 0 where
  pub status : ℕ
  pub access_token : String

pub data Call : Type 0 where
  request : Option String → Call
  refresh : Option String → Call

-- The stored tokens and the calls made so far.
pub record Client : Type 0 where
  pub access : Option String
  pub refresh_token : Option String
  pub calls : List Call

-- `fetch` answers by how many calls were made before it; `res.ok` is a status from 200 to 299.
abbrev pub is_ok : ℕ → Bool
is_ok status = leb 200 status && ltb status 300

abbrev pub record_call : Call → Client → Client
record_call c s = record s { calls = s.calls ++ c ∷ [] }

pub data FetchResult : Type 0 where
  success : ℕ → FetchResult
  failure : ℕ → FetchResult

abbrev pub result_of : ℕ → FetchResult
result_of status = if is_ok status then success status else failure status

module _ (fetch : List Call → Answer) where
  -- The first call of a request: its status.
  abbrev pub attempt : Client → ℕ × Client
  attempt s = let s' = record_call (request s.access) s in ((fetch s'.calls).status, s')

  -- The second try, with `retry` false.
  abbrev pub retry_once : Client → FetchResult × Client
  retry_once s = let (status, s') = attempt s in (result_of status, s')

  abbrev pub after_refresh : Answer → ℕ → Client → FetchResult × Client
  after_refresh a status s =
      if is_ok a.status
      then retry_once (record s { access = some a.access_token })
      else (result_of status, s)

  -- The driver app sends its refresh token in the body.
  abbrev pub refresh_with : Option String → ℕ → Client → FetchResult × Client
  refresh_with none status s = (result_of status, s)
  refresh_with (some token) status s =
      if is_truthy (some token)
      then (let s' = record_call (refresh (some token)) s in
          after_refresh (fetch s'.calls) status s')
      else (result_of status, s)

  -- apiFetch of the driver app.
  unfoldable pub api_fetch : Client → FetchResult × Client
  api_fetch s =
      let (status, s') = attempt s in
      if status == 401 then refresh_with s'.refresh_token status s' else (result_of status, s')

  -- The refresh of the dashboard goes by cookie; the access token is a cookie too.
  abbrev pub after_cookie_refresh : Answer → ℕ → Client → FetchResult × Client
  after_cookie_refresh a status s = if is_ok a.status then retry_once s else (result_of status, s)

  -- request of the dashboard; `is_auth` is `path.startsWith('/auth/')`.
  unfoldable pub dashboard_request : Bool → Client → FetchResult × Client
  dashboard_request is_auth s =
      let (status, s') = attempt s in
      if status == 401 && not is_auth
      then (let s2 = record_call (refresh none) s' in
          after_cookie_refresh (fetch s2.calls) status s2)
      else (result_of status, s')
