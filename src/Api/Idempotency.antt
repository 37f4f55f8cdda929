-- ===== src/Api/Idempotency.antt =====
-- packages/api/src/common/interceptors/idempotency.interceptor.ts: the Idempotency-Key interceptor
-- over the durable table and the lock in Redis. The hash of a request's body and the JSON of a
-- response are texts. The state of the guarded handler is the type `S`; handlers are arguments.
-- `Replay` is about one request at a time, `Steps` interleaves the awaits of many.
pub mod Replay
pub mod Steps
pub mod Alone
use marhaba_delivery_v.Prelude.{
  ℕ, ◌+◌, ◌*◌, String, Bool, true, false, not, ◌&&◌, List, [], ◌∷◌, ◌++◌, Option, none, some, ◌==◌,
  string_eq, nat_eq, is_truthy, ltb, if◌then◌else◌,
}
use marhaba_delivery_v.Prelude.Rows.{find_first, find_many, update_many}
use marhaba_delivery_v.Prelude.Action.{
  Action, Outcome, ok, throws, Exception, conflict, unique_violation, pure, throw, ◌>>=◌, ◌>>◌,
}

-- The unique columns of the table.
pub record KeyMethodPath : Type 0 where
  pub key : String
  pub method : String
  pub path : String

abbrev pub same_key : KeyMethodPath → KeyMethodPath → Bool
same_key a b = a.key == b.key && (a.method == b.method && a.path == b.path)

-- A row; `response_body` is null until the response has been stored.
pub record KeyRow : Type 0 where
  pub id : KeyMethodPath
  pub request_hash : String
  pub user_id : Option String
  pub status_code : Option ℕ
  pub response_body : Option String
  pub expires_at : ℕ

pub record Lock : Type 0 where
  pub id : KeyMethodPath
  pub expires_at : ℕ

-- The time in milliseconds, the table and the locks.
pub record Keys : Type 0 where
  pub now : ℕ
  pub rows : List KeyRow
  pub locks : List Lock

abbrev pub idempotency_ttl_seconds : ℕ
idempotency_ttl_seconds = 24 * 60 * 60

abbrev pub row_with : KeyMethodPath → KeyRow → Bool
row_with id r = same_key r.id id

abbrev pub live_lock : KeyMethodPath → ℕ → Lock → Bool
live_lock id now l = same_key l.id id && ltb now l.expires_at

abbrev pub other_lock : KeyMethodPath → Lock → Bool
other_lock id l = not (same_key l.id id)

abbrev acquire_if : Option Lock → KeyMethodPath → ℕ → Action Keys Bool
acquire_if (some l) id ttl k = (ok false, k)
acquire_if none id ttl k = (
  ok true,
  record k {
    locks = record { id = id; expires_at = k.now + ttl * 1000 } ∷ find_many (other_lock id) k.locks;
  },
)

-- `redis.setNx`: SET with EX and NX.
abbrev pub set_nx : KeyMethodPath → ℕ → Action Keys Bool
set_nx id ttl k = acquire_if (find_first (live_lock id k.now) k.locks) id ttl k

abbrev create_if : Option KeyRow → KeyRow → Action Keys KeyRow
create_if (some r) row k = (throws unique_violation, k)
create_if none row k = (ok row, record k { rows = k.rows ++ row ∷ [] })

-- `create`: the unique index refuses a second row of a key.
abbrev pub create_key : KeyRow → Action Keys KeyRow
create_key row k = create_if (find_first (row_with row.id) k.rows) row k

pub data Prepared : Type 0 where
  replay : ℕ → String → Prepared
  proceed : Prepared

abbrev pub reused : Exception
reused = conflict "Idempotency-Key already used with a different request body"

abbrev pub in_progress : Exception
in_progress = conflict "A request with this Idempotency-Key is already in progress"

-- `existing.statusCode ?? 200`.
abbrev pub or_ok_status : Option ℕ → ℕ
or_ok_status none = 200
or_ok_status (some c) = c

abbrev pub stored_response : KeyRow → Option String → Outcome Prepared
stored_response r none = throws in_progress
stored_response r (some body) = ok (replay (or_ok_status r.status_code) body)

-- The branch of `prepare` on an existing row.
abbrev pub existing_row : KeyRow → String → Outcome Prepared
existing_row r request_hash =
    if r.request_hash == request_hash then stored_response r r.response_body else throws reused

abbrev pub fresh_row : KeyMethodPath → String → Option String → ℕ → KeyRow
fresh_row id request_hash user_id now = record {
  id = id;
  request_hash = request_hash;
  user_id = user_id;
  status_code = none;
  response_body = none;
  expires_at = now + idempotency_ttl_seconds * 1000;
}

abbrev create_locked : Bool → KeyMethodPath → String → Option String → Action Keys Prepared
create_locked false id request_hash user_id k = (throws in_progress, k)
create_locked true id request_hash user_id k =
    (do create_key (fresh_row id request_hash user_id k.now); pure proceed) k

abbrev first_use : KeyMethodPath → String → Option String → Action Keys Prepared
first_use id request_hash user_id = do
  acquired ← set_nx id idempotency_ttl_seconds
  create_locked acquired id request_hash user_id

abbrev prepare_row : Option KeyRow → KeyMethodPath → String → Option String → Action Keys Prepared
prepare_row (some r) id request_hash user_id k = (existing_row r request_hash, k)
prepare_row none id request_hash user_id k = first_use id request_hash user_id k

unfoldable pub prepare : KeyMethodPath → String → Option String → Action Keys Prepared
prepare id request_hash user_id k =
    prepare_row (find_first (row_with id) k.rows) id request_hash user_id k

-- `statusCode, responseBody: body ?? null`.
abbrev pub store_response : ℕ → Option String → KeyRow → KeyRow
store_response status_code body r = record r {
  status_code = some status_code;
  response_body = body;
}

-- `void this.persist(…)`: its failure is not waited for.
unfoldable pub persist : KeyMethodPath → ℕ → Option String → Keys → Keys
persist id status_code body k = record k {
  rows = update_many (row_with id) (store_response status_code body) k.rows;
}

-- What the client gets: status, body, and whether it is a replay.
pub record Response : Type 0 where
  pub status : ℕ
  pub body : Option String
  pub replayed : Bool

-- A handler answers with the response's status and body.
abbrev pub Handler : Type 0 → Type 0
Handler S = Action S (ℕ × Option String)

-- `res.statusCode || 201`.
abbrev pub status_or_created : ℕ → ℕ
status_or_created c = if c == 0 then 201 else c

module _ {S : Type 0} where
  abbrev pub answered :
      KeyMethodPath → Outcome (ℕ × Option String) × S → Keys → Outcome Response × (Keys × S)
  answered id (ok (status, body), s) k = (
    ok (record { status = status; body = body; replayed = false }),
    (persist id (status_or_created status) body k, s),
  )
  answered id (throws e, s) k = (throws e, (k, s))

  abbrev pub after_prepare :
      KeyMethodPath → Outcome Prepared × Keys → Handler S → S → Outcome Response × (Keys × S)
  after_prepare id (throws e, k) handler s = (throws e, (k, s))
  after_prepare id (ok (replay status body), k) handler s =
      (ok (record { status = status; body = some body; replayed = true }), (k, s))
  after_prepare id (ok proceed, k) handler s = answered id (handler s) k

  abbrev pub plain : Outcome (ℕ × Option String) × S → Keys → Outcome Response × (Keys × S)
  plain (ok (status, body), s) k =
      (ok (record { status = status; body = body; replayed = false }), (k, s))
  plain (throws e, s) k = (throws e, (k, s))

  -- `key` is the header; without one the request passes through.
  unfoldable pub intercept :
      Option String
      → String
      → String
      → String
      → Option String
      → Handler S
      → Action (Keys × S) Response
  intercept none method path request_hash user_id handler (k, s) = plain (handler s) k
  intercept (some key) method path request_hash user_id handler (k, s) =
      if is_truthy (some key)
      then after_prepare (record { key = key; method = method; path = path })
          (prepare (record { key = key; method = method; path = path }) request_hash user_id k)
          handler s
      else plain (handler s) k
