-- ===== src/Api/Idempotency/Replay.antt =====
-- IdempotencyInterceptor (packages/api/src/common/interceptors/idempotency.interceptor.ts): what a
-- request gets whose key was used before.
use marhaba_delivery_v.Prelude.{
  ℕ, String, ◌≡◌, refl, true, [], ◌∷◌, ◌++◌, Option, none, some, arith, string_eq, eq_iff,
  is_truthy,
}
use marhaba_delivery_v.Prelude.Rows.{find_first, find_first-append, find_first-update_many}
use marhaba_delivery_v.Prelude.Action.{Outcome, ok, throws, Exception}
use marhaba_delivery_v.Api.Idempotency.{
  KeyMethodPath, KeyRow, Prepared, replay, proceed, Keys, Response, Handler, row_with, live_lock,
  intercept, prepare, persist, fresh_row, store_response, status_or_created, in_progress,
  existing_row,
}

-- The response to a request whose key is known.
abbrev pub answer_of : Outcome Prepared → Outcome Response
answer_of (throws e) = throws e
answer_of (ok proceed) = throws in_progress
answer_of (ok (replay status body)) =
    ok (record { status = status; body = some body; replayed = true })

module _ {S : Type 0} (key method path hash : String) (user : Option String) (k : Keys)
    (s : S) where
  abbrev pub id : KeyMethodPath
  id = record { key = key; method = method; path = path }

  -- A key whose row is there with another hash is a 409; with the same hash it is the stored response,
  -- or a 409 while there is none. The handler is not run and nothing is written.
  pub intercept_known :
      (handler : Handler S) (r : KeyRow)
      → is_truthy (some key) ≡ true
      → find_first (row_with id) k.rows ≡ some r
      → intercept (some key) method path hash user handler (k, s)
        ≡ (answer_of (existing_row r hash), (k, s))
  unfolding intercept prepare
  intercept_known handler r truthy there = ground arith

  stored_row :
      (handler : Handler S) (status : ℕ) (body : Option String) (s' : S)
      → is_truthy (some key) ≡ true
      → find_first (row_with id) k.rows ≡ none
      → find_first (live_lock id k.now) k.locks ≡ none
      → handler s ≡ (ok (status, body), s')
      → find_first
          (row_with id)
          (intercept (some key) method path hash user handler (k, s)).1.0.rows
        ≡ some (store_response (status_or_created status) body (fresh_row id hash user k.now))
  unfolding intercept prepare persist
  stored_row handler status body s' truthy fresh free run = ground (
    arith,
    find_first-append (row_with id) k.rows (fresh_row id hash user k.now),
    find_first-update_many (row_with id) (row_with id)
        (store_response (status_or_created status) body) (λ r. refl)
        (k.rows ++ fresh_row id hash user k.now ∷ []),
    eq_iff key key,
    eq_iff method method,
    eq_iff path path,
  )

  stuck_row :
      (handler : Handler S) (e : Exception) (s' : S)
      → is_truthy (some key) ≡ true
      → find_first (row_with id) k.rows ≡ none
      → find_first (live_lock id k.now) k.locks ≡ none
      → handler s ≡ (throws e, s')
      → find_first
          (row_with id)
          (intercept (some key) method path hash user handler (k, s)).1.0.rows
        ≡ some (fresh_row id hash user k.now)
  unfolding intercept prepare
  stuck_row handler e s' truthy fresh free run = ground (
    arith,
    find_first-append (row_with id) k.rows (fresh_row id hash user k.now),
    eq_iff key key,
    eq_iff method method,
    eq_iff path path,
  )

-- Two requests with one key: the first at (k, s), the second at (l, t), later, with the table as the
-- first has left it; the time and the locks may be others.
module _ {S : Type 0} (key method path hash : String) (user : Option String) (k l : Keys) (s t : S)
    (first second : Handler S) (truthy : is_truthy (some key) ≡ true)
    (fresh : find_first (row_with (id key method path hash user k s)) k.rows ≡ none)
    (free : find_first (live_lock (id key method path hash user k s) k.now) k.locks ≡ none)
    (later : l.rows ≡ (intercept (some key) method path hash user first (k, s)).1.0.rows) where
  -- With the table as a first request has left it that succeeded with a body, the same request is
  -- answered with that body and status, marked as a replay, and its handler is not run.
  pub replays :
      (status : ℕ) (body : String) (s' : S)
      → first s ≡ (ok (status, some body), s')
      → intercept (some key) method path hash user second (l, t) ≡ (
        ok (record { status = status_or_created status; body = some body; replayed = true }),
        (l, t),
      )
  replays status body s' run =
      let row =
        stored_row key method path hash user k s first status (some body) s' truthy fresh free
          run in
      let known =
        intercept_known key method path hash user l t second
          (store_response (status_or_created status) (some body)
            (fresh_row (id key method path hash user k s) hash user k.now))
          truthy (rw later row) in
      ground (arith, known, eq_iff hash hash)

  -- With the table as a first request has left it whose handler failed, the same request is not
  -- run, however late it comes: it is answered that the first one is still in progress.
  pub failure_blocks :
      (e : Exception) (s' : S)
      → first s ≡ (throws e, s')
      → intercept (some key) method path hash user second (l, t) ≡ (throws in_progress, (l, t))
  failure_blocks e s' run =
      let row = stuck_row key method path hash user k s first e s' truthy fresh free run in
      let known =
        intercept_known key method path hash user l t second
          (fresh_row (id key method path hash user k s) hash user k.now) truthy (rw later row) in
      ground (arith, known, eq_iff hash hash)
