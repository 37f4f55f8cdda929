-- ===== src/Api/Idempotency/Steps.antt =====
-- IdempotencyInterceptor (packages/api/src/common/interceptors/idempotency.interceptor.ts) with many
-- requests at once: between the awaits of one request, others go on in any order. A schedule
-- names the requests that take their next step, and the time that passes in between.
use marhaba_delivery_v.Prelude.{
  ℕ, zero, suc, ◌+◌, ◌≤◌, String, ◌≡◌, refl, Bool, true, List, [], ◌∷◌, ◌++◌, Option, none, some,
  arith, string_eq, eq_iff, Option-cases, inl, inr, Bool-cases,
}
use marhaba_delivery_v.Prelude.Rows.{
  find_first, count, count-append, count_of_missing, count-update_many,
}
use marhaba_delivery_v.Prelude.Action.{Outcome, ok, throws}
use marhaba_delivery_v.Api.Idempotency.{
  KeyMethodPath, same_key, KeyRow, Keys, row_with, set_nx, create_key, fresh_row, store_response,
  live_lock, persist, idempotency_ttl_seconds,
}

-- How far a request is: before the lookup, after it found no row, with the lock, with its handler
-- running, and answered.
pub data Phase : Type 0 where
  arriving looked locked running answered : Phase

pub record Request : Type 0 where
  pub id : KeyMethodPath
  pub request_hash : String
  pub user_id : Option String
  pub status_code : ℕ
  pub body : Option String
  pub phase : Phase

-- The keys, and the keys of the handlers that were started, in order.
pub record Store : Type 0 where
  pub keys : Keys
  pub started : List KeyMethodPath

abbrev lookup : Option KeyRow → Phase
lookup none = looked
lookup (some r) = answered

abbrev after_lock : Outcome Bool × Keys → Store → Phase × Store
after_lock (ok true, k) st = (locked, record st { keys = k })
after_lock (_, k) st = (answered, record st { keys = k })

abbrev after_create : KeyMethodPath → Outcome KeyRow × Keys → Store → Phase × Store
after_create id (ok r, k) st = (running, record { keys = k; started = st.started ++ id ∷ [] })
after_create id (throws e, k) st = (answered, record st { keys = k })

-- The next step of a request, up to its next await.
unfoldable pub advance : Phase → Request → Store → Phase × Store
advance arriving r st = (lookup (find_first (row_with r.id) st.keys.rows), st)
advance looked r st = after_lock (set_nx r.id idempotency_ttl_seconds st.keys) st
advance locked r st =
    after_create r.id (create_key (fresh_row r.id r.request_hash r.user_id st.keys.now) st.keys) st
advance running r st = (answered, record st { keys = persist r.id r.status_code r.body st.keys })
advance answered r st = (answered, st)

-- The request with a number takes its step; a number without a request is no step.
unfoldable pub move : ℕ → List Request → Store → List Request × Store
move n [] st = ([], st)
move zero (r ∷ requests) st =
    let (phase, st') = advance r.phase r st in (record r { phase = phase } ∷ requests, st')
move (suc n) (r ∷ requests) st = let (requests', st') = move n requests st in (r ∷ requests', st')

-- One turn of a schedule: a request takes its step, or some milliseconds pass.
pub data Turn : Type 0 where
  resume wait : ℕ → Turn

abbrev pub pass_time : ℕ → Store → Store
pass_time ms st = record st { keys = record st.keys { now = st.keys.now + ms } }

unfoldable pub run : List Turn → List Request → Store → List Request × Store
run [] requests st = (requests, st)
run (resume n ∷ schedule) requests st =
    let (requests', st') = move n requests st in run schedule requests' st'
run (wait ms ∷ schedule) requests st = run schedule requests (pass_time ms st)

abbrev pub starts : KeyMethodPath → KeyMethodPath → Bool
starts id x = same_key x id

-- Of a key there is at most one row, and no handler was started without it.
abbrev pub IsSingle : KeyMethodPath → Store → Type 0
IsSingle id st =
    (count (starts id) st.started ≤ count (row_with id) st.keys.rows)
    × (count (row_with id) st.keys.rows ≤ 1)

created-IsSingle :
    (id : KeyMethodPath) (r : Request) (st : Store)
    → find_first (row_with r.id) st.keys.rows ≡ none
    → IsSingle id st
    → (count (starts id) (st.started ++ r.id ∷ [])
        ≤ count
            (row_with id)
            (st.keys.rows ++ fresh_row r.id r.request_hash r.user_id st.keys.now ∷ []))
      × (count
            (row_with id)
            (st.keys.rows ++ fresh_row r.id r.request_hash r.user_id st.keys.now ∷ [])
          ≤ 1)
unfolding count
created-IsSingle id r st fresh h =
    let row = fresh_row r.id r.request_hash r.user_id st.keys.now in
    let logs = count-append (starts id) st.started (r.id ∷ []) in
    let rows = count-append (row_with id) st.keys.rows (row ∷ []) in
    elim (Bool-cases (same_key r.id id)) [
      | inl same ↦
          let e : r.id ≡ id = ground (
            arith,
            eq_iff r.id.key id.key,
            eq_iff r.id.method id.method,
            eq_iff r.id.path id.path,
          ) in
          let zero_rows = count_of_missing (row_with id) st.keys.rows (rw e at fresh) in
          (ground (arith, logs, rows, h.0), ground (arith, logs, rows, zero_rows))
      | inr other ↦ (ground (arith, logs, rows, h.0), ground (arith, logs, rows, h.1))
    ]

advance-IsSingle :
    (id : KeyMethodPath) (phase : Phase) (r : Request) (st : Store)
    → IsSingle id st
    → IsSingle id (advance phase r st).1
unfolding advance persist
advance-IsSingle id arriving r st h = h
advance-IsSingle id looked r st h =
    elim (Option-cases (find_first (live_lock r.id st.keys.now) st.keys.locks)) [
      | inl free ↦ rw free h
      | inr (l, taken) ↦ rw taken h
    ]
advance-IsSingle id locked r st h = elim (Option-cases (find_first (row_with r.id) st.keys.rows)) [
  | inl fresh ↦ rw fresh (created-IsSingle id r st fresh h)
  | inr (row, there) ↦ rw there h
]
advance-IsSingle id running r st h =
    rw
      (count-update_many (row_with id) (row_with r.id) (store_response r.status_code r.body)
        (λ x. refl) st.keys.rows)
      h
advance-IsSingle id answered r st h = h

move-IsSingle :
    (id : KeyMethodPath) (n : ℕ) (requests : List Request) (st : Store)
    → IsSingle id st
    → IsSingle id (move n requests st).1
unfolding move
move-IsSingle id n [] st h = h
move-IsSingle id zero (r ∷ requests) st h = advance-IsSingle id r.phase r st h
move-IsSingle id (suc n) (r ∷ requests) st h = move-IsSingle id n requests st h

run-IsSingle :
    (id : KeyMethodPath) (schedule : List Turn) (requests : List Request) (st : Store)
    → IsSingle id st
    → IsSingle id (run schedule requests st).1
unfolding run
run-IsSingle id [] requests st h = h
run-IsSingle id (resume n ∷ schedule) requests st h =
    run-IsSingle id schedule (move n requests st).0 (move n requests st).1
      (move-IsSingle id n requests st h)
run-IsSingle id (wait ms ∷ schedule) requests st h =
    run-IsSingle id schedule requests (pass_time ms st) h

-- In every order in which the steps of any number of requests can interleave, with any time
-- between them, so that locks may expire, at most one handler is started for a key, if no handler was started before and the unique index held.
pub starts_once :
    (id : KeyMethodPath) (schedule : List Turn) (requests : List Request) (keys : Keys)
    → count (row_with id) keys.rows ≤ 1
    → count (starts id) (run schedule requests (record { keys = keys; started = [] })).1.started ≤ 1
unfolding count
starts_once id schedule requests keys unique =
    let h =
      run-IsSingle id schedule requests (record { keys = keys; started = [] })
        (omega arith, unique) in
    omega (arith, h.0, h.1)
