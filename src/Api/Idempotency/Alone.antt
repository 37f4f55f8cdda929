-- ===== src/Api/Idempotency/Alone.antt =====
-- IdempotencyInterceptor (packages/api/src/common/interceptors/idempotency.interceptor.ts): a request
-- whose steps no other request comes between is handled as the interceptor as a whole handles it.
use marhaba_delivery_v.Prelude.{
  String, ◌≡◌, refl, [], ◌∷◌, arith, nat_eq, string_eq, Option-cases, inl, inr,
}
use marhaba_delivery_v.Prelude.Rows.{find_first}
use marhaba_delivery_v.Prelude.Action.{Outcome, ok}
use marhaba_delivery_v.Api.Idempotency.{
  row_with, live_lock, prepare, Prepared, proceed, KeyRow, existing_row,
}
use marhaba_delivery_v.Api.Idempotency.Steps.{
  Request, Phase, arriving, running, answered, Store, advance, move, run, resume,
}

-- The answer that a request alone has after its steps: how far `prepare` has brought it.
abbrev phase_after : Outcome Prepared → Phase
phase_after (ok proceed) = running
phase_after _ = answered

abbrev pub arrived : Request → Request
arrived r = record r { phase = arriving }

answered_row : (row : KeyRow) (hash : String) → phase_after (existing_row row hash) ≡ answered
answered_row row hash = ground arith

module _ (r : Request) (st : Store) where
  -- Three steps of a request that is alone do what `prepare` does: the same rows and locks, and its
  -- handler runs exactly if `prepare` lets it proceed.
  pub alone_prepares :
      let (requests, st') = run (resume 0 ∷ resume 0 ∷ resume 0 ∷ []) (arrived r ∷ []) st in
      let (outcome, keys) = prepare r.id r.request_hash r.user_id st.keys in
      (st'.keys ≡ keys) × (requests ≡ record r { phase = phase_after outcome } ∷ [])
  unfolding run move advance prepare
  alone_prepares = elim (Option-cases (find_first (row_with r.id) st.keys.rows)) [
    | inl fresh ↦ elim (Option-cases (find_first (live_lock r.id st.keys.now) st.keys.locks)) [
      | inl free ↦ rw (fresh, free, fresh) (refl, refl)
      | inr (lock, held) ↦ rw (fresh, held) (refl, refl)
    ]
    | inr (row, there) ↦ rw (there, answered_row row r.request_hash) (refl, refl)
  ]
