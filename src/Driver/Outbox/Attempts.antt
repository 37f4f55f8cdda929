-- ===== src/Driver/Outbox/Attempts.antt =====
-- enqueue and flushOutbox (packages/driver-app/src/lib/outbox.ts): a row is tried at most 8 times.
use marhaba_delivery_v.Prelude.{
  ℕ, ◌+◌, ◌<◌, sym, subst, List, [], ◌∷◌, Option, arith, if◌then◌else◌, Option-cases, inl, inr,
  String, All, All-append,
}
use marhaba_delivery_v.Prelude.Rows.{All-update_many}
use marhaba_delivery_v.Driver.Outbox.Order.{flush_accepted, flush_failed}
use marhaba_delivery_v.Driver.Outbox.{
  Outbox, OutboxRow, OutboxType, OutboxPayload, Request, flush_rows, flush_outbox, batch,
  request_of, after_success, enqueue, max_attempts, is_pending, mark_failed, mark_sent, row_with_id,
}

-- A row that is still to be sent was tried less than 8 times.
abbrev pub IsTriable : OutboxRow → Type 0
IsTriable r = (if is_pending r.status then r.attempts else 0) < max_attempts

abbrev pub IsBounded : Outbox → Type 0
IsBounded o = All IsTriable o.rows

sent-IsTriable :
    (r x : OutboxRow) → IsTriable x → IsTriable (if row_with_id r.id x then mark_sent x else x)
sent-IsTriable r x h = ground arith

failed-IsTriable :
    (r : OutboxRow) (message : String) (x : OutboxRow)
    → IsTriable x
    → IsTriable (if row_with_id r.id x then mark_failed (r.attempts + 1) message x else x)
failed-IsTriable r message x h = ground arith

module _ (slice : String → String) (network : Request → Option String) where
  flush_rows-IsBounded :
      (rows : List OutboxRow) (count : ℕ) (o : Outbox)
      → IsBounded o
      → IsBounded (flush_rows slice network rows count o).1
  unfolding flush_rows
  flush_rows-IsBounded [] count o h = h
  flush_rows-IsBounded (r ∷ rows) count o h = elim (Option-cases (network (request_of r))) [
    | inl accepted ↦
        subst (λ x. IsBounded x.1) (sym (flush_accepted slice network r rows count o accepted))
          (flush_rows-IsBounded rows (count + 1) (after_success r o) (
            All-update_many IsTriable IsTriable (row_with_id r.id) mark_sent (sent-IsTriable r)
              o.rows h))
    | inr (message, failed) ↦
        subst (λ x. IsBounded x.1) (sym (flush_failed slice network r rows count o message failed))
          (All-update_many IsTriable IsTriable (row_with_id r.id)
            (mark_failed (r.attempts + 1) (slice message)) (failed-IsTriable r (slice message))
            o.rows h)
  ]

  -- A flush keeps every pending row below 8 attempts: the eighth failure makes it dead.
  pub flush_outbox-IsBounded :
      (o : Outbox) → IsBounded o → IsBounded (flush_outbox slice network o).1
  unfolding flush_outbox
  flush_outbox-IsBounded o h = flush_rows-IsBounded (batch o) 0 o h

-- So does a new row.
pub enqueue-IsBounded :
    (type : OutboxType) (payload : OutboxPayload) (key : Option String) (now : ℕ) (o : Outbox)
    → IsBounded o
    → IsBounded (enqueue type payload key now o)
unfolding enqueue
enqueue-IsBounded type payload key now o h = All-append IsTriable o.rows _ h (ground arith, tt)
