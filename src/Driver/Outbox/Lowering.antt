-- ===== src/Driver/Outbox/Lowering.antt =====
-- flushOutbox (packages/driver-app/src/lib/outbox.ts): every flush with a row to send lowers the number
-- of failures that the pending rows can still take. The ids are those of the table of
-- packages/driver-app/src/lib/db.ts, an autoincrement key.
use mathlib.Core.List.{Memᴰ}
use marhaba_delivery_v.Prelude.{
  ℕ, ◌+◌, ◌-◌, ◌≤◌, ◌<◌, ◌≡◌, refl, sym, subst, Bool, true, false, List, [], ◌∷◌, Option, String,
  arith, All, take, length, if◌then◌else◌, nat_eq, Option-cases, inl, inr,
}
use marhaba_delivery_v.Prelude.Rows.{
  find_many, update_many, count, count-update_many, All-mem, find_many_meets, mem_of_find_many,
  mem_of_take,
}
use marhaba_delivery_v.Prelude.Sorting.{sort_by, mem_of_sort_by}
use marhaba_delivery_v.Prelude.Counting.{
  count-take, count-find_many, count-sort_by, mem-update_many, total, total-update_many,
}
use marhaba_delivery_v.Driver.Outbox.{
  Outbox, OutboxRow, Request, batch, is_pending, row_with_id, max_attempts, flush_rows,
  flush_outbox, mark_sent, mark_failed, after_success, after_failure, request_of,
}
use marhaba_delivery_v.Driver.Outbox.Order.{flush_accepted, flush_failed}
use marhaba_delivery_v.Driver.Outbox.Attempts.{IsBounded, IsTriable}

-- No two rows share an id.
abbrev pub IsKeyed : List OutboxRow → Type 0
IsKeyed rows = (id : ℕ) → count (row_with_id id) rows ≤ 1

abbrev pub pending_row : OutboxRow → Bool
pending_row r = is_pending r.status

-- How many failures a row can still take.
abbrev pub left : OutboxRow → ℕ
left r = if is_pending r.status then max_attempts - r.attempts else 0

-- A row of a batch that is still to be tried: it is in the table as it was read, pending and tried less
-- than 8 times.
pub record IsDue (rows : List OutboxRow) (r : OutboxRow) : Type 0 where
  pub there : Memᴰ r rows
  pub pending : pending_row r ≡ true
  pub tried : r.attempts < max_attempts

batch-IsKeyed : (o : Outbox) → IsKeyed o.rows → IsKeyed (batch o)
unfolding batch
batch-IsKeyed o keyed id =
    let due = find_many (λ r. is_pending r.status) o.rows in
    let sorted = sort_by (λ r. r.created_at) due in
    omega (
      arith,
      keyed id,
      count-take (row_with_id id) 50 sorted,
      count-sort_by (row_with_id id) (λ r. r.created_at) due,
      count-find_many (row_with_id id) (λ r. is_pending r.status) o.rows,
    )

IsDue-of_batch : (o : Outbox) (r : OutboxRow) → IsBounded o → Memᴰ r (batch o) → IsDue o.rows r
unfolding batch
IsDue-of_batch o r bounded m =
    let p : OutboxRow → Bool = λ x. is_pending x.status in
    let found =
      mem_of_sort_by (λ x. x.created_at) r (find_many p o.rows)
        (mem_of_take 50 (sort_by (λ x. x.created_at) (find_many p o.rows)) r m) in
    let there = mem_of_find_many p o.rows r found in
    let pending = find_many_meets p o.rows r found in
    record {
      there = there;
      pending = pending;
      tried = ground (arith, pending, All-mem IsTriable o.rows r bounded there);
    }

All-of_mem :
    {V : Type 0} (P : V → Type 0) (rows : List V) → ((r : V) → Memᴰ r rows → P r) → All P rows
All-of_mem P [] h = tt
All-of_mem P (r ∷ rows) h = (h r (Memᴰ.head refl), All-of_mem P rows (λ x m. h x (Memᴰ.tail m)))

-- The other rows of a batch are still due after the first one was marked as sent.
others-IsDue :
    (r : OutboxRow) (rest rows : List OutboxRow)
    → IsKeyed (r ∷ rest)
    → All (IsDue rows) rest
    → All (IsDue (update_many (row_with_id r.id) mark_sent rows)) rest
unfolding count
others-IsDue r [] rows keyed due = tt
others-IsDue r (x ∷ rest) rows keyed due =
    let other : row_with_id r.id x ≡ false = ground (arith, keyed r.id) in
    (
      record {
        there = mem-update_many (row_with_id r.id) mark_sent x rows due.0.there other;
        pending = due.0.pending;
        tried = due.0.tried;
      },
      others-IsDue r rest rows (λ id. omega (arith, keyed id)) due.1,
    )

module _ (slice : String → String) (network : Request → Option String) where
  sent_lowers :
      (r : OutboxRow) (o : Outbox)
      → IsKeyed o.rows
      → IsDue o.rows r
      → total left (after_success r o).rows < total left o.rows
  sent_lowers r o keyed due =
      let moved =
        total-update_many left (row_with_id r.id) mark_sent r o.rows due.there (ground arith)
          (keyed r.id) in
      ground (arith, moved, due.pending, due.tried)

  failed_lowers :
      (r : OutboxRow) (message : String) (o : Outbox)
      → IsKeyed o.rows
      → IsDue o.rows r
      → total left (after_failure slice r message o).rows < total left o.rows
  failed_lowers r message o keyed due =
      let moved =
        total-update_many left (row_with_id r.id) (mark_failed (r.attempts + 1) (slice message)) r
          o.rows due.there (ground arith) (keyed r.id) in
      ground (arith, moved, due.pending, due.tried)

  sent-IsKeyed : (r : OutboxRow) (o : Outbox) → IsKeyed o.rows → IsKeyed (after_success r o).rows
  sent-IsKeyed r o keyed id = omega (
    arith,
    keyed id,
    count-update_many (row_with_id id) (row_with_id r.id) mark_sent (λ x. refl) o.rows,
  )

  failed-IsKeyed :
      (r : OutboxRow) (message : String) (o : Outbox)
      → IsKeyed o.rows
      → IsKeyed (after_failure slice r message o).rows
  failed-IsKeyed r message o keyed id = omega (
    arith,
    keyed id,
    count-update_many (row_with_id id) (row_with_id r.id)
        (mark_failed (r.attempts + 1) (slice message)) (λ x. refl) o.rows,
  )

  flush_rows-IsKeyed :
      (rows : List OutboxRow) (sent : ℕ) (o : Outbox)
      → IsKeyed o.rows
      → IsKeyed (flush_rows slice network rows sent o).1.rows
  unfolding flush_rows
  flush_rows-IsKeyed [] sent o keyed = keyed
  flush_rows-IsKeyed (r ∷ rows) sent o keyed = elim (Option-cases (network (request_of r))) [
    | inl accepted ↦
        subst (λ x. IsKeyed x.1.rows) (sym (flush_accepted slice network r rows sent o accepted))
          (flush_rows-IsKeyed rows (sent + 1) (after_success r o) (sent-IsKeyed r o keyed))
    | inr (message, failed) ↦
        subst (λ x. IsKeyed x.1.rows)
          (sym (flush_failed slice network r rows sent o message failed))
          (failed-IsKeyed r message o keyed)
  ]

  -- A flush of due rows lowers what is left, and lowers it strictly if there is a row.
  flush_rows_lower :
      (rows : List OutboxRow) (sent : ℕ) (o : Outbox)
      → IsKeyed o.rows
      → IsKeyed rows
      → All (IsDue o.rows) rows
      → total left (flush_rows slice network rows sent o).1.rows + length (take 1 rows)
        ≤ total left o.rows
  unfolding flush_rows count
  flush_rows_lower [] sent o keyed apart due = omega arith
  flush_rows_lower (r ∷ rows) sent o keyed apart due =
      elim (Option-cases (network (request_of r))) [
        | inl accepted ↦
            let o' = after_success r o in
            let rest =
              flush_rows_lower rows (sent + 1) o' (sent-IsKeyed r o keyed)
                (λ id. omega (arith, apart id)) (others-IsDue r rows o.rows apart due.1) in
            subst (λ x. total left x.1.rows + 1 ≤ total left o.rows)
              (sym (flush_accepted slice network r rows sent o accepted))
              (omega (arith, rest, sent_lowers r o keyed due.0))
        | inr (message, failed) ↦
            subst (λ x. total left x.1.rows + 1 ≤ total left o.rows)
              (sym (flush_failed slice network r rows sent o message failed))
              (omega (arith, failed_lowers r message o keyed due.0))
      ]

  pub flush_outbox-IsKeyed :
      (o : Outbox) → IsKeyed o.rows → IsKeyed (flush_outbox slice network o).1.rows
  unfolding flush_outbox
  flush_outbox-IsKeyed o keyed = flush_rows-IsKeyed (batch o) 0 o keyed

  pub flush_outbox_lowers :
      (o : Outbox)
      → IsKeyed o.rows
      → IsBounded o
      → total left (flush_outbox slice network o).1.rows + length (take 1 (batch o))
        ≤ total left o.rows
  unfolding flush_outbox
  flush_outbox_lowers o keyed bounded =
      flush_rows_lower (batch o) 0 o keyed (batch-IsKeyed o keyed)
        (All-of_mem (IsDue o.rows) (batch o) (λ r m. IsDue-of_batch o r bounded m))
