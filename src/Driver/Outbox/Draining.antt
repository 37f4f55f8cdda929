-- ===== src/Driver/Outbox/Draining.antt =====
-- flushOutbox (packages/driver-app/src/lib/outbox.ts), called again and again as the app does: the
-- outbox runs empty however the network behaves.
use marhaba_delivery_v.Prelude.{
  ℕ, suc, ◌*◌, ◌≤◌, ◌≡◌, refl, Bool, true, List, [], ◌∷◌, Option, String, arith, All, take, length,
  ◌==◌, nat_eq, Bool-cases, inl, inr,
}
use marhaba_delivery_v.Prelude.Rows.{find_many, count}
use marhaba_delivery_v.Prelude.Sorting.{sort_by}
use marhaba_delivery_v.Prelude.Counting.{count-sort_by, total}
use marhaba_delivery_v.Driver.Outbox.{
  Outbox, OutboxRow, Request, batch, is_pending, flush_outbox, pending_count,
}
use marhaba_delivery_v.Driver.Outbox.Attempts.{IsBounded, IsTriable, flush_outbox-IsBounded}
use marhaba_delivery_v.Driver.Outbox.Lowering.{
  IsKeyed, pending_row, left, flush_outbox-IsKeyed, flush_outbox_lowers,
}

nothing_left :
    (rows : List OutboxRow) → All IsTriable rows → total left rows ≡ 0 → count pending_row rows ≡ 0
unfolding total count
nothing_left [] tried none_ = refl
nothing_left (r ∷ rows) tried none_ = ground (arith, nothing_left rows tried.1, tried.0)

pub left-le : (rows : List OutboxRow) → total left rows ≤ 8 * count pending_row rows
unfolding total count
left-le [] = omega arith
left-le (r ∷ rows) = ground (arith, left-le rows)

count_found : {V : Type 0} (p : V → Bool) (rows : List V) → length (find_many p rows) ≡ count p rows
unfolding count find_many
count_found p [] = refl
count_found p (r ∷ rows) = ground (arith, count_found p rows)

any_taken :
    {V : Type 0} (n : ℕ) (rows : List V) → length (take 1 (take (suc n) rows)) ≡ 0 → length rows ≡ 0
any_taken n [] e = refl
any_taken n (r ∷ rows) e = omega arith

count_all : {V : Type 0} (rows : List V) → count (λ r. true) rows ≡ length rows
unfolding count
count_all [] = refl
count_all (r ∷ rows) = omega (arith, count_all rows)

-- A batch is empty only if no row is pending.
batch_empty : (o : Outbox) → length (take 1 (batch o)) ≡ 0 → count pending_row o.rows ≡ 0
unfolding batch
batch_empty o e =
    let due = find_many (λ r. is_pending r.status) o.rows in
    let sorted = sort_by (λ r. r.created_at) due in
    omega (
      arith,
      any_taken 49 sorted e,
      count_all sorted,
      count_all due,
      count-sort_by (λ r. true) (λ r. r.created_at) due,
      count_found (λ r. is_pending r.status) o.rows,
    )

module _ (slice : String → String) where
  -- One flush after the other, over a network that may behave differently each time.
  unfoldable pub flush_all : List (Request → Option String) → Outbox → Outbox
  flush_all [] o = o
  flush_all (network ∷ networks) o = flush_all networks (flush_outbox slice network o).1

  flush_all_ends :
      (networks : List (Request → Option String)) (o : Outbox)
      → IsKeyed o.rows
      → IsBounded o
      → total left o.rows ≤ length networks
      → pending_count (flush_all networks o) ≡ 0
  unfolding flush_all pending_count
  flush_all_ends [] o keyed bounded enough = nothing_left o.rows bounded (omega (arith, enough))
  flush_all_ends (network ∷ networks) o keyed bounded enough =
      let o' = (flush_outbox slice network o).1 in
      let lower = flush_outbox_lowers slice network o keyed bounded in
      flush_all_ends networks o' (flush_outbox-IsKeyed slice network o keyed)
        (flush_outbox-IsBounded slice network o bounded)
        (elim (Bool-cases (length (take 1 (batch o)) == 0)) [
          | inl empty ↦
              let idle = batch_empty o (ground (arith, empty)) in
              omega (arith, lower, left-le o.rows, idle)
          | inr some_ ↦ ground (arith, lower, enough, some_)
        ])

  -- Whatever the network does, an outbox with n pending rows, none of them tried 8 times and no two rows
  -- with one id, has no pending row after 8 n flushes or more: each was accepted or is dead.
  pub flush_all_drains :
      (networks : List (Request → Option String)) (o : Outbox)
      → IsKeyed o.rows
      → IsBounded o
      → 8 * pending_count o ≤ length networks
      → pending_count (flush_all networks o) ≡ 0
  unfolding pending_count
  flush_all_drains networks o keyed bounded enough =
      flush_all_ends networks o keyed bounded (omega (arith, enough, left-le o.rows))
