-- ===== src/Driver/Outbox/Order.antt =====
-- flushOutbox (packages/driver-app/src/lib/outbox.ts): which rows one flush sends, and in which order.
use marhaba_delivery_v.Prelude.{
  ℕ, ◌+◌, ◌≤◌, ◌≡◌, refl, ◌∙◌, sym, subst, List, [], ◌∷◌, ◌++◌, Option, none, some, arith,
  Option-cases, inl, inr, String, take, length, append_assoc, append-nil, length-take, ◌⊎◌, suc,
}
use marhaba_delivery_v.Driver.Outbox.{
  Outbox, OutboxRow, Request, FlushResult, flush_rows, flush_outbox, batch, request_of,
  after_success, after_failure,
}

-- A flush of the rows that returned `r` and left the log `after`: it sent a first part of the rows,
-- in order, and went on to the end of the rows unless one failed.
pub record IsPrefix (rows : List OutboxRow) (before after : List OutboxRow) (count : ℕ)
    (r : FlushResult) : Type 0 where
  pub done : ℕ
  pub sent : r.sent ≡ count + done
  pub logged : after ≡ before ++ take done rows
  pub bounded : done + r.failed ≤ length rows
  pub stops : (r.failed ≡ 0) × (done ≡ length rows) ⊎ (r.failed ≡ 1)

batch_le : (o : Outbox) → length (batch o) ≤ 50
unfolding batch
batch_le o = length-take 50 _

module _ (slice : String → String) (network : Request → Option String) where
  pub flush_accepted :
      (r : OutboxRow) (rows : List OutboxRow) (count : ℕ) (o : Outbox)
      → network (request_of r) ≡ none
      → flush_rows slice network (r ∷ rows) count o
        ≡ flush_rows slice network rows (count + 1) (after_success r o)
  unfolding flush_rows
  flush_accepted r rows count o accepted = ground (arith, accepted)

  pub flush_failed :
      (r : OutboxRow) (rows : List OutboxRow) (count : ℕ) (o : Outbox) (message : String)
      → network (request_of r) ≡ some message
      → flush_rows slice network (r ∷ rows) count o
        ≡ (record { sent = count; failed = 1 }, after_failure slice r message o)
  unfolding flush_rows
  flush_failed r rows count o message failed = ground (arith, failed)

  flush_rows-IsPrefix :
      (rows : List OutboxRow) (count : ℕ) (o : Outbox)
      → IsPrefix rows o.log
          (flush_rows slice network rows count o).1.log
          count
          (flush_rows slice network rows count o).0
  unfolding flush_rows
  flush_rows-IsPrefix [] count o = record {
    done = 0;
    sent = omega arith;
    logged = rw (append-nil o.log) refl;
    bounded = omega arith;
    stops = inl (refl, refl);
  }
  flush_rows-IsPrefix (r ∷ rows) count o = elim (Option-cases (network (request_of r))) [
    | inl accepted ↦
        let rest = flush_rows-IsPrefix rows (count + 1) (after_success r o) in
        subst (λ x. IsPrefix (r ∷ rows) o.log x.1.log count x.0)
          (sym (flush_accepted r rows count o accepted))
          (record {
            done = suc rest.done;
            sent = omega (arith, rest.sent);
            logged = rest.logged ∙ append_assoc o.log (r ∷ []) (take rest.done rows);
            bounded = omega (arith, rest.bounded);
            stops = elim rest.stops [
              | inl (fine, all) ↦ inl (fine, omega (arith, all))
              | inr stopped ↦ inr stopped
            ];
          })
    | inr (message, failed) ↦
        subst (λ x. IsPrefix (r ∷ rows) o.log x.1.log count x.0)
          (sym (flush_failed r rows count o message failed))
          (record {
            done = 0;
            sent = omega arith;
            logged = rw (append-nil o.log) refl;
            bounded = omega arith;
            stops = inr refl;
          })
  ]

  -- One flush sends a first part of the oldest 50 pending rows, in their order: all of them, or those
  -- before the first that failed. It counts what it sent, and at most one failure.
  pub flush_outbox-IsPrefix :
      (o : Outbox)
      → IsPrefix
          (batch o)
          o.log
          (flush_outbox slice network o).1.log
          0
          (flush_outbox slice network o).0
  unfolding flush_outbox
  flush_outbox-IsPrefix o = flush_rows-IsPrefix (batch o) 0 o

  pub flush_outbox-le :
      (o : Outbox)
      → let r = (flush_outbox slice network o).0 in (r.sent + r.failed ≤ 50) × (r.failed ≤ 1)
  flush_outbox-le o =
      let p = flush_outbox-IsPrefix o in
      elim p.stops [
        | inl (fine, all) ↦ (omega (arith, p.sent, p.bounded, batch_le o), omega (arith, fine))
        | inr one ↦ (omega (arith, p.sent, p.bounded, batch_le o), omega (arith, one))
      ]
