-- ===== src/Driver/Outbox.antt =====
-- packages/driver-app/src/lib/outbox.ts over the SQLite table of packages/driver-app/src/lib/db.ts.
-- The network is an argument: for each row either success or the message of the error that apiFetch
-- throws. `log` is the sequence of the rows that the API has accepted; it is not in the program.
pub mod Order
pub mod Attempts
pub mod Lowering
pub mod Draining
use Prim.Native.String.{◌++◌ as append}
use marhaba_delivery_v.Prelude.{
  ℕ, ◌+◌, String, Bool, true, false, ◌&&◌, List, [], ◌∷◌, ◌++◌, Option, none, some, ◌==◌, nat_eq,
  leb, take, if◌then◌else◌, ordinal_eq, Comparable, ◌≡◌, arith,
}
use marhaba_delivery_v.Prelude.Rows.{find_many, update_many, count}
use marhaba_delivery_v.Prelude.Sorting.{sort_by}

pub data OutboxType : Type 0 where
  order_transition location_ping delivery_failure proof_of_delivery cash_confirm : OutboxType

pub data OutboxStatus : Type 0 where
  pending sent dead : OutboxStatus

abbrev pub is_pending : OutboxStatus → Bool
is_pending pending = true
is_pending _ = false

-- The parsed payload: the order it is about, and the JSON of the body.
pub record OutboxPayload : Type 0 where
  pub order_id : String
  pub body : Option String

pub record OutboxRow : Type 0 where
  pub id : ℕ
  pub type : OutboxType
  pub payload : OutboxPayload
  pub idempotency_key : Option String
  pub created_at : ℕ
  pub attempts : ℕ
  pub last_error : Option String
  pub status : OutboxStatus

pub record Request : Type 0 where
  pub path : String
  pub body : Option String
  pub idempotency_key : Option String

-- `routes[row.type](payload).path`; every method is POST.
unfoldable pub route : OutboxType → OutboxPayload → String
route order_transition p = append "/orders/" (append p.order_id "/transition")
route delivery_failure p = append "/orders/" (append p.order_id "/delivery/failure")
route proof_of_delivery p = append "/orders/" (append p.order_id "/delivery/pod")
route cash_confirm p = append "/payments/cash/" (append p.order_id "/confirm")
route location_ping p = "/drivers/me/location"

abbrev pub request_of : OutboxRow → Request
request_of r = record {
  path = route r.type r.payload;
  body = r.payload.body;
  idempotency_key = r.idempotency_key;
}

abbrev pub max_attempts : ℕ
max_attempts = 8

pub record Outbox : Type 0 where
  pub next_id : ℕ
  pub rows : List OutboxRow
  pub log : List OutboxRow

-- INSERT with the defaults of the table.
unfoldable pub enqueue : OutboxType → OutboxPayload → Option String → ℕ → Outbox → Outbox
enqueue type payload key now o = record o {
  next_id = o.next_id + 1;
  rows =
      o.rows
      ++ record {
        id = o.next_id;
        type = type;
        payload = payload;
        idempotency_key = key;
        created_at = now;
        attempts = 0;
        last_error = none;
        status = pending;
      }
        ∷ [];
}

-- `WHERE status = 'PENDING' ORDER BY created_at ASC LIMIT 50`.
unfoldable pub batch : Outbox → List OutboxRow
batch o = take 50 (sort_by (λ r. r.created_at) (find_many (λ r. is_pending r.status) o.rows))

abbrev pub row_with_id : ℕ → OutboxRow → Bool
row_with_id id r = r.id == id

abbrev pub mark_sent : OutboxRow → OutboxRow
mark_sent r = record r { status = sent }

abbrev pub mark_failed : ℕ → String → OutboxRow → OutboxRow
mark_failed attempts message r = record r {
  attempts = attempts;
  last_error = some message;
  status = if leb max_attempts attempts then dead else pending;
}

abbrev pub after_success : OutboxRow → Outbox → Outbox
after_success r o = record o {
  rows = update_many (row_with_id r.id) mark_sent o.rows;
  log = o.log ++ r ∷ [];
}

-- The message is cut to 300 characters by `slice`, an argument.
abbrev pub after_failure : (String → String) → OutboxRow → String → Outbox → Outbox
after_failure slice r message o = record o {
  rows = update_many (row_with_id r.id) (mark_failed (r.attempts + 1) (slice message)) o.rows;
}

pub record FlushResult : Type 0 where
  pub sent : ℕ
  pub failed : ℕ

module _ (slice : String → String) (network : Request → Option String) where
  -- The loop over the batch: it stops at the first failure.
  unfoldable pub flush_rows : List OutboxRow → ℕ → Outbox → FlushResult × Outbox
  flush_rows [] count o = (record { sent = count; failed = 0 }, o)
  flush_rows (r ∷ rows) count o = elim (network (request_of r)) [
    | none ↦ flush_rows rows (count + 1) (after_success r o)
    | some message ↦ (record { sent = count; failed = 1 }, after_failure slice r message o)
  ]

  unfoldable pub flush_outbox : Outbox → FlushResult × Outbox
  unfolding flush_rows batch
  flush_outbox o = flush_rows (batch o) 0 o

unfoldable pub pending_count : Outbox → ℕ
pending_count o = count (λ r. is_pending r.status) o.rows
