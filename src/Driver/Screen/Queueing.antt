-- ===== src/Driver/Screen/Queueing.antt =====
-- ActiveDeliveryScreen (packages/driver-app/src/screens/ActiveDeliveryScreen.tsx) over the outbox
-- (packages/driver-app/src/lib/outbox.ts): the queue that any use of the app leaves.
use Prim.Native.String.{count as text_length}
use marhaba_delivery_v.Prelude.{
  ℕ, ◌+◌, ◌*◌, ◌≤◌, String, ◌≡◌, refl, sym, subst, Bool, not, ◌||◌, List, [], ◌∷◌, Option, none,
  some, ◌==◌, nat_eq, ltb, is_truthy, if◌then◌else◌, arith, length, Option-cases, Bool-cases, inl,
  inr,
}
use marhaba_delivery_v.Prelude.Rows.{count, count-append, count-update_many}
use marhaba_delivery_v.Shared.Enums.{OrderStatus}
use marhaba_delivery_v.Driver.Outbox.{
  Outbox, OutboxRow, OutboxType, OutboxPayload, pending, Request, row_with_id, mark_sent,
  mark_failed, after_success, enqueue, request_of, batch, flush_rows, flush_outbox, pending_count,
}
use marhaba_delivery_v.Driver.Outbox.Order.{flush_accepted, flush_failed}
use marhaba_delivery_v.Driver.Outbox.Attempts.{IsBounded, enqueue-IsBounded, flush_outbox-IsBounded}
use marhaba_delivery_v.Driver.Outbox.Lowering.{IsKeyed}
use marhaba_delivery_v.Driver.Outbox.Draining.{flush_all, flush_all_drains}
use marhaba_delivery_v.Driver.Location.{
  Tracker, Fix, Ping, location_task, set_active_order, last, on_fix, send, throttle_ms,
}
use marhaba_delivery_v.Driver.Screen.{
  Platform, Screen, Event, typed_order, typed_otp, toggled, pressed, confirmed, woke, flushed,
  react, use_app, installed, toggle_tracking, press_transition, complete_with_otp,
}

-- Every id below the next one is on at most one row, the others on none; a pending row was tried less than
-- 8 times.
pub record IsQueue (o : Outbox) : Type 0 where
  pub keyed : (id : ℕ) → count (row_with_id id) o.rows ≤ (if ltb id o.next_id then 1 else 0)
  pub bounded : IsBounded o

pub IsQueue-IsKeyed : (o : Outbox) → IsQueue o → IsKeyed o.rows
IsQueue-IsKeyed o q id = ground (arith, q.keyed id)

enqueue-IsQueue :
    (type : OutboxType) (payload : OutboxPayload) (key : Option String) (now : ℕ) (o : Outbox)
    → IsQueue o
    → IsQueue (enqueue type payload key now o)
unfolding enqueue count
enqueue-IsQueue type payload key now o q = record {
  keyed = λ id.
      let row : OutboxRow = record {
        id = o.next_id;
        type = type;
        payload = payload;
        idempotency_key = key;
        created_at = now;
        attempts = 0;
        last_error = none;
        status = pending;
      } in
      ground (arith, q.keyed id, count-append (row_with_id id) o.rows (row ∷ []));
  bounded = enqueue-IsBounded type payload key now o q.bounded;
}

-- The next id of the table, and how many rows have an id.
abbrev SameIds : Outbox → Outbox → Type 0
SameIds o o' =
    (o'.next_id ≡ o.next_id)
    × ((id : ℕ) → count (row_with_id id) o'.rows ≡ count (row_with_id id) o.rows)

module _ (slice : String → String) (network : Request → Option String) where
  flush_rows_ids :
      (rows : List OutboxRow) (sent : ℕ) (o : Outbox)
      → SameIds o (flush_rows slice network rows sent o).1
  unfolding flush_rows
  flush_rows_ids [] sent o = (refl, λ id. refl)
  flush_rows_ids (r ∷ rows) sent o = elim (Option-cases (network (request_of r))) [
    | inl accepted ↦
        let rest = flush_rows_ids rows (sent + 1) (after_success r o) in
        subst (λ x. SameIds o x.1) (sym (flush_accepted slice network r rows sent o accepted))
          (
            rest.0,
            λ id. omega (
              arith,
              rest.1 id,
              count-update_many (row_with_id id) (row_with_id r.id) mark_sent (λ x. refl) o.rows,
            ),
          )
    | inr (message, failed) ↦
        subst (λ x. SameIds o x.1) (sym (flush_failed slice network r rows sent o message failed))
          (
            refl,
            λ id.
                count-update_many (row_with_id id) (row_with_id r.id)
                  (mark_failed (r.attempts + 1) (slice message)) (λ x. refl) o.rows,
          )
  ]

  flush-IsQueue : (o : Outbox) → IsQueue o → IsQueue (flush_outbox slice network o).1
  unfolding flush_outbox
  flush-IsQueue o q =
      let (next, ids) = flush_rows_ids (batch o) 0 o in
      record {
        keyed = λ id. rw (next, ids id) (q.keyed id);
        bounded = flush_outbox-IsBounded slice network o q.bounded;
      }

-- The state of the app has a well-formed queue.
abbrev pub IsQueued : Screen → Type 0
IsQueued s = IsQueue s.tracker.outbox

module _ (p : Platform) where
  press-IsQueued :
      (to : OrderStatus) (now : ℕ) (s : Screen)
      → IsQueued s
      → IsQueued (press_transition p to now s)
  unfolding press_transition
  press-IsQueued to now s q = elim (Bool-cases (is_truthy (some s.order_id))) [
    | inl named ↦ rw named (enqueue-IsQueue _ _ _ now s.tracker.outbox q)
    | inr empty ↦ rw empty q
  ]

  complete-IsQueued :
      (position : Fix) (now : ℕ) (s : Screen)
      → IsQueued s
      → IsQueued (complete_with_otp p position now s)
  unfolding complete_with_otp
  complete-IsQueued position now s q =
      elim (Bool-cases (not (is_truthy (some s.order_id)) || not (text_length s.otp == 6))) [
        | inl refused ↦ rw refused q
        | inr ready ↦ rw ready (enqueue-IsQueue _ _ _ now s.tracker.outbox q)
      ]

  toggle-IsQueued :
      (granted : Bool) (s : Screen) → IsQueued s → IsQueued (toggle_tracking granted s)
  unfolding toggle_tracking set_active_order
  toggle-IsQueued granted s q = elim (Bool-cases s.tracking) [
    | inl on ↦ rw on q
    | inr off ↦ elim (Bool-cases granted) [
      | inl given ↦ rw (off, given) q
      | inr refused ↦ rw (off, refused) q
    ]
  ]

  send-IsQueue :
      (ping : Ping) (now : ℕ) (t : Tracker)
      → IsQueue t.outbox
      → IsQueue (send p.encode ping now t).outbox
  send-IsQueue ping now t q = elim (Bool-cases t.connected) [
    | inl live ↦ rw live q
    | inr offline ↦ rw offline (enqueue-IsQueue _ _ _ now t.outbox q)
  ]

  fix-IsQueue :
      (fix : Option Fix) (now : ℕ) (t : Tracker)
      → IsQueue t.outbox
      → IsQueue (on_fix p.encode fix now t).outbox
  fix-IsQueue none now t q = q
  fix-IsQueue (some f) now t q = elim (Bool-cases (ltb now (t.last_sent_at + throttle_ms))) [
    | inl early ↦ rw early q
    | inr due ↦ rw due (
        send-IsQueue (record { fix = f; order_id = t.active_order_id }) now
          (record t { last_sent_at = now }) q)
  ]

  task-IsQueue :
      (locations : Option (List Fix)) (now : ℕ) (t : Tracker)
      → IsQueue t.outbox
      → IsQueue (location_task p.encode locations now t).outbox
  unfolding location_task
  task-IsQueue none now t q = q
  task-IsQueue (some locations) now t q = fix-IsQueue (last locations) now t q

  react-IsQueued : (e : Event) (s : Screen) → IsQueued s → IsQueued (react p e s)
  unfolding react
  react-IsQueued (typed_order id) s q = q
  react-IsQueued (typed_otp otp) s q = q
  react-IsQueued (toggled granted) s q = toggle-IsQueued granted s q
  react-IsQueued (pressed to now) s q = press-IsQueued to now s q
  react-IsQueued (confirmed position now) s q = complete-IsQueued position now s q
  react-IsQueued (woke locations now) s q = task-IsQueue locations now s.tracker q
  react-IsQueued (flushed network) s q = flush-IsQueue p.slice network s.tracker.outbox q

  pub use_app-IsQueued :
      (events : List Event) (s : Screen) → IsQueued s → IsQueued (use_app p events s)
  unfolding use_app
  use_app-IsQueued [] s q = q
  use_app-IsQueued (e ∷ events) s q = use_app-IsQueued events (react p e s) (react-IsQueued e s q)

  installed-IsQueued : (connected : Bool) → IsQueued (installed connected)
  unfolding count
  installed-IsQueued connected = record { keyed = λ id. ground arith; bounded = tt }

  -- However an installed app is used, whatever the driver types and presses, the phone reports and the
  -- network answers: if n actions and pings are then waiting in the outbox, none of them is after
  -- 8 n more flushes, whatever the network does: each was accepted or is dead.
  pub app_drains :
      (connected : Bool) (events : List Event) (networks : List (Request → Option String))
      → 8 * pending_count (use_app p events (installed connected)).tracker.outbox ≤ length networks
      → pending_count
          (flush_all p.slice networks (use_app p events (installed connected)).tracker.outbox)
        ≡ 0
  app_drains connected events networks enough =
      let s = use_app p events (installed connected) in
      let o = s.tracker.outbox in
      let q : IsQueue o =
        use_app-IsQueued events (installed connected) (installed-IsQueued connected) in
      flush_all_drains p.slice networks o (IsQueue-IsKeyed o q) q.bounded enough
