-- ===== src/Shared/StateMachine/Graph.antt =====
-- The transition diagram of packages/shared/src/state-machine/order-status.ts: runs, terminal
-- states, and the states that no run to a delivery can skip.
use marhaba_delivery_v.Prelude.{
  ℕ, ◌+◌, ◌≤◌, ◌<◌, ◌≡◌, refl, ◌≢◌, ◌↔◌, ◌⊎◌, inl, inr, true, false, List, [], ◌∷◌, arith, includes,
  ◌==◌, Bool-cases,
}
use marhaba_delivery_v.Shared.Enums.{OrderStatus}
use marhaba_delivery_v.Shared.Enums.Equality.{order_status_eq}
use marhaba_delivery_v.Shared.StateMachine.{can_transition, is_terminal}

-- A run of the state machine: allowed transitions, one after another.
pub data Run (s : OrderStatus) : OrderStatus → Type 0 where
  here : Run s s
  next : {t u : OrderStatus} → Run s t → can_transition t u ≡ true → Run s u

-- A run that never enters the status `v`.
pub data RunAround (v s : OrderStatus) : OrderStatus → Type 0 where
  start : RunAround v s s
  pass :
      {t u : OrderStatus}
      → RunAround v s t
      → can_transition t u ≡ true
      → (u == v) ≡ false
      → RunAround v s u

exit_to :
    (s t : OrderStatus)
    → is_terminal s ≡ true
    → can_transition s t ≡ true
    → (t ≡ OrderStatus.refunded) × (s ≢ OrderStatus.refunded)
unfolding can_transition is_terminal
exit_to OrderStatus.draft t h e = ground arith
exit_to _ t h e = ground arith

refund_allowed :
    (s : OrderStatus)
    → is_terminal s ≡ true
    → s ≢ OrderStatus.refunded
    → can_transition s OrderStatus.refunded ≡ true
unfolding can_transition is_terminal
refund_allowed OrderStatus.draft h ne = ground arith
refund_allowed OrderStatus.refunded h ne = absurd (ne refl)
refund_allowed _ h ne = ground arith

-- A terminal status can be left for a refund alone, and a refund for nothing.
pub terminal_exit :
    (s t : OrderStatus)
    → is_terminal s ≡ true
    → (can_transition s t ≡ true) ↔ ((t ≡ OrderStatus.refunded) × (s ≢ OrderStatus.refunded))
terminal_exit s t h = (exit_to s t h, λ p. rw (p.0) (refund_allowed s h p.1))

refunded_IsTerminal : is_terminal OrderStatus.refunded ≡ true
unfolding is_terminal
refunded_IsTerminal = refl

-- A run from a terminal status ends there or in a refund.
pub terminal-Run :
    {s t : OrderStatus} → is_terminal s ≡ true → Run s t → (t ≡ s) ⊎ (t ≡ OrderStatus.refunded)
terminal-Run h here = inl refl
terminal-Run {s} {t} h (next {t = t'} r e) = elim (terminal-Run h r) [
  | inl p ↦ inr (exit_to s t h (rw p at e)).0
  | inr p ↦ inr (exit_to OrderStatus.refunded t refunded_IsTerminal (rw p at e)).0
]

-- No status is a dead end: from each one a run leads to `refunded`.
pub Run-to_refunded : (s : OrderStatus) → Run s OrderStatus.refunded
unfolding can_transition
Run-to_refunded OrderStatus.refunded = here
Run-to_refunded OrderStatus.delivered = next here refl
Run-to_refunded OrderStatus.returned = next here refl
Run-to_refunded OrderStatus.cancelled = next here refl
Run-to_refunded OrderStatus.picked_up =
    next {t = OrderStatus.cancelled} (next {t = OrderStatus.failed} (next here refl) refl) refl
Run-to_refunded OrderStatus.out_for_delivery =
    next {t = OrderStatus.delivered} (next here refl) refl
Run-to_refunded OrderStatus.retry_scheduled = next {t = OrderStatus.returned} (next here refl) refl
Run-to_refunded OrderStatus.draft = next {t = OrderStatus.cancelled} (next here refl) refl
Run-to_refunded OrderStatus.scheduled = next {t = OrderStatus.cancelled} (next here refl) refl
Run-to_refunded OrderStatus.placed = next {t = OrderStatus.cancelled} (next here refl) refl
Run-to_refunded OrderStatus.accepted = next {t = OrderStatus.cancelled} (next here refl) refl
Run-to_refunded OrderStatus.assigned = next {t = OrderStatus.cancelled} (next here refl) refl
Run-to_refunded OrderStatus.en_route_to_pickup =
    next {t = OrderStatus.cancelled} (next here refl) refl
Run-to_refunded OrderStatus.failed = next {t = OrderStatus.cancelled} (next here refl) refl

-- How far an order has come; statuses off the way to a delivery count as its start.
phase : OrderStatus → ℕ
phase OrderStatus.placed = 1
phase OrderStatus.accepted = 2
phase OrderStatus.assigned = 3
phase OrderStatus.en_route_to_pickup = 4
phase OrderStatus.picked_up = 5
phase OrderStatus.failed = 5
phase OrderStatus.retry_scheduled = 5
phase OrderStatus.out_for_delivery = 6
phase OrderStatus.delivered = 7
phase _ = 0

-- The statuses that every run from `draft` to `delivered` enters.
abbrev pub milestones : List OrderStatus
milestones =
    OrderStatus.placed ∷ OrderStatus.accepted ∷ OrderStatus.assigned
    ∷ OrderStatus.en_route_to_pickup ∷ OrderStatus.out_for_delivery ∷ OrderStatus.delivered ∷ []

-- A transition goes at most one phase forward.
phase-le : (t u : OrderStatus) → can_transition t u ≡ true → phase u ≤ phase t + 1
unfolding can_transition phase
phase-le OrderStatus.draft u h = ground arith
phase-le _ u h = ground arith

-- A milestone is alone in its phase.
milestone_alone :
    (v u : OrderStatus) → includes milestones v ≡ true → (u == v) ≡ false → phase u ≢ phase v
unfolding phase
milestone_alone OrderStatus.draft u m ne = ground arith
milestone_alone _ u m ne = ground arith

milestone_ahead : (v : OrderStatus) → includes milestones v ≡ true → 0 < phase v
unfolding phase
milestone_ahead OrderStatus.draft m = ground arith
milestone_ahead _ m = ground arith

phase-lt :
    {v t : OrderStatus}
    → includes milestones v ≡ true
    → RunAround v OrderStatus.draft t
    → phase t < phase v
phase-lt {v} m start = unfold phase in milestone_ahead v m
phase-lt {v} {t} m (pass {t = t'} r e ne) =
    omega (arith, phase-lt m r, phase-le t' t e, milestone_alone v t m ne)

-- The way up to the pickup, around any status that is not on it.
to_pickup :
    (v : OrderStatus)
    → includes milestones v ≡ false
    → RunAround v OrderStatus.draft OrderStatus.en_route_to_pickup
unfolding can_transition
to_pickup v m =
    pass {t = OrderStatus.assigned}
      (pass {t = OrderStatus.accepted}
        (pass {t = OrderStatus.placed} (pass start refl (ground arith)) refl (ground arith)) refl
        (ground arith))
      refl (ground arith)

-- From there by `picked_up`, or by a failure and a retry.
around :
    (v : OrderStatus)
    → includes milestones v ≡ false
    → RunAround v OrderStatus.draft OrderStatus.delivered
unfolding can_transition
around v m = elim (Bool-cases (OrderStatus.picked_up == v)) [
  | inl there ↦
      pass {t = OrderStatus.out_for_delivery}
        (pass {t = OrderStatus.retry_scheduled}
          (pass {t = OrderStatus.failed} (pass (to_pickup v m) refl (ground arith)) refl
            (ground arith))
          refl (ground arith))
        refl (ground arith)
  | inr away ↦
      pass {t = OrderStatus.out_for_delivery}
        (pass {t = OrderStatus.picked_up} (pass (to_pickup v m) refl away) refl (ground arith)) refl
        (ground arith)
]

around_unless :
    (v : OrderStatus)
    → ¬ RunAround v OrderStatus.draft OrderStatus.delivered
    → includes milestones v ≡ true
around_unless v none_around = elim (Bool-cases (includes milestones v)) [
  | inl m ↦ m
  | inr m ↦ absurd (none_around (around v m))
]

phase_top : (v : OrderStatus) → phase v ≤ phase OrderStatus.delivered
unfolding phase
phase_top OrderStatus.draft = ground arith
phase_top _ = ground arith

-- Exactly the milestones are on every run from `draft` to `delivered`: an order is placed, accepted,
-- assigned, en route to the pickup and out for delivery before it is delivered, and no other status
-- is sure to come, `picked_up` included.
pub delivered_passes_iff :
    (v : OrderStatus)
    → (¬ RunAround v OrderStatus.draft OrderStatus.delivered) ↔ (includes milestones v ≡ true)
delivered_passes_iff v = (around_unless v, λ m r. omega (arith, phase-lt m r, phase_top v))
