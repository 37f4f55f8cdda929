-- ===== src/Api/Analytics/Reports.antt =====
-- AnalyticsService (packages/api/src/modules/analytics/analytics.service.ts): which orders are on the
-- dispatchers' board, and what a driver's report counts.
use mathlib.Core.List.{Memᴰ}
use marhaba_delivery_v.Prelude.{
  ◌≡◌, refl, true, false, not, ◌&&◌, List, [], ◌∷◌, ◌==◌, nat_eq, arith, includes, map, inl, inr,
}
use marhaba_delivery_v.Prelude.Rows.{
  find_many, mem-find_many, mem_of_find_many, find_many_meets, mem-cons-cases,
}
use marhaba_delivery_v.Prelude.Sorting.{sort_by, mem-sort_by, mem_of_sort_by}
use marhaba_delivery_v.Shared.Enums.{OrderStatus}
use marhaba_delivery_v.Shared.Enums.Equality.{order_status_eq, event_type_eq}
use marhaba_delivery_v.Shared.StateMachine.{is_terminal}
use marhaba_delivery_v.Api.World.{World, Order}
use marhaba_delivery_v.Api.Analytics.{
  DispatchBoardOrder, board_row, board_statuses, on_board, dispatch_board,
}

-- The statuses of the board are those that are neither DRAFT nor final.
board_open :
    (status : OrderStatus)
    → includes board_statuses status
      ≡ (not (is_terminal status) && not (status == OrderStatus.draft))
unfolding is_terminal
board_open OrderStatus.draft = refl
board_open OrderStatus.scheduled = refl
board_open OrderStatus.placed = refl
board_open OrderStatus.accepted = refl
board_open OrderStatus.assigned = refl
board_open OrderStatus.en_route_to_pickup = refl
board_open OrderStatus.picked_up = refl
board_open OrderStatus.out_for_delivery = refl
board_open OrderStatus.delivered = refl
board_open OrderStatus.failed = refl
board_open OrderStatus.retry_scheduled = refl
board_open OrderStatus.returned = refl
board_open OrderStatus.cancelled = refl
board_open OrderStatus.refunded = refl

module _ {V W : Type 0} where
  mem-map : (f : V → W) (x : V) (xs : List V) → Memᴰ x xs → Memᴰ (f x) (map f xs)
  mem-map f x [] m = elim m [ ]
  mem-map f x (y ∷ xs) m = elim (mem-cons-cases m) [
    | inl e ↦ rw e (Memᴰ.head refl)
    | inr later ↦ Memᴰ.tail (mem-map f x xs later)
  ]

  mem_of_map :
      (f : V → W) (r : W) (xs : List V) → Memᴰ r (map f xs) → (x : V) × Memᴰ x xs × (r ≡ f x)
  mem_of_map f r [] m = elim m [ ]
  mem_of_map f r (y ∷ xs) m = elim (mem-cons-cases m) [
    | inl e ↦ (y, Memᴰ.head refl, e)
    | inr later ↦ let (x, there, e) = mem_of_map f r xs later in (x, Memᴰ.tail there, e)
  ]

-- Every order of the table that is neither a draft nor in a final status is on the board.
pub dispatch_board_complete :
    (w : World) (o : Order)
    → Memᴰ o w.orders
    → is_terminal o.status ≡ false
    → o.status == OrderStatus.draft ≡ false
    → Memᴰ (board_row w o) (dispatch_board w)
unfolding dispatch_board
dispatch_board_complete w o there open_ placed =
    let shown : on_board o ≡ true = ground (arith, board_open o.status, open_, placed) in
    mem-map (board_row w) o (sort_by (λ o. o.created_at) (find_many on_board w.orders)) (
      mem-sort_by (λ o. o.created_at) o (find_many on_board w.orders)
        (mem-find_many on_board w.orders o there shown))

-- Every row of the board is that of an order of the table which is neither a draft nor in a final
-- status.
pub dispatch_board_sound :
    (w : World) (r : DispatchBoardOrder)
    → Memᴰ r (dispatch_board w)
    → (o : Order) × Memᴰ o w.orders
      × (r ≡ board_row w o)
      × (is_terminal o.status ≡ false)
      × (o.status == OrderStatus.draft ≡ false)
unfolding dispatch_board
dispatch_board_sound w r m =
    let orders = find_many on_board w.orders in
    let (o, sorted, row) = mem_of_map (board_row w) r (sort_by (λ o. o.created_at) orders) m in
    let found = mem_of_sort_by (λ o. o.created_at) o orders sorted in
    let shown : on_board o ≡ true = find_many_meets on_board w.orders o found in
    (
      o,
      mem_of_find_many on_board w.orders o found,
      row,
      ground (arith, board_open o.status, shown),
      ground (arith, board_open o.status, shown),
    )
