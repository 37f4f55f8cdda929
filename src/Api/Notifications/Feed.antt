-- ===== src/Api/Notifications/Feed.antt =====
-- NotificationsService (packages/api/src/modules/notifications/notifications.service.ts): what sending
-- writes, and whose notifications and tokens an operation touches.
use marhaba_delivery_v.Prelude.{
  ℕ, ◌+◌, ◌<◌, String, ◌≡◌, refl, sym, ◌∙◌, ap, Bool, true, false, List, [], ◌∷◌, ◌++◌, some, ◌==◌,
  string_eq, nat_eq, eq_iff, arith, All, All-append, append_assoc, append-nil, if◌then◌else◌,
  Option-cases, inl, inr,
}
use marhaba_delivery_v.Prelude.Rows.{
  find_first, find_many, update_many, find_first-append, find_first-update_many, find_first_meets,
  All-map,
}
use marhaba_delivery_v.Prelude.Action.{Outcome}
use marhaba_delivery_v.Shared.Enums.{NotificationChannel, NotificationStatus}
use marhaba_delivery_v.Api.Notifications.{
  Notification, PushToken, Inbox, SendNotificationInput, queued_row, create_each, create_queued,
  dispatch_each, send_with, settled, notification_with_id, register_push_token, with_token,
  mark_read, is_read_by,
}

-- The rows that sending leaves: one per channel, in order, with the ids that come next.
unfoldable pub final_rows :
    (NotificationChannel → SendNotificationInput → Outcome Unit)
    → SendNotificationInput
    → List NotificationChannel
    → ℕ
    → ℕ
    → List Notification
final_rows adapter input [] id now = []
final_rows adapter input (channel ∷ channels) id now =
    record (queued_row id now input channel) { status = settled (adapter channel input) }
    ∷ final_rows adapter input channels (id + 1) now

unfoldable pub queued_rows :
    SendNotificationInput → List NotificationChannel → ℕ → ℕ → List Notification
queued_rows input [] id now = []
queued_rows input (channel ∷ channels) id now =
    queued_row id now input channel ∷ queued_rows input channels (id + 1) now

create_each_rows :
    (input : SendNotificationInput) (channels : List NotificationChannel) (s : Inbox)
    → ((create_each input channels s).0 ≡ queued_rows input channels s.next_id s.now)
      × ((create_each input channels s).1.notifications
          ≡ s.notifications ++ queued_rows input channels s.next_id s.now)
unfolding create_each queued_rows
create_each_rows input [] s = (refl, sym (append-nil s.notifications))
create_each_rows input (channel ∷ channels) s =
    let row = queued_row s.next_id s.now input channel in
    let rest = create_each_rows input channels (create_queued input channel s) in
    (
      ap (λ rows. row ∷ rows) rest.0,
      rest.1
          ∙ append_assoc s.notifications (row ∷ [])
              (queued_rows input channels (s.next_id + 1) s.now),
    )

-- Rows with other ids are not updated.
update_before :
    (id : ℕ) (f : Notification → Notification) (rows : List Notification)
    → All (λ n. n.id < id) rows
    → update_many (notification_with_id id) f rows ≡ rows
unfolding update_many
update_before id f [] before = refl
update_before id f (n ∷ rows) before = ground (arith, update_before id f rows)

update_after :
    (input : SendNotificationInput) (id low now : ℕ) (f : Notification → Notification)
    (channels : List NotificationChannel)
    → id < low
    → update_many (notification_with_id id) f (queued_rows input channels low now)
      ≡ queued_rows input channels low now
unfolding update_many queued_rows
update_after input id low now f [] less = refl
update_after input id low now f (channel ∷ channels) less =
    ground (arith, update_after input id (low + 1) now f channels)

update_many-append :
    {V : Type 0} (q : V → Bool) (f : V → V) (xs ys : List V)
    → update_many q f (xs ++ ys) ≡ update_many q f xs ++ update_many q f ys
unfolding update_many
update_many-append q f [] ys = refl
update_many-append q f (x ∷ xs) ys =
    ap (λ rows. (if q x then f x else x) ∷ rows) (update_many-append q f xs ys)

module _ (adapter : NotificationChannel → SendNotificationInput → Outcome Unit)
    (input : SendNotificationInput) where
  dispatch_each_rows :
      (channels : List NotificationChannel) (before : List Notification) (id now : ℕ) (s : Inbox)
      → s.notifications ≡ before ++ queued_rows input channels id now
      → All (λ n. n.id < id) before
      → (dispatch_each adapter input (queued_rows input channels id now) s).notifications
        ≡ before ++ final_rows adapter input channels id now
  unfolding dispatch_each queued_rows final_rows update_many
  dispatch_each_rows [] before id now s rows less = rows
  dispatch_each_rows (channel ∷ channels) before id now s rows less =
      let row = queued_row id now input channel in
      let f : Notification → Notification =
        λ x. record x { status = settled (adapter channel input) } in
      let later = queued_rows input channels (id + 1) now in
      let same : (id == id) ≡ true = ground arith in
      let s' : Inbox = record s {
        notifications = update_many (notification_with_id id) f s.notifications;
      } in
      let moved : s'.notifications ≡ (before ++ f row ∷ []) ++ later =
        rw
          (
            rows,
            update_many-append (notification_with_id id) f before (row ∷ later),
            update_before id f before less,
            same,
            update_after input id (id + 1) now f channels (omega arith),
          )
          (sym (append_assoc before (f row ∷ []) later)) in
      dispatch_each_rows channels (before ++ f row ∷ []) (id + 1) now s' moved (
        All-append (λ n. n.id < id + 1) before (f row ∷ [])
          (All-map _ _ (λ n h. omega (arith, h)) before less) (omega arith, tt))
      ∙ append_assoc before (f row ∷ []) (final_rows adapter input channels (id + 1) now)

  -- Where the ids so far are below the next one, sending leaves the notifications that were there as they
  -- were and adds one per channel, in order: sent, or failed where the adapter of the channel threw.
  pub send_settles :
      (s : Inbox)
      → All (λ n. n.id < s.next_id) s.notifications
      → (send_with adapter input s).1.notifications
        ≡ s.notifications ++ final_rows adapter input input.channels s.next_id s.now
  unfolding send_with
  send_settles s fresh =
      let (created, rows) = create_each_rows input input.channels s in
      let s' = (create_each input input.channels s).1 in
      rw created (dispatch_each_rows input.channels s.notifications s.next_id s.now s' rows fresh)

-- Marking notifications as read leaves those of every other user as they were, whatever ids are given.
pub mark_read-others :
    (user other : String) (ids : List ℕ) (s : Inbox)
    → user == other ≡ false
    → find_many (λ n. n.user_id == other) (mark_read user ids s).notifications
      ≡ find_many (λ n. n.user_id == other) s.notifications
unfolding mark_read find_many update_many
mark_read-others user other ids s distinct = go s.notifications
  where
    go :
        (rows : List Notification)
        → find_many
            (λ n. n.user_id == other)
            (update_many
              (is_read_by user ids)
              (λ n. record n { status = NotificationStatus.read; read_at = some s.now })
              rows)
          ≡ find_many (λ n. n.user_id == other) rows
    go [] = refl
    go (n ∷ rows) =
        ground (arith, go rows, eq_iff n.user_id user, eq_iff n.user_id other, eq_iff user other)

-- A push token belongs to the user who registered it last, also if it was another user's before.
pub token_moves :
    (user token platform : String) (s : Inbox)
    → find_first (with_token token) (register_push_token user token platform s).1.push_tokens
      ≡ some (record { user_id = user; token = token; platform = platform })
unfolding register_push_token find_first
token_moves user token platform s =
    elim (Option-cases (find_first (with_token token) s.push_tokens)) [
      | inl fresh ↦
          let row : PushToken = record { user_id = user; token = token; platform = platform } in
          ground (
            arith,
            fresh,
            eq_iff token token,
            find_first-append (with_token token) s.push_tokens row,
          )
      | inr (t, there) ↦ ground (
        arith,
        there,
        eq_iff t.token token,
        find_first_meets (with_token token) s.push_tokens t there,
        find_first-update_many (with_token token) (with_token token)
            (λ x. record x { user_id = user; platform = platform }) (λ x. refl) s.push_tokens,
      )
    ]
