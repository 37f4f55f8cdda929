-- ===== src/Api/Notifications.antt =====
-- packages/api/src/modules/notifications/notifications.service.ts: notifications over several channels,
-- the feed of a user, and the push tokens of devices. The adapters of the providers are those of the
-- source, which do nothing yet; around them an adapter is an argument, and fails where it throws.
pub mod Feed
use marhaba_delivery_v.Prelude.{
  ℕ, nat_eq, ◌+◌, String, Bool, true, false, ◌&&◌, List, [], ◌∷◌, ◌++◌, Option, none, some, ◌==◌,
  string_eq, includes, take,
}
use marhaba_delivery_v.Prelude.Rows.{find_first, find_many, update_many}
use marhaba_delivery_v.Prelude.Sorting.{sort_by}
use mathlib.Core.List.{reverse}
use marhaba_delivery_v.Prelude.Action.{
  Action, Outcome, ok, throws, pure, gets, modify, create, update, upsert, Table, ◌>>=◌, ◌>>◌,
}
use marhaba_delivery_v.Shared.Enums.{NotificationChannel, NotificationStatus}

pub record Notification : Type 0 where
  pub id : ℕ
  pub user_id : String
  pub channel : NotificationChannel
  pub status : NotificationStatus
  pub title : String
  pub body : String
  pub order_id : Option String
  pub created_at : ℕ
  pub read_at : Option ℕ

pub record PushToken : Type 0 where
  pub user_id : String
  pub token : String
  pub platform : String

-- The next id stands for the key that the database draws.
pub record Inbox : Type 0 where
  pub now : ℕ
  pub next_id : ℕ
  pub notifications : List Notification
  pub push_tokens : List PushToken

abbrev pub notification_table : Table Inbox Notification
notification_table = record {
  rows = λ s. s.notifications;
  write = λ r s. record s { notifications = r };
}

abbrev pub token_table : Table Inbox PushToken
token_table = record { rows = λ s. s.push_tokens; write = λ r s. record s { push_tokens = r } }

pub record SendNotificationInput : Type 0 where
  pub user_id : String
  pub channels : List NotificationChannel
  pub title : String
  pub body : String
  pub order_id : Option String

abbrev pub queued_row : ℕ → ℕ → SendNotificationInput → NotificationChannel → Notification
queued_row id now input channel = record {
  id = id;
  user_id = input.user_id;
  channel = channel;
  status = NotificationStatus.queued;
  title = input.title;
  body = input.body;
  order_id = input.order_id;
  created_at = now;
  read_at = none;
}

abbrev pub create_queued : SendNotificationInput → NotificationChannel → Inbox → Inbox
create_queued input channel s = record s {
  next_id = s.next_id + 1;
  notifications = s.notifications ++ queued_row s.next_id s.now input channel ∷ [];
}

-- The rows of all channels; the answer is what was created.
unfoldable pub create_each :
    SendNotificationInput → List NotificationChannel → Inbox → List Notification × Inbox
create_each input [] s = ([], s)
create_each input (channel ∷ channels) s =
    let (rest, s') = create_each input channels (create_queued input channel s) in
    (queued_row s.next_id s.now input channel ∷ rest, s')

-- What an adapter did: it returned, or it threw.
abbrev pub settled : Outcome Unit → NotificationStatus
settled (ok u) = NotificationStatus.sent
settled (throws e) = NotificationStatus.failed

abbrev pub notification_with_id : ℕ → Notification → Bool
notification_with_id id n = n.id == id

module _ (adapter : NotificationChannel → SendNotificationInput → Outcome Unit) where
  -- A failure downgrades the status and goes no further.
  abbrev pub dispatch : SendNotificationInput → Notification → Inbox → Inbox
  dispatch input n s = record s {
    notifications =
        update_many (notification_with_id n.id)
          (λ x. record x { status = settled (adapter n.channel input) }) s.notifications;
  }

  unfoldable pub dispatch_each : SendNotificationInput → List Notification → Inbox → Inbox
  dispatch_each input [] s = s
  dispatch_each input (n ∷ rows) s = dispatch_each input rows (dispatch input n s)

  unfoldable pub send_with : SendNotificationInput → Inbox → List Notification × Inbox
  unfolding create_each dispatch_each
  send_with input s =
      let (created, s') = create_each input input.channels s in
      (created, dispatch_each input created s')

-- sendPush, sendSms and sendEmail do nothing, and an in-app notification is there already.
abbrev pub provider : NotificationChannel → SendNotificationInput → Outcome Unit
provider channel input = ok tt

unfoldable pub send : SendNotificationInput → Inbox → List Notification × Inbox
unfolding send_with
send input s = send_with provider input s

abbrev pub with_token : String → PushToken → Bool
with_token token t = t.token == token

unfoldable pub register_push_token : String → String → String → Action Inbox PushToken
register_push_token user_id token platform =
    upsert token_table (with_token token)
      (record { user_id = user_id; token = token; platform = platform })
      (λ t. record t { user_id = user_id; platform = platform })

-- The newest 50; of two with one time, the later row first.
unfoldable pub list_for_user : String → Inbox → List Notification
list_for_user user_id s =
    take 50 (
      reverse (sort_by (λ n. n.created_at) (find_many (λ n. n.user_id == user_id) s.notifications)))

abbrev pub is_read_by : String → List ℕ → Notification → Bool
is_read_by user_id ids n = n.user_id == user_id && includes ids n.id

unfoldable pub mark_read : String → List ℕ → Inbox → Inbox
mark_read user_id ids s = record s {
  notifications =
      update_many (is_read_by user_id ids)
        (λ n. record n { status = NotificationStatus.read; read_at = some s.now }) s.notifications;
}
