-- ===== src/Notifications/Notification.antt =====
-- internal/notifications/domain/notification: notification.go and events.go. One alert of a member.
pub mod Catalogues
pub mod Inbox
use leadkart_go.Base.{
  Bool, not, ◌&&◌, ◌||◌, List, [], ◌∷◌, ◌++◌, Option, none, some, Result, ok, err, ◌>>=◌, ◌>>◌,
  fail_if, after, ltb, is_empty, if◌then◌else◌,
}
use leadkart_go.Base.Text.{Str, trim_space, byte_len}
use leadkart_go.Base.Clock.{Time, is_zero_time}
use leadkart_go.Notifications.Notification.Catalogues.{
  Err, invalid, invalid_transition, State, unread, read, dismissed, is_state, Category, is_listed,
}

pub record CreatedEvent : Type 0 where
  pub notification_id : Str
  pub tenant_id : Str
  pub recipient_membership_id : Str
  pub category : Category
  pub source_module : Str
  pub source_entity_type : Str
  pub source_entity_id : Str
  pub created_at : Time

pub record MarkedReadEvent : Type 0 where
  pub notification_id : Str
  pub tenant_id : Str
  pub recipient_membership_id : Str
  pub read_at : Time

pub record DismissedEvent : Type 0 where
  pub notification_id : Str
  pub tenant_id : Str
  pub recipient_membership_id : Str
  pub prior_state : State
  pub dismissed_at : Time

pub data Event : Type 0 where
  created_event : CreatedEvent → Event
  marked_read_event : MarkedReadEvent → Event
  dismissed_event : DismissedEvent → Event

-- `Notification`.
pub record Notice : Type 0 where
  pub id : Str
  pub tenant_id : Str
  pub recipient_membership_id : Str
  pub category : Category
  pub title : Str
  pub body : Str
  pub state : State
  pub source_module : Str
  pub source_entity_type : Str
  pub source_entity_id : Str
  pub deep_link : Str
  pub created_at : Time
  pub read_at : Option Time
  pub dismissed_at : Option Time
  pub events : List Event

pub record NewInput : Type 0 where
  pub id : Str
  pub tenant_id : Str
  pub recipient_membership_id : Str
  pub category : Category
  pub title : Str
  pub body : Str
  pub source_module : Str
  pub source_entity_type : Str
  pub source_entity_id : Str
  pub deep_link : Str
  pub now : Time

-- `allSet` and `allEmpty`.
abbrev all_set : NewInput → Bool
all_set x =
    not (is_empty x.source_module)
    && (not (is_empty x.source_entity_type) && not (is_empty x.source_entity_id))

abbrev all_empty : NewInput → Bool
all_empty x =
    is_empty x.source_module && (is_empty x.source_entity_type && is_empty x.source_entity_id)

-- The notification that `New` returns.
abbrev pub created : NewInput → Notice
created x = record {
  id = x.id;
  tenant_id = x.tenant_id;
  recipient_membership_id = x.recipient_membership_id;
  category = x.category;
  title = trim_space x.title;
  body = trim_space x.body;
  state = unread;
  source_module = x.source_module;
  source_entity_type = x.source_entity_type;
  source_entity_id = x.source_entity_id;
  deep_link = trim_space x.deep_link;
  created_at = x.now;
  read_at = none;
  dismissed_at = none;
  events =
      created_event (record {
        notification_id = x.id;
        tenant_id = x.tenant_id;
        recipient_membership_id = x.recipient_membership_id;
        category = x.category;
        source_module = x.source_module;
        source_entity_type = x.source_entity_type;
        source_entity_id = x.source_entity_id;
        created_at = x.now;
      })
      ∷ [];
}

-- `New`.
unfoldable pub new : NewInput → Result Err Notice
new x = do
  fail_if (is_empty x.id) invalid
  fail_if (is_empty x.tenant_id) invalid
  fail_if (is_empty x.recipient_membership_id) invalid
  fail_if (not (is_listed x.category)) invalid
  fail_if (is_empty (trim_space x.title)) invalid
  fail_if (ltb 200 (byte_len (trim_space x.title))) invalid
  fail_if (is_zero_time x.now) invalid
  fail_if (not (all_set x) && not (all_empty x)) invalid
  ok (created x)

-- The event of `MarkRead`.
abbrev pub reading : Notice → Time → Event
reading n now = marked_read_event (record {
  notification_id = n.id;
  tenant_id = n.tenant_id;
  recipient_membership_id = n.recipient_membership_id;
  read_at = now;
})

-- The writes of `MarkRead`.
abbrev pub opened : Notice → Time → Notice
opened n now = record n {
  state = read;
  read_at = some now;
  events = n.events ++ reading n now ∷ [];
}

-- The rest of `MarkRead`, for a notification that is not read.
abbrev mark_other : Notice → Time → Result Err Notice
mark_other n now = do
  fail_if (is_state n.state dismissed) invalid_transition
  fail_if (is_zero_time now) invalid
  ok (opened n now)

-- `MarkRead`.
unfoldable pub mark_read : Notice → Time → Result Err Notice
mark_read n now = if is_state n.state read then ok n else mark_other n now

-- The event of `Dismiss`.
abbrev pub dismissal : Notice → Time → Event
dismissal n now = dismissed_event (record {
  notification_id = n.id;
  tenant_id = n.tenant_id;
  recipient_membership_id = n.recipient_membership_id;
  prior_state = n.state;
  dismissed_at = now;
})

-- The writes of `Dismiss`.
abbrev pub closed : Notice → Time → Notice
closed n now = record n {
  state = dismissed;
  dismissed_at = some now;
  events = n.events ++ dismissal n now ∷ [];
}

-- The rest of `Dismiss`, for a notification that is not dismissed.
abbrev dismiss_other : Notice → Time → Result Err Notice
dismiss_other n now = do fail_if (is_zero_time now) invalid; ok (closed n now)

-- `Dismiss`.
unfoldable pub dismiss : Notice → Time → Result Err Notice
dismiss n now = if is_state n.state dismissed then ok n else dismiss_other n now

-- `PullEvents`: the events, and the notification without them.
unfoldable pub pull_events : Notice → List Event × Notice
pull_events n = (n.events, record n { events = [] })

-- The calls that change a notification.
pub data Call : Type 0 where
  marks_read : Time → Call
  dismisses : Time → Call
  pulls_events : Call

-- A call with the events that it hands out; a call that fails leaves the notification as it was.
unfoldable pub step : Notice → Call → List Event × Notice
step n (marks_read now) = ([], after n (mark_read n now))
step n (dismisses now) = ([], after n (dismiss n now))
step n pulls_events = pull_events n

-- A sequence of calls, with the events handed out so far.
unfoldable pub run : List Event → Notice → List Call → List Event × Notice
run outbox n [] = (outbox, n)
run outbox n (c ∷ calls) = let (es, m) = step n c in run (outbox ++ es) m calls
