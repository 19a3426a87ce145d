-- ===== src/Identity/PermissionRequest.antt =====
-- internal/identity/domain/permissionrequest: request.go and events.go. A request for a permission
-- that a second member decides.
pub mod History
pub mod Decision
use leadkart_go.Base.{
  ℕ, ◌≡◌, Bool, true, false, not, ◌||◌, List, [], ◌∷◌, ◌++◌, Option, none, some, Result, ok, err,
  ◌>>=◌, ◌>>◌, fail_if, after, is_empty, ltb, if◌then◌else◌,
}
use leadkart_go.Base.Int64.{ℤ, pos, ltb_ℤ}
use leadkart_go.Base.Text.{Str, codes, str_eq, trim_space, byte_len}
use leadkart_go.Base.Clock.{Time, zero_time}
use leadkart_go.Identity.Permission.{is_known}

-- The sentinels that the methods return.
pub data Err : Type 0 where
  invalid_request not_pending self_approval invalid_permission invalid_duration : Err

abbrev pub min_reason_length : ℕ
min_reason_length = 10

abbrev pub max_reason_length : ℕ
max_reason_length = 1024

abbrev pub max_decision_reason_length : ℕ
max_decision_reason_length = 1024

abbrev pub min_duration_days : ℕ
min_duration_days = 1

abbrev pub max_duration_days : ℕ
max_duration_days = 90

pub data State : Type 0 where
  pending approved denied cancelled : State

-- `IsTerminal`.
abbrev pub is_terminal : State → Bool
is_terminal pending = false
is_terminal approved = true
is_terminal denied = true
is_terminal cancelled = true

pub record RequestedEvent : Type 0 where
  pub request_id : Str
  pub tenant_id : Str
  pub requester_membership_id : Str
  pub permission : Str
  pub duration_days : ℤ
  pub reason : Str
  pub at : Time

pub record ApprovedEvent : Type 0 where
  pub request_id : Str
  pub tenant_id : Str
  pub approver_membership_id : Str
  pub expires_at : Time
  pub at : Time

pub record DeniedEvent : Type 0 where
  pub request_id : Str
  pub tenant_id : Str
  pub approver_membership_id : Str
  pub reason : Str
  pub at : Time

pub record CancelledEvent : Type 0 where
  pub request_id : Str
  pub tenant_id : Str
  pub at : Time

pub data Event : Type 0 where
  requested_event : RequestedEvent → Event
  approved_event : ApprovedEvent → Event
  denied_event : DeniedEvent → Event
  cancelled_event : CancelledEvent → Event

-- The bytes of `uuid.Nil`.
abbrev pub nil_uuid : Str
nil_uuid = 0 ∷ 0 ∷ 0 ∷ 0 ∷ 0 ∷ 0 ∷ 0 ∷ 0 ∷ 0 ∷ 0 ∷ 0 ∷ 0 ∷ 0 ∷ 0 ∷ 0 ∷ 0 ∷ []

-- The permission is its name; the id of the override is its sixteen bytes.
pub record Request : Type 0 where
  pub id : Str
  pub tenant_id : Str
  pub requester_membership_id : Str
  pub permission : Str
  pub duration_days : ℤ
  pub reason : Str
  pub state : State
  pub approver_membership_id : Str
  pub decided_at : Time
  pub decision_reason : Str
  pub granted_override_id : Str
  pub expires_at : Time
  pub created_at : Time
  pub updated_at : Time
  pub events : List Event

abbrev pub is_pending : State → Bool
is_pending pending = true
is_pending _ = false

-- A permission that is nil has no name.
abbrev pub required : Option Str → Result Err Str
required none = err invalid_request
required (some name) = ok name

-- `New`.
unfoldable pub new : Str → Str → Str → Option Str → ℤ → Str → Time → Result Err Request
new id tenant_id requester permission duration_days reason now = do
  fail_if (is_empty id) invalid_request
  fail_if (is_empty tenant_id) invalid_request
  fail_if (is_empty requester) invalid_request
  name ← required permission
  fail_if (not (is_known name)) invalid_permission
  fail_if
      (ltb_ℤ duration_days (pos min_duration_days) || ltb_ℤ (pos max_duration_days) duration_days)
      invalid_duration
  fail_if (ltb (byte_len (trim_space reason)) min_reason_length) invalid_request
  fail_if (ltb max_reason_length (byte_len (trim_space reason))) invalid_request
  ok (record {
    id = id;
    tenant_id = tenant_id;
    requester_membership_id = requester;
    permission = name;
    duration_days = duration_days;
    reason = trim_space reason;
    state = pending;
    approver_membership_id = [];
    decided_at = zero_time;
    decision_reason = [];
    granted_override_id = nil_uuid;
    expires_at = zero_time;
    created_at = now;
    updated_at = now;
    events =
        requested_event (record {
          request_id = id;
          tenant_id = tenant_id;
          requester_membership_id = requester;
          permission = name;
          duration_days = duration_days;
          reason = trim_space reason;
          at = now;
        })
        ∷ [];
  })

-- `Approve`.
unfoldable pub approve : Request → Str → Str → Str → Time → Time → Result Err Request
approve r approver decision_reason granted_override_id expires_at now = do
  fail_if (not (is_pending r.state)) not_pending
  fail_if (is_empty approver) invalid_request
  fail_if (str_eq approver r.requester_membership_id) self_approval
  fail_if (ltb max_decision_reason_length (byte_len (trim_space decision_reason))) invalid_request
  ok (record r {
    state = approved;
    approver_membership_id = approver;
    decided_at = now;
    decision_reason = trim_space decision_reason;
    granted_override_id = granted_override_id;
    expires_at = expires_at;
    updated_at = now;
    events =
        r.events
        ++ approved_event (record {
          request_id = r.id;
          tenant_id = r.tenant_id;
          approver_membership_id = approver;
          expires_at = expires_at;
          at = now;
        })
          ∷ [];
  })

-- `Deny`.
unfoldable pub deny : Request → Str → Str → Time → Result Err Request
deny r approver decision_reason now = do
  fail_if (not (is_pending r.state)) not_pending
  fail_if (is_empty approver) invalid_request
  fail_if (str_eq approver r.requester_membership_id) self_approval
  fail_if (is_empty (trim_space decision_reason)) invalid_request
  fail_if (ltb max_decision_reason_length (byte_len (trim_space decision_reason))) invalid_request
  ok (record r {
    state = denied;
    approver_membership_id = approver;
    decided_at = now;
    decision_reason = trim_space decision_reason;
    updated_at = now;
    events =
        r.events
        ++ denied_event (record {
          request_id = r.id;
          tenant_id = r.tenant_id;
          approver_membership_id = approver;
          reason = trim_space decision_reason;
          at = now;
        })
          ∷ [];
  })

-- `Cancel`.
unfoldable pub cancel : Request → Time → Result Err Request
cancel r now = do
  fail_if (not (is_pending r.state)) not_pending
  ok (record r {
    state = cancelled;
    decided_at = now;
    updated_at = now;
    events =
        r.events
        ++ cancelled_event (record { request_id = r.id; tenant_id = r.tenant_id; at = now }) ∷ [];
  })

-- `PullEvents`: the events, and the request without them.
unfoldable pub pull_events : Request → List Event × Request
pull_events r = (r.events, record r { events = [] })

-- The calls that change a request.
pub data Call : Type 0 where
  approves : Str → Str → Str → Time → Time → Call
  denies : Str → Str → Time → Call
  cancels : Time → Call
  pulls_events : Call

-- A call with the events that it hands out; a call that fails leaves the request as it was.
unfoldable pub step : Request → Call → List Event × Request
unfolding approve deny cancel pull_events
step r (approves approver reason override expires_at now) =
    ([], after r (approve r approver reason override expires_at now))
step r (denies approver reason now) = ([], after r (deny r approver reason now))
step r (cancels now) = ([], after r (cancel r now))
step r pulls_events = pull_events r

-- A sequence of calls, with the events handed out so far.
unfoldable pub run : List Event → Request → List Call → List Event × Request
run outbox r [] = (outbox, r)
run outbox r (c ∷ calls) = let (es, s) = step r c in run (outbox ++ es) s calls
