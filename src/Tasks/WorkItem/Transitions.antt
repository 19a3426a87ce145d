-- ===== src/Tasks/WorkItem/Transitions.antt =====
-- internal/tasks/domain/workitem/workitem.go: the operations that change a work item.
use leadkart_go.Base.{
  Bool, not, ◌&&◌, ◌||◌, List, [], ◌∷◌, ◌++◌, Result, ok, err, ◌>>◌, fail_if, after, is_empty, ltb,
  if◌then◌else◌,
}
use leadkart_go.Base.Text.{Str, str_eq, trim_space, byte_len}
use leadkart_go.Base.Clock.{Time, is_zero_time}
use leadkart_go.Base.Uuid.{validate_uuid_string}
use leadkart_go.Tasks.WorkItem.Catalogues.{
  Err, invalid, conflict, pending, in_progress, completed, overdue, cancelled, is_state,
  is_terminal,
}
use leadkart_go.Tasks.WorkItem.Item.{
  WorkItem, Event, started_event, completed_event, cancelled_event, overdue_event, reassigned_event,
}

-- The writes of `Start`.
abbrev pub started : WorkItem → Str → Time → WorkItem
started w actor now = record w {
  state = in_progress;
  events =
      w.events
      ++ started_event
          (record { work_item_id = w.id; tenant_id = w.tenant_id; actor_id = actor; at = now })
        ∷ [];
}

-- The end of `Start`, for an item that is not in progress.
abbrev start_other : WorkItem → Str → Time → Result Err WorkItem
start_other w actor now = do
  fail_if (is_terminal w.state) conflict
  fail_if (is_state w.state overdue) conflict
  ok (started w actor now)

-- `Start`.
unfoldable pub start : (Str → Bool) → WorkItem → Str → Time → Result Err WorkItem
start is_uuid w actor now = do
  validate_uuid_string is_uuid invalid actor
  fail_if (is_zero_time now) invalid
  if is_state w.state in_progress then ok w else start_other w actor now

-- The writes of `Complete`.
abbrev pub finished : WorkItem → Str → Time → WorkItem
finished w actor now = record w {
  state = completed;
  completed_at = now;
  events =
      w.events
      ++ completed_event
          (record { work_item_id = w.id; tenant_id = w.tenant_id; actor_id = actor; at = now })
        ∷ [];
}

-- The end of `Complete`, for an item that is not completed.
abbrev complete_other : WorkItem → Str → Time → Result Err WorkItem
complete_other w actor now = do
  fail_if (is_state w.state cancelled) conflict
  ok (finished w actor now)

-- `Complete`.
unfoldable pub complete : (Str → Bool) → WorkItem → Str → Time → Result Err WorkItem
complete is_uuid w actor now = do
  validate_uuid_string is_uuid invalid actor
  fail_if (is_zero_time now) invalid
  if is_state w.state completed then ok w else complete_other w actor now

-- The writes of `Cancel`.
abbrev pub dropped : WorkItem → Str → Str → Time → WorkItem
dropped w actor reason now = record w {
  state = cancelled;
  cancelled_at = now;
  cancellation_reason = reason;
  events =
      w.events
      ++ cancelled_event (record {
        work_item_id = w.id;
        tenant_id = w.tenant_id;
        actor_id = actor;
        reason = reason;
        at = now;
      })
        ∷ [];
}

-- The end of `Cancel`: a cancelled item takes its own reason again, and no other.
abbrev cancel_other : WorkItem → Str → Str → Time → Result Err WorkItem
cancel_other w actor reason now = do
  fail_if (is_state w.state completed) conflict
  ok (dropped w actor reason now)

abbrev cancel_again : WorkItem → Str → Result Err WorkItem
cancel_again w reason = if str_eq w.cancellation_reason reason then ok w else err conflict

-- `Cancel`.
unfoldable pub cancel : (Str → Bool) → WorkItem → Str → Str → Time → Result Err WorkItem
cancel is_uuid w actor raw now = do
  let reason = trim_space raw
  validate_uuid_string is_uuid invalid actor
  fail_if (is_empty reason) invalid
  fail_if (ltb 1000 (byte_len reason)) invalid
  fail_if (is_zero_time now) invalid
  if is_state w.state cancelled then cancel_again w reason else cancel_other w actor reason now

-- The writes of `MarkOverdue`.
abbrev pub flagged : WorkItem → Time → WorkItem
flagged w now = record w {
  state = overdue;
  events =
      w.events
      ++ overdue_event (record {
        work_item_id = w.id;
        tenant_id = w.tenant_id;
        assigned_to_membership_id = w.assigned_to_membership_id;
        due_at = w.due_at;
        at = now;
      })
        ∷ [];
}

-- The end of `MarkOverdue`, for an item that is neither overdue nor closed.
abbrev flag_other : WorkItem → Time → Result Err WorkItem
flag_other w now = do
  fail_if (not (is_state w.state pending) && not (is_state w.state in_progress)) conflict
  ok (flagged w now)

-- `MarkOverdue`.
unfoldable pub mark_overdue : WorkItem → Time → Result Err WorkItem
mark_overdue w now = do
  fail_if (is_zero_time now) invalid
  if is_state w.state overdue || is_terminal w.state then ok w else flag_other w now

-- The writes of `Reassign`.
abbrev pub moved : WorkItem → Str → Str → Str → Time → WorkItem
moved w new_assignee by reason now = record w {
  assigned_to_membership_id = new_assignee;
  events =
      w.events
      ++ reassigned_event (record {
        work_item_id = w.id;
        tenant_id = w.tenant_id;
        previous_assignee = w.assigned_to_membership_id;
        new_assignee_membership_id = new_assignee;
        reassigned_by_membership_id = by;
        reason = reason;
        at = now;
      })
        ∷ [];
}

-- `Reassign`.
unfoldable pub reassign : (Str → Bool) → WorkItem → Str → Str → Str → Time → Result Err WorkItem
reassign is_uuid w new_assignee by reason now = do
  validate_uuid_string is_uuid invalid new_assignee
  validate_uuid_string is_uuid invalid by
  fail_if (is_zero_time now) invalid
  fail_if (is_terminal w.state) conflict
  let same = str_eq w.assigned_to_membership_id new_assignee
  ok (if same then w else moved w new_assignee by reason now)

-- `PullEvents`: the events, and the item without them.
unfoldable pub pull_events : WorkItem → List Event × WorkItem
pull_events w = (w.events, record w { events = [] })

-- The calls that change an item.
pub data Call : Type 0 where
  starts : Str → Time → Call
  completes : Str → Time → Call
  cancels : Str → Str → Time → Call
  marks_overdue : Time → Call
  reassigns : Str → Str → Str → Time → Call
  pulls_events : Call

-- A call with the events that it hands out; a call that fails leaves the item as it was.
unfoldable pub step : (Str → Bool) → WorkItem → Call → List Event × WorkItem
step is_uuid w (starts actor now) = ([], after w (start is_uuid w actor now))
step is_uuid w (completes actor now) = ([], after w (complete is_uuid w actor now))
step is_uuid w (cancels actor reason now) = ([], after w (cancel is_uuid w actor reason now))
step is_uuid w (marks_overdue now) = ([], after w (mark_overdue w now))
step is_uuid w (reassigns member by reason now) =
    ([], after w (reassign is_uuid w member by reason now))
step is_uuid w pulls_events = pull_events w

-- A sequence of calls, with the events handed out so far.
unfoldable pub run : (Str → Bool) → List Event → WorkItem → List Call → List Event × WorkItem
run is_uuid outbox w [] = (outbox, w)
run is_uuid outbox w (c ∷ calls) =
    let (es, v) = step is_uuid w c in run is_uuid (outbox ++ es) v calls
