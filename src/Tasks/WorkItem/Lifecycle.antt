-- ===== src/Tasks/WorkItem/Lifecycle.antt =====
-- The life of a work item as its events tell it: a relation on what a subscriber knows of the item, and
-- what holds along it. internal/tasks/domain/workitem: the machine of state.go.
use leadkart_go.Base.{◌≡◌, true, false, not, ◌||◌, List, [], ◌∷◌, ◌++◌, is_empty, arith}
use leadkart_go.Base.Text.{Str, str_eq}
use leadkart_go.Base.Clock.{Time, zero_time, is_zero_time}
use leadkart_go.Tasks.WorkItem.Catalogues.{
  State, pending, in_progress, completed, overdue, cancelled, is_state, is_open, is_valid_state,
}
use leadkart_go.Tasks.WorkItem.Item.{
  WorkItem, Event, CreatedEvent, StartedEvent, CompletedEvent, CancelledEvent, OverdueEvent,
  ReassignedEvent, created_event, started_event, completed_event, cancelled_event, overdue_event,
  reassigned_event,
}

-- What a subscriber knows of an item.
pub record Status : Type 0 where
  pub item : Str
  pub tenant : Str
  pub state : State
  pub assignee : Str
  pub due_at : Time
  pub completed_at : Time
  pub cancelled_at : Time
  pub reason : Str

abbrev pub status : WorkItem → Status
status w = record {
  item = w.id;
  tenant = w.tenant_id;
  state = w.state;
  assignee = w.assigned_to_membership_id;
  due_at = w.due_at;
  completed_at = w.completed_at;
  cancelled_at = w.cancelled_at;
  reason = w.cancellation_reason;
}

-- The status that a creation announces.
abbrev pub announced : CreatedEvent → Status
announced e = record {
  item = e.work_item_id;
  tenant = e.tenant_id;
  state = pending;
  assignee = e.assigned_to_membership_id;
  due_at = e.due_at;
  completed_at = zero_time;
  cancelled_at = zero_time;
  reason = [];
}

-- One step of the life: a pending item is started; an open one is completed, cancelled for a reason, or
-- given to another member; and one that is pending or in progress becomes overdue.
pub data Step (s : Status) : Event → Status → Type 0 where
  starts :
      (e : StartedEvent)
      → (e.work_item_id ≡ s.item) × (e.tenant_id ≡ s.tenant)
      → s.state ≡ pending
      → Step s (started_event e) (record s { state = in_progress })
  completes :
      (e : CompletedEvent)
      → (e.work_item_id ≡ s.item) × (e.tenant_id ≡ s.tenant)
      → is_open s.state ≡ true
      → is_zero_time e.at ≡ false
      → Step s (completed_event e) (record s { state = completed; completed_at = e.at })
  cancels :
      (e : CancelledEvent)
      → (e.work_item_id ≡ s.item) × (e.tenant_id ≡ s.tenant)
      → is_open s.state ≡ true
      → is_zero_time e.at ≡ false
      → is_empty e.reason ≡ false
      → Step s
          (cancelled_event e)
          (record s { state = cancelled; cancelled_at = e.at; reason = e.reason })
  lapses :
      (e : OverdueEvent)
      → (e.work_item_id ≡ s.item) × (e.tenant_id ≡ s.tenant)
      → (e.assigned_to_membership_id ≡ s.assignee) × (e.due_at ≡ s.due_at)
      → (is_state s.state pending || is_state s.state in_progress) ≡ true
      → Step s (overdue_event e) (record s { state = overdue })
  moves :
      (e : ReassignedEvent)
      → (e.work_item_id ≡ s.item) × (e.tenant_id ≡ s.tenant)
      → e.previous_assignee ≡ s.assignee
      → str_eq s.assignee e.new_assignee_membership_id ≡ false
      → is_open s.state ≡ true
      → Step s (reassigned_event e) (record s { assignee = e.new_assignee_membership_id })

-- The status that a log leads to: it begins with a creation.
pub data Told : List Event → Status → Type 0 where
  created : (e : CreatedEvent) → Told (created_event e ∷ []) (announced e)
  stepped :
      {log : List Event} {s t : Status} (e : Event)
      → Told log s
      → Step s e t
      → Told (log ++ e ∷ []) t

-- How a status shows that the item is closed.
pub record IsClosing (s : Status) : Type 0 where
  pub state_valid : is_valid_state s.state ≡ true
  pub completed_iff : is_zero_time s.completed_at ≡ not (is_state s.state completed)
  pub cancelled_iff : is_zero_time s.cancelled_at ≡ not (is_state s.state cancelled)
  pub reason_iff : is_empty s.reason ≡ not (is_state s.state cancelled)

Step-IsClosing : (s t : Status) (e : Event) → Step s e t → IsClosing s → IsClosing t
Step-IsClosing s t e (starts d own from) c = ground arith
Step-IsClosing s t e (completes d own from time) c = ground arith
Step-IsClosing s t e (cancels d own from time reason) c = ground arith
Step-IsClosing s t e (lapses d own same from) c = ground arith
Step-IsClosing s t e (moves d own previous new from) c = ground arith

pub told-IsClosing : (log : List Event) (s : Status) → Told log s → IsClosing s
told-IsClosing log s (created e) = ground arith
told-IsClosing log s (stepped {log = before} {s = r} e told step) =
    Step-IsClosing r s e step (told-IsClosing before r told)
