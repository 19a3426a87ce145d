-- ===== src/Tasks/WorkItem/Item.antt =====
-- internal/tasks/domain/workitem: the records of workitem.go and events.go, and the construction of an
-- item by hand or from an event of another module.
use leadkart_go.Base.{
  Bool, not, ◌&&◌, ◌||◌, List, [], ◌∷◌, Result, ok, ◌>>◌, fail_if, is_empty, ltb,
}
use leadkart_go.Base.Text.{Str, trim_space, byte_len}
use leadkart_go.Base.Clock.{Time, zero_time, is_zero_time}
use leadkart_go.Base.Uuid.{validate_uuid_string, validate_optional_uuid}
use leadkart_go.Tasks.WorkItem.Catalogues.{
  Err, invalid, State, pending, ItemType, is_valid_type, Priority, is_valid_priority, or_medium,
}

-- `Source`: the module, the type of the entity, and its id.
pub record Source : Type 0 where
  pub from_module : Str
  pub entity_type : Str
  pub entity_id : Str

-- `Source.IsZero`.
abbrev pub is_zero_source : Source → Bool
is_zero_source s = is_empty s.from_module && (is_empty s.entity_type && is_empty s.entity_id)

-- `Source.validate`.
abbrev pub validate_source : Source → Result Err (Unit {0})
validate_source s = do
  let all_set =
      not (is_empty s.from_module) && (not (is_empty s.entity_type) && not (is_empty s.entity_id))
  fail_if (not all_set && not (is_zero_source s)) invalid
  ok tt

pub record CreatedEvent : Type 0 where
  pub work_item_id : Str
  pub tenant_id : Str
  pub item_type : ItemType
  pub priority : Priority
  pub title : Str
  pub assigned_to_membership_id : Str
  pub assigned_by_membership_id : Str
  pub due_at : Time
  pub batch_id : Str
  pub source_module : Str
  pub source_entity_type : Str
  pub source_entity_id : Str
  pub created_by_membership_id : Str
  pub at : Time

pub record StartedEvent : Type 0 where
  pub work_item_id : Str
  pub tenant_id : Str
  pub actor_id : Str
  pub at : Time

pub record CompletedEvent : Type 0 where
  pub work_item_id : Str
  pub tenant_id : Str
  pub actor_id : Str
  pub at : Time

pub record CancelledEvent : Type 0 where
  pub work_item_id : Str
  pub tenant_id : Str
  pub actor_id : Str
  pub reason : Str
  pub at : Time

pub record OverdueEvent : Type 0 where
  pub work_item_id : Str
  pub tenant_id : Str
  pub assigned_to_membership_id : Str
  pub due_at : Time
  pub at : Time

pub record ReassignedEvent : Type 0 where
  pub work_item_id : Str
  pub tenant_id : Str
  pub previous_assignee : Str
  pub new_assignee_membership_id : Str
  pub reassigned_by_membership_id : Str
  pub reason : Str
  pub at : Time

pub data Event : Type 0 where
  created_event : CreatedEvent → Event
  started_event : StartedEvent → Event
  completed_event : CompletedEvent → Event
  cancelled_event : CancelledEvent → Event
  overdue_event : OverdueEvent → Event
  reassigned_event : ReassignedEvent → Event

pub record WorkItem : Type 0 where
  pub id : Str
  pub tenant_id : Str
  pub item_type : ItemType
  pub priority : Priority
  pub state : State
  pub title : Str
  pub description : Str
  pub assigned_to_membership_id : Str
  pub assigned_by_membership_id : Str
  pub due_at : Time
  pub completed_at : Time
  pub cancelled_at : Time
  pub cancellation_reason : Str
  pub batch_id : Str
  pub source : Source
  pub created_at : Time
  pub created_by_membership_id : Str
  pub events : List Event

pub record NewParams : Type 0 where
  pub id : Str
  pub tenant_id : Str
  pub item_type : ItemType
  pub priority : Priority
  pub title : Str
  pub description : Str
  pub assigned_to_membership_id : Str
  pub assigned_by_membership_id : Str
  pub created_by_membership_id : Str
  pub due_at : Time
  pub batch_id : Str
  pub now : Time

-- The item that `newCommon` returns.
abbrev pub opened : NewParams → Source → WorkItem
opened p src = record {
  id = p.id;
  tenant_id = p.tenant_id;
  item_type = p.item_type;
  priority = or_medium p.priority;
  state = pending;
  title = trim_space p.title;
  description = p.description;
  assigned_to_membership_id = p.assigned_to_membership_id;
  assigned_by_membership_id = p.assigned_by_membership_id;
  due_at = p.due_at;
  completed_at = zero_time;
  cancelled_at = zero_time;
  cancellation_reason = [];
  batch_id = p.batch_id;
  source = src;
  created_at = p.now;
  created_by_membership_id = p.created_by_membership_id;
  events =
      created_event (record {
        work_item_id = p.id;
        tenant_id = p.tenant_id;
        item_type = p.item_type;
        priority = or_medium p.priority;
        title = trim_space p.title;
        assigned_to_membership_id = p.assigned_to_membership_id;
        assigned_by_membership_id = p.assigned_by_membership_id;
        due_at = p.due_at;
        batch_id = p.batch_id;
        source_module = src.from_module;
        source_entity_type = src.entity_type;
        source_entity_id = src.entity_id;
        created_by_membership_id = p.created_by_membership_id;
        at = p.now;
      })
      ∷ [];
}

-- `newCommon`.
unfoldable pub new_common : (Str → Bool) → NewParams → Source → Result Err WorkItem
new_common is_uuid p src = do
  validate_uuid_string is_uuid invalid p.id
  validate_uuid_string is_uuid invalid (trim_space p.tenant_id)
  validate_uuid_string is_uuid invalid p.assigned_to_membership_id
  validate_uuid_string is_uuid invalid p.assigned_by_membership_id
  validate_uuid_string is_uuid invalid p.created_by_membership_id
  validate_optional_uuid is_uuid invalid p.batch_id
  fail_if (not (is_valid_type p.item_type)) invalid
  fail_if (not (is_valid_priority (or_medium p.priority))) invalid
  fail_if (ltb (byte_len (trim_space p.title)) 1 || ltb 200 (byte_len (trim_space p.title))) invalid
  fail_if (ltb 4000 (byte_len p.description)) invalid
  fail_if (is_zero_time p.due_at) invalid
  fail_if (is_zero_time p.now) invalid
  validate_source src
  ok (opened p src)

-- `NewManual`.
unfoldable pub new_manual : (Str → Bool) → NewParams → Result Err WorkItem
new_manual is_uuid p =
    new_common is_uuid p (record { from_module = []; entity_type = []; entity_id = [] })

-- `NewAutoCreated`; its parameters are those of `NewManual` and the source.
unfoldable pub new_auto_created : (Str → Bool) → NewParams → Source → Result Err WorkItem
new_auto_created is_uuid p src = do
  validate_source src
  fail_if (is_zero_source src) invalid
  new_common is_uuid p src
