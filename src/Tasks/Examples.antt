-- ===== src/Tasks/Examples.antt =====
-- A run of a work item on concrete inputs, and the theorem at these inputs.
use leadkart_go.Base.{◌≡◌, refl, Bool, not, List, [], ◌∷◌, ◌++◌, ok, is_empty}
use leadkart_go.Base.Text.{Str, codes, str_eq, trim_space, byte_len}
use leadkart_go.Tasks.WorkItem.Catalogues.{completed, callback_reminder, no_priority}
use leadkart_go.Tasks.WorkItem.Item.{Source, NewParams, opened, new_common}
use leadkart_go.Tasks.WorkItem.Transitions.{
  Call, starts, completes, cancels, marks_overdue, reassigns, pulls_events, start, complete, cancel,
  mark_overdue, reassign, pull_events, step, run,
}
use leadkart_go.Tasks.WorkItem.Lifecycle.{Told, IsClosing, status}
use leadkart_go.Tasks.WorkItem.Refinement.{told_by_run}

-- A stand-in for the parser of ids.
abbrev is_id : Str → Bool
is_id s = not (is_empty s)

abbrev call_log : Source
call_log = record {
  from_module = codes "crm";
  entity_type = codes "call_log";
  entity_id = codes "c-1";
}

abbrev params : NewParams
params = record {
  id = codes "w-1";
  tenant_id = codes "t-1";
  item_type = callback_reminder;
  priority = no_priority;
  title = codes " Call back ";
  description = [];
  assigned_to_membership_id = codes "m-1";
  assigned_by_membership_id = codes "m-2";
  created_by_membership_id = codes "m-2";
  due_at = 50;
  batch_id = [];
  now = 10;
}

callback : new_common is_id params call_log ≡ ok (opened params call_log)
unfolding new_common trim_space byte_len
callback = refl

-- A start, a lapse, a second start that is refused, another member, the end, and a late cancellation.
abbrev calls : List Call
calls =
    starts (codes "m-1") 20
    ∷ marks_overdue 60
    ∷ starts (codes "m-1") 61
    ∷ pulls_events
    ∷ reassigns (codes "m-3") (codes "m-2") [] 62
    ∷ completes (codes "m-3") 70
    ∷ cancels (codes "m-3") (codes "late") 71
    ∷ []

ends_completed : (run is_id [] (opened params call_log) calls).1.state ≡ completed
unfolding run step start complete cancel mark_overdue reassign pull_events str_eq trim_space
    byte_len
ends_completed = refl

told_by_run_example :
    let (outbox, v) = run is_id [] (opened params call_log) calls in
    Told (outbox ++ v.events) (status v) × IsClosing (status v)
told_by_run_example = told_by_run is_id params call_log (opened params call_log) calls callback
