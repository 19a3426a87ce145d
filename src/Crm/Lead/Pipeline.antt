-- ===== src/Crm/Lead/Pipeline.antt =====
-- What a lead's log of events promises to its subscribers: a walk through the sales pipeline that
-- gives every field the operations write. internal/crm/domain/crmlead/crmlead.go.
use leadkart_go.Base.{
  ◌≡◌, Bool, not, ◌&&◌, List, [], ◌∷◌, ◌++◌, Option, none, some, is_empty, replay_from,
  replay_from-snoc, if◌then◌else◌,
}
use leadkart_go.Base.Text.{Str, str_eq, trim_space}
use leadkart_go.Base.Clock.{Time, zero_time}
use leadkart_go.Crm.Lead.Stages.{
  Stage, new_stage, converted, lost, same_stage, is_terminal, can_advance, Temperature, warm,
  same_temperature,
}
use leadkart_go.Crm.Lead.{
  Lead, Event, created_event, assigned_event, stage_changed_event, temperature_changed_event,
  converted_event, lost_event,
}

-- What a subscriber knows of a lead.
pub record Position : Type 0 where
  pub lead : Str
  pub tenant : Str
  pub stage : Stage
  pub temperature : Temperature
  pub assignee : Str
  pub assigned_at : Time
  pub converted_at : Time
  pub converted_by : Str
  pub lost_at : Time
  pub lost_by : Str
  pub lost_reason : Str

abbrev pub position : Lead → Position
position l = record {
  lead = l.id;
  tenant = l.tenant_id;
  stage = l.stage;
  temperature = l.temperature;
  assignee = l.assignee_membership_id;
  assigned_at = l.assigned_at;
  converted_at = l.converted_at;
  converted_by = l.converted_by_membership_id;
  lost_at = l.lost_at;
  lost_by = l.lost_by_membership_id;
  lost_reason = l.lost_reason;
}

-- An event belongs to a lead that is still open.
abbrev concerns : Position → Str → Str → Bool
concerns p lead tenant = str_eq lead p.lead && str_eq tenant p.tenant && not (is_terminal p.stage)

-- Where an event leads: from the assignee, stage or temperature that it names to another one, the
-- stage by one step of the pipeline, or to one of the two ends with the stamps that it carries.
unfoldable pub follow : Position → Event → Option Position
follow p (created_event e) = none
follow p (assigned_event e) =
    if concerns p e.lead_id e.tenant_id
      && str_eq e.previous_assignee p.assignee
      && not (str_eq p.assignee e.assignee_membership_id)
    then some (record p { assignee = e.assignee_membership_id; assigned_at = e.at })
    else none
follow p (stage_changed_event e) =
    if concerns p e.lead_id e.tenant_id
      && same_stage e.old_stage p.stage
      && can_advance p.stage e.new_stage_value
    then some (record p { stage = e.new_stage_value })
    else none
follow p (temperature_changed_event e) =
    if concerns p e.lead_id e.tenant_id
      && same_temperature e.old_temperature p.temperature
      && not (same_temperature p.temperature e.new_temperature)
    then some (record p { temperature = e.new_temperature })
    else none
follow p (converted_event e) =
    if concerns p e.lead_id e.tenant_id
    then some (record p {
      stage = converted;
      converted_at = e.at;
      converted_by = e.converted_by_membership_id;
    })
    else none
follow p (lost_event e) =
    if concerns p e.lead_id e.tenant_id && not (is_empty (trim_space e.reason))
    then some (record p {
      stage = lost;
      lost_at = e.at;
      lost_by = e.lost_by_membership_id;
      lost_reason = e.reason;
    })
    else none

-- Where a lead starts.
abbrev pub start : Str → Str → Position
start lead tenant = record {
  lead = lead;
  tenant = tenant;
  stage = new_stage;
  temperature = warm;
  assignee = [];
  assigned_at = zero_time;
  converted_at = zero_time;
  converted_by = [];
  lost_at = zero_time;
  lost_by = [];
  lost_reason = [];
}

-- Where a log leads that begins with a creation.
unfoldable pub replay : List Event → Option Position
replay [] = none
replay (created_event e ∷ log) = replay_from follow (some (start e.lead_id e.tenant_id)) log
replay (_ ∷ log) = none

pub replay-snoc :
    (log : List Event) (e : Event) {p : Position}
    → replay log ≡ some p
    → replay (log ++ e ∷ []) ≡ follow p e
unfolding replay
replay-snoc [] e h = cc
replay-snoc (created_event d ∷ log) e h =
    replay_from-snoc follow (some (start d.lead_id d.tenant_id)) log e h
replay-snoc (assigned_event d ∷ log) e h = cc
replay-snoc (stage_changed_event d ∷ log) e h = cc
replay-snoc (temperature_changed_event d ∷ log) e h = cc
replay-snoc (converted_event d ∷ log) e h = cc
replay-snoc (lost_event d ∷ log) e h = cc
