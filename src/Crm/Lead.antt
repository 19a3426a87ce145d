-- ===== src/Crm/Lead.antt =====
-- internal/crm/domain/crmlead: crmlead.go and events.go. A tenant's lead, with its place in the sales
-- pipeline, its temperature and its assignee.
pub mod Stages
pub mod Taxonomy
pub mod Profiles
pub mod Pipeline
pub mod Refinement
pub mod Stamps
pub mod Progress
use leadkart_go.Base.{
  ◌≡◌, Bool, not, ◌||◌, List, [], ◌∷◌, ◌++◌, Result, ok, ◌>>=◌, ◌>>◌, fail_if, after, is_empty, ltb,
  if◌then◌else◌,
}
use leadkart_go.Base.Text.{Str, str_eq, trim_space, byte_len, is_blank}
use leadkart_go.Base.Clock.{Time, zero_time, is_zero_time}
use leadkart_go.Base.Uuid.{validate_uuid_string, validate_optional_uuid}
use leadkart_go.Crm.Lead.Stages.{
  Err, invalid, terminal, Stage, new_stage, converted, lost, is_valid_stage, same_stage,
  is_terminal, can_advance, Temperature, warm, is_valid_temperature, same_temperature,
}
use leadkart_go.Crm.Lead.Profiles.{Profile, PurchaseSnapshot, validate_profile, profile_of_snapshot}

pub record CreatedEvent : Type 0 where
  pub lead_id : Str
  pub tenant_id : Str
  pub source_purchase_id : Str
  pub created_by_membership_id : Str
  pub at : Time

pub record AssignedEvent : Type 0 where
  pub lead_id : Str
  pub tenant_id : Str
  pub previous_assignee : Str
  pub assignee_membership_id : Str
  pub assigned_by_membership_id : Str
  pub reason : Str
  pub at : Time

pub record StageChangedEvent : Type 0 where
  pub lead_id : Str
  pub tenant_id : Str
  pub old_stage : Stage
  pub new_stage_value : Stage
  pub changed_by_membership_id : Str
  pub reason : Str
  pub at : Time

pub record TemperatureChangedEvent : Type 0 where
  pub lead_id : Str
  pub tenant_id : Str
  pub old_temperature : Temperature
  pub new_temperature : Temperature
  pub changed_by_membership_id : Str
  pub at : Time

pub record ConvertedEvent : Type 0 where
  pub lead_id : Str
  pub tenant_id : Str
  pub converted_by_membership_id : Str
  pub at : Time

pub record LostEvent : Type 0 where
  pub lead_id : Str
  pub tenant_id : Str
  pub lost_by_membership_id : Str
  pub reason : Str
  pub at : Time

pub data Event : Type 0 where
  created_event : CreatedEvent → Event
  assigned_event : AssignedEvent → Event
  stage_changed_event : StageChangedEvent → Event
  temperature_changed_event : TemperatureChangedEvent → Event
  converted_event : ConvertedEvent → Event
  lost_event : LostEvent → Event

-- `CrmLead`.
pub record Lead : Type 0 where
  pub id : Str
  pub tenant_id : Str
  pub profile : Profile
  pub stage : Stage
  pub temperature : Temperature
  pub source_purchase_id : Str
  pub source_platform_lead_id : Str
  pub assignee_membership_id : Str
  pub assigned_at : Time
  pub converted_at : Time
  pub converted_by_membership_id : Str
  pub lost_at : Time
  pub lost_by_membership_id : Str
  pub lost_reason : Str
  pub created_at : Time
  pub created_by_membership_id : Str
  pub events : List Event

-- The lead that both constructors return, with the event of its creation.
abbrev pub created : Str → Str → Profile → Str → Str → Str → Time → Lead
created id tenant_id p source_purchase_id source_platform_lead_id created_by now = record {
  id = id;
  tenant_id = tenant_id;
  profile = p;
  stage = new_stage;
  temperature = warm;
  source_purchase_id = source_purchase_id;
  source_platform_lead_id = source_platform_lead_id;
  assignee_membership_id = [];
  assigned_at = zero_time;
  converted_at = zero_time;
  converted_by_membership_id = [];
  lost_at = zero_time;
  lost_by_membership_id = [];
  lost_reason = [];
  created_at = now;
  created_by_membership_id = created_by;
  events =
      created_event (record {
        lead_id = id;
        tenant_id = tenant_id;
        source_purchase_id = source_purchase_id;
        created_by_membership_id = created_by;
        at = now;
      })
      ∷ [];
}

-- `New`.
unfoldable pub new : (Str → Bool) → Str → Str → Profile → Str → Time → Result Err Lead
new is_uuid id tenant_id p created_by now = do
  fail_if (is_empty id) invalid
  validate_uuid_string is_uuid invalid id
  validate_uuid_string is_uuid invalid (trim_space tenant_id)
  validate_optional_uuid is_uuid invalid created_by
  validate_profile p
  fail_if (is_zero_time now) invalid
  ok (created id tenant_id p [] [] created_by now)

-- `NewFromPurchaseSnapshot`.
unfoldable pub new_from_purchase_snapshot :
    (Str → Bool) → Str → Str → PurchaseSnapshot → Time → Result Err Lead
new_from_purchase_snapshot is_uuid id tenant_id s now = do
  fail_if (is_empty id) invalid
  validate_uuid_string is_uuid invalid id
  validate_uuid_string is_uuid invalid (trim_space tenant_id)
  validate_uuid_string is_uuid invalid (trim_space s.purchase_id)
  validate_optional_uuid is_uuid invalid s.purchased_by_membership_id
  p ← profile_of_snapshot s
  validate_profile p
  fail_if (is_zero_time now) invalid
  ok (created id tenant_id p s.purchase_id s.platform_lead_id s.purchased_by_membership_id now)

-- The writes of `Assign`.
abbrev pub assigned : Lead → Str → Str → Str → Time → Lead
assigned l new_assignee assigned_by reason now = record l {
  assignee_membership_id = new_assignee;
  assigned_at = now;
  events =
      l.events
      ++ assigned_event (record {
        lead_id = l.id;
        tenant_id = l.tenant_id;
        previous_assignee = l.assignee_membership_id;
        assignee_membership_id = new_assignee;
        assigned_by_membership_id = assigned_by;
        reason = reason;
        at = now;
      })
        ∷ [];
}

-- `Assign`; after the test for the same member only the clock can still fail.
unfoldable pub assign : (Str → Bool) → Lead → Str → Str → Str → Time → Result Err Lead
assign is_uuid l new_assignee assigned_by reason now = do
  validate_uuid_string is_uuid invalid (trim_space new_assignee)
  validate_uuid_string is_uuid invalid (trim_space assigned_by)
  fail_if (is_terminal l.stage) terminal
  let moved =
      fail_if (is_zero_time now) invalid >> ok (assigned l new_assignee assigned_by reason now)
  if str_eq l.assignee_membership_id new_assignee then ok l else moved

-- The writes of `ChangeStage`.
abbrev pub advanced : Lead → Stage → Str → Str → Time → Lead
advanced l target changed_by reason now = record l {
  stage = target;
  events =
      l.events
      ++ stage_changed_event (record {
        lead_id = l.id;
        tenant_id = l.tenant_id;
        old_stage = l.stage;
        new_stage_value = target;
        changed_by_membership_id = changed_by;
        reason = reason;
        at = now;
      })
        ∷ [];
}

-- The end of `ChangeStage`, for a stage that differs from the present one.
abbrev advance : Lead → Stage → Str → Str → Time → Result Err Lead
advance l target changed_by reason now = do
  fail_if (not (can_advance l.stage target)) invalid
  fail_if (is_zero_time now) invalid
  ok (advanced l target changed_by reason now)

-- `ChangeStage`.
unfoldable pub change_stage : (Str → Bool) → Lead → Stage → Str → Str → Time → Result Err Lead
change_stage is_uuid l target changed_by reason now = do
  fail_if (not (is_valid_stage target)) invalid
  fail_if (same_stage target converted || same_stage target lost) invalid
  validate_uuid_string is_uuid invalid (trim_space changed_by)
  fail_if (is_terminal l.stage) terminal
  if same_stage l.stage target then ok l else advance l target changed_by reason now

-- The writes of `ChangeTemperature`.
abbrev pub warmed : Lead → Temperature → Str → Time → Lead
warmed l target changed_by now = record l {
  temperature = target;
  events =
      l.events
      ++ temperature_changed_event (record {
        lead_id = l.id;
        tenant_id = l.tenant_id;
        old_temperature = l.temperature;
        new_temperature = target;
        changed_by_membership_id = changed_by;
        at = now;
      })
        ∷ [];
}

-- `ChangeTemperature`.
unfoldable pub change_temperature : (Str → Bool) → Lead → Temperature → Str → Time → Result Err Lead
change_temperature is_uuid l target changed_by now = do
  fail_if (not (is_valid_temperature target)) invalid
  validate_uuid_string is_uuid invalid (trim_space changed_by)
  fail_if (is_terminal l.stage) terminal
  let moved = fail_if (is_zero_time now) invalid >> ok (warmed l target changed_by now)
  if same_temperature l.temperature target then ok l else moved

-- `Convert`.
unfoldable pub convert : (Str → Bool) → Lead → Str → Time → Result Err Lead
convert is_uuid l converted_by now = do
  validate_uuid_string is_uuid invalid (trim_space converted_by)
  fail_if (is_terminal l.stage) terminal
  fail_if (is_zero_time now) invalid
  ok (record l {
    stage = converted;
    converted_at = now;
    converted_by_membership_id = converted_by;
    events =
        l.events
        ++ converted_event (record {
          lead_id = l.id;
          tenant_id = l.tenant_id;
          converted_by_membership_id = converted_by;
          at = now;
        })
          ∷ [];
  })

-- `Lose`.
unfoldable pub lose : (Str → Bool) → Lead → Str → Str → Time → Result Err Lead
lose is_uuid l lost_by reason now = do
  validate_uuid_string is_uuid invalid (trim_space lost_by)
  fail_if (is_blank reason) invalid
  fail_if (ltb 1000 (byte_len reason)) invalid
  fail_if (is_terminal l.stage) terminal
  fail_if (is_zero_time now) invalid
  ok (record l {
    stage = lost;
    lost_at = now;
    lost_by_membership_id = lost_by;
    lost_reason = reason;
    events =
        l.events
        ++ lost_event (record {
          lead_id = l.id;
          tenant_id = l.tenant_id;
          lost_by_membership_id = lost_by;
          reason = reason;
          at = now;
        })
          ∷ [];
  })

-- `PullEvents`: the events, and the lead without them.
unfoldable pub pull_events : Lead → List Event × Lead
pull_events l = (l.events, record l { events = [] })

-- The calls that change a lead.
pub data Call : Type 0 where
  assigns : Str → Str → Str → Time → Call
  changes_stage : Stage → Str → Str → Time → Call
  changes_temperature : Temperature → Str → Time → Call
  converts : Str → Time → Call
  loses : Str → Str → Time → Call
  pulls_events : Call

-- A call with the events that it hands out; a call that fails leaves the lead as it was.
unfoldable pub step : (Str → Bool) → Lead → Call → List Event × Lead
unfolding assign change_stage change_temperature convert lose pull_events
step is_uuid l (assigns member by reason now) =
    ([], after l (assign is_uuid l member by reason now))
step is_uuid l (changes_stage s by reason now) =
    ([], after l (change_stage is_uuid l s by reason now))
step is_uuid l (changes_temperature t by now) =
    ([], after l (change_temperature is_uuid l t by now))
step is_uuid l (converts by now) = ([], after l (convert is_uuid l by now))
step is_uuid l (loses by reason now) = ([], after l (lose is_uuid l by reason now))
step is_uuid l pulls_events = pull_events l

-- A sequence of calls, with the events handed out so far.
unfoldable pub run : (Str → Bool) → List Event → Lead → List Call → List Event × Lead
run is_uuid outbox l [] = (outbox, l)
run is_uuid outbox l (c ∷ calls) =
    let (es, m) = step is_uuid l c in run is_uuid (outbox ++ es) m calls
