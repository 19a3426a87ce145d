-- ===== src/Identity/Person/Standing.antt =====
-- internal/identity/domain/person/person.go: the names, the global suspension and the anonymisation.
use leadkart_go.Base.{
  true, false, not, ◌&&◌, [], ◌∷◌, ◌++◌, Result, ok, ◌>>◌, fail_if, if◌then◌else◌,
}
use leadkart_go.Base.Text.{Str, codes, str_eq, is_blank}
use leadkart_go.Base.Clock.{Time, zero_time}
use leadkart_go.Identity.Person.Events.{
  profile_updated_event, anonymised_event, globally_suspended_event, global_suspension_lifted_event,
}
use leadkart_go.Identity.Person.State.{Err, invalid, Person, validate_names}

-- The writes of `UpdateProfile`.
abbrev pub renamed : Person → Str → Str → Time → Person
renamed p first_name last_name now = record p {
  first_name = first_name;
  last_name = last_name;
  events =
      p.events
      ++ profile_updated_event (record {
        person_id = p.id;
        old_first_name = p.first_name;
        old_last_name = p.last_name;
        new_first_name = first_name;
        new_last_name = last_name;
        at = now;
      })
        ∷ [];
}

-- `UpdateProfile`.
unfoldable pub update_profile : Person → Str → Str → Time → Result Err Person
update_profile p first_name last_name now = do
  fail_if p.is_anonymised invalid
  validate_names first_name last_name
  let same = str_eq first_name p.first_name && str_eq last_name p.last_name
  ok (if same then p else renamed p first_name last_name now)

-- The writes of `GloballySuspend`.
abbrev pub suspended : Person → Str → Str → Time → Person
suspended p reason stamp now = record p {
  is_globally_suspended = true;
  global_suspension_reason = reason;
  globally_suspended_at = now;
  security_stamp = stamp;
  events =
      p.events
      ++ globally_suspended_event (record { person_id = p.id; reason = reason; at = now }) ∷ [];
}

-- `GloballySuspend`.
unfoldable pub globally_suspend : Person → Str → Str → Time → Result Err Person
globally_suspend p reason stamp now = do
  fail_if (is_blank reason) invalid
  fail_if p.is_anonymised invalid
  fail_if (p.is_globally_suspended && not (str_eq p.global_suspension_reason reason)) invalid
  ok (if p.is_globally_suspended then p else suspended p reason stamp now)

-- `LiftGlobalSuspension`, which does not fail.
unfoldable pub lift_global_suspension : Person → Time → Person
lift_global_suspension p now = if not p.is_globally_suspended then p else record p {
  is_globally_suspended = false;
  global_suspension_reason = [];
  globally_suspended_at = zero_time;
  events = p.events ++ global_suspension_lifted_event (record { person_id = p.id; at = now }) ∷ [];
}

-- `Anonymise`, which does not fail.
unfoldable pub anonymise : Person → Str → Time → Person
anonymise p stamp now = if p.is_anonymised then p else record p {
  first_name = codes "anonymised";
  last_name = codes "anonymised";
  is_active = false;
  is_anonymised = true;
  anonymised_at = now;
  security_stamp = stamp;
  events = p.events ++ anonymised_event (record { person_id = p.id; at = now }) ∷ [];
}
