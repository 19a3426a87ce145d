-- ===== src/Identity/Person/Stamp.antt =====
-- When outstanding sessions are cut off: the security stamp of a person, which every token of a session
-- carries. internal/identity/domain/person/person.go.
use leadkart_go.Base.{◌≡◌, ◌⊎◌, true, not, ◌||◌, Option, none, some, arith}
use leadkart_go.Base.Text.{Str}
use leadkart_go.Identity.Person.State.{Person}
use leadkart_go.Identity.Person.Credentials.{
  change_password, request_password_reset, confirm_password_reset, cancel_password_reset,
  mark_password_changed,
}
use leadkart_go.Identity.Person.EmailChange.{
  request_email_change, confirm_email_change, cancel_email_change,
}
use leadkart_go.Identity.Person.Standing.{
  update_profile, globally_suspend, lift_global_suspension, anonymise,
}
use leadkart_go.Identity.Person.Lockout.{register_failed_login, register_successful_login}
use leadkart_go.Identity.Person.Calls.{
  Call, changes_password, updates_profile, requests_password_reset, confirms_password_reset,
  cancels_password_reset, requests_email_change, confirms_email_change, cancels_email_change,
  suspends_globally, lifts_suspension, anonymises, marks_password_changed, fails_login,
  succeeds_login, pulls_events, pull_events, step,
}

-- The stamp that a call draws.
abbrev pub drawn_stamp : Call → Option Str
drawn_stamp (changes_password new_hash stamp now) = some stamp
drawn_stamp (confirms_password_reset hash new_hash stamp now) = some stamp
drawn_stamp (confirms_email_change hash stamp now) = some stamp
drawn_stamp (suspends_globally reason stamp now) = some stamp
drawn_stamp (anonymises stamp now) = some stamp
drawn_stamp _ = none

-- Nothing that ends a session has happened between two states: the stamp, the password, the email and
-- the activity are the same, and there is no new suspension.
pub record IsUndisturbed (p : Person) (q : Person) : Type 0 where
  pub same_stamp : q.security_stamp ≡ p.security_stamp
  pub same_password : q.password_hash ≡ p.password_hash
  pub same_email : q.email ≡ p.email
  pub same_activity : q.is_active ≡ p.is_active
  pub same_erasure : q.is_anonymised ≡ p.is_anonymised
  pub no_suspension : (not q.is_globally_suspended || p.is_globally_suspended) ≡ true

-- Whatever is called on a person: either the password, the email address, the activity and the
-- anonymisation stay as they are, with no new suspension and the same stamp, or the person has the
-- stamp that the call drew. So no change of the credential, no suspension and no anonymisation leaves
-- the old stamp in force.
pub step_rotates_stamp :
    (p : Person) (c : Call)
    → IsUndisturbed p (step p c) ⊎ (drawn_stamp c ≡ some (step p c).security_stamp)
unfolding step
step_rotates_stamp p (changes_password new_hash stamp now) = unfold change_password in ground arith
step_rotates_stamp p (updates_profile first_name last_name now) =
    unfold update_profile in ground arith
step_rotates_stamp p (requests_password_reset token hash ttl now) =
    unfold request_password_reset in ground arith
step_rotates_stamp p (confirms_password_reset hash new_hash stamp now) =
    unfold confirm_password_reset in ground arith
step_rotates_stamp p (cancels_password_reset reason now) =
    unfold cancel_password_reset in ground arith
step_rotates_stamp p (requests_email_change new_email token hash ttl now) =
    unfold request_email_change in ground arith
step_rotates_stamp p (confirms_email_change hash stamp now) =
    unfold confirm_email_change in ground arith
step_rotates_stamp p (cancels_email_change reason now) = unfold cancel_email_change in ground arith
step_rotates_stamp p (suspends_globally reason stamp now) = unfold globally_suspend in ground arith
step_rotates_stamp p (lifts_suspension now) = unfold lift_global_suspension in ground arith
step_rotates_stamp p (anonymises stamp now) = unfold anonymise in ground arith
step_rotates_stamp p marks_password_changed = unfold mark_password_changed in ground arith
step_rotates_stamp p (fails_login now) = unfold register_failed_login in ground arith
step_rotates_stamp p (succeeds_login now) = unfold register_successful_login in ground arith
step_rotates_stamp p pulls_events = unfold pull_events in ground arith
