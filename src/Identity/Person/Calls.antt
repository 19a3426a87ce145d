-- ===== src/Identity/Person/Calls.antt =====
-- The calls on a person: internal/identity/domain/person/person.go.
use leadkart_go.Base.{List, [], ◌∷◌, after}
use leadkart_go.Base.Int64.{ℤ}
use leadkart_go.Base.Text.{Str}
use leadkart_go.Base.Clock.{Time}
use leadkart_go.Identity.Person.Events.{Event}
use leadkart_go.Identity.Person.State.{Person}
use leadkart_go.Identity.Person.Credentials.{
  change_password, request_password_reset, confirm_password_reset, cancel_password_reset,
  mark_password_changed,
}
use leadkart_go.Identity.Person.EmailChange.{
  request_email_change, confirm_email_change, cancel_email_change,
}
use leadkart_go.Identity.Person.Standing.{
  update_profile, globally_suspend, lift_global_suspension, anonymise,
}
use leadkart_go.Identity.Person.Lockout.{register_failed_login, register_successful_login}

-- `PullEvents`: the events, and the person without them.
unfoldable pub pull_events : Person → List Event × Person
pull_events p = (p.events, record p { events = [] })

-- The calls that change a person; a call that draws a stamp carries it.
pub data Call : Type 0 where
  changes_password : Str → Str → Time → Call
  updates_profile : Str → Str → Time → Call
  requests_password_reset : Str → Str → ℤ → Time → Call
  confirms_password_reset : Str → Str → Str → Time → Call
  cancels_password_reset : Str → Time → Call
  requests_email_change : Str → Str → Str → ℤ → Time → Call
  confirms_email_change : Str → Str → Time → Call
  cancels_email_change : Str → Time → Call
  suspends_globally : Str → Str → Time → Call
  lifts_suspension : Time → Call
  anonymises : Str → Time → Call
  marks_password_changed : Call
  fails_login : Time → Call
  succeeds_login : Time → Call
  pulls_events : Call

-- The person after a call; a call that fails before its first write leaves it as it was.
unfoldable pub step : Person → Call → Person
step p (changes_password new_hash stamp now) = after p (change_password p new_hash stamp now)
step p (updates_profile first_name last_name now) =
    after p (update_profile p first_name last_name now)
step p (requests_password_reset token hash ttl now) =
    after p (request_password_reset p token hash ttl now)
step p (confirms_password_reset hash new_hash stamp now) =
    (confirm_password_reset p hash new_hash stamp now).0
step p (cancels_password_reset reason now) = after p (cancel_password_reset p reason now)
step p (requests_email_change new_email token hash ttl now) =
    after p (request_email_change p new_email token hash ttl now)
step p (confirms_email_change hash stamp now) = (confirm_email_change p hash stamp now).0
step p (cancels_email_change reason now) = after p (cancel_email_change p reason now)
step p (suspends_globally reason stamp now) = after p (globally_suspend p reason stamp now)
step p (lifts_suspension now) = lift_global_suspension p now
step p (anonymises stamp now) = anonymise p stamp now
step p marks_password_changed = mark_password_changed p
step p (fails_login now) = register_failed_login p now
step p (succeeds_login now) = register_successful_login p now
step p pulls_events = (pull_events p).1

unfoldable pub run : Person → List Call → Person
run p [] = p
run p (c ∷ calls) = run (step p c) calls
