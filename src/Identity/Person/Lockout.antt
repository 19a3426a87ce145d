-- ===== src/Identity/Person/Lockout.antt =====
-- internal/identity/domain/person/person.go: the lockout after failed logins.
use leadkart_go.Base.{Bool, false, not, ◌&&◌, ◌||◌, [], ◌∷◌, ◌++◌, ◌+◌, if◌then◌else◌}
use leadkart_go.Base.Int64.{pos, ltb_ℤ, leb_ℤ, add64}
use leadkart_go.Base.Clock.{Time, zero_time, is_zero_time, is_after}
use leadkart_go.Identity.Person.Events.{account_locked_event, account_unlocked_event}
use leadkart_go.Identity.Person.State.{max_failed_logins, lockout_window, lockout_duration, Person}

-- `IsLocked`.
abbrev pub is_locked : Person → Time → Bool
is_locked p now = if is_zero_time p.locked_until then false else is_after p.locked_until now

-- The start of `RegisterFailedLogin`: a failure outside the window begins a new count, and clears a
-- lockout that is over.
abbrev pub windowed : Person → Time → Person
windowed p now =
    let over = not (is_zero_time p.locked_until) && not (is_after p.locked_until now) in
    if not (is_zero_time p.last_failed_login_at)
      && is_after now (p.last_failed_login_at + lockout_window)
    then record p {
      failed_login_count = pos 0;
      locked_until = if over then zero_time else p.locked_until;
    }
    else p

abbrev pub counted : Person → Time → Person
counted p now = record p {
  failed_login_count = add64 p.failed_login_count (pos 1);
  last_failed_login_at = now;
}

-- The end of `RegisterFailedLogin`: the lockout at the threshold.
abbrev pub lock_at_threshold : Person → Time → Person
lock_at_threshold p now =
    if leb_ℤ (pos max_failed_logins) p.failed_login_count && not (is_locked p now)
    then record p {
      locked_until = now + lockout_duration;
      events =
          p.events
          ++ account_locked_event (record {
            person_id = p.id;
            locked_until = now + lockout_duration;
            failed_count = p.failed_login_count;
            at = now;
          })
            ∷ [];
    }
    else p

-- `RegisterFailedLogin`.
unfoldable pub register_failed_login : Person → Time → Person
register_failed_login p now = lock_at_threshold (counted (windowed p now) now) now

-- `RegisterSuccessfulLogin`.
unfoldable pub register_successful_login : Person → Time → Person
register_successful_login p now =
    let had_failures = ltb_ℤ (pos 0) p.failed_login_count || not (is_zero_time p.locked_until) in
    record p {
      failed_login_count = pos 0;
      locked_until = zero_time;
      last_failed_login_at = zero_time;
      events =
          if had_failures
          then p.events ++ account_unlocked_event (record { person_id = p.id; at = now }) ∷ []
          else p.events;
    }
