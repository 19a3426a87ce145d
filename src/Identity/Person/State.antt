-- ===== src/Identity/Person/State.antt =====
-- internal/identity/domain/person: the Person of person.go with its pending changes, and `New`. An email
-- address, a hash and a stamp are their texts; the stamp that `NewSecurityStamp` draws is an argument.
use leadkart_go.Base.{
  Bool, true, false, List, [], ◌∷◌, Result, ok, ◌>>◌, fail_if, is_empty, ltb, ◌*◌, ℕ,
}
use leadkart_go.Base.Int64.{ℤ, pos}
use leadkart_go.Base.Text.{Str, byte_len, is_blank}
use leadkart_go.Base.Clock.{Time, zero_time}
use leadkart_go.Identity.Person.Events.{Event, created_event}

-- `ErrInvalid`.
pub data Err : Type 0 where
  invalid : Err

abbrev pub name_max_len : ℕ
name_max_len = 100

-- The thresholds of the lockout, with the durations in nanoseconds.
abbrev pub max_failed_logins : ℕ
max_failed_logins = 10

abbrev pub lockout_window : ℕ
lockout_window = 15 * 60000000000

abbrev pub lockout_duration : ℕ
lockout_duration = 15 * 60000000000

pub record PendingPasswordReset : Type 0 where
  pub hash : Str
  pub expires_at : Time

abbrev pub no_reset : PendingPasswordReset
no_reset = record { hash = []; expires_at = zero_time }

pub record PendingEmailChange : Type 0 where
  pub new_email : Str
  pub hash : Str
  pub expires_at : Time

abbrev pub no_email_change : PendingEmailChange
no_email_change = record { new_email = []; hash = []; expires_at = zero_time }

pub record Person : Type 0 where
  pub id : Str
  pub email : Str
  pub first_name : Str
  pub last_name : Str
  pub password_hash : Str
  pub security_stamp : Str
  pub is_active : Bool
  pub is_anonymised : Bool
  pub is_globally_suspended : Bool
  pub global_suspension_reason : Str
  pub globally_suspended_at : Time
  pub pending_password_reset : PendingPasswordReset
  pub pending_email_change : PendingEmailChange
  pub must_change_password : Bool
  pub failed_login_count : ℤ
  pub locked_until : Time
  pub last_failed_login_at : Time
  pub created_at : Time
  pub anonymised_at : Time
  pub events : List Event

-- The checks of both names, in `New` and in `UpdateProfile`.
abbrev pub validate_names : Str → Str → Result Err (Unit {0})
validate_names first_name last_name = do
  fail_if (is_blank first_name) invalid
  fail_if (is_blank last_name) invalid
  fail_if (ltb name_max_len (byte_len first_name)) invalid
  fail_if (ltb name_max_len (byte_len last_name)) invalid
  ok tt

-- `New`.
unfoldable pub new : Str → Str → Str → Str → Str → Str → Time → Result Err Person
new id email first_name last_name password_hash stamp now = do
  fail_if (is_empty id) invalid
  fail_if (is_empty email) invalid
  validate_names first_name last_name
  fail_if (is_empty password_hash) invalid
  ok (record {
    id = id;
    email = email;
    first_name = first_name;
    last_name = last_name;
    password_hash = password_hash;
    security_stamp = stamp;
    is_active = true;
    is_anonymised = false;
    is_globally_suspended = false;
    global_suspension_reason = [];
    globally_suspended_at = zero_time;
    pending_password_reset = no_reset;
    pending_email_change = no_email_change;
    must_change_password = false;
    failed_login_count = pos 0;
    locked_until = zero_time;
    last_failed_login_at = zero_time;
    created_at = now;
    anonymised_at = zero_time;
    events =
        created_event (record {
          person_id = id;
          email = email;
          first_name = first_name;
          last_name = last_name;
          at = now;
        })
        ∷ [];
  })
