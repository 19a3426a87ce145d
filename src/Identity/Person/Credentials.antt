-- ===== src/Identity/Person/Credentials.antt =====
-- internal/identity/domain/person/person.go: the change of a password, and its reset by a token.
use leadkart_go.Base.{
  false, not, ◌||◌, List, [], ◌∷◌, ◌++◌, Option, none, some, Result, ok, ◌>>◌, fail_if, is_empty,
  if◌then◌else◌,
}
use leadkart_go.Base.Int64.{ℤ, pos, leb_ℤ}
use leadkart_go.Base.Text.{Str, str_eq, is_blank}
use leadkart_go.Base.Clock.{Time, is_after, add_duration}
use leadkart_go.Identity.Person.Events.{
  Event, password_changed_event, password_reset_requested_event,
  password_reset_email_requested_event, password_reset_confirmed_event,
  password_reset_cancelled_event,
}
use leadkart_go.Identity.Person.State.{Err, invalid, no_reset, Person}

-- `ChangePassword`.
unfoldable pub change_password : Person → Str → Str → Time → Result Err Person
change_password p new_hash stamp now = do
  fail_if (is_empty new_hash) invalid
  ok (record p {
    password_hash = new_hash;
    security_stamp = stamp;
    must_change_password = false;
    events = p.events ++ password_changed_event (record { person_id = p.id; at = now }) ∷ [];
  })

-- The email that a request with a plaintext token asks for.
abbrev pub reset_email : Person → Str → Time → Time → List Event
reset_email p [] expires_at now = []
reset_email p (c ∷ token) expires_at now =
    password_reset_email_requested_event (record {
      person_id = p.id;
      email = p.email;
      plaintext_token = c ∷ token;
      expires_at = expires_at;
      recipient_name = p.first_name;
      at = now;
    })
    ∷ []

-- `RequestPasswordReset`.
unfoldable pub request_password_reset : Person → Str → Str → ℤ → Time → Result Err Person
request_password_reset p plaintext_token token_hash ttl now = do
  fail_if (is_empty token_hash) invalid
  fail_if (leb_ℤ ttl (pos 0)) invalid
  fail_if p.is_anonymised invalid
  fail_if p.is_globally_suspended invalid
  ok (record p {
    pending_password_reset = record { hash = token_hash; expires_at = add_duration now ttl };
    events =
        p.events
        ++ password_reset_requested_event
            (record { person_id = p.id; expires_at = add_duration now ttl; at = now })
          ∷ reset_email p plaintext_token (add_duration now ttl) now;
  })

-- The end of `ConfirmPasswordReset`, for a reset that is pending: an expired token is cleared with
-- the error.
abbrev pub redeem_reset : Person → Str → Str → Str → Time → Person × Option Err
redeem_reset p presented_hash new_hash stamp now =
    if not (is_after p.pending_password_reset.expires_at now)
    then (record p { pending_password_reset = no_reset }, some invalid)
    else if not (str_eq p.pending_password_reset.hash presented_hash)
    then (p, some invalid)
    else (
      record p {
        password_hash = new_hash;
        security_stamp = stamp;
        pending_password_reset = no_reset;
        must_change_password = false;
        events =
            p.events
            ++ password_reset_confirmed_event (record { person_id = p.id; at = now })
              ∷ password_changed_event (record { person_id = p.id; at = now })
              ∷ [];
      },
      none,
    )

-- `ConfirmPasswordReset`.
unfoldable pub confirm_password_reset : Person → Str → Str → Str → Time → Person × Option Err
confirm_password_reset p presented_hash new_hash stamp now =
    if is_empty new_hash
      || (is_empty presented_hash
          || (p.is_anonymised
              || (p.is_globally_suspended || is_empty p.pending_password_reset.hash)))
    then (p, some invalid)
    else redeem_reset p presented_hash new_hash stamp now

-- `CancelPasswordReset`, when a reset is pending.
abbrev pub withdraw_reset : Person → Str → Time → Result Err Person
withdraw_reset p reason now = do
  fail_if (is_blank reason) invalid
  ok (record p {
    pending_password_reset = no_reset;
    events =
        p.events
        ++ password_reset_cancelled_event (record { person_id = p.id; reason = reason; at = now })
          ∷ [];
  })

-- `CancelPasswordReset`.
unfoldable pub cancel_password_reset : Person → Str → Time → Result Err Person
cancel_password_reset p reason now =
    if is_empty p.pending_password_reset.hash then ok p else withdraw_reset p reason now

-- `MarkPasswordChanged`.
unfoldable pub mark_password_changed : Person → Person
mark_password_changed p =
    if not p.must_change_password then p else record p { must_change_password = false }
