-- ===== src/Identity/Person/EmailChange.antt =====
-- internal/identity/domain/person/person.go: the change of the email address by a token.
use leadkart_go.Base.{
  not, ◌||◌, List, [], ◌∷◌, ◌++◌, Option, none, some, Result, ok, ◌>>◌, fail_if, is_empty,
  if◌then◌else◌,
}
use leadkart_go.Base.Int64.{ℤ, pos, leb_ℤ}
use leadkart_go.Base.Text.{Str, str_eq, is_blank}
use leadkart_go.Base.Clock.{Time, is_after, add_duration}
use leadkart_go.Identity.Person.Events.{
  Event, email_change_requested_event, email_change_confirmation_requested_event,
  email_changed_event, email_change_cancelled_event,
}
use leadkart_go.Identity.Person.State.{Err, invalid, no_email_change, Person}

-- The confirmation email that a request with a plaintext token asks for.
abbrev pub change_email : Person → Str → Str → Time → Time → List Event
change_email p new_email [] expires_at now = []
change_email p new_email (c ∷ token) expires_at now =
    email_change_confirmation_requested_event (record {
      person_id = p.id;
      new_email = new_email;
      old_email = p.email;
      plaintext_token = c ∷ token;
      expires_at = expires_at;
      recipient_name = p.first_name;
      at = now;
    })
    ∷ []

-- `RequestEmailChange`.
unfoldable pub request_email_change : Person → Str → Str → Str → ℤ → Time → Result Err Person
request_email_change p new_email plaintext_token token_hash ttl now = do
  fail_if (is_empty new_email) invalid
  fail_if (str_eq new_email p.email) invalid
  fail_if (is_empty token_hash) invalid
  fail_if (leb_ℤ ttl (pos 0)) invalid
  fail_if p.is_anonymised invalid
  fail_if p.is_globally_suspended invalid
  ok (record p {
    pending_email_change = record {
      new_email = new_email;
      hash = token_hash;
      expires_at = add_duration now ttl;
    };
    events =
        p.events
        ++ email_change_requested_event (record {
          person_id = p.id;
          new_email = new_email;
          expires_at = add_duration now ttl;
          at = now;
        })
          ∷ change_email p new_email plaintext_token (add_duration now ttl) now;
  })

-- The end of `ConfirmEmailChange`, for a change that is pending.
abbrev pub redeem_change : Person → Str → Str → Time → Person × Option Err
redeem_change p presented_hash stamp now =
    if not (is_after p.pending_email_change.expires_at now)
    then (record p { pending_email_change = no_email_change }, some invalid)
    else if not (str_eq p.pending_email_change.hash presented_hash)
    then (p, some invalid)
    else (
      record p {
        email = p.pending_email_change.new_email;
        security_stamp = stamp;
        pending_email_change = no_email_change;
        events =
            p.events
            ++ email_changed_event (record {
              person_id = p.id;
              old_email = p.email;
              new_email = p.pending_email_change.new_email;
              at = now;
            })
              ∷ [];
      },
      none,
    )

-- `ConfirmEmailChange`.
unfoldable pub confirm_email_change : Person → Str → Str → Time → Person × Option Err
confirm_email_change p presented_hash stamp now =
    if is_empty presented_hash
      || (p.is_anonymised || (p.is_globally_suspended || is_empty p.pending_email_change.hash))
    then (p, some invalid)
    else redeem_change p presented_hash stamp now

-- `CancelEmailChange`, when a change is pending.
abbrev pub withdraw_change : Person → Str → Time → Result Err Person
withdraw_change p reason now = do
  fail_if (is_blank reason) invalid
  ok (record p {
    pending_email_change = no_email_change;
    events =
        p.events
        ++ email_change_cancelled_event (record { person_id = p.id; reason = reason; at = now })
          ∷ [];
  })

-- `CancelEmailChange`.
unfoldable pub cancel_email_change : Person → Str → Time → Result Err Person
cancel_email_change p reason now =
    if is_empty p.pending_email_change.hash then ok p else withdraw_change p reason now
