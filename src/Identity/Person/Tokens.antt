-- ===== src/Identity/Person/Tokens.antt =====
-- The reset token of a person works once: `ConfirmPasswordReset` of
-- internal/identity/domain/person/person.go.
use leadkart_go.Base.{◌≡◌, ◌&&◌, Bool, true, false, not, List, [], ◌∷◌, none, some, is_empty, arith}
use leadkart_go.Base.Text.{Str, eq_of_str_eq}
use leadkart_go.Base.Clock.{Time, is_after}
use leadkart_go.Identity.Person.State.{Person, invalid}
use leadkart_go.Identity.Person.Credentials.{
  change_password, confirm_password_reset, cancel_password_reset, mark_password_changed,
}
use leadkart_go.Identity.Person.EmailChange.{
  request_email_change, confirm_email_change, cancel_email_change,
}
use leadkart_go.Identity.Person.Standing.{
  update_profile, globally_suspend, lift_global_suspension, anonymise,
}
use leadkart_go.Identity.Person.Lockout.{register_failed_login, register_successful_login}
use leadkart_go.Identity.Person.Calls.{
  Call, changes_password, updates_profile, requests_password_reset, confirms_password_reset,
  cancels_password_reset, requests_email_change, confirms_email_change, cancels_email_change,
  suspends_globally, lifts_suspension, anonymises, marks_password_changed, fails_login,
  succeeds_login, pulls_events, pull_events, step, run,
}

-- Whether a call asks for a new reset token.
abbrev pub requests_reset : Call → Bool
requests_reset (requests_password_reset token hash ttl now) = true
requests_reset _ = false

abbrev pub requests_none : List Call → Bool
requests_none [] = true
requests_none (c ∷ calls) = not (requests_reset c) && requests_none calls

abbrev has_reset : Person → Bool
has_reset p = not (is_empty p.pending_password_reset.hash)

-- What a successful confirmation has met, and that it uses the token up.
confirm_inversion :
    (p q : Person) (hash new_hash stamp : Str) (now : Time)
    → confirm_password_reset p hash new_hash stamp now ≡ (q, none)
    → (p.pending_password_reset.hash ≡ hash)
      × (is_after p.pending_password_reset.expires_at now ≡ true)
      × (has_reset q ≡ false)
      × (q.password_hash ≡ new_hash)
      × (q.security_stamp ≡ stamp)
unfolding confirm_password_reset
confirm_inversion p q hash new_hash stamp now h =
    ground (arith, eq_of_str_eq p.pending_password_reset.hash hash)

confirm_without_reset :
    (p : Person) (hash new_hash stamp : Str) (now : Time)
    → has_reset p ≡ false
    → confirm_password_reset p hash new_hash stamp now ≡ (p, some invalid)
unfolding confirm_password_reset
confirm_without_reset p hash new_hash stamp now h = ground arith

step_without_request :
    (p : Person) (c : Call)
    → requests_reset c ≡ false
    → has_reset p ≡ false
    → has_reset (step p c) ≡ false
unfolding step
step_without_request p (requests_password_reset token hash ttl now) r h = cc
step_without_request p (changes_password new_hash stamp now) r h =
    unfold change_password in ground arith
step_without_request p (updates_profile first_name last_name now) r h =
    unfold update_profile in ground arith
step_without_request p (confirms_password_reset hash new_hash stamp now) r h =
    unfold confirm_password_reset in ground arith
step_without_request p (cancels_password_reset reason now) r h =
    unfold cancel_password_reset in ground arith
step_without_request p (requests_email_change new_email token hash ttl now) r h =
    unfold request_email_change in ground arith
step_without_request p (confirms_email_change hash stamp now) r h =
    unfold confirm_email_change in ground arith
step_without_request p (cancels_email_change reason now) r h =
    unfold cancel_email_change in ground arith
step_without_request p (suspends_globally reason stamp now) r h =
    unfold globally_suspend in ground arith
step_without_request p (lifts_suspension now) r h = unfold lift_global_suspension in ground arith
step_without_request p (anonymises stamp now) r h = unfold anonymise in ground arith
step_without_request p marks_password_changed r h = unfold mark_password_changed in ground arith
step_without_request p (fails_login now) r h = unfold register_failed_login in ground arith
step_without_request p (succeeds_login now) r h = unfold register_successful_login in ground arith
step_without_request p pulls_events r h = unfold pull_events in ground arith

run_without_request :
    (p : Person) (calls : List Call)
    → requests_none calls ≡ true
    → has_reset p ≡ false
    → has_reset (run p calls) ≡ false
unfolding run
run_without_request p [] r h = h
run_without_request p (c ∷ calls) r h =
    let (first, rest) = split_requests c calls r in
    run_without_request (step p c) calls rest (step_without_request p c first h)
  where
    split_requests :
        (c : Call) (calls : List Call)
        → requests_none (c ∷ calls) ≡ true
        → (requests_reset c ≡ false) × (requests_none calls ≡ true)
    split_requests c calls r = ground arith

-- A reset token works once and in time: a confirmation that succeeds was presented the hash of the
-- pending reset before its expiry, and sets the new password with a new stamp; and after it, whatever
-- calls follow, as long as no new reset is requested, every further confirmation is refused with
-- `ErrInvalid` and changes nothing, whatever hash is presented.
pub confirmed_once :
    (p q : Person) (hash new_hash stamp : Str) (now : Time) (calls : List Call)
    (again other_hash other_stamp : Str) (later : Time)
    → confirm_password_reset p hash new_hash stamp now ≡ (q, none)
    → requests_none calls ≡ true
    → (p.pending_password_reset.hash ≡ hash)
      × (is_after p.pending_password_reset.expires_at now ≡ true)
      × (q.password_hash ≡ new_hash)
      × (q.security_stamp ≡ stamp)
      × (confirm_password_reset (run q calls) again other_hash other_stamp later
          ≡ (run q calls, some invalid))
confirmed_once p q hash new_hash stamp now calls again other_hash other_stamp later h r =
    let (same, alive, used, changed, rotated) = confirm_inversion p q hash new_hash stamp now h in
    (
      same,
      alive,
      changed,
      rotated,
      confirm_without_reset (run q calls) again other_hash other_stamp later
          (run_without_request q calls r used),
    )
