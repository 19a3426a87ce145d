-- ===== src/Identity/Person/Events.antt =====
-- internal/identity/domain/person/events.go.
use leadkart_go.Base.Text.{Str}
use leadkart_go.Base.Clock.{Time}
use leadkart_go.Base.Int64.{ℤ}

pub record CreatedEvent : Type 0 where
  pub person_id : Str
  pub email : Str
  pub first_name : Str
  pub last_name : Str
  pub at : Time

pub record PasswordChangedEvent : Type 0 where
  pub person_id : Str
  pub at : Time

pub record ProfileUpdatedEvent : Type 0 where
  pub person_id : Str
  pub old_first_name : Str
  pub old_last_name : Str
  pub new_first_name : Str
  pub new_last_name : Str
  pub at : Time

pub record AnonymisedEvent : Type 0 where
  pub person_id : Str
  pub at : Time

pub record EmailChangeRequestedEvent : Type 0 where
  pub person_id : Str
  pub new_email : Str
  pub expires_at : Time
  pub at : Time

pub record EmailChangeConfirmationRequestedEvent : Type 0 where
  pub person_id : Str
  pub new_email : Str
  pub old_email : Str
  pub plaintext_token : Str
  pub expires_at : Time
  pub recipient_name : Str
  pub at : Time

pub record EmailChangedEvent : Type 0 where
  pub person_id : Str
  pub old_email : Str
  pub new_email : Str
  pub at : Time

pub record EmailChangeCancelledEvent : Type 0 where
  pub person_id : Str
  pub reason : Str
  pub at : Time

pub record GloballySuspendedEvent : Type 0 where
  pub person_id : Str
  pub reason : Str
  pub at : Time

pub record PasswordResetRequestedEvent : Type 0 where
  pub person_id : Str
  pub expires_at : Time
  pub at : Time

pub record PasswordResetEmailRequestedEvent : Type 0 where
  pub person_id : Str
  pub email : Str
  pub plaintext_token : Str
  pub expires_at : Time
  pub recipient_name : Str
  pub at : Time

pub record PasswordResetConfirmedEvent : Type 0 where
  pub person_id : Str
  pub at : Time

pub record PasswordResetCancelledEvent : Type 0 where
  pub person_id : Str
  pub reason : Str
  pub at : Time

pub record GlobalSuspensionLiftedEvent : Type 0 where
  pub person_id : Str
  pub at : Time

pub record AccountLockedEvent : Type 0 where
  pub person_id : Str
  pub locked_until : Time
  pub failed_count : ℤ
  pub at : Time

pub record AccountUnlockedEvent : Type 0 where
  pub person_id : Str
  pub at : Time

pub data Event : Type 0 where
  created_event : CreatedEvent → Event
  password_changed_event : PasswordChangedEvent → Event
  profile_updated_event : ProfileUpdatedEvent → Event
  anonymised_event : AnonymisedEvent → Event
  email_change_requested_event : EmailChangeRequestedEvent → Event
  email_change_confirmation_requested_event : EmailChangeConfirmationRequestedEvent → Event
  email_changed_event : EmailChangedEvent → Event
  email_change_cancelled_event : EmailChangeCancelledEvent → Event
  globally_suspended_event : GloballySuspendedEvent → Event
  password_reset_requested_event : PasswordResetRequestedEvent → Event
  password_reset_email_requested_event : PasswordResetEmailRequestedEvent → Event
  password_reset_confirmed_event : PasswordResetConfirmedEvent → Event
  password_reset_cancelled_event : PasswordResetCancelledEvent → Event
  global_suspension_lifted_event : GlobalSuspensionLiftedEvent → Event
  account_locked_event : AccountLockedEvent → Event
  account_unlocked_event : AccountUnlockedEvent → Event
