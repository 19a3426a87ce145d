-- ===== src/Dispatch/ConsignmentNote/Journey.antt =====
-- The journey that the events of a consignment note tell, and its stamps:
-- internal/dispatch/domain/consignmentnote/consignmentnote.go.
use leadkart_go.Base.{
  ◌≡◌, ◌⊎◌, inl, inr, sym, ◌∙◌, Bool, true, false, not, ◌&&◌, ◌||◌, List, [], ◌∷◌, ◌++◌, Option,
  none, some, ok, after, is_empty, is_some, replay_from, replay_from-snoc, if◌then◌else◌, arith,
}
use mathlib.Core.List.{append-nil, append_assoc}
use leadkart_go.Base.Text.{Str}
use leadkart_go.Base.Clock.{Time}
use leadkart_go.Dispatch.ConsignmentNote.Statuses.{
  Status, pending, dispatched, in_transit, delivered, failed, is_status, is_valid, can_advance,
}
use leadkart_go.Dispatch.ConsignmentNote.{
  Note, NewInput, Event, created_event, status_changed_event, new, advanced, advance,
  mark_dispatched, mark_in_transit, mark_delivered, mark_failed, pull_events, Call,
  marks_dispatched, marks_in_transit, marks_delivered, marks_failed, pulls_events, step, run,
}

-- Where an event leads: from the status that it names by a step of the machine.
unfoldable pub follow : Status → Event → Option Status
follow s (created_event e) = none
follow s (status_changed_event e) =
    if is_status e.prior_status s && can_advance s e.new_status then some e.new_status else none

-- Where a log leads that begins with a creation.
unfoldable pub replay : List Event → Option Status
replay [] = none
replay (created_event e ∷ log) = replay_from follow (some pending) log
replay (status_changed_event e ∷ log) = none

replay-snoc :
    (log : List Event) (e : Event) {s : Status}
    → replay log ≡ some s
    → replay (log ++ e ∷ []) ≡ follow s e
unfolding replay
replay-snoc [] e h = cc
replay-snoc (created_event d ∷ log) e h = replay_from-snoc follow (some pending) log e h
replay-snoc (status_changed_event d ∷ log) e h = cc

-- The stamps of a note: a docket and a time of dispatch together, none while it is pending and both when
-- the carrier has it; and a time of delivery, or a time and a reason of failure, exactly at the ends.
pub record IsStamped (n : Note) : Type 0 where
  pub status_valid : is_valid n.status ≡ true
  pub docket_iff : is_empty n.docket_number ≡ not (is_some n.dispatched_at)
  pub not_yet : is_status n.status pending ≡ true → is_some n.dispatched_at ≡ false
  pub handed_over :
      (is_status n.status dispatched
          || (is_status n.status in_transit || is_status n.status delivered))
        ≡ true
      → is_some n.dispatched_at ≡ true
  pub on_the_way : is_status n.status in_transit ≡ true → is_some n.in_transit_at ≡ true
  pub delivered_iff : is_some n.delivered_at ≡ is_status n.status delivered
  pub failed_iff : is_some n.failed_at ≡ is_status n.status failed
  pub reason_iff : is_empty n.failure_reason ≡ not (is_status n.status failed)

new-IsStamped :
    (is_uuid : Str → Bool) (x : NewInput) (n : Note) → new is_uuid x ≡ ok n → IsStamped n
unfolding new
new-IsStamped is_uuid x n h = ground arith

step-IsStamped : (n : Note) (c : Call) → IsStamped n → IsStamped (step n c).1
unfolding step
step-IsStamped n (marks_dispatched docket actor now) w =
    unfold mark_dispatched advance in ground arith
step-IsStamped n (marks_in_transit actor now) w = unfold mark_in_transit advance in ground arith
step-IsStamped n (marks_delivered actor now) w = unfold mark_delivered advance in ground arith
step-IsStamped n (marks_failed reason actor now) w = unfold mark_failed advance in ground arith
step-IsStamped n pulls_events w = unfold pull_events in ground arith

-- What a call has done that handed out no events: nothing that an event tells, or one step with its
-- event.
abbrev Outcome : Note → Note → Status → Str → Time → Type 0
Outcome n m target actor now =
    ((m.status ≡ n.status) × (m.events ≡ n.events))
    ⊎ ((can_advance n.status target ≡ true)
        × (m.status ≡ target)
        × (m.events ≡ (advanced n target actor now).events))

mark_dispatched-Outcome :
    (n : Note) (docket actor : Str) (now : Time)
    → Outcome n (after n (mark_dispatched n docket actor now)) dispatched actor now
unfolding mark_dispatched advance
mark_dispatched-Outcome n docket actor now = ground arith

mark_in_transit-Outcome :
    (n : Note) (actor : Str) (now : Time)
    → Outcome n (after n (mark_in_transit n actor now)) in_transit actor now
unfolding mark_in_transit advance
mark_in_transit-Outcome n actor now = ground arith

mark_delivered-Outcome :
    (n : Note) (actor : Str) (now : Time)
    → Outcome n (after n (mark_delivered n actor now)) delivered actor now
unfolding mark_delivered advance
mark_delivered-Outcome n actor now = ground arith

mark_failed-Outcome :
    (n : Note) (reason actor : Str) (now : Time)
    → Outcome n (after n (mark_failed n reason actor now)) failed actor now
unfolding mark_failed advance
mark_failed-Outcome n reason actor now = ground arith

-- The events handed out and those still pending lead to the status of the note.
IsFollowed : List Event → Note → Type 0
IsFollowed outbox n = replay (outbox ++ n.events) ≡ some n.status

Outcome-IsFollowed :
    (outbox : List Event) (n m : Note) (target : Status) (actor : Str) (now : Time)
    → Outcome n m target actor now
    → IsFollowed outbox n
    → IsFollowed (outbox ++ []) m
unfolding IsFollowed follow
Outcome-IsFollowed outbox n m target actor now (inl (same, events)) told =
    rw (append-nil outbox, events, same) told
Outcome-IsFollowed outbox n m target actor now (inr (step, same, events)) told =
    let e = status_changed_event (record {
      consignment_note_id = n.id;
      tenant_id = n.tenant_id;
      order_id = n.order_id;
      prior_status = n.status;
      new_status = target;
      transitioned_at = now;
      transitioned_by_membership = actor;
    }) in
    rw (append-nil outbox, events, same, sym (append_assoc outbox n.events (e ∷ [])))
      (replay-snoc (outbox ++ n.events) e told ∙ ground arith)

step-IsFollowed :
    (outbox : List Event) (n : Note) (c : Call)
    → IsFollowed outbox n
    → IsFollowed (outbox ++ (step n c).0) (step n c).1
unfolding step
step-IsFollowed outbox n (marks_dispatched docket actor now) =
    Outcome-IsFollowed outbox n _ dispatched actor now (mark_dispatched-Outcome n docket actor now)
step-IsFollowed outbox n (marks_in_transit actor now) =
    Outcome-IsFollowed outbox n _ in_transit actor now (mark_in_transit-Outcome n actor now)
step-IsFollowed outbox n (marks_delivered actor now) =
    Outcome-IsFollowed outbox n _ delivered actor now (mark_delivered-Outcome n actor now)
step-IsFollowed outbox n (marks_failed reason actor now) =
    Outcome-IsFollowed outbox n _ failed actor now (mark_failed-Outcome n reason actor now)
step-IsFollowed outbox n pulls_events =
    λ told. unfold IsFollowed pull_events in rw (append-nil (outbox ++ n.events)) told

run-IsFollowed :
    (outbox : List Event) (n : Note) (calls : List Call)
    → IsFollowed outbox n
    → IsStamped n
    → IsFollowed (run outbox n calls).0 (run outbox n calls).1 × IsStamped (run outbox n calls).1
unfolding run
run-IsFollowed outbox n [] told w = (told, w)
run-IsFollowed outbox n (c ∷ calls) told w =
    run-IsFollowed (outbox ++ (step n c).0) (step n c).1 calls (step-IsFollowed outbox n c told)
      (step-IsStamped n c w)

new-IsFollowed :
    (is_uuid : Str → Bool) (x : NewInput) (n : Note) → new is_uuid x ≡ ok n → IsFollowed [] n
unfolding new IsFollowed replay replay_from
new-IsFollowed is_uuid x n h = ground arith

-- After any calls on a note that `New` returned, the events that were handed out and the pending ones
-- are together its creation and steps of the status machine, and lead to the status that the note has;
-- and its stamps fit that status: a docket number is set with the time of dispatch, not while the note
-- is pending, and always when the carrier has it or has delivered; and the time of delivery, or the
-- time and reason of failure, are set exactly in these states.
pub replay_of_journey :
    (is_uuid : Str → Bool) (x : NewInput) (n : Note) (calls : List Call)
    → new is_uuid x ≡ ok n
    → let (outbox, m) = run [] n calls in
      (replay (outbox ++ m.events) ≡ some m.status) × IsStamped m
unfolding IsFollowed
replay_of_journey is_uuid x n calls h =
    run-IsFollowed [] n calls (new-IsFollowed is_uuid x n h) (new-IsStamped is_uuid x n h)
