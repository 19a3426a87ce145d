-- ===== src/Tasks/WorkItem/Refinement.antt =====
-- The operations of a work item refine its life: workitem.go against the relation of its events.
use leadkart_go.Base.{
  ◌≡◌, ◌⊎◌, inl, inr, refl, sym, Bool, true, false, ◌||◌, List, [], ◌∷◌, ◌++◌, ok, after, is_empty,
  arith,
}
use mathlib.Core.List.{append-nil, append_assoc}
use leadkart_go.Base.Text.{Str, str_eq, trim_space}
use leadkart_go.Base.Clock.{Time, is_zero_time}
use leadkart_go.Tasks.WorkItem.Catalogues.{pending, in_progress, is_state, is_open, is_valid_state}
use leadkart_go.Tasks.WorkItem.Item.{WorkItem, Source, NewParams, Event, opened, new_common}
use leadkart_go.Tasks.WorkItem.Transitions.{
  started, start, finished, complete, dropped, cancel, flagged, mark_overdue, moved, reassign,
  pull_events, Call, starts, completes, cancels, marks_overdue, reassigns, pulls_events, step, run,
}
use leadkart_go.Tasks.WorkItem.Lifecycle as Life
use leadkart_go.Tasks.WorkItem.Lifecycle.{Status, status, Step, Told, IsClosing, told-IsClosing}

-- What each operation does to an item of a valid state: nothing, or its writes, in the states that allow
-- them.
start_outcome :
    (is_uuid : Str → Bool) (w : WorkItem) (actor : Str) (now : Time)
    → is_valid_state w.state ≡ true
    → (after w (start is_uuid w actor now) ≡ w)
      ⊎ ((w.state ≡ pending) × (after w (start is_uuid w actor now) ≡ started w actor now))
unfolding start
start_outcome is_uuid w actor now v = ground arith

complete_outcome :
    (is_uuid : Str → Bool) (w : WorkItem) (actor : Str) (now : Time)
    → is_valid_state w.state ≡ true
    → (after w (complete is_uuid w actor now) ≡ w)
      ⊎ ((is_open w.state ≡ true)
          × (is_zero_time now ≡ false)
          × (after w (complete is_uuid w actor now) ≡ finished w actor now))
unfolding complete
complete_outcome is_uuid w actor now v = ground arith

cancel_outcome :
    (is_uuid : Str → Bool) (w : WorkItem) (actor reason : Str) (now : Time)
    → is_valid_state w.state ≡ true
    → (after w (cancel is_uuid w actor reason now) ≡ w)
      ⊎ ((is_open w.state ≡ true)
          × (is_zero_time now ≡ false)
          × (is_empty (trim_space reason) ≡ false)
          × (after w (cancel is_uuid w actor reason now) ≡ dropped w actor (trim_space reason) now))
unfolding cancel
cancel_outcome is_uuid w actor reason now v = ground arith

overdue_outcome :
    (w : WorkItem) (now : Time)
    → (after w (mark_overdue w now) ≡ w)
      ⊎ (((is_state w.state pending || is_state w.state in_progress) ≡ true)
          × (after w (mark_overdue w now) ≡ flagged w now))
unfolding mark_overdue
overdue_outcome w now = ground arith

reassign_outcome :
    (is_uuid : Str → Bool) (w : WorkItem) (member by reason : Str) (now : Time)
    → is_valid_state w.state ≡ true
    → (after w (reassign is_uuid w member by reason now) ≡ w)
      ⊎ ((is_open w.state ≡ true)
          × (str_eq w.assigned_to_membership_id member ≡ false)
          × (after w (reassign is_uuid w member by reason now) ≡ moved w member by reason now))
unfolding reassign
reassign_outcome is_uuid w member by reason now v = ground arith

-- The events handed out and those still pending tell what the item is.
IsTold : List Event → WorkItem → Type 0
IsTold outbox w = Told (outbox ++ w.events) (status w)

-- A call that handed out no events, and left the item or recorded one step of its life.
same-IsTold :
    (outbox : List Event) (w v : WorkItem) → v ≡ w → IsTold outbox w → IsTold (outbox ++ []) v
unfolding IsTold
same-IsTold outbox w v same told = rw (append-nil outbox, same) told

Step-IsTold :
    (outbox : List Event) (w v target : WorkItem) (e : Event)
    → v ≡ target
    → target.events ≡ w.events ++ e ∷ []
    → Step (status w) e (status target)
    → IsTold outbox w
    → IsTold (outbox ++ []) v
unfolding IsTold
Step-IsTold outbox w v target e same events one told =
    rw (append-nil outbox, same, events, sym (append_assoc outbox w.events (e ∷ [])))
      (Life.stepped e told one)

valid_of_told :
    (outbox : List Event) (w : WorkItem) → IsTold outbox w → is_valid_state w.state ≡ true
unfolding IsTold
valid_of_told outbox w told =
    let c = told-IsClosing (outbox ++ w.events) (status w) told in c.state_valid

step-IsTold :
    (is_uuid : Str → Bool) (outbox : List Event) (w : WorkItem) (c : Call)
    → IsTold outbox w
    → IsTold (outbox ++ (step is_uuid w c).0) (step is_uuid w c).1
unfolding step
step-IsTold is_uuid outbox w (starts actor now) told =
    elim (start_outcome is_uuid w actor now (valid_of_told outbox w told)) [
      | inl same ↦ same-IsTold outbox w _ same told
      | inr (from, same) ↦
          Step-IsTold outbox w _ (started w actor now) _ same refl
            (Life.starts
              (record { work_item_id = w.id; tenant_id = w.tenant_id; actor_id = actor; at = now })
              (refl, refl) from)
            told
    ]
step-IsTold is_uuid outbox w (completes actor now) told =
    elim (complete_outcome is_uuid w actor now (valid_of_told outbox w told)) [
      | inl same ↦ same-IsTold outbox w _ same told
      | inr (from, time, same) ↦
          Step-IsTold outbox w _ (finished w actor now) _ same refl
            (Life.completes
              (record { work_item_id = w.id; tenant_id = w.tenant_id; actor_id = actor; at = now })
              (refl, refl) from time)
            told
    ]
step-IsTold is_uuid outbox w (cancels actor reason now) told =
    elim (cancel_outcome is_uuid w actor reason now (valid_of_told outbox w told)) [
      | inl same ↦ same-IsTold outbox w _ same told
      | inr (from, time, given, same) ↦
          Step-IsTold outbox w _ (dropped w actor (trim_space reason) now) _ same refl
            (Life.cancels
              (record {
                work_item_id = w.id;
                tenant_id = w.tenant_id;
                actor_id = actor;
                reason = trim_space reason;
                at = now;
              })
              (refl, refl) from time given)
            told
    ]
step-IsTold is_uuid outbox w (marks_overdue now) told = elim (overdue_outcome w now) [
  | inl same ↦ same-IsTold outbox w _ same told
  | inr (from, same) ↦
      Step-IsTold outbox w _ (flagged w now) _ same refl
        (Life.lapses
          (record {
            work_item_id = w.id;
            tenant_id = w.tenant_id;
            assigned_to_membership_id = w.assigned_to_membership_id;
            due_at = w.due_at;
            at = now;
          })
          (refl, refl) (refl, refl) from)
        told
]
step-IsTold is_uuid outbox w (reassigns member by reason now) told =
    elim (reassign_outcome is_uuid w member by reason now (valid_of_told outbox w told)) [
      | inl same ↦ same-IsTold outbox w _ same told
      | inr (from, new, same) ↦
          Step-IsTold outbox w _ (moved w member by reason now) _ same refl
            (Life.moves
              (record {
                work_item_id = w.id;
                tenant_id = w.tenant_id;
                previous_assignee = w.assigned_to_membership_id;
                new_assignee_membership_id = member;
                reassigned_by_membership_id = by;
                reason = reason;
                at = now;
              })
              (refl, refl) refl new from)
            told
    ]
step-IsTold is_uuid outbox w pulls_events told =
    unfold IsTold pull_events in rw (append-nil (outbox ++ w.events)) told

run-IsTold :
    (is_uuid : Str → Bool) (outbox : List Event) (w : WorkItem) (calls : List Call)
    → IsTold outbox w
    → IsTold (run is_uuid outbox w calls).0 (run is_uuid outbox w calls).1
unfolding run
run-IsTold is_uuid outbox w [] told = told
run-IsTold is_uuid outbox w (c ∷ calls) told =
    run-IsTold is_uuid (outbox ++ (step is_uuid w c).0) (step is_uuid w c).1 calls
      (step-IsTold is_uuid outbox w c told)

opened_of_new_common :
    (is_uuid : Str → Bool) (p : NewParams) (src : Source) (w : WorkItem)
    → new_common is_uuid p src ≡ ok w
    → w ≡ opened p src
unfolding new_common
opened_of_new_common is_uuid p src w h = ground arith

opened-IsTold : (p : NewParams) (src : Source) → IsTold [] (opened p src)
unfolding IsTold
opened-IsTold p src = Life.created _

-- The item refines its life: after any calls on an item that `newCommon` returned, by hand or from
-- another module, the events that were handed out and the pending ones are together a creation and
-- steps of the relation `Step`, which lead to the state, the assignee and the stamps that the item
-- has; and the time of completion is set exactly when it is completed, and the time of cancellation and
-- a reason exactly when it is cancelled, so that it is closed at most once.
pub told_by_run :
    (is_uuid : Str → Bool) (p : NewParams) (src : Source) (w : WorkItem) (calls : List Call)
    → new_common is_uuid p src ≡ ok w
    → let (outbox, v) = run is_uuid [] w calls in
      Told (outbox ++ v.events) (status v) × IsClosing (status v)
unfolding IsTold
told_by_run is_uuid p src w calls h =
    let told =
      run-IsTold is_uuid [] w calls
        (rw (opened_of_new_common is_uuid p src w h) (opened-IsTold p src)) in
    let (outbox, v) = run is_uuid [] w calls in
    (told, told-IsClosing (outbox ++ v.events) (status v) told)
