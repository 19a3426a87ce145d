-- ===== src/Notifications/Notification/Inbox.antt =====
-- What the events of a notification tell of it: internal/notifications/domain/notification/notification.go.
use leadkart_go.Base.{
  ◌≡◌, ◌⊎◌, inl, inr, sym, ◌∙◌, true, ◌&&◌, List, [], ◌∷◌, ◌++◌, Option, none, some, ok, after, not,
  replay_from, replay_from-snoc, if◌then◌else◌, arith,
}
use mathlib.Core.List.{append-nil, append_assoc}
use leadkart_go.Base.Clock.{Time}
use leadkart_go.Notifications.Notification.Catalogues.{
  State, unread, read, dismissed, is_state, is_valid,
}
use leadkart_go.Notifications.Notification.{
  Notice, NewInput, Event, created_event, marked_read_event, dismissed_event, new, reading,
  dismissal, mark_read, dismiss, pull_events, Call, marks_read, dismisses, pulls_events, step, run,
}

-- What an inbox shows of a notification.
pub record View : Type 0 where
  pub state : State
  pub read_at : Option Time
  pub dismissed_at : Option Time

-- A notification that nobody has seen.
abbrev pub fresh : View
fresh = record { state = unread; read_at = none; dismissed_at = none }

-- Where an event leads: a reading only from unread, and a dismissal once, from the state that it names.
unfoldable pub follow : View → Event → Option View
follow v (created_event e) = none
follow v (marked_read_event e) =
    if is_state v.state unread
    then some (record v { state = read; read_at = some e.read_at })
    else none
follow v (dismissed_event e) =
    if is_state e.prior_state v.state && not (is_state v.state dismissed)
    then some (record v { state = dismissed; dismissed_at = some e.dismissed_at })
    else none

-- Where a log leads that begins with a creation.
unfoldable pub replay : List Event → Option View
replay [] = none
replay (created_event e ∷ log) = replay_from follow (some fresh) log
replay (marked_read_event e ∷ log) = none
replay (dismissed_event e ∷ log) = none

replay-snoc :
    (log : List Event) (e : Event) {v : View}
    → replay log ≡ some v
    → replay (log ++ e ∷ []) ≡ follow v e
unfolding replay
replay-snoc [] e h = cc
replay-snoc (created_event d ∷ log) e h = replay_from-snoc follow (some fresh) log e h
replay-snoc (marked_read_event d ∷ log) e h = cc
replay-snoc (dismissed_event d ∷ log) e h = cc

-- What an inbox shows of the aggregate.
abbrev pub view : Notice → View
view n = record { state = n.state; read_at = n.read_at; dismissed_at = n.dismissed_at }

-- The events handed out and those still pending lead to what is shown.
IsFollowed : List Event → Notice → Type 0
IsFollowed outbox n = replay (outbox ++ n.events) ≡ some (view n)

-- What a call has done that handed out no events: nothing, or one step with its event.
abbrev Outcome : Notice → Notice → Event → Type 0
Outcome n m e = (m ≡ n) ⊎ ((m.events ≡ n.events ++ e ∷ []) × (follow (view n) e ≡ some (view m)))

mark_read-Outcome :
    (n : Notice) (now : Time)
    → is_valid n.state ≡ true
    → Outcome n (after n (mark_read n now)) (reading n now)
unfolding mark_read follow
mark_read-Outcome n now valid = ground arith

dismiss-Outcome :
    (n : Notice) (now : Time)
    → is_valid n.state ≡ true
    → Outcome n (after n (dismiss n now)) (dismissal n now)
unfolding dismiss follow
dismiss-Outcome n now valid = ground arith

Outcome-IsFollowed :
    (outbox : List Event) (n m : Notice) (e : Event)
    → Outcome n m e
    → IsFollowed outbox n
    → IsFollowed (outbox ++ []) m
unfolding IsFollowed
Outcome-IsFollowed outbox n m e (inl same) told = rw (append-nil outbox, same) told
Outcome-IsFollowed outbox n m e (inr (events, leads)) told =
    rw (append-nil outbox, events, sym (append_assoc outbox n.events (e ∷ [])))
      (replay-snoc (outbox ++ n.events) e told ∙ leads)

step-IsFollowed :
    (outbox : List Event) (n : Notice) (c : Call)
    → is_valid n.state ≡ true
    → IsFollowed outbox n
    → IsFollowed (outbox ++ (step n c).0) (step n c).1
unfolding step
step-IsFollowed outbox n (marks_read now) valid =
    Outcome-IsFollowed outbox n _ _ (mark_read-Outcome n now valid)
step-IsFollowed outbox n (dismisses now) valid =
    Outcome-IsFollowed outbox n _ _ (dismiss-Outcome n now valid)
step-IsFollowed outbox n pulls_events valid =
    λ told. unfold IsFollowed pull_events in rw (append-nil (outbox ++ n.events)) told

step_valid : (n : Notice) (c : Call) → is_valid n.state ≡ true → is_valid (step n c).1.state ≡ true
unfolding step mark_read dismiss pull_events
step_valid n (marks_read now) valid = ground arith
step_valid n (dismisses now) valid = ground arith
step_valid n pulls_events valid = valid

run-IsFollowed :
    (outbox : List Event) (n : Notice) (calls : List Call)
    → is_valid n.state ≡ true
    → IsFollowed outbox n
    → IsFollowed (run outbox n calls).0 (run outbox n calls).1
unfolding run
run-IsFollowed outbox n [] valid told = told
run-IsFollowed outbox n (c ∷ calls) valid told =
    run-IsFollowed (outbox ++ (step n c).0) (step n c).1 calls (step_valid n c valid)
      (step-IsFollowed outbox n c valid told)

new-IsFollowed :
    (x : NewInput) (n : Notice) → new x ≡ ok n → IsFollowed [] n × (is_valid n.state ≡ true)
unfolding new IsFollowed replay replay_from
new-IsFollowed x n h = ground arith

-- After any calls on a notification that `New` returned, the events that were handed out and the pending
-- ones rebuild what an inbox shows, which is the state with the times of reading and of dismissal: they
-- are its creation, then at most one reading, of an unread notification, and at most one dismissal,
-- which names the state that it left.
pub replay_of_inbox :
    (x : NewInput) (n : Notice) (calls : List Call)
    → new x ≡ ok n
    → let (outbox, m) = run [] n calls in replay (outbox ++ m.events) ≡ some (view m)
unfolding IsFollowed
replay_of_inbox x n calls h =
    let (told, valid) = new-IsFollowed x n h in run-IsFollowed [] n calls valid told
