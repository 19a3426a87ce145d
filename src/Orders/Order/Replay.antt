-- ===== src/Orders/Order/Replay.antt =====
-- The event log of an order, as its subscribers read it, against its state.
use mathlib.Core.List.{append-nil, append_assoc}
use leadkart_go.Base.{
  ◌≡◌, refl, sym, ap, ◌∙◌, Bool, false, not, ◌&&◌, List, [], ◌∷◌, ◌++◌, Option, none, some, ok,
  if◌then◌else◌, arith, ◌⊎◌, inl, inr,
}
use leadkart_go.Orders.Order.States.{
  State, quotation_draft, quotation_approved, token_paid, confirmed, packed, invoiced, dispatched,
  delivered, complete, cancelled, same_state, is_terminal,
}
use leadkart_go.Orders.Order.{
  Order, NewInput, Event, AdvancedEvent, CancelledEvent, advanced_to, cancelled_for, created_event,
  advanced_event, cancelled_event, new, Call, records_token_payment, confirms, marks_packed,
  attaches_invoice, attaches_consignment, marks_delivered, marks_complete, cancels, pulls_events,
  step, run,
}

-- The stages after a state, in the order of the fulfilment lifecycle.
abbrev pub stages_after : State → List State
stages_after quotation_draft =
    quotation_approved ∷ token_paid ∷ confirmed ∷ packed ∷ invoiced ∷ dispatched ∷ delivered
    ∷ complete ∷ []
stages_after quotation_approved =
    token_paid ∷ confirmed ∷ packed ∷ invoiced ∷ dispatched ∷ delivered ∷ complete ∷ []
stages_after token_paid = confirmed ∷ packed ∷ invoiced ∷ dispatched ∷ delivered ∷ complete ∷ []
stages_after confirmed = packed ∷ invoiced ∷ dispatched ∷ delivered ∷ complete ∷ []
stages_after packed = invoiced ∷ dispatched ∷ delivered ∷ complete ∷ []
stages_after invoiced = dispatched ∷ delivered ∷ complete ∷ []
stages_after dispatched = delivered ∷ complete ∷ []
stages_after delivered = complete ∷ []
stages_after complete = []
stages_after cancelled = []

-- Whether a state is the first of some stages.
abbrev is_next : State → List State → Bool
is_next s [] = false
is_next s (t ∷ ts) = same_state s t

-- Where the next event leads from a state: an advance goes from that state to the stage after it,
-- and a cancellation leaves a state that is not terminal.
unfoldable pub follow_one : State → Event → Option State
follow_one s (created_event e) = none
follow_one s (advanced_event e) =
    if same_state e.prior_state s && is_next e.new_state (stages_after s)
    then some e.new_state
    else none
follow_one s (cancelled_event e) =
    if same_state e.prior_state s && not (is_terminal s) then some cancelled else none

follow_rest : Option State → List Event → Option State
follow_rest none es = none
follow_rest (some s) [] = some s
follow_rest (some s) (e ∷ es) = follow_rest (follow_one s e) es

-- The state that a log leads to: a creation, followed from `quotation_approved`.
unfoldable pub replay : List Event → Option State
unfolding follow_rest follow_one
replay [] = none
replay (created_event e ∷ es) = follow_rest (some quotation_approved) es
replay (advanced_event e ∷ es) = none
replay (cancelled_event e ∷ es) = none

follow_rest-snoc :
    (o : Option State) (es : List Event) (e : Event) (s : State)
    → follow_rest o es ≡ some s
    → follow_rest o (es ++ e ∷ []) ≡ follow_one s e
unfolding follow_rest
follow_rest-snoc none es e s h = cc
follow_rest-snoc (some t) [] e s h =
    let same : t ≡ s = cc in stop (follow_one t e) ∙ ap (λ r. follow_one r e) same
  where
    stop : (o : Option State) → follow_rest o [] ≡ o
    stop none = refl
    stop (some u) = refl
follow_rest-snoc (some t) (d ∷ es) e s h = follow_rest-snoc (follow_one t d) es e s h

replay-snoc :
    (es : List Event) (e : Event) (s : State)
    → replay es ≡ some s
    → replay (es ++ e ∷ []) ≡ follow_one s e
unfolding replay
replay-snoc [] e s h = cc
replay-snoc (created_event c ∷ es) e s h = follow_rest-snoc (some quotation_approved) es e s h
replay-snoc (advanced_event a ∷ es) e s h = cc
replay-snoc (cancelled_event a ∷ es) e s h = cc

-- The event that a call records when it moves the order; handing out events records none.
abbrev event_of : Order → Call → Event
event_of o (records_token_payment actor now) = advanced_to o token_paid actor now
event_of o (confirms actor now) = advanced_to o confirmed actor now
event_of o (marks_packed actor now) = advanced_to o packed actor now
event_of o (attaches_invoice invoice_id actor now) = advanced_to o invoiced actor now
event_of o (attaches_consignment note_id actor now) = advanced_to o dispatched actor now
event_of o (marks_delivered actor now) = advanced_to o delivered actor now
event_of o (marks_complete actor now) = advanced_to o complete actor now
event_of o (cancels reason actor now) = cancelled_for o reason actor now
event_of o pulls_events = advanced_to o o.state [] 0

-- Either the state and the log stay, or the log grows by `e` and `e` leads to the new state.
abbrev Moves : Order → List Event → Order → Event → Type 0
Moves o log p e =
    ((p.state ≡ o.state) × (log ≡ o.events))
    ⊎ ((log ≡ o.events ++ e ∷ []) × (follow_one o.state e ≡ some p.state))

step-Moves :
    (o : Order) (c : Call)
    → Moves o ((step o c).0 ++ (step o c).1.events) (step o c).1 (event_of o c)
unfolding step follow_one
step-Moves o (records_token_payment actor now) = ground arith
step-Moves o pulls_events = ground (arith, append-nil o.events)
step-Moves o _ = ground arith

step-replay :
    (outbox : List Event) (o : Order) (c : Call)
    → replay (outbox ++ o.events) ≡ some o.state
    → replay ((outbox ++ (step o c).0) ++ (step o c).1.events) ≡ some (step o c).1.state
step-replay outbox o c h =
    rw (append_assoc outbox (step o c).0 (step o c).1.events) (elim (step-Moves o c) [
      | inl (same, e) ↦ rw (e, same) h
      | inr (e, leads) ↦
          rw (e, ← append_assoc outbox o.events (event_of o c ∷ []))
            (replay-snoc (outbox ++ o.events) (event_of o c) o.state h ∙ leads)
    ])

run-replay :
    (outbox : List Event) (o : Order) (calls : List Call)
    → replay (outbox ++ o.events) ≡ some o.state
    → let (log, p) = run outbox o calls in replay (log ++ p.events) ≡ some p.state
unfolding run
run-replay outbox o [] h = h
run-replay outbox o (c ∷ calls) h =
    run-replay (outbox ++ (step o c).0) (step o c).1 calls (step-replay outbox o c h)

-- The events handed out and those still pending, read in order, lead from the creation of the order
-- to its state: each advance starts where the one before it ended and goes to the next stage, and a
-- cancellation leaves a state that is not terminal. No state change goes unrecorded.
pub run-new-replay :
    (x : NewInput) (o : Order) (calls : List Call)
    → new x ≡ ok o
    → let (log, p) = run [] o calls in replay (log ++ p.events) ≡ some p.state
unfolding new replay
run-new-replay x o calls h = run-replay [] o calls (ground arith)

-- The states that a log advances to.
abbrev pub stages : List Event → List State
stages [] = []
stages (created_event e ∷ es) = stages es
stages (advanced_event e ∷ es) = e.new_state ∷ stages es
stages (cancelled_event e ∷ es) = stages es

-- An advance goes to the first of the stages ahead.
follow_one-advanced :
    (s : State) (e : AdvancedEvent)
    → (follow_one s (advanced_event e) ≡ none)
      ⊎ ((follow_one s (advanced_event e) ≡ some e.new_state)
          × (e.new_state ∷ stages_after e.new_state ≡ stages_after s))
unfolding follow_one
follow_one-advanced s e = ground arith

-- No log leads on from the cancelled state.
follow_rest-cancelled : (es : List Event) → ¬ (follow_rest (some cancelled) es ≡ some complete)
unfolding follow_rest follow_one
follow_rest-cancelled [] h = cc
follow_rest-cancelled (created_event e ∷ es) h = cc
follow_rest-cancelled (advanced_event e ∷ es) h = ground arith
follow_rest-cancelled (cancelled_event e ∷ es) h = ground arith

follow_one-cancelled :
    (s : State) (e : CancelledEvent)
    → (follow_one s (cancelled_event e) ≡ none)
      ⊎ (follow_one s (cancelled_event e) ≡ some cancelled)
unfolding follow_one
follow_one-cancelled s e = ground arith

follow_rest-none : (es : List Event) (s : State) → ¬ (follow_rest none es ≡ some s)
unfolding follow_rest
follow_rest-none [] s h = cc
follow_rest-none (e ∷ es) s h = cc

follow_rest-cons :
    (s : State) (e : Event) (es : List Event)
    → follow_rest (some s) (e ∷ es) ≡ follow_rest (follow_one s e) es
unfolding follow_rest
follow_rest-cons s e es = refl

follow_rest-stages :
    (s : State) (es : List Event)
    → follow_rest (some s) es ≡ some complete
    → stages es ≡ stages_after s
follow_rest-stages s [] h = unfold follow_rest in ground arith
follow_rest-stages s (created_event e ∷ es) h = unfold follow_rest follow_one in cc
follow_rest-stages s (advanced_event e ∷ es) h =
    let k = sym (follow_rest-cons s (advanced_event e) es) ∙ h in
    elim (follow_one-advanced s e) [
      | inl stuck ↦ absurd (follow_rest-none es complete (rw stuck at k))
      | inr (leads, ahead) ↦
          ap (◌∷◌ e.new_state) (follow_rest-stages e.new_state es (rw leads at k)) ∙ ahead
    ]
follow_rest-stages s (cancelled_event e ∷ es) h =
    let k = sym (follow_rest-cons s (cancelled_event e) es) ∙ h in
    elim (follow_one-cancelled s e) [
      | inl stuck ↦ absurd (follow_rest-none es complete (rw stuck at k))
      | inr leads ↦ absurd (follow_rest-cancelled es (rw leads at k))
    ]

stages_of_replay :
    (log : List Event) → replay log ≡ some complete → stages log ≡ stages_after quotation_approved
unfolding replay
stages_of_replay [] h = cc
stages_of_replay (created_event e ∷ es) h = follow_rest-stages quotation_approved es h
stages_of_replay (advanced_event e ∷ es) h = cc
stages_of_replay (cancelled_event e ∷ es) h = cc

-- An order is complete only after its log has advanced through token payment, confirmation, packing,
-- invoicing, dispatch and delivery, each once and in this order: no stage is skipped or repeated.
pub complete_passed_stages :
    (x : NewInput) (o : Order) (calls : List Call)
    → new x ≡ ok o
    → (run [] o calls).1.state ≡ complete
    → let (log, p) = run [] o calls in
      stages (log ++ p.events)
      ≡ token_paid ∷ confirmed ∷ packed ∷ invoiced ∷ dispatched ∷ delivered ∷ complete ∷ []
complete_passed_stages x o calls h e =
    stages_of_replay ((run [] o calls).0 ++ (run [] o calls).1.events)
      (run-new-replay x o calls h ∙ ap some e)
