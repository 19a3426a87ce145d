-- ===== src/Crm/Lead/Refinement.antt =====
-- The operations of a lead refine the pipeline: crmlead.go against what its events promise.
use leadkart_go.Base.{
  ◌≡◌, refl, sym, ap, ◌∙◌, Bool, true, List, [], ◌∷◌, ◌++◌, some, Result, ok, err, after,
  replay_from, Bool-cases, inl, inr, arith,
}
use mathlib.Core.List.{append-nil, append_assoc}
use leadkart_go.Base.Text.{Str, str_eq, str_eq_refl, is_blank}
use leadkart_go.Base.Clock.{Time}
use leadkart_go.Crm.Lead.Stages.{
  Stage, new_stage, contacted, interested, negotiation, converted, lost, unknown_stage, same_stage,
  Temperature, hot, warm, cold, dead, unknown_temperature, same_temperature,
}
use leadkart_go.Crm.Lead.Profiles.{Profile, PurchaseSnapshot}
use leadkart_go.Crm.Lead.Pipeline.{position, follow, replay, replay-snoc}
use leadkart_go.Crm.Lead.{
  Lead, Event, assigned_event, stage_changed_event, temperature_changed_event, converted_event,
  lost_event, new, new_from_purchase_snapshot, assign, change_stage, change_temperature, convert,
  lose, pull_events, Call, assigns, changes_stage, changes_temperature, converts, loses,
  pulls_events, step, run,
}

-- What a call has done that handed out no events: nothing, or one step that it recorded.
data Moves (l : Lead) (m : Lead) : Type 0 where
  stays : m ≡ l → Moves l m
  moves :
      (e : Event)
      → m.events ≡ l.events ++ e ∷ []
      → follow (position l) e ≡ some (position m)
      → Moves l m

same_stage_refl : (s : Stage) → same_stage s s ≡ true
same_stage_refl (unknown_stage raw) = str_eq_refl raw
same_stage_refl new_stage = refl
same_stage_refl contacted = refl
same_stage_refl interested = refl
same_stage_refl negotiation = refl
same_stage_refl converted = refl
same_stage_refl lost = refl

same_temperature_refl : (t : Temperature) → same_temperature t t ≡ true
same_temperature_refl (unknown_temperature raw) = str_eq_refl raw
same_temperature_refl hot = refl
same_temperature_refl warm = refl
same_temperature_refl cold = refl
same_temperature_refl dead = refl

assign-Moves :
    (is_uuid : Str → Bool) (l m : Lead) (member by reason : Str) (now : Time)
    → assign is_uuid l member by reason now ≡ ok m
    → Moves l m
unfolding assign
assign-Moves is_uuid l m member by reason now h =
    elim (Bool-cases (str_eq l.assignee_membership_id member)) [
      | inl same ↦ stays (ground arith)
      | inr other ↦
          moves
            (assigned_event (record {
              lead_id = l.id;
              tenant_id = l.tenant_id;
              previous_assignee = l.assignee_membership_id;
              assignee_membership_id = member;
              assigned_by_membership_id = by;
              reason = reason;
              at = now;
            }))
            (ground arith)
            (unfold follow in
              ground (
                arith,
                str_eq_refl l.id,
                str_eq_refl l.tenant_id,
                str_eq_refl l.assignee_membership_id,
              ))
    ]

change_stage-Moves :
    (is_uuid : Str → Bool) (l m : Lead) (target : Stage) (by reason : Str) (now : Time)
    → change_stage is_uuid l target by reason now ≡ ok m
    → Moves l m
unfolding change_stage
change_stage-Moves is_uuid l m target by reason now h =
    elim (Bool-cases (same_stage l.stage target)) [
      | inl same ↦ stays (ground arith)
      | inr other ↦
          moves
            (stage_changed_event (record {
              lead_id = l.id;
              tenant_id = l.tenant_id;
              old_stage = l.stage;
              new_stage_value = target;
              changed_by_membership_id = by;
              reason = reason;
              at = now;
            }))
            (ground arith)
            (unfold follow in
              ground (arith, str_eq_refl l.id, str_eq_refl l.tenant_id, same_stage_refl l.stage))
    ]

change_temperature-Moves :
    (is_uuid : Str → Bool) (l m : Lead) (target : Temperature) (by : Str) (now : Time)
    → change_temperature is_uuid l target by now ≡ ok m
    → Moves l m
unfolding change_temperature
change_temperature-Moves is_uuid l m target by now h =
    elim (Bool-cases (same_temperature l.temperature target)) [
      | inl same ↦ stays (ground arith)
      | inr other ↦
          moves
            (temperature_changed_event (record {
              lead_id = l.id;
              tenant_id = l.tenant_id;
              old_temperature = l.temperature;
              new_temperature = target;
              changed_by_membership_id = by;
              at = now;
            }))
            (ground arith)
            (unfold follow in
              ground (
                arith,
                str_eq_refl l.id,
                str_eq_refl l.tenant_id,
                same_temperature_refl l.temperature,
              ))
    ]

convert-Moves :
    (is_uuid : Str → Bool) (l m : Lead) (by : Str) (now : Time)
    → convert is_uuid l by now ≡ ok m
    → Moves l m
unfolding convert
convert-Moves is_uuid l m by now h =
    moves
      (converted_event (record {
        lead_id = l.id;
        tenant_id = l.tenant_id;
        converted_by_membership_id = by;
        at = now;
      }))
      (ground arith) (unfold follow in ground (arith, str_eq_refl l.id, str_eq_refl l.tenant_id))

lose-Moves :
    (is_uuid : Str → Bool) (l m : Lead) (by reason : Str) (now : Time)
    → lose is_uuid l by reason now ≡ ok m
    → Moves l m
unfolding lose is_blank
lose-Moves is_uuid l m by reason now h =
    moves
      (lost_event (record {
        lead_id = l.id;
        tenant_id = l.tenant_id;
        lost_by_membership_id = by;
        reason = reason;
        at = now;
      }))
      (ground arith) (unfold follow in ground (arith, str_eq_refl l.id, str_eq_refl l.tenant_id))

-- The events handed out and those still pending lead to where the lead is.
abbrev pub IsFollowed : List Event → Lead → Type 0
IsFollowed outbox l = replay (outbox ++ l.events) ≡ some (position l)

moved-IsFollowed :
    (outbox : List Event) (l m : Lead) → Moves l m → IsFollowed outbox l → IsFollowed outbox m
moved-IsFollowed outbox l m (stays same) told = rw same told
moved-IsFollowed outbox l m (moves e events leads) told =
    ap (λ es. replay (outbox ++ es)) events
    ∙ ap replay (sym (append_assoc outbox l.events (e ∷ [])))
    ∙ replay-snoc (outbox ++ l.events) e told
    ∙ leads

attempted :
    (outbox : List Event) (l : Lead) {E : Type 0} (result : Result E Lead)
    → ((m : Lead) → result ≡ ok m → Moves l m)
    → IsFollowed outbox l
    → IsFollowed (outbox ++ []) (after l result)
attempted outbox l (ok m) f told =
    rw (append-nil outbox) (moved-IsFollowed outbox l m (f m refl) told)
attempted outbox l (err e) f told = rw (append-nil outbox) told

step-IsFollowed :
    (is_uuid : Str → Bool) (outbox : List Event) (l : Lead) (c : Call)
    → IsFollowed outbox l
    → IsFollowed (outbox ++ (step is_uuid l c).0) (step is_uuid l c).1
unfolding step pull_events
step-IsFollowed is_uuid outbox l (assigns member by reason now) told =
    attempted outbox l (assign is_uuid l member by reason now)
      (λ m. assign-Moves is_uuid l m member by reason now) told
step-IsFollowed is_uuid outbox l (changes_stage s by reason now) told =
    attempted outbox l (change_stage is_uuid l s by reason now)
      (λ m. change_stage-Moves is_uuid l m s by reason now) told
step-IsFollowed is_uuid outbox l (changes_temperature t by now) told =
    attempted outbox l (change_temperature is_uuid l t by now)
      (λ m. change_temperature-Moves is_uuid l m t by now) told
step-IsFollowed is_uuid outbox l (converts by now) told =
    attempted outbox l (convert is_uuid l by now) (λ m. convert-Moves is_uuid l m by now) told
step-IsFollowed is_uuid outbox l (loses by reason now) told =
    attempted outbox l (lose is_uuid l by reason now) (λ m. lose-Moves is_uuid l m by reason now)
      told
step-IsFollowed is_uuid outbox l pulls_events told =
    ap replay (append-nil (outbox ++ l.events)) ∙ told

run-IsFollowed :
    (is_uuid : Str → Bool) (outbox : List Event) (l : Lead) (calls : List Call)
    → IsFollowed outbox l
    → IsFollowed (run is_uuid outbox l calls).0 (run is_uuid outbox l calls).1
unfolding run
run-IsFollowed is_uuid outbox l [] told = told
run-IsFollowed is_uuid outbox l (c ∷ calls) told =
    run-IsFollowed is_uuid (outbox ++ (step is_uuid l c).0) (step is_uuid l c).1 calls
      (step-IsFollowed is_uuid outbox l c told)

new-IsFollowed :
    (is_uuid : Str → Bool) (id tenant_id : Str) (p : Profile) (by : Str) (now : Time) (l : Lead)
    → new is_uuid id tenant_id p by now ≡ ok l
    → IsFollowed [] l
unfolding new replay replay_from
new-IsFollowed is_uuid id tenant_id p by now l h = ground arith

new_from_purchase_snapshot-IsFollowed :
    (is_uuid : Str → Bool) (id tenant_id : Str) (s : PurchaseSnapshot) (now : Time) (l : Lead)
    → new_from_purchase_snapshot is_uuid id tenant_id s now ≡ ok l
    → IsFollowed [] l
unfolding new_from_purchase_snapshot replay replay_from
new_from_purchase_snapshot-IsFollowed is_uuid id tenant_id s now l h = ground arith

-- The lead refines the pipeline of its events: after any calls on a lead that a purchase created, the
-- events that were handed out and the pending ones are together a walk of the specification `follow`
-- from `new` and warm, in which every event is about this lead, names the assignee, stage or
-- temperature that it replaces, and advances the stage by one step or ends an open lead; and the
-- walk ends in the stage, temperature, assignment and end stamps that the lead has.
pub replay_of_run :
    (is_uuid : Str → Bool) (id tenant_id : Str) (s : PurchaseSnapshot) (now : Time) (l : Lead)
    (calls : List Call)
    → new_from_purchase_snapshot is_uuid id tenant_id s now ≡ ok l
    → let (outbox, m) = run is_uuid [] l calls in replay (outbox ++ m.events) ≡ some (position m)
replay_of_run is_uuid id tenant_id s now l calls h =
    run-IsFollowed is_uuid [] l calls
      (new_from_purchase_snapshot-IsFollowed is_uuid id tenant_id s now l h)
