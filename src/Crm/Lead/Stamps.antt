-- ===== src/Crm/Lead/Stamps.antt =====
-- How the stamps of a lead say what became of it: internal/crm/domain/crmlead/crmlead.go.
use leadkart_go.Base.{
  ◌≡◌, refl, ap, ◌∙◌, Bool, true, false, not, List, [], ◌∷◌, ◌++◌, ok, after, ◌⊎◌, inl, inr,
  is_empty, arith,
}
use leadkart_go.Base.Text.{Str, trim_space, is_blank}
use leadkart_go.Base.Clock.{Time, is_zero_time}
use leadkart_go.Crm.Lead.Stages.{
  Stage, converted, lost, same_stage, is_terminal, is_valid_stage, Temperature,
  is_valid_temperature,
}
use leadkart_go.Crm.Lead.Profiles.{Profile}
use leadkart_go.Crm.Lead.{
  Lead, Event, new, assign, change_stage, change_temperature, convert, lose, pull_events, Call,
  assigns, changes_stage, changes_temperature, converts, loses, pulls_events, step, run,
}

-- The stamps say how the lead ended: a conversion exactly at `converted`, a loss with a reason exactly
-- at `lost`, and an assignment with its time.
pub record IsStamped (l : Lead) : Type 0 where
  pub stage_valid : is_valid_stage l.stage ≡ true
  pub temperature_valid : is_valid_temperature l.temperature ≡ true
  pub converted_iff : is_zero_time l.converted_at ≡ not (same_stage l.stage converted)
  pub converter_iff : is_empty l.converted_by_membership_id ≡ not (same_stage l.stage converted)
  pub lost_iff : is_zero_time l.lost_at ≡ not (same_stage l.stage lost)
  pub loser_iff : is_empty l.lost_by_membership_id ≡ not (same_stage l.stage lost)
  pub reason_iff : is_blank l.lost_reason ≡ not (same_stage l.stage lost)
  pub assigned_iff : is_zero_time l.assigned_at ≡ is_empty l.assignee_membership_id

is_empty_of_trim : (s : Str) → is_empty (trim_space s) ≡ false → is_empty s ≡ false
unfolding trim_space
is_empty_of_trim [] h = cc
is_empty_of_trim (c ∷ s) h = refl

new-IsStamped :
    (is_uuid : Str → Bool) (id tenant_id : Str) (p : Profile) (by : Str) (now : Time) (l : Lead)
    → new is_uuid id tenant_id p by now ≡ ok l
    → IsStamped l
unfolding new is_blank
new-IsStamped is_uuid id tenant_id p by now l h = ground arith

-- A change of stage leaves an open lead open and its other fields as they are.
change_stage_keeps :
    (is_uuid : Str → Bool) (l : Lead) (s : Stage) (by reason : Str) (now : Time)
    → let m = after l (change_stage is_uuid l s by reason now) in
      (m ≡ record l { stage = m.stage; events = m.events })
      × ((m.stage ≡ l.stage)
          ⊎ ((is_valid_stage m.stage ≡ true)
              × (is_terminal m.stage ≡ false)
              × (is_terminal l.stage ≡ false)))
unfolding change_stage
change_stage_keeps is_uuid l s by reason now = ground arith

restaged-IsStamped :
    (l m : Lead)
    → m ≡ record l { stage = m.stage; events = m.events }
    → is_valid_stage m.stage ≡ true
    → same_stage m.stage converted ≡ same_stage l.stage converted
    → same_stage m.stage lost ≡ same_stage l.stage lost
    → IsStamped l
    → IsStamped m
restaged-IsStamped l m e v c f w = ground arith

-- An assignment that takes place names a member at a time.
assign_marks :
    (is_uuid : Str → Bool) (l : Lead) (member by reason : Str) (now : Time)
    → let m = after l (assign is_uuid l member by reason now) in
      (m ≡ l)
      ⊎ ((m ≡ record l { assignee_membership_id = member; assigned_at = now; events = m.events })
          × (is_empty (trim_space member) ≡ false)
          × (is_zero_time now ≡ false))
unfolding assign
assign_marks is_uuid l member by reason now = ground arith

-- A conversion that takes place ends an open lead.
convert_marks :
    (is_uuid : Str → Bool) (l : Lead) (by : Str) (now : Time)
    → let m = after l (convert is_uuid l by now) in
      (m ≡ l)
      ⊎ ((m ≡ record l {
        stage = converted;
        converted_at = now;
        converted_by_membership_id = by;
        events = m.events;
      })
          × (is_terminal l.stage ≡ false)
          × (is_empty (trim_space by) ≡ false)
          × (is_zero_time now ≡ false))
unfolding convert
convert_marks is_uuid l by now = ground arith

-- A loss that takes place ends an open lead for a reason.
lose_marks :
    (is_uuid : Str → Bool) (l : Lead) (by reason : Str) (now : Time)
    → let m = after l (lose is_uuid l by reason now) in
      (m ≡ l)
      ⊎ ((m ≡ record l {
        stage = lost;
        lost_at = now;
        lost_by_membership_id = by;
        lost_reason = reason;
        events = m.events;
      })
          × (is_terminal l.stage ≡ false)
          × (is_empty (trim_space by) ≡ false)
          × (is_blank reason ≡ false)
          × (is_zero_time now ≡ false))
unfolding lose
lose_marks is_uuid l by reason now = ground arith

-- A change of temperature goes to a member of the catalogue, and keeps the other fields.
change_temperature_keeps :
    (is_uuid : Str → Bool) (l : Lead) (target : Temperature) (by : Str) (now : Time)
    → let m = after l (change_temperature is_uuid l target by now) in
      (m ≡ l)
      ⊎ ((m ≡ record l { temperature = target; events = m.events })
          × (is_valid_temperature target ≡ true))
unfolding change_temperature
change_temperature_keeps is_uuid l target by now = ground arith

warmed-IsStamped :
    (l m : Lead) {target : Temperature}
    → (m ≡ l)
      ⊎ ((m ≡ record l { temperature = target; events = m.events })
          × (is_valid_temperature target ≡ true))
    → IsStamped l
    → IsStamped m
warmed-IsStamped l m (inl same) w = rw same w
warmed-IsStamped l m (inr (e, v)) w = ground arith

assigned-IsStamped :
    (l m : Lead) (member : Str) (now : Time)
    → m ≡ record l { assignee_membership_id = member; assigned_at = now; events = m.events }
    → is_empty member ≡ false
    → is_zero_time now ≡ false
    → IsStamped l
    → IsStamped m
assigned-IsStamped l m member now e a b w = ground arith

converted-IsStamped :
    (l m : Lead) (by : Str) (now : Time)
    → m ≡ record l {
      stage = converted;
      converted_at = now;
      converted_by_membership_id = by;
      events = m.events;
    }
    → is_terminal l.stage ≡ false
    → is_empty by ≡ false
    → is_zero_time now ≡ false
    → IsStamped l
    → IsStamped m
converted-IsStamped l m by now e still_open a t w = ground arith

lost-IsStamped :
    (l m : Lead) (by reason : Str) (now : Time)
    → m ≡ record l {
      stage = lost;
      lost_at = now;
      lost_by_membership_id = by;
      lost_reason = reason;
      events = m.events;
    }
    → is_terminal l.stage ≡ false
    → is_empty by ≡ false
    → is_blank reason ≡ false
    → is_zero_time now ≡ false
    → IsStamped l
    → IsStamped m
lost-IsStamped l m by reason now e still_open a b t w = ground arith

open_alike :
    (s t : Stage)
    → is_terminal s ≡ false
    → is_terminal t ≡ false
    → (same_stage s converted ≡ same_stage t converted) × (same_stage s lost ≡ same_stage t lost)
open_alike s t a b = ground arith

staged-IsStamped :
    (l m : Lead)
    → m ≡ record l { stage = m.stage; events = m.events }
    → (m.stage ≡ l.stage)
      ⊎ ((is_valid_stage m.stage ≡ true)
          × (is_terminal m.stage ≡ false)
          × (is_terminal l.stage ≡ false))
    → IsStamped l
    → IsStamped m
staged-IsStamped l m e (inl same) w =
    restaged-IsStamped l m e (ap is_valid_stage same ∙ w.stage_valid)
      (ap (λ s. same_stage s converted) same) (ap (λ s. same_stage s lost) same) w
staged-IsStamped l m e (inr (v, a, b)) w =
    let (c, f) = open_alike m.stage l.stage a b in restaged-IsStamped l m e v c f w

step-IsStamped :
    (is_uuid : Str → Bool) (l : Lead) (c : Call) → IsStamped l → IsStamped (step is_uuid l c).1
unfolding step
step-IsStamped is_uuid l (assigns member by reason now) w =
    elim (assign_marks is_uuid l member by reason now) [
      | inl same ↦ rw same w
      | inr (e, a, b) ↦ assigned-IsStamped l _ member now e (is_empty_of_trim member a) b w
    ]
step-IsStamped is_uuid l (changes_stage s by reason now) w =
    let (e, kept) = change_stage_keeps is_uuid l s by reason now in staged-IsStamped l _ e kept w
step-IsStamped is_uuid l (changes_temperature t by now) w =
    warmed-IsStamped l _ (change_temperature_keeps is_uuid l t by now) w
step-IsStamped is_uuid l (converts by now) w = elim (convert_marks is_uuid l by now) [
  | inl same ↦ rw same w
  | inr (e, still_open, a, t) ↦
      converted-IsStamped l _ by now e still_open (is_empty_of_trim by a) t w
]
step-IsStamped is_uuid l (loses by reason now) w = elim (lose_marks is_uuid l by reason now) [
  | inl same ↦ rw same w
  | inr (e, still_open, a, b, t) ↦
      lost-IsStamped l _ by reason now e still_open (is_empty_of_trim by a) b t w
]
step-IsStamped is_uuid l pulls_events w = unfold pull_events in ground arith

run-IsStamped :
    (is_uuid : Str → Bool) (outbox : List Event) (l : Lead) (calls : List Call)
    → IsStamped l
    → IsStamped (run is_uuid outbox l calls).1
unfolding run
run-IsStamped is_uuid outbox l [] w = w
run-IsStamped is_uuid outbox l (c ∷ calls) w =
    run-IsStamped is_uuid (outbox ++ (step is_uuid l c).0) (step is_uuid l c).1 calls
      (step-IsStamped is_uuid l c w)

-- Whatever calls are made on a lead that `New` returned, its stage and its temperature stay in their
-- catalogues; the time and the actor of a conversion are set exactly when it is converted; the time,
-- the actor and a reason that is not blank are set exactly when it is lost, so never both; and the
-- time of an assignment is set exactly when there is an assignee.
pub run-new-IsStamped :
    (is_uuid : Str → Bool) (id tenant_id : Str) (p : Profile) (by : Str) (now : Time) (l : Lead)
    (calls : List Call)
    → new is_uuid id tenant_id p by now ≡ ok l
    → IsStamped (run is_uuid [] l calls).1
run-new-IsStamped is_uuid id tenant_id p by now l calls h =
    run-IsStamped is_uuid [] l calls (new-IsStamped is_uuid id tenant_id p by now l h)
