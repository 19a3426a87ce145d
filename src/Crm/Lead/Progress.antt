-- ===== src/Crm/Lead/Progress.antt =====
-- That a lead can be won from every open stage: internal/crm/domain/crmlead/crmlead.go.
use leadkart_go.Base.{◌≡◌, ap, Bool, true, false, List, [], ◌∷◌, ◌++◌, map, is_empty, arith}
use leadkart_go.Base.Text.{Str, trim_space}
use leadkart_go.Base.Clock.{Time, is_zero_time}
use leadkart_go.Crm.Lead.Stages.{
  Stage, new_stage, contacted, interested, negotiation, converted, is_terminal, is_valid_stage,
  can_advance,
}
use leadkart_go.Crm.Lead.{
  Lead, Event, change_stage, convert, Call, changes_stage, converts, step, run,
}

-- The stages still ahead of a stage, up to negotiation.
abbrev pub stages_ahead : Stage → List Stage
stages_ahead new_stage = contacted ∷ interested ∷ negotiation ∷ []
stages_ahead contacted = interested ∷ negotiation ∷ []
stages_ahead interested = negotiation ∷ []
stages_ahead _ = []

change_stage_advances :
    (is_uuid : Str → Bool) (l : Lead) (s : Stage) (by : Str) (now : Time)
    → can_advance l.stage s ≡ true
    → is_uuid (trim_space by) ≡ true
    → is_empty (trim_space by) ≡ false
    → is_zero_time now ≡ false
    → (step is_uuid l (changes_stage s by [] now)).1.stage ≡ s
unfolding step change_stage
change_stage_advances is_uuid l s by now a u b t = ground arith

step-converts :
    (is_uuid : Str → Bool) (l : Lead) (by : Str) (now : Time)
    → is_terminal l.stage ≡ false
    → is_uuid (trim_space by) ≡ true
    → is_empty (trim_space by) ≡ false
    → is_zero_time now ≡ false
    → (step is_uuid l (converts by now)).1.stage ≡ converted
unfolding step convert
step-converts is_uuid l by now a u b t = ground arith

-- Every stage of a list is one step after the one before it.
abbrev IsPath : Stage → List Stage → Type 0
IsPath s [] = s ≡ negotiation
IsPath s (t ∷ ts) = (can_advance s t ≡ true) × IsPath t ts

stages_ahead-IsPath :
    (s : Stage) → is_valid_stage s ≡ true → is_terminal s ≡ false → IsPath s (stages_ahead s)
stages_ahead-IsPath s v o = ground arith

-- The calls that work a lead through some stages, by one member at one time.
abbrev pub worked : Str → Time → List Stage → List Call
worked by now = map (λ s. changes_stage s by [] now)

run-worked :
    (is_uuid : Str → Bool) (outbox : List Event) (l : Lead) (stages : List Stage) (by : Str)
    (now : Time)
    → IsPath l.stage stages
    → is_uuid (trim_space by) ≡ true
    → is_empty (trim_space by) ≡ false
    → is_zero_time now ≡ false
    → ((run is_uuid outbox l (worked by now stages)).1.stage ≡ negotiation)
      × ((run is_uuid outbox l (worked by now stages ++ converts by now ∷ [])).1.stage ≡ converted)
unfolding run
run-worked is_uuid outbox l [] by now path u b t =
    (path, step-converts is_uuid l by now (ap is_terminal path) u b t)
run-worked is_uuid outbox l (s ∷ stages) by now (first, rest) u b t =
    let c = changes_stage s by [] now in
    run-worked is_uuid (outbox ++ (step is_uuid l c).0) (step is_uuid l c).1 stages by now
      (rw (change_stage_advances is_uuid l s by now first u b t) rest) u b t

-- A lead that is not closed can always be won: from any stage of the catalogue that is not terminal,
-- a member with a valid id brings it to negotiation by one change of stage for each stage that is
-- still ahead, and a conversion then closes it as converted.
pub worked_to_conversion :
    (is_uuid : Str → Bool) (l : Lead) (by : Str) (now : Time)
    → is_valid_stage l.stage ≡ true
    → is_terminal l.stage ≡ false
    → is_uuid (trim_space by) ≡ true
    → is_empty (trim_space by) ≡ false
    → is_zero_time now ≡ false
    → let calls = worked by now (stages_ahead l.stage) in
      ((run is_uuid [] l calls).1.stage ≡ negotiation)
      × ((run is_uuid [] l (calls ++ converts by now ∷ [])).1.stage ≡ converted)
worked_to_conversion is_uuid l by now v o u b t =
    run-worked is_uuid [] l (stages_ahead l.stage) by now (stages_ahead-IsPath l.stage v o) u b t
