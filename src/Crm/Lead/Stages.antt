-- ===== src/Crm/Lead/Stages.antt =====
-- internal/crm/domain/crmlead: stage.go and temperature.go. The two independent axes of a lead.
use leadkart_go.Base.{ℕ, Bool, true, false, ◌||◌, Result, ok, err, ◌==◌, if◌then◌else◌}
use leadkart_go.Base.Text.{Str, codes, str_eq}

-- The sentinels `ErrInvalid` and `ErrTerminal`.
pub data Err : Type 0 where
  invalid terminal : Err

-- The catalogue of stages; `unknown_stage` is any other text of the Go type.
pub data Stage : Type 0 where
  new_stage contacted interested negotiation converted lost : Stage
  unknown_stage : Str → Stage

-- The conversion `Stage(raw)`.
unfoldable pub stage_of : Str → Stage
unfolding str_eq
stage_of raw =
    if str_eq raw (codes "new")
    then new_stage
    else if str_eq raw (codes "contacted")
    then contacted
    else if str_eq raw (codes "interested")
    then interested
    else if str_eq raw (codes "negotiation")
    then negotiation
    else if str_eq raw (codes "converted")
    then converted
    else if str_eq raw (codes "lost")
    then lost
    else unknown_stage raw

-- `Stage.String`.
abbrev pub stage_to_string : Stage → Str
stage_to_string new_stage = codes "new"
stage_to_string contacted = codes "contacted"
stage_to_string interested = codes "interested"
stage_to_string negotiation = codes "negotiation"
stage_to_string converted = codes "converted"
stage_to_string lost = codes "lost"
stage_to_string (unknown_stage raw) = raw

-- `Stage.IsValid`.
abbrev pub is_valid_stage : Stage → Bool
is_valid_stage (unknown_stage raw) = false
is_valid_stage _ = true

-- `ParseStage`.
unfoldable pub parse_stage : Str → Result Err Stage
unfolding stage_of
parse_stage raw = if is_valid_stage (stage_of raw) then ok (stage_of raw) else err invalid

-- A stage's place in the catalogue.
abbrev pub stage_rank : Stage → ℕ
stage_rank new_stage = 0
stage_rank contacted = 1
stage_rank interested = 2
stage_rank negotiation = 3
stage_rank converted = 4
stage_rank lost = 5
stage_rank (unknown_stage raw) = 6

-- `s == t` on stages.
abbrev pub same_stage : Stage → Stage → Bool
same_stage (unknown_stage a) (unknown_stage b) = str_eq a b
same_stage s t = stage_rank s == stage_rank t

-- `Stage.IsTerminal`.
abbrev pub is_terminal : Stage → Bool
is_terminal s = same_stage s converted || same_stage s lost

-- `canAdvance`.
abbrev pub can_advance : Stage → Stage → Bool
can_advance new_stage target = same_stage target contacted
can_advance contacted target = same_stage target interested
can_advance interested target = same_stage target negotiation
can_advance _ target = false

-- The catalogue of temperatures; `unknown_temperature` is any other text of the Go type.
pub data Temperature : Type 0 where
  hot warm cold dead : Temperature
  unknown_temperature : Str → Temperature

-- The conversion `Temperature(raw)`.
unfoldable pub temperature_of : Str → Temperature
unfolding str_eq
temperature_of raw =
    if str_eq raw (codes "hot")
    then hot
    else if str_eq raw (codes "warm")
    then warm
    else if str_eq raw (codes "cold")
    then cold
    else if str_eq raw (codes "dead")
    then dead
    else unknown_temperature raw

-- `Temperature.IsValid`.
abbrev pub is_valid_temperature : Temperature → Bool
is_valid_temperature (unknown_temperature raw) = false
is_valid_temperature _ = true

-- `ParseTemperature`.
unfoldable pub parse_temperature : Str → Result Err Temperature
unfolding temperature_of
parse_temperature raw =
    if is_valid_temperature (temperature_of raw) then ok (temperature_of raw) else err invalid

abbrev pub temperature_rank : Temperature → ℕ
temperature_rank hot = 0
temperature_rank warm = 1
temperature_rank cold = 2
temperature_rank dead = 3
temperature_rank (unknown_temperature raw) = 4

-- `s == t` on temperatures.
abbrev pub same_temperature : Temperature → Temperature → Bool
same_temperature (unknown_temperature a) (unknown_temperature b) = str_eq a b
same_temperature s t = temperature_rank s == temperature_rank t
