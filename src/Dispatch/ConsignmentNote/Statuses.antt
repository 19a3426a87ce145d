-- ===== src/Dispatch/ConsignmentNote/Statuses.antt =====
-- internal/dispatch/domain/consignmentnote/status.go.
use leadkart_go.Base.{ℕ, Bool, true, false, ◌||◌, Result, ok, err, ◌==◌, if◌then◌else◌}
use leadkart_go.Base.Text.{Str, codes, str_eq}

-- The sentinels `ErrInvalid` and `ErrInvalidTransition`.
pub data Err : Type 0 where
  invalid invalid_transition : Err

-- The catalogue of statuses; `unknown_status` is any other text of the Go type.
pub data Status : Type 0 where
  pending dispatched in_transit delivered failed : Status
  unknown_status : Str → Status

-- The conversion `Status(raw)`.
unfoldable pub status_of : Str → Status
unfolding str_eq
status_of raw =
    if str_eq raw (codes "pending")
    then pending
    else if str_eq raw (codes "dispatched")
    then dispatched
    else if str_eq raw (codes "in_transit")
    then in_transit
    else if str_eq raw (codes "delivered")
    then delivered
    else if str_eq raw (codes "failed")
    then failed
    else unknown_status raw

abbrev status_rank : Status → ℕ
status_rank pending = 0
status_rank dispatched = 1
status_rank in_transit = 2
status_rank delivered = 3
status_rank failed = 4
status_rank (unknown_status raw) = 5

-- `s == t` for a status `t` of the catalogue.
abbrev pub is_status : Status → Status → Bool
is_status s t = status_rank s == status_rank t

-- `IsTerminal`.
abbrev pub is_terminal : Status → Bool
is_terminal s = is_status s delivered || is_status s failed

-- `IsValid`.
abbrev pub is_valid : Status → Bool
is_valid (unknown_status raw) = false
is_valid _ = true

-- `ParseStatus`.
unfoldable pub parse_status : Str → Result Err Status
unfolding status_of
parse_status raw = if is_valid (status_of raw) then ok (status_of raw) else err invalid

-- `canAdvance`.
abbrev pub can_advance : Status → Status → Bool
can_advance pending target = is_status target dispatched || is_status target failed
can_advance dispatched target =
    is_status target in_transit || (is_status target delivered || is_status target failed)
can_advance in_transit target = is_status target delivered || is_status target failed
can_advance _ target = false
