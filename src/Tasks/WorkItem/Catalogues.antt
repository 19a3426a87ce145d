-- ===== src/Tasks/WorkItem/Catalogues.antt =====
-- internal/tasks/domain/workitem: state.go, type.go and priority.go.
use leadkart_go.Base.{ℕ, Bool, true, false, ◌||◌, Result, ok, err, ◌==◌, is_empty, if◌then◌else◌}
use leadkart_go.Base.Text.{Str, codes, str_eq}

-- The sentinels `ErrInvalid` and `ErrConflict`.
pub data Err : Type 0 where
  invalid conflict : Err

-- The catalogue of states; `unknown_state` is any other text of the Go type.
pub data State : Type 0 where
  pending in_progress completed overdue cancelled : State
  unknown_state : Str → State

-- The conversion `State(raw)`.
unfoldable pub state_of : Str → State
unfolding str_eq
state_of raw =
    if str_eq raw (codes "pending")
    then pending
    else if str_eq raw (codes "in_progress")
    then in_progress
    else if str_eq raw (codes "completed")
    then completed
    else if str_eq raw (codes "overdue")
    then overdue
    else if str_eq raw (codes "cancelled")
    then cancelled
    else unknown_state raw

abbrev state_rank : State → ℕ
state_rank pending = 0
state_rank in_progress = 1
state_rank completed = 2
state_rank overdue = 3
state_rank cancelled = 4
state_rank (unknown_state raw) = 5

-- `s == t` for a state `t` of the catalogue.
abbrev pub is_state : State → State → Bool
is_state s t = state_rank s == state_rank t

-- `State.IsTerminal`.
abbrev pub is_terminal : State → Bool
is_terminal s = is_state s completed || is_state s cancelled

-- `State.IsOpen`.
abbrev pub is_open : State → Bool
is_open s = is_state s pending || (is_state s in_progress || is_state s overdue)

-- `State.IsValid`.
abbrev pub is_valid_state : State → Bool
is_valid_state (unknown_state raw) = false
is_valid_state _ = true

-- `ParseState`.
unfoldable pub parse_state : Str → Result Err State
unfolding state_of
parse_state raw = if is_valid_state (state_of raw) then ok (state_of raw) else err invalid

-- The catalogue of types; `unknown_type` is any other text of the Go type.
pub data ItemType : Type 0 where
  manual callback_reminder reorder_reminder follow_up custom : ItemType
  unknown_type : Str → ItemType

-- `Type.IsValid`.
abbrev pub is_valid_type : ItemType → Bool
is_valid_type (unknown_type raw) = false
is_valid_type _ = true

-- The catalogue of priorities; the empty text is `no_priority`.
pub data Priority : Type 0 where
  no_priority low medium high urgent : Priority
  unknown_priority : Str → Priority

-- `Priority.IsValid`.
abbrev pub is_valid_priority : Priority → Bool
is_valid_priority no_priority = false
is_valid_priority (unknown_priority raw) = false
is_valid_priority _ = true

-- The conversion `Priority(raw)`.
unfoldable pub priority_of : Str → Priority
unfolding str_eq
priority_of raw =
    if is_empty raw
    then no_priority
    else if str_eq raw (codes "low")
    then low
    else if str_eq raw (codes "medium")
    then medium
    else if str_eq raw (codes "high")
    then high
    else if str_eq raw (codes "urgent")
    then urgent
    else unknown_priority raw

-- `ParsePriority`.
unfoldable pub parse_priority : Str → Result Err Priority
unfolding priority_of
parse_priority raw =
    if is_empty raw
    then ok medium
    else if is_valid_priority (priority_of raw)
    then ok (priority_of raw)
    else err invalid

-- The default of `newCommon`.
abbrev pub or_medium : Priority → Priority
or_medium no_priority = medium
or_medium low = low
or_medium medium = medium
or_medium high = high
or_medium urgent = urgent
or_medium (unknown_priority raw) = unknown_priority raw
