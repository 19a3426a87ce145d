-- ===== src/Notifications/Notification/Catalogues.antt =====
-- internal/notifications/domain/notification: the states of notification.go, and category.go.
use leadkart_go.Base.{ℕ, Bool, true, false, ◌||◌, Result, ok, err, ◌==◌, if◌then◌else◌}
use leadkart_go.Base.Text.{Str, codes, str_eq}

-- The sentinels `ErrInvalid` and `ErrInvalidTransition`.
pub data Err : Type 0 where
  invalid invalid_transition : Err

-- The catalogue of states; `unknown_state` is any other text of the Go type.
pub data State : Type 0 where
  unread read dismissed : State
  unknown_state : Str → State

-- The conversion `State(raw)`.
unfoldable pub state_of : Str → State
unfolding str_eq
state_of raw =
    if str_eq raw (codes "unread")
    then unread
    else if str_eq raw (codes "read")
    then read
    else if str_eq raw (codes "dismissed")
    then dismissed
    else unknown_state raw

abbrev state_rank : State → ℕ
state_rank unread = 0
state_rank read = 1
state_rank dismissed = 2
state_rank (unknown_state raw) = 3

-- `s == t` for a state `t` of the catalogue.
abbrev pub is_state : State → State → Bool
is_state s t = state_rank s == state_rank t

-- `IsTerminal`.
abbrev pub is_terminal : State → Bool
is_terminal s = is_state s read || is_state s dismissed

-- `State.IsValid`.
abbrev pub is_valid : State → Bool
is_valid (unknown_state raw) = false
is_valid _ = true

-- `ParseState`.
unfoldable pub parse_state : Str → Result Err State
unfolding state_of
parse_state raw = if is_valid (state_of raw) then ok (state_of raw) else err invalid

-- The catalogue of categories; `unknown_category` is any other text of the Go type.
pub data Category : Type 0 where
  lead_assigned lead_converted order_confirmed order_delivered work_item_assigned : Category
  work_item_overdue stock_expiring stock_below_reorder reminder : Category
  unknown_category : Str → Category

-- The conversion `Category(raw)`.
unfoldable pub category_of : Str → Category
unfolding str_eq
category_of raw =
    if str_eq raw (codes "lead_assigned")
    then lead_assigned
    else if str_eq raw (codes "lead_converted")
    then lead_converted
    else if str_eq raw (codes "order_confirmed")
    then order_confirmed
    else if str_eq raw (codes "order_delivered")
    then order_delivered
    else if str_eq raw (codes "work_item_assigned")
    then work_item_assigned
    else if str_eq raw (codes "work_item_overdue")
    then work_item_overdue
    else if str_eq raw (codes "stock_expiring")
    then stock_expiring
    else if str_eq raw (codes "stock_below_reorder")
    then stock_below_reorder
    else if str_eq raw (codes "reminder")
    then reminder
    else unknown_category raw

-- `Category.IsValid`.
abbrev pub is_listed : Category → Bool
is_listed (unknown_category raw) = false
is_listed _ = true

-- `ParseCategory`.
unfoldable pub parse_category : Str → Result Err Category
unfolding category_of
parse_category raw = if is_listed (category_of raw) then ok (category_of raw) else err invalid
