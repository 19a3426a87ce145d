-- ===== src/Orders/Order/States.antt =====
-- internal/orders/domain/order/state.go: the lifecycle states of an order.
use leadkart_go.Base.{
  ℕ, ◌≡◌, refl, Bool, false, ◌||◌, Result, ok, err, ◌==◌, if◌then◌else◌, List, [], ◌∷◌, arith,
}
use leadkart_go.Base.Text.{Str, str_eq, eq_of_str_eq, codes}

-- The sentinels `ErrInvalid` and `ErrInvalidTransition`.
pub data Err : Type 0 where
  invalid invalid_transition : Err

pub data State : Type 0 where
  quotation_draft quotation_approved token_paid confirmed packed invoiced dispatched : State
  delivered complete cancelled : State

-- The wire form, `State.String`.
unfoldable pub to_string : State → Str
to_string quotation_draft = codes "quotation_draft"
to_string quotation_approved = codes "quotation_approved"
to_string token_paid = codes "token_paid"
to_string confirmed = codes "confirmed"
to_string packed = codes "packed"
to_string invoiced = codes "invoiced"
to_string dispatched = codes "dispatched"
to_string delivered = codes "delivered"
to_string complete = codes "complete"
to_string cancelled = codes "cancelled"

-- A text looked up in a list of states.
find_state : Str → List State → Result Err State
find_state raw [] = err invalid
find_state raw (s ∷ rest) =
    let later = find_state raw rest in if str_eq raw (to_string s) then ok s else later

-- `ParseState`, over the catalogue of `State.IsValid`.
abbrev pub catalogue : List State
catalogue =
    quotation_draft ∷ quotation_approved ∷ token_paid ∷ confirmed ∷ packed ∷ invoiced ∷ dispatched
    ∷ delivered ∷ complete ∷ cancelled ∷ []

unfoldable pub parse_state : Str → Result Err State
unfolding find_state to_string str_eq
parse_state raw = find_state raw catalogue

-- A state's place in the catalogue; two states are equal when their places are.
abbrev pub rank : State → ℕ
rank quotation_draft = 0
rank quotation_approved = 1
rank token_paid = 2
rank confirmed = 3
rank packed = 4
rank invoiced = 5
rank dispatched = 6
rank delivered = 7
rank complete = 8
rank cancelled = 9

abbrev pub same_state : State → State → Bool
same_state s t = rank s == rank t

-- `IsTerminal`.
abbrev pub is_terminal : State → Bool
is_terminal s = same_state s complete || same_state s cancelled

-- `canAdvance`.
abbrev pub can_advance : State → State → Bool
can_advance quotation_draft target = same_state target quotation_approved
can_advance quotation_approved target = same_state target token_paid
can_advance token_paid target = same_state target confirmed
can_advance confirmed target = same_state target packed
can_advance packed target = same_state target invoiced
can_advance invoiced target = same_state target dispatched
can_advance dispatched target = same_state target delivered
can_advance delivered target = same_state target complete
can_advance complete target = false
can_advance cancelled target = false

-- Every state is read back from its wire form.
pub parse_state-to_string : (s : State) → parse_state (to_string s) ≡ ok s
unfolding parse_state
parse_state-to_string quotation_draft = refl
parse_state-to_string _ = refl

to_string_of_find_state :
    (raw : Str) (states : List State) (s : State) → find_state raw states ≡ ok s → raw ≡ to_string s
unfolding find_state
to_string_of_find_state raw [] s h = cc
to_string_of_find_state raw (t ∷ rest) s h =
    ground (arith, eq_of_str_eq raw (to_string t), to_string_of_find_state raw rest s)

-- A text that is read as a state is that state's wire form: nothing else is accepted.
pub to_string_of_parse_state : (raw : Str) (s : State) → parse_state raw ≡ ok s → raw ≡ to_string s
unfolding parse_state
to_string_of_parse_state raw s h = to_string_of_find_state raw catalogue s h
