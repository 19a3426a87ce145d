-- ===== src/Common/Money.antt =====
-- internal/common/money/money.go: the display of int64 minor units, and its parser.
pub mod Grouping
pub mod RoundTrip
use leadkart_go.Base.{
  ℕ, zero, suc, ◌-◌, Bool, true, false, ◌||◌, List, [], ◌∷◌, ◌++◌, Option, none, some, Result, ok,
  err, ◌>>=◌, is_empty, length, take, drop, ltb, leb, ◌==◌, if◌then◌else◌,
}
use leadkart_go.Base.Int64.{ℤ, pos, add64, mul64, neg64, quot64, rem64, ltb_ℤ}
use leadkart_go.Base.Text.{Str, codes, trim_space, byte_len}
use leadkart_go.Base.Decimal.{format_int, parse_int, format_02}

-- `ErrInvalid`.
pub data Err : Type 0 where
  invalid : Err

-- The catalogue of currencies; `unknown` is any other text of the Go type.
pub data Currency : Type 0 where
  inr usd eur : Currency
  unknown : Str → Currency

abbrev pub is_valid : Currency → Bool
is_valid (unknown code) = false
is_valid _ = true

abbrev pub to_string : Currency → Str
to_string inr = codes "INR"
to_string usd = codes "USD"
to_string eur = codes "EUR"
to_string (unknown code) = code

-- The rupee sign, and the other symbols.
abbrev pub rupee : ℕ
rupee = 0x20b9

abbrev pub symbol : Currency → Str
symbol inr = rupee ∷ []
symbol usd = codes "$"
symbol eur = 0x20ac ∷ []
symbol (unknown code) = []

abbrev pub minor_units_per_major : Currency → ℕ
minor_units_per_major (unknown code) = 0
minor_units_per_major _ = 100

-- `strings.Join(groups, ",")`.
abbrev pub join : List Str → Str
join [] = []
join (g ∷ []) = g
join (g ∷ h ∷ groups) = g ++ b',' ∷ join (h ∷ groups)

-- The loop of both groupings, which cuts groups of one size off the end of `head` while more than one
-- group is left. Each round shortens `head`, so its length is enough fuel.
unfoldable pub cut : ℕ → ℕ → Str → List Str → Str × List Str
cut size zero head groups = (head, groups)
cut size (suc fuel) head groups =
    let at = length head - size in
    let rest = cut size fuel (take at head) (drop at head ∷ groups) in
    if ltb size (length head) then rest else (head, groups)

abbrev pub with_rest : Str × List Str → List Str
with_rest (head, groups) = if is_empty head then groups else head ∷ groups

-- The last three digits, behind groups of `size` digits.
unfoldable pub group_by : ℕ → Str → Str
group_by size s =
    let head = take (length s - 3) s in
    if leb (length s) 3
    then s
    else join (with_rest (cut size (length head) head [])) ++ b',' ∷ drop (length s - 3) s

-- `groupINR` and `groupWestern`.
unfoldable pub group_inr : ℤ → Str
group_inr n = group_by 2 (format_int n)

unfoldable pub group_western : ℤ → Str
group_western n = group_by 3 (format_int n)

abbrev grouped : Currency → ℤ → Str
grouped inr n = group_inr n
grouped _ n = group_western n

-- The part of `Format` for a known currency, from the absolute value.
abbrev pub display : Currency → Bool → ℤ → Str
display c negative abs =
    symbol c
    ++ (if negative then b'-' ∷ [] else [])
    ++ grouped c (quot64 abs (minor_units_per_major c))
    ++ b'.' ∷ format_02 (rem64 abs (minor_units_per_major c))

-- `Format`.
unfoldable pub format : ℤ → Currency → Str
format minor c =
    let negative = ltb_ℤ minor (pos 0) in
    if minor_units_per_major c == 0
    then format_int minor ++ b' ' ∷ to_string c
    else display c negative (if negative then neg64 minor else minor)

-- `FormatPaiseINR`.
unfoldable pub format_paise_inr : ℤ → Str
format_paise_inr paise = format paise inr

-- `strings.ReplaceAll(s, ",", "")`.
abbrev pub remove_commas : Str → Str
remove_commas [] = []
remove_commas (c ∷ s) = let rest = remove_commas s in if c == b',' then rest else c ∷ rest

-- `strings.SplitN(s, ".", 2)`: the text before the first point, and the text behind it if there is one.
abbrev pub split_point : Str → Str × Option Str
split_point [] = ([], none)
split_point (c ∷ s) =
    let (before, behind) = split_point s in if c == b'.' then ([], some s) else (c ∷ before, behind)

-- A leading minus outside the symbol, and the text behind it without white space.
abbrev outer_minus : Str → Bool × Str
outer_minus [] = (false, [])
outer_minus (c ∷ s) = if c == b'-' then (true, trim_space s) else (false, c ∷ s)

-- `strings.TrimPrefix(s, "₹")`.
abbrev trim_symbol : Str → Str
trim_symbol [] = []
trim_symbol (c ∷ s) = if c == rupee then s else c ∷ s

-- A leading minus inside the symbol.
abbrev inner_minus : Str → Bool × Str
inner_minus [] = (false, [])
inner_minus (c ∷ s) = if c == b'-' then (true, s) else (false, c ∷ s)

abbrev pub parsed : Option ℤ → Result Err ℤ
parsed none = err invalid
parsed (some n) = ok n

-- The fraction: no digit, one digit, or the first two. A text whose first two bytes are not two
-- characters of ASCII is refused here as the two bytes are in the source.
unfoldable pub parse_fraction : Option Str → Result Err ℤ
parse_fraction none = ok (pos 0)
parse_fraction (some frac) =
    if byte_len frac == 0
    then ok (pos 0)
    else if byte_len frac == 1
    then parsed (parse_int frac) >>= (λ n. ok (mul64 n (pos 10)))
    else parsed (parse_int (take 2 frac))

-- The sum of the two parts, on int64, with the sign.
abbrev pub total : Bool → ℤ → ℤ → ℤ
total negative major minor =
    let v = add64 (mul64 major (pos 100)) minor in if negative then neg64 v else v

-- The end of `ParsePaise`, for the text without commas.
unfoldable pub parse_parts : Bool → Str → Result Err ℤ
parse_parts negative s = do
  major ← parsed (parse_int (split_point s).0)
  minor ← parse_fraction (split_point s).1
  ok (total negative major minor)

-- The text of `ParsePaise` without symbol, sign and white space, and whether it had a sign.
unfoldable pub strip : Str → Bool × Str
strip raw =
    let (outer, s) = outer_minus (trim_space raw) in
    let (inner, t) = inner_minus (trim_space (trim_symbol s)) in (outer || inner, t)

-- `ParsePaise`.
unfoldable pub parse_paise : Str → Result Err ℤ
parse_paise raw = let (negative, s) = strip raw in parse_parts negative (remove_commas s)
