-- ===== src/Base/Decimal.antt =====
-- Decimal numbers as Go's `strconv` prints and reads them, on texts as lists of code points.
use Prim.Native.Nat.{ℕ, zero, suc, ◌+◌, ◌-◌, ◌*◌, ◌/◌, ◌%◌, ◌≤◌, ◌<◌}
use mathlib.Core.Path.{◌≡◌, refl}
use mathlib.Core.Bool.{Bool, true, false, ◌&&◌}
use mathlib.Core.Option.{Option, none, some}
use mathlib.Core.List.{[], ◌∷◌, ◌++◌}
use native.Mathlib.Omega.{arith}
use leadkart_go.Base.Tests.{ltb, leb, ◌==◌, if◌then◌else◌}
use leadkart_go.Base.Lists.{is_empty, All, All-append}
use leadkart_go.Base.Int64.{ℤ, pos, negsuc, sub_ℕ, two63}
use leadkart_go.Base.Text.{Str}

-- The digits of a number that has at most `fuel` of them; zero has none here.
unfoldable pub spell : ℕ → ℕ → Str
spell zero n = []
spell (suc fuel) n =
    let before = spell fuel (n / 10) in if n == 0 then [] else before ++ (b'0' + n % 10) ∷ []

-- `strconv.FormatUint(n, 10)`: a uint64 has at most twenty digits.
unfoldable pub format_nat : ℕ → Str
format_nat n = if n == 0 then b'0' ∷ [] else spell 20 n

-- `strconv.FormatInt(n, 10)`.
unfoldable pub format_int : ℤ → Str
format_int (pos n) = format_nat n
format_int (negsuc n) = b'-' ∷ format_nat (suc n)

abbrev pub is_digit : ℕ → Bool
is_digit c = leb b'0' c && leb c b'9'

abbrev pub all_digits : Str → Bool
all_digits [] = true
all_digits (c ∷ s) = is_digit c && all_digits s

-- The number that digits spell behind `n`.
abbrev pub value : ℕ → Str → ℕ
value n [] = n
value n (c ∷ s) = value (n * 10 + (c - b'0')) s

-- The unsigned part of `strconv.ParseInt(s, 10, 64)`, with the bound of its sign: at least one digit,
-- nothing else, and a value in range.
abbrev parse_unsigned : ℕ → Str → Option ℕ
parse_unsigned bound s =
    if is_empty s
    then none
    else if all_digits s && ltb (value 0 s) bound
    then some (value 0 s)
    else none

abbrev signed_pos : Option ℕ → Option ℤ
signed_pos none = none
signed_pos (some n) = some (pos n)

abbrev signed_neg : Option ℕ → Option ℤ
signed_neg none = none
signed_neg (some n) = some (sub_ℕ 0 n)

-- `strconv.ParseInt(s, 10, 64)`, with `none` for an error.
unfoldable pub parse_int : Str → Option ℤ
parse_int [] = none
parse_int (c ∷ s) =
    if c == b'+'
    then signed_pos (parse_unsigned two63 s)
    else if c == b'-'
    then signed_neg (parse_unsigned (two63 + 1) s)
    else signed_pos (parse_unsigned two63 (c ∷ s))

-- `fmt.Sprintf("%02d", n)`.
unfoldable pub format_02 : ℤ → Str
format_02 (pos n) = if ltb n 10 then b'0' ∷ format_nat n else format_nat n
format_02 (negsuc n) = format_int (negsuc n)

abbrev pub IsDigit : ℕ → Type 0
IsDigit c = (b'0' ≤ c) × (c ≤ b'9')

-- The bound of a number of digits.
abbrev power_of_ten : ℕ → ℕ
power_of_ten zero = 1
power_of_ten (suc k) = 10 * power_of_ten k

value-snoc : (n : ℕ) (s : Str) (c : ℕ) → value n (s ++ c ∷ []) ≡ value n s * 10 + (c - b'0')
value-snoc n [] c = refl
value-snoc n (d ∷ s) c = value-snoc (n * 10 + (d - b'0')) s c

value-spell : (fuel n : ℕ) → n < power_of_ten fuel → value 0 (spell fuel n) ≡ n
unfolding spell
value-spell zero n h = omega arith
value-spell (suc fuel) n h =
    ground (arith, value-spell fuel (n / 10), value-snoc 0 (spell fuel (n / 10)) (b'0' + n % 10))

spell-All-IsDigit : (fuel n : ℕ) → All IsDigit (spell fuel n)
unfolding spell
spell-All-IsDigit zero n = tt
spell-All-IsDigit (suc fuel) n = ground (
  arith,
  All-append IsDigit (spell fuel (n / 10)) ((b'0' + n % 10) ∷ []),
  spell-All-IsDigit fuel (n / 10),
)

is_empty-snoc : (s : Str) (c : ℕ) → is_empty (s ++ c ∷ []) ≡ false
is_empty-snoc [] c = refl
is_empty-snoc (d ∷ s) c = refl

spell-some_digit : (fuel n : ℕ) → 1 ≤ n → is_empty (spell (suc fuel) n) ≡ false
unfolding spell
spell-some_digit fuel n h = ground (arith, is_empty-snoc (spell fuel (n / 10)) (b'0' + n % 10))

-- The print of an int64's absolute value is one or more digits that spell it.
pub format_nat-spells :
    (n : ℕ)
    → n ≤ two63
    → All IsDigit (format_nat n) × (value 0 (format_nat n) ≡ n) × (is_empty (format_nat n) ≡ false)
unfolding format_nat
format_nat-spells n h =
    ground (arith, spell-All-IsDigit 20 n, value-spell 20 n, spell-some_digit 19 n)

pub all_digits_of_All-IsDigit : (s : Str) → All IsDigit s → all_digits s ≡ true
all_digits_of_All-IsDigit [] h = refl
all_digits_of_All-IsDigit (c ∷ s) h = ground (arith, all_digits_of_All-IsDigit s)

-- Digits whose value is an int64 are read as this value.
pub parse_int_of_digits :
    (s : Str)
    → All IsDigit s
    → is_empty s ≡ false
    → value 0 s < two63
    → parse_int s ≡ some (pos (value 0 s))
unfolding parse_int
parse_int_of_digits [] h e b = cc
parse_int_of_digits (c ∷ s) h e b = ground (arith, all_digits_of_All-IsDigit (c ∷ s) h)

spell-zero : (fuel : ℕ) → spell fuel 0 ≡ []
unfolding spell
spell-zero zero = refl
spell-zero (suc fuel) = refl

spell_one_digit : (fuel n : ℕ) → 1 ≤ n → n < 10 → spell (suc fuel) n ≡ (b'0' + n % 10) ∷ []
unfolding spell
spell_one_digit fuel n h k =
    let none_before : n / 10 ≡ 0 = omega arith in rw (none_before, spell-zero fuel) (ground arith)

spell_two_digits :
    (fuel n : ℕ)
    → 10 ≤ n
    → n < 100
    → spell (suc (suc fuel)) n ≡ (b'0' + n / 10 % 10) ∷ (b'0' + n % 10) ∷ []
unfolding spell
spell_two_digits fuel n h k = ground (arith, spell_one_digit fuel (n / 10))

-- A number below 100 is printed by `%02d` as its two digits.
pub format_02_digits :
    (n : ℕ) → n < 100 → format_02 (pos n) ≡ (b'0' + n / 10) ∷ (b'0' + n % 10) ∷ []
unfolding format_02 format_nat
format_02_digits n h = ground (arith, spell_one_digit 19 n, spell_two_digits 18 n)
