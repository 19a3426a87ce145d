-- ===== src/Base/Text.antt =====
-- Go's strings as lists of Unicode code points, `strings.TrimSpace` and the length in bytes.
use Prim.Native.Nat.{ℕ, ◌+◌}
use Prim.Native.Char.{code}
use Prim.Native.String.{String}
use mathlib.Core.Path.{◌≡◌, refl}
use mathlib.Core.Bool.{Bool, true, false, ◌&&◌, ◌||◌}
use mathlib.Core.List.{List, [], ◌∷◌}
use native.Mathlib.Omega.{arith}
use leadkart_go.Base.Tests.{ltb, leb, ◌==◌, if◌then◌else◌}
use leadkart_go.Base.Lists.{is_empty, All}

abbrev pub Str : Type 0
Str = List ℕ

-- A literal.
abbrev pub codes : String → Str
codes String.[] = []
codes (String.◌∷◌ c s) = code c ∷ codes s

-- `a == b` on strings.
unfoldable pub str_eq : Str → Str → Bool
str_eq [] [] = true
str_eq [] (d ∷ t) = false
str_eq (c ∷ s) [] = false
str_eq (c ∷ s) (d ∷ t) = c == d && str_eq s t

-- `unicode.IsSpace`.
unfoldable pub is_space : ℕ → Bool
is_space c =
    (leb 9 c && leb c 13)
    || (c == 32
        || (c == 0x85
            || (c == 0xa0
                || (c == 0x1680
                    || ((leb 0x2000 c && leb c 0x200a)
                        || (c == 0x2028
                            || (c == 0x2029 || (c == 0x202f || (c == 0x205f || c == 0x3000)))))))))

trim_left : Str → Str
trim_left [] = []
trim_left (c ∷ s) = let rest = trim_left s in if is_space c then rest else c ∷ s

-- `c` in front of a text whose trailing white space is gone.
push_trimmed : ℕ → Str → Str
push_trimmed c [] = if is_space c then [] else c ∷ []
push_trimmed c (d ∷ s) = c ∷ d ∷ s

trim_right : Str → Str
unfolding push_trimmed
trim_right [] = []
trim_right (c ∷ s) = push_trimmed c (trim_right s)

-- `strings.TrimSpace`.
unfoldable pub trim_space : Str → Str
unfolding trim_left trim_right is_space
trim_space s = trim_right (trim_left s)

-- The number of bytes of a code point in UTF-8.
abbrev pub rune_len : ℕ → ℕ
rune_len c = if ltb c 0x80 then 1 else if ltb c 0x800 then 2 else if ltb c 0x10000 then 3 else 4

-- `len(s)`: Go counts the bytes of the UTF-8 encoding.
unfoldable pub byte_len : Str → ℕ
byte_len [] = 0
byte_len (c ∷ s) = rune_len c + byte_len s

-- `strings.TrimSpace(s) == ""`.
unfoldable pub is_blank : Str → Bool
unfolding trim_space
is_blank s = is_empty (trim_space s)

pub str_eq_refl : (s : Str) → str_eq s s ≡ true
unfolding str_eq
str_eq_refl [] = refl
str_eq_refl (c ∷ s) = ground (arith, str_eq_refl s)

pub eq_of_str_eq : (s t : Str) → str_eq s t ≡ true → s ≡ t
unfolding str_eq
eq_of_str_eq [] [] h = refl
eq_of_str_eq [] (d ∷ t) h = cc
eq_of_str_eq (c ∷ s) [] h = cc
eq_of_str_eq (c ∷ s) (d ∷ t) h = ground (arith, eq_of_str_eq s t)

-- No white space anywhere: trimming changes nothing.
abbrev pub IsPlain : ℕ → Type 0
IsPlain c = is_space c ≡ false

trim_left_of_All-IsPlain : (s : Str) → All IsPlain s → trim_left s ≡ s
unfolding trim_left
trim_left_of_All-IsPlain [] h = refl
trim_left_of_All-IsPlain (c ∷ s) h = rw (h.0) refl

push_trimmed_of_IsPlain : (c : ℕ) (s : Str) → IsPlain c → push_trimmed c s ≡ c ∷ s
unfolding push_trimmed
push_trimmed_of_IsPlain c [] h = rw h refl
push_trimmed_of_IsPlain c (d ∷ s) h = refl

trim_right_of_All-IsPlain : (s : Str) → All IsPlain s → trim_right s ≡ s
unfolding trim_right
trim_right_of_All-IsPlain [] h = refl
trim_right_of_All-IsPlain (c ∷ s) h =
    rw (trim_right_of_All-IsPlain s h.1) (push_trimmed_of_IsPlain c s h.0)

pub trim_space_of_All-IsPlain : (s : Str) → All IsPlain s → trim_space s ≡ s
unfolding trim_space
trim_space_of_All-IsPlain s h = rw (trim_left_of_All-IsPlain s h) (trim_right_of_All-IsPlain s h)
