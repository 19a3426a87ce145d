-- ===== src/Common/Money/RoundTrip.antt =====
-- The parser of money reads back what the display shows: `FormatPaiseINR` and `ParsePaise` of
-- money.go.
use leadkart_go.Base.{
  ℕ, suc, ◌+◌, ◌-◌, ◌*◌, ◌/◌, ◌%◌, ◌≤◌, ◌<◌, ◌≡◌, refl, sym, ap, ◌∙◌, Bool, true, false, List, [],
  ◌∷◌, ◌++◌, some, ok, length, take, drop, flatten, take_append_drop, All, All-append, leb, ◌==◌,
  Bool-cases, inl, inr, if◌then◌else◌, arith,
}
use mathlib.Core.List.{append-nil, append_assoc}
use leadkart_go.Base.Int64.{
  ℤ, pos, negsuc, two63, ltb_ℤ, pos_part, neg_part, neg64, quot64, rem64, add64_pos, mul64_pos,
}
use leadkart_go.Base.Text.{Str, is_space, byte_len, IsPlain, trim_space_of_All-IsPlain}
use leadkart_go.Base.Decimal.{
  format_nat, format_int, format_02, IsDigit, format_nat-spells, parse_int_of_digits,
  format_02_digits,
}
use leadkart_go.Common.Money.{
  inr, rupee, join, cut, with_rest, group_by, group_inr, display, format, format_paise_inr,
  remove_commas, split_point, inner_minus, parse_fraction, total, parse_parts, strip, parse_paise,
}
use leadkart_go.Common.Money.Grouping.{flatten-cut}

remove_commas-append : (s t : Str) → remove_commas (s ++ t) ≡ remove_commas s ++ remove_commas t
remove_commas-append [] t = refl
remove_commas-append (c ∷ s) t = ground (arith, remove_commas-append s t)

remove_commas_of_digits : (s : Str) → All IsDigit s → remove_commas s ≡ s
remove_commas_of_digits [] h = refl
remove_commas_of_digits (c ∷ s) h = ground (arith, remove_commas_of_digits s)

remove_commas-join :
    (groups : List Str) → remove_commas (join groups) ≡ remove_commas (flatten groups)
remove_commas-join [] = refl
remove_commas-join (g ∷ []) = ap remove_commas (sym (append-nil g))
remove_commas-join (g ∷ h ∷ groups) =
    remove_commas-append g (b',' ∷ join (h ∷ groups))
    ∙ ap (λ t. remove_commas g ++ t) (remove_commas-join (h ∷ groups))
    ∙ sym (remove_commas-append g (flatten (h ∷ groups)))

flatten-with_rest :
    (rest : Str) (groups : List Str) → flatten (with_rest (rest, groups)) ≡ rest ++ flatten groups
flatten-with_rest [] groups = refl
flatten-with_rest (c ∷ rest) groups = refl

-- Grouping adds only commas.
remove_commas-group_by : (size : ℕ) (s : Str) → remove_commas (group_by size s) ≡ remove_commas s
unfolding group_by
remove_commas-group_by size s = elim (Bool-cases (leb (length s) 3)) [
  | inl small ↦ rw small refl
  | inr large ↦ rw large (
      let at = length s - 3 in
      let head = take at s in
      let p = cut size (length head) head [] in
      remove_commas-append (join (with_rest p)) (b',' ∷ drop at s)
      ∙ ap (λ t. t ++ remove_commas (drop at s))
          (remove_commas-join (with_rest p)
            ∙ ap remove_commas (
                flatten-with_rest p.0 p.1
                ∙ flatten-cut size (length head) head []
                ∙ append-nil head))
      ∙ sym (remove_commas-append head (drop at s))
      ∙ ap remove_commas (take_append_drop at s))
]

-- A character of the display behind the sign: no white space and no minus.
abbrev IsBody : ℕ → Type 0
IsBody c = IsPlain c × ((c == b'-') ≡ false)

All-IsBody_of_digits : (s : Str) → All IsDigit (remove_commas s) → All IsBody s
unfolding is_space
All-IsBody_of_digits [] h = tt
All-IsBody_of_digits (c ∷ s) h = elim (Bool-cases (c == b',')) [
  | inl comma ↦ (ground arith, All-IsBody_of_digits s (rw comma at h))
  | inr other ↦
      let k = (rw other at h) in
      ((ground (arith, k.0), ground (arith, k.0)), All-IsBody_of_digits s k.1)
]

inner_minus_of_body : (s : Str) → All IsBody s → inner_minus s ≡ (false, s)
inner_minus_of_body [] h = refl
inner_minus_of_body (c ∷ s) h = rw (h.0.1) refl

All-IsPlain_of_body : (s : Str) → All IsBody s → All IsPlain s
All-IsPlain_of_body [] h = tt
All-IsPlain_of_body (c ∷ s) h = (h.0.0, All-IsPlain_of_body s h.1)

abbrev sign : Bool → Str
sign negative = if negative then b'-' ∷ [] else []

-- The symbol and the sign are taken off.
strip_displayed :
    (negative : Bool) (s : Str)
    → All IsBody s
    → strip (rupee ∷ (sign negative ++ s)) ≡ (negative, s)
unfolding strip is_space
strip_displayed false s h =
    let plain = All-IsPlain_of_body s h in
    rw
      (
        trim_space_of_All-IsPlain (rupee ∷ s) (refl, plain),
        trim_space_of_All-IsPlain s plain,
        inner_minus_of_body s h,
      )
      refl
strip_displayed true s h =
    let plain = All-IsPlain_of_body s h in
    rw
      (
        trim_space_of_All-IsPlain (rupee ∷ b'-' ∷ s) (refl, (refl, plain)),
        trim_space_of_All-IsPlain (b'-' ∷ s) (refl, plain),
      )
      refl

split_point_of_digits : (s f : Str) → All IsDigit s → split_point (s ++ b'.' ∷ f) ≡ (s, some f)
split_point_of_digits [] f h = refl
split_point_of_digits (c ∷ s) f h = ground (arith, split_point_of_digits s f)

-- Two digits are a fraction of a rupee.
parse_fraction_of_digits :
    (r : ℕ) → r < 100 → parse_fraction (some ((b'0' + r / 10) ∷ (b'0' + r % 10) ∷ [])) ≡ ok (pos r)
unfolding parse_fraction byte_len
parse_fraction_of_digits r h =
    ground (arith, parse_int_of_digits ((b'0' + r / 10) ∷ (b'0' + r % 10) ∷ []))

remove_commas_of_display :
    (n r : ℕ)
    → n ≤ two63
    → r < 100
    → remove_commas (group_by 2 (format_nat n) ++ b'.' ∷ format_02 (pos r))
      ≡ format_nat n ++ b'.' ∷ (b'0' + r / 10) ∷ (b'0' + r % 10) ∷ []
remove_commas_of_display n r bound h =
    let (all, spelt, some_digit) = format_nat-spells n bound in
    let fraction = (b'0' + r / 10) ∷ (b'0' + r % 10) ∷ [] in
    rw
      (
        format_02_digits r h,
        remove_commas-append (group_by 2 (format_nat n)) (b'.' ∷ fraction),
        remove_commas-group_by 2 (format_nat n),
        remove_commas_of_digits (format_nat n) all,
        remove_commas_of_digits fraction
            ((omega arith, omega arith), ((omega arith, omega arith), tt)),
      )
      refl

display-All-IsBody :
    (n r : ℕ)
    → n ≤ two63
    → r < 100
    → All IsBody (group_by 2 (format_nat n) ++ b'.' ∷ format_02 (pos r))
unfolding is_space
display-All-IsBody n r bound h =
    let (all, spelt, some_digit) = format_nat-spells n bound in
    All-append IsBody (group_by 2 (format_nat n)) (b'.' ∷ format_02 (pos r))
      (All-IsBody_of_digits (group_by 2 (format_nat n)) (
        rw (remove_commas-group_by 2 (format_nat n), remove_commas_of_digits (format_nat n) all)
          all))
      (rw (format_02_digits r h) (ground arith))

total_of_parts :
    (negative : Bool) (n : ℕ)
    → n < two63
    → total negative (pos (n / 100)) (pos (n % 100)) ≡ (if negative then neg64 (pos n) else pos n)
total_of_parts negative n h =
    rw (mul64_pos (n / 100) 100 (omega arith), add64_pos (n / 100 * 100) (n % 100) (omega arith))
      (ap (λ m. if negative then neg64 (pos m) else pos m) (omega arith))

parse_parts_of_display :
    (negative : Bool) (n : ℕ)
    → n < two63
    → parse_parts negative
        (format_nat (n / 100) ++ b'.' ∷ (b'0' + n % 100 / 10) ∷ (b'0' + n % 100 % 10) ∷ [])
      ≡ ok (if negative then neg64 (pos n) else pos n)
unfolding parse_parts
parse_parts_of_display negative n h =
    let (all, spelt, some_digit) = format_nat-spells (n / 100) (omega arith) in
    let fraction = (b'0' + n % 100 / 10) ∷ (b'0' + n % 100 % 10) ∷ [] in
    rw
      (
        split_point_of_digits (format_nat (n / 100)) fraction all,
        parse_int_of_digits (format_nat (n / 100)) all some_digit (rw spelt (omega arith)),
        spelt,
        parse_fraction_of_digits (n % 100) (omega arith),
      )
      (ap ok (total_of_parts negative n h))

parse_paise-display :
    (negative : Bool) (n : ℕ)
    → n < two63
    → parse_paise (display inr negative (pos n)) ≡ ok (if negative then neg64 (pos n) else pos n)
unfolding parse_paise quot64 rem64 group_inr format_int
parse_paise-display negative n h =
    let body = group_by 2 (format_nat (n / 100)) in
    let rest = b'.' ∷ format_02 (pos (n % 100)) in
    ap (λ t. parse_paise (rupee ∷ t)) (append_assoc (sign negative) body rest)
    ∙ rw
        (
          strip_displayed negative (body ++ rest)
              (display-All-IsBody (n / 100) (n % 100) (omega arith) (omega arith)),
          remove_commas_of_display (n / 100) (n % 100) (omega arith) (omega arith),
        )
        (parse_parts_of_display negative n h)

neg64_of_negative :
    (k : ℕ) → suc k < two63 → (neg64 (negsuc k) ≡ pos (suc k)) × (neg64 (pos (suc k)) ≡ negsuc k)
unfolding neg64
neg64_of_negative k h = (ground arith, ground arith)

negative_of_sign : (n : ℕ) → (ltb_ℤ (pos n) (pos 0) ≡ false) × (ltb_ℤ (negsuc n) (pos 0) ≡ true)
negative_of_sign n = (ground arith, ground arith)

-- Every amount in int64 but the least one is read back exactly from its display in rupees: the symbol,
-- the sign, the Indian grouping and the two decimals.
pub parse_paise-format_paise_inr :
    (paise : ℤ)
    → pos_part paise < two63
    → neg_part paise < two63
    → parse_paise (format_paise_inr paise) ≡ ok paise
unfolding format_paise_inr format
parse_paise-format_paise_inr (pos n) h k =
    rw ((negative_of_sign n).0) (parse_paise-display false n h)
parse_paise-format_paise_inr (negsuc n) h k =
    let (up, down) = neg64_of_negative n k in
    rw ((negative_of_sign n).1, up, parse_paise-display true (suc n) k, down) refl
