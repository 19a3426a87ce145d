-- ===== src/Common/Money/Grouping.antt =====
-- The groups of digits in the display of money: `groupINR` and `groupWestern` of money.go.
use leadkart_go.Base.{
  ℕ, zero, suc, ◌-◌, ◌≤◌, ◌<◌, ◌≡◌, refl, sym, ap, ◌∙◌, List, [], ◌∷◌, ◌++◌, length, take, drop,
  flatten, take_append_drop, length-take, length-drop, All, leb, leb→le, Bool-cases, inl, inr,
  arith,
}
use mathlib.Core.List.{append-nil, append_assoc}
use leadkart_go.Base.Int64.{pos}
use leadkart_go.Base.Text.{Str}
use leadkart_go.Base.Decimal.{format_nat, format_int}
use leadkart_go.Common.Money.{join, cut, with_rest, group_by, group_inr, group_western}

-- The loop only moves characters from the end of `head` to the groups.
pub flatten-cut :
    (size fuel : ℕ) (head : Str) (groups : List Str)
    → let (rest, all) = cut size fuel head groups in rest ++ flatten all ≡ head ++ flatten groups
unfolding cut
flatten-cut size zero head groups = refl
flatten-cut size (suc fuel) head groups =
    let at = length head - size in
    grind (
      arith,
      flatten-cut size fuel (take at head) (drop at head ∷ groups),
      append_assoc (take at head) (drop at head) (flatten groups),
      take_append_drop at head,
    )

-- What the loop leaves: at most one group, and groups of the size.
record IsCut (size : ℕ) (rest : Str) (groups : List Str) : Type 0 where
  short : length rest ≤ size
  some_digit : 1 ≤ length rest
  groups_sized : All (λ g. length g ≡ size) groups

cut-IsCut :
    (size fuel : ℕ) (head : Str) (groups : List Str)
    → 1 ≤ size
    → length head ≤ fuel
    → 1 ≤ length head
    → All (λ g. length g ≡ size) groups
    → let (rest, all) = cut size fuel head groups in IsCut size rest all
unfolding cut
cut-IsCut size zero head groups h f n w = absurd (omega arith)
cut-IsCut size (suc fuel) head groups h f n w =
    let at = length head - size in
    ground (
      arith,
      cut-IsCut size fuel (take at head) (drop at head ∷ groups),
      length-take at head,
      length-drop at head,
    )

-- A text in groups: one to `size` digits, groups of `size` digits, and the last three.
pub data IsGrouped (size : ℕ) (s : Str) (t : Str) : Type 0 where
  whole : length s ≤ 3 → t ≡ s → IsGrouped size s t
  in_groups :
      (first : Str) (middle : List Str) (last : Str)
      → t ≡ join (first ∷ middle ++ last ∷ [])
      → first ++ flatten middle ++ last ≡ s
      → 1 ≤ length first
      → length first ≤ size
      → All (λ g. length g ≡ size) middle
      → length last ≡ 3
      → IsGrouped size s t

join-snoc :
    (g : Str) (groups : List Str) (t : Str)
    → join (g ∷ groups ++ t ∷ []) ≡ join (g ∷ groups) ++ b',' ∷ t
join-snoc g [] t = refl
join-snoc g (h ∷ groups) t =
    ap (λ s. g ++ b',' ∷ s) (join-snoc h groups t)
    ∙ sym (append_assoc g (b',' ∷ join (h ∷ groups)) (b',' ∷ t))

with_rest_of_digit :
    (rest : Str) (all : List Str) → 1 ≤ length rest → with_rest (rest, all) ≡ rest ∷ all
with_rest_of_digit [] all h = absurd (omega arith)
with_rest_of_digit (c ∷ rest) all h = refl

cut_in_groups :
    (size : ℕ) (s : Str)
    → 1 ≤ size
    → 3 < length s
    → let at = length s - 3 in
      let head = take at s in
      IsGrouped size s (join (with_rest (cut size (length head) head [])) ++ b',' ∷ drop at s)
cut_in_groups size s one h =
    let at = length s - 3 in
    let head = take at s in
    let (rest, all) = cut size (length head) head [] in
    let length_of_head : length head ≡ length s - 3 = length-take at s (omega arith) in
    let (short, digit, sized) =
      cut_facts (cut-IsCut size (length head) head [] one (omega arith) (omega arith) tt) in
    in_groups rest all (drop at s)
      (rw (with_rest_of_digit rest all digit) (sym (join-snoc rest all (drop at s))))
      (ap (λ t. t ++ drop at s) (flatten-cut size (length head) head [] ∙ append-nil head)
        ∙ take_append_drop at s)
      digit short sized (omega (arith, length-drop at s))
  where
    cut_facts :
        {size : ℕ} {rest : Str} {groups : List Str}
        → IsCut size rest groups
        → (length rest ≤ size) × (1 ≤ length rest) × All (λ g. length g ≡ size) groups
    cut_facts w = (w.short, w.some_digit, w.groups_sized)

group_by-IsGrouped : (size : ℕ) (s : Str) → 1 ≤ size → IsGrouped size s (group_by size s)
unfolding group_by
group_by-IsGrouped size s one = elim (Bool-cases (leb (length s) 3)) [
  | inl small ↦ whole (leb→le (length s) 3 small) (rw small refl)
  | inr large ↦ rw large (cut_in_groups size s one (ground arith))
]

-- The displayed groups of a number are its decimal digits, in their order, with a comma between the
-- groups: all of them if there are at most three digits, and else one to two digits, then pairs, then
-- the last three in the Indian style, and one to three digits, then triples in the Western style. So
-- the loops of both functions run to their end.
pub group_inr_and_western-IsGrouped :
    (n : ℕ)
    → IsGrouped 2 (format_nat n) (group_inr (pos n))
      × IsGrouped 3 (format_nat n) (group_western (pos n))
unfolding group_inr group_western format_int
group_inr_and_western-IsGrouped n = (
  group_by-IsGrouped 2 (format_nat n) (omega arith),
  group_by-IsGrouped 3 (format_nat n) (omega arith),
)
