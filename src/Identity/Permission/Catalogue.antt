-- ===== src/Identity/Permission/Catalogue.antt =====
-- internal/identity/domain/permission/permission.go: every name of the catalogue passes the checks of
-- the open constructor.
use leadkart_go.Base.{
  ◌≡◌, refl, Bool, true, not, ◌&&◌, List, [], ◌∷◌, ok, is_empty, Bool-cases, inl, inr, ltb, arith,
  subst,
}
use leadkart_go.Base.Text.{Str, str_eq, eq_of_str_eq, trim_space, byte_len}
use leadkart_go.Identity.Permission.{
  all_names, is_listed, is_known, try_from_constant, create, all_name_chars, name_min_length,
  name_max_length,
}

-- A name that both lookups take as it is.
abbrev is_proper : Str → Bool
is_proper n =
    str_eq (trim_space n) n
    && not (is_empty n)
    && not (ltb (byte_len n) name_min_length)
    && not (ltb name_max_length (byte_len n))
    && all_name_chars n

abbrev all_proper : List Str → Bool
all_proper [] = true
all_proper (n ∷ names) = is_proper n && all_proper names

names_are_proper : all_proper all_names ≡ true
unfolding trim_space byte_len str_eq
names_are_proper = refl

listed_is_proper :
    (name : Str) (names : List Str)
    → all_proper names ≡ true
    → is_listed name names ≡ true
    → is_proper name ≡ true
listed_is_proper name [] p h = cc
listed_is_proper name (n ∷ names) p h = elim (Bool-cases (str_eq n name)) [
  | inl same ↦ subst (λ m. is_proper m ≡ true) (eq_of_str_eq n name same) (ground arith)
  | inr other ↦ listed_is_proper name names (ground arith) (ground arith)
]

proper_of_known : (name : Str) → is_known name ≡ true → is_proper name ≡ true
unfolding is_known
proper_of_known name h = listed_is_proper name all_names names_are_proper h

looked_up :
    (raw p : Str) → try_from_constant raw ≡ ok p → (p ≡ trim_space raw) × (is_known p ≡ true)
unfolding try_from_constant
looked_up raw p h = ground arith

-- What `TryFromConstant` finds for a text is in the catalogue, is left alone by trimming, and is also
-- what `Create` makes of the text.
pub try_from_constant-create :
    (raw p : Str)
    → try_from_constant raw ≡ ok p
    → (is_known p ≡ true) × (trim_space p ≡ p) × (create raw ≡ ok p)
unfolding create
try_from_constant-create raw p h =
    let (trimmed, known) = looked_up raw p h in
    let proper = proper_of_known p known in
    (known, eq_of_str_eq (trim_space p) p (ground (arith, proper)), ground (arith, proper, trimmed))
