-- ===== src/Identity/RefreshToken/Outcomes.antt =====
-- internal/identity/domain/refreshtoken/family.go: the outcomes of `Rotate`.
use leadkart_go.Base.{
  ◌≡◌, refl, Bool, true, false, Option, none, some, Bool-cases, inl, inr, is_empty,
}
use leadkart_go.Base.Int64.{ℤ, pos, leb_ℤ}
use leadkart_go.Base.Text.{Str, codes}
use leadkart_go.Base.Clock.{Time}
use leadkart_go.Identity.RefreshToken.{
  Family, Token, Err, invalid, unknown_token, reuse_detected, revoked, expired, is_expired,
  is_revoked, rotate_found, is_consumed, find_token, rotate, rotated, revoked_for,
}

-- Whether an error is the one of a detected reuse.
abbrev pub is_reuse : Err → Bool
is_reuse reuse_detected = true
is_reuse _ = false

-- What a rotation leads to: it is refused and writes nothing; it meets a consumed token and revokes
-- the family; or it consumes the presented token and appends the new one.
pub data Rotation (f : Family) (hash new_hash : Str) (ttl : ℤ) (id : Str) (now : Time)
    : Family × Option Err → Type 0 where
  refuses : (e : Err) → is_reuse e ≡ false → Rotation f hash new_hash ttl id now (f, some e)
  detects_reuse :
      (t : Token)
      → is_revoked f ≡ false
      → find_token hash f.tokens ≡ some t
      → is_consumed t ≡ true
      → Rotation f hash new_hash ttl id now
          (revoked_for f (codes "reuse_detected") now, some reuse_detected)
  succeeds :
      (t : Token)
      → is_revoked f ≡ false
      → find_token hash f.tokens ≡ some t
      → is_consumed t ≡ false
      → Rotation f hash new_hash ttl id now (rotated f t hash new_hash ttl id now, none)

module _ (f : Family) (hash new_hash : Str) (ttl : ℤ) (id : Str) (now : Time)
    (live : is_revoked f ≡ false) where
  found-Rotation :
      (o : Option Token)
      → find_token hash f.tokens ≡ o
      → Rotation f hash new_hash ttl id now (rotate_found f o hash new_hash ttl id now)
  found-Rotation none h = refuses unknown_token refl
  found-Rotation (some t) h = elim (Bool-cases (is_consumed t)) [
    | inl spent ↦ rw spent (detects_reuse t live h spent)
    | inr current ↦ elim (Bool-cases (is_expired t now)) [
      | inl late ↦ rw (current, late) (refuses expired refl)
      | inr early ↦ rw (current, early) (succeeds t live h current)
    ]
  ]

pub rotate-Rotation :
    (f : Family) (hash new_hash : Str) (ttl : ℤ) (id : Str) (now : Time)
    → Rotation f hash new_hash ttl id now (rotate f hash new_hash ttl id now)
unfolding rotate
rotate-Rotation f hash new_hash ttl id now = elim (Bool-cases (is_revoked f)) [
  | inl gone ↦ rw (gone, rotate) (refuses revoked refl)
  | inr live ↦ elim (Bool-cases (is_empty new_hash)) [
    | inl missing ↦ rw (live, missing, rotate) (refuses invalid refl)
    | inr given ↦ elim (Bool-cases (leb_ℤ ttl (pos 0))) [
      | inl bad ↦ rw (live, given, bad, rotate) (refuses invalid refl)
      | inr good ↦
          rw (live, given, good, rotate)
            (found-Rotation f hash new_hash ttl id now live (find_token hash f.tokens) refl)
    ]
  ]
]
