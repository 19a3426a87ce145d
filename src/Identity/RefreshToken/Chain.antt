-- ===== src/Identity/RefreshToken/Chain.antt =====
-- The chain of a family: every token but the last one is consumed, and points to its successor.
use leadkart_go.Base.{
  sym, ap, subst, ◌∙◌, Result-cases, ◌≡◌, refl, true, false, List, [], ◌∷◌, ◌++◌, Option, none,
  some, ok, All, Bool-cases, inl, inr, is_empty, get_last?, if◌then◌else◌, arith,
}
use leadkart_go.Base.Int64.{ℤ, pos}
use leadkart_go.Base.Text.{Str, str_eq}
use leadkart_go.Base.Clock.{Time, is_zero_time}
use leadkart_go.Identity.RefreshToken.{
  Family, Token, Err, Call, rotates, revokes, pulls_events, is_consumed, next_generation,
  fresh_token, find_token, consume, last_unconsumed, current_token, rotated, revoke, pull_events,
  new_family, step, run,
}
use leadkart_go.Identity.RefreshToken.Outcomes.{
  Rotation, refuses, detects_reuse, succeeds, rotate-Rotation,
}

-- The last token is not consumed; any other one is, and names the token that follows, which is of
-- the next generation.
abbrev pub LinksTo : Token → List Token → Type 0
LinksTo t [] = is_consumed t ≡ false
LinksTo t (u ∷ us) =
    (is_consumed t ≡ true)
    × (t.replaced_by_id ≡ u.id)
    × (u.generation ≡ next_generation t.generation)

abbrev pub IsChain : List Token → Type 0
IsChain [] = Unit
IsChain (t ∷ ts) = LinksTo t ts × IsChain ts

-- A link depends on the id and the generation of the next token only.
consume_links :
    (t : Token) (hash id : Str) (now : Time) (ts : List Token) (next : Token)
    → is_empty ts ≡ false
    → LinksTo t ts
    → LinksTo t (consume hash id now ts ++ next ∷ [])
consume_links t hash id now [] next h l = cc
consume_links t hash id now (u ∷ us) next h l = ground arith

consume-IsChain :
    (ts : List Token) (t : Token) (hash new_hash id : Str) (ttl : ℤ) (now : Time)
    → is_zero_time now ≡ false
    → IsChain ts
    → find_token hash ts ≡ some t
    → is_consumed t ≡ false
    → IsChain (
        consume hash id now ts
        ++ fresh_token id new_hash (next_generation t.generation) ttl now ∷ [])
consume-IsChain [] t hash new_hash id ttl now n w f c = cc
consume-IsChain (x ∷ []) t hash new_hash id ttl now n w f c = ground arith
consume-IsChain (x ∷ y ∷ ts) t hash new_hash id ttl now n w f c =
    elim (Bool-cases (str_eq x.hash hash)) [
      | inl here ↦ absurd (ground arith)
      | inr there ↦ rw there (
        consume_links x hash id now (y ∷ ts)
            (fresh_token id new_hash (next_generation t.generation) ttl now) refl w.0,
        consume-IsChain (y ∷ ts) t hash new_hash id ttl now n w.1 (ground arith) c,
      )
    ]

-- The tokens form a chain that starts at generation 0.
pub record IsWellFormed (f : Family) : Type 0 where
  pub first : (t : Token) (ts : List Token) → f.tokens ≡ t ∷ ts → t.generation ≡ pos 0
  pub nonempty : is_empty f.tokens ≡ false
  pub chained : IsChain f.tokens

consume-nonempty :
    (hash id : Str) (now : Time) (ts : List Token) (next : Token)
    → is_empty (consume hash id now ts ++ next ∷ []) ≡ false
consume-nonempty hash id now [] next = refl
consume-nonempty hash id now (t ∷ ts) next = ground arith

-- Consuming does not change the generation of the first token.
consume-first :
    (hash id : Str) (now : Time) (ts : List Token) (next t : Token) (us : List Token)
    → is_empty ts ≡ false
    → ((u : Token) (vs : List Token) → ts ≡ u ∷ vs → u.generation ≡ pos 0)
    → consume hash id now ts ++ next ∷ [] ≡ t ∷ us
    → t.generation ≡ pos 0
consume-first hash id now [] next t us n w h = cc
consume-first hash id now (x ∷ ts) next t us n w h = ground (arith, w x ts refl)

rotated-IsWellFormed :
    (f : Family) (t : Token) (hash new_hash id : Str) (ttl : ℤ) (now : Time)
    → is_zero_time now ≡ false
    → IsWellFormed f
    → find_token hash f.tokens ≡ some t
    → is_consumed t ≡ false
    → IsWellFormed (rotated f t hash new_hash ttl id now)
rotated-IsWellFormed f t hash new_hash id ttl now n w found c = record {
  first = λ u us h.
      consume-first hash id now f.tokens
        (fresh_token id new_hash (next_generation t.generation) ttl now) u us w.nonempty w.first h;
  nonempty =
      consume-nonempty hash id now f.tokens
        (fresh_token id new_hash (next_generation t.generation) ttl now);
  chained = consume-IsChain f.tokens t hash new_hash id ttl now n w.chained found c;
}

Rotation-IsWellFormed :
    (f : Family) (hash new_hash : Str) (ttl : ℤ) (id : Str) (now : Time) {out : Family × Option Err}
    → is_zero_time now ≡ false
    → IsWellFormed f
    → Rotation f hash new_hash ttl id now out
    → IsWellFormed out.0
Rotation-IsWellFormed f hash new_hash ttl id now n w (refuses e r) = w
Rotation-IsWellFormed f hash new_hash ttl id now n w (detects_reuse t live found spent) = record {
  first = w.first;
  nonempty = w.nonempty;
  chained = w.chained;
}
Rotation-IsWellFormed f hash new_hash ttl id now n w (succeeds t live found current) =
    rotated-IsWellFormed f t hash new_hash id ttl now n w found current

-- The instant of a call is not the zero time.
abbrev pub IsTimed : Call → Type 0
IsTimed (rotates hash new_hash ttl id now) = is_zero_time now ≡ false
IsTimed (revokes reason now) = is_zero_time now ≡ false
IsTimed pulls_events = Unit

pub revoke-tokens :
    (f g : Family) (reason : Str) (now : Time) → revoke f reason now ≡ ok g → g.tokens ≡ f.tokens
unfolding revoke
revoke-tokens f g reason now h = ground arith

same_tokens-IsWellFormed : (f g : Family) → g.tokens ≡ f.tokens → IsWellFormed f → IsWellFormed g
same_tokens-IsWellFormed f g same w = record {
  first = λ t ts h. w.first t ts (sym same ∙ h);
  nonempty = ap is_empty same ∙ w.nonempty;
  chained = subst IsChain (sym same) w.chained;
}

step-IsWellFormed : (f : Family) (c : Call) → IsTimed c → IsWellFormed f → IsWellFormed (step f c)
unfolding step pull_events
step-IsWellFormed f (rotates hash new_hash ttl id now) n w =
    Rotation-IsWellFormed f hash new_hash ttl id now n w
      (rotate-Rotation f hash new_hash ttl id now)
step-IsWellFormed f (revokes reason now) n w = elim (Result-cases (revoke f reason now)) [
  | inl (g, e) ↦ rw (e, step) (same_tokens-IsWellFormed f g (revoke-tokens f g reason now e) w)
  | inr (_, e) ↦ rw (e, step) w
]
step-IsWellFormed f pulls_events n w = same_tokens-IsWellFormed f (step f pulls_events) refl w

run-IsWellFormed :
    (f : Family) (calls : List Call)
    → All IsTimed calls
    → IsWellFormed f
    → IsWellFormed (run f calls)
unfolding run
run-IsWellFormed f [] n w = w
run-IsWellFormed f (c ∷ calls) n w =
    run-IsWellFormed (step f c) calls n.1 (step-IsWellFormed f c n.0 w)

new_family-IsWellFormed :
    (id person_id tenant_id label hash : Str) (ttl : ℤ) (token_id : Str) (now : Time) (f : Family)
    → new_family id person_id tenant_id label hash ttl token_id now ≡ ok f
    → IsWellFormed f
unfolding new_family
new_family-IsWellFormed id person_id tenant_id label hash ttl token_id now f h =
    let made : f.tokens ≡ fresh_token token_id hash (pos 0) ttl now ∷ [] = ground arith in
    record {
      first = λ t ts e. ground arith;
      nonempty = ground arith;
      chained = subst IsChain (sym made) (refl, tt);
    }

-- A family that `NewFamily` made has, after any calls at instants that are not the zero time, a chain
-- of tokens that starts at generation 0: each but the last is consumed, names its successor and is
-- followed by the next generation, and the last one is not consumed.
pub run-new_family-IsWellFormed :
    (id person_id tenant_id label hash : Str) (ttl : ℤ) (token_id : Str) (now : Time) (f : Family)
    (calls : List Call)
    → new_family id person_id tenant_id label hash ttl token_id now ≡ ok f
    → All IsTimed calls
    → IsWellFormed (run f calls)
run-new_family-IsWellFormed id person_id tenant_id label hash ttl token_id now f calls h n =
    run-IsWellFormed f calls n
      (new_family-IsWellFormed id person_id tenant_id label hash ttl token_id now f h)

last_unconsumed-IsChain :
    (ts : List Token) (found : Option Token)
    → is_empty ts ≡ false
    → IsChain ts
    → (t : Token) × (last_unconsumed found ts ≡ some t) × (get_last? ts ≡ some t)
last_unconsumed-IsChain [] found n w = cc
last_unconsumed-IsChain (t ∷ []) found n w = (t, ground arith, refl)
last_unconsumed-IsChain (t ∷ u ∷ ts) found n w =
    last_unconsumed-IsChain (u ∷ ts) (if is_consumed t then found else some t) refl w.1

-- A well-formed family has a current token, the last of its chain, also when the family is revoked
-- and when that token has expired.
pub current_token-last :
    (f : Family)
    → IsWellFormed f
    → (t : Token) × (current_token f ≡ some t) × (get_last? f.tokens ≡ some t)
unfolding current_token
current_token-last f w = last_unconsumed-IsChain f.tokens none w.nonempty w.chained
