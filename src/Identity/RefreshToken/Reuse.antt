-- ===== src/Identity/RefreshToken/Reuse.antt =====
-- Reuse detection: a token is rotated at most once, and a revoked family stays as it is.
use leadkart_go.Base.{
  ◌≡◌, refl, sym, ◌∙◌, Bool, true, false, List, [], ◌∷◌, ◌++◌, Option, none, some, All,
  Result-cases, Bool-cases, inl, inr, is_empty, arith, subst, ap,
}
use leadkart_go.Base.Int64.{ℤ, pos, leb_ℤ}
use leadkart_go.Base.Text.{Str, codes}
use leadkart_go.Base.Clock.{Time, is_zero_time}
use leadkart_go.Identity.RefreshToken.{
  Family, Token, Err, reuse_detected, revoked, Call, rotates, revokes, pulls_events, is_consumed,
  is_revoked, find_token, consume, rotate_found, rotate, revoked_for, revoke, pull_events, step,
  run,
}
use leadkart_go.Identity.RefreshToken.Outcomes.{
  Rotation, refuses, detects_reuse, succeeds, rotate-Rotation,
}
use leadkart_go.Identity.RefreshToken.Chain.{IsTimed, revoke-tokens}

-- The token with the hash has been consumed.
abbrev spent : Option Token → Bool
spent none = false
spent (some t) = is_consumed t

abbrev pub IsSpent : Str → Family → Type 0
IsSpent hash f = spent (find_token hash f.tokens) ≡ true

spent_append :
    (hash : Str) (ts us : List Token)
    → spent (find_token hash ts) ≡ true
    → spent (find_token hash (ts ++ us)) ≡ true
spent_append hash [] us h = cc
spent_append hash (t ∷ ts) us h = ground (arith, spent_append hash ts us)

-- Consuming a token keeps the consumed ones consumed.
spent-consume :
    (hash other id : Str) (now : Time) (ts : List Token)
    → is_zero_time now ≡ false
    → spent (find_token hash ts) ≡ true
    → spent (find_token hash (consume other id now ts)) ≡ true
spent-consume hash other id now [] n h = cc
spent-consume hash other id now (t ∷ ts) n h = ground (arith, spent-consume hash other id now ts n)

consumed_is_spent :
    (hash id : Str) (now : Time) (ts : List Token) (t : Token)
    → is_zero_time now ≡ false
    → find_token hash ts ≡ some t
    → spent (find_token hash (consume hash id now ts)) ≡ true
consumed_is_spent hash id now [] t n h = cc
consumed_is_spent hash id now (u ∷ ts) t n h = ground (arith, consumed_is_spent hash id now ts t n)

Rotation-IsSpent :
    (spent_hash : Str) (f : Family) (hash new_hash : Str) (ttl : ℤ) (id : Str) (now : Time)
    {out : Family × Option Err}
    → is_zero_time now ≡ false
    → IsSpent spent_hash f
    → Rotation f hash new_hash ttl id now out
    → IsSpent spent_hash out.0
Rotation-IsSpent spent_hash f hash new_hash ttl id now n s (refuses e r) = s
Rotation-IsSpent spent_hash f hash new_hash ttl id now n s (detects_reuse t live found used) = s
Rotation-IsSpent spent_hash f hash new_hash ttl id now n s (succeeds t live found current) =
    spent_append spent_hash (consume hash id now f.tokens) _
      (spent-consume spent_hash hash id now f.tokens n s)

step-IsSpent :
    (hash : Str) (f : Family) (c : Call) → IsTimed c → IsSpent hash f → IsSpent hash (step f c)
unfolding step pull_events
step-IsSpent hash f (rotates presented new_hash ttl id now) n s =
    Rotation-IsSpent hash f presented new_hash ttl id now n s
      (rotate-Rotation f presented new_hash ttl id now)
step-IsSpent hash f (revokes reason now) n s = elim (Result-cases (revoke f reason now)) [
  | inl (g, e) ↦
      rw (e, step)
        (subst (λ ts. spent (find_token hash ts) ≡ true) (sym (revoke-tokens f g reason now e)) s)
  | inr (_, e) ↦ rw (e, step) s
]
step-IsSpent hash f pulls_events n s = s

run-IsSpent :
    (hash : Str) (f : Family) (calls : List Call)
    → All IsTimed calls
    → IsSpent hash f
    → IsSpent hash (run f calls)
unfolding run
run-IsSpent hash f [] n s = s
run-IsSpent hash f (c ∷ calls) n s =
    run-IsSpent hash (step f c) calls n.1 (step-IsSpent hash f c n.0 s)

-- Presenting a spent token fails.
rejected :
    (f : Family) (hash new_hash : Str) (ttl : ℤ) (id : Str) (now : Time) {out : Family × Option Err}
    → IsSpent hash f
    → Rotation f hash new_hash ttl id now out
    → (e : Err) × (out.1 ≡ some e)
rejected f hash new_hash ttl id now s (refuses e r) = (e, refl)
rejected f hash new_hash ttl id now s (detects_reuse t live found used) = (reuse_detected, refl)
rejected f hash new_hash ttl id now s (succeeds t live found current) = absurd (ground arith)

-- The token of a successful outcome is spent.
outcome-IsSpent :
    (f : Family) (hash new_hash : Str) (ttl : ℤ) (id : Str) (now : Time) {out : Family × Option Err}
    → is_zero_time now ≡ false
    → out.1 ≡ none
    → Rotation f hash new_hash ttl id now out
    → IsSpent hash out.0
outcome-IsSpent f hash new_hash ttl id now n h (refuses e r) = cc
outcome-IsSpent f hash new_hash ttl id now n h (detects_reuse t live found used) = cc
outcome-IsSpent f hash new_hash ttl id now n h (succeeds t live found current) =
    spent_append hash (consume hash id now f.tokens) _
      (consumed_is_spent hash id now f.tokens t n found)

first_use :
    (f : Family) (hash new_hash : Str) (ttl : ℤ) (id : Str) (now : Time)
    → is_zero_time now ≡ false
    → (rotate f hash new_hash ttl id now).1 ≡ none
    → IsSpent hash (rotate f hash new_hash ttl id now).0
first_use f hash new_hash ttl id now n h =
    outcome-IsSpent f hash new_hash ttl id now n h (rotate-Rotation f hash new_hash ttl id now)

-- After a rotation that succeeded with a token, at an instant that is not the zero time, and after any
-- further calls at such instants, the same token is refused, whatever comes with it.
pub rotates_once :
    (f : Family) (hash new_hash : Str) (ttl : ℤ) (id : Str) (now : Time) (calls : List Call)
    (later_hash : Str) (later_ttl : ℤ) (later_id : Str) (later : Time)
    → is_zero_time now ≡ false
    → (rotate f hash new_hash ttl id now).1 ≡ none
    → All IsTimed calls
    → (e : Err) × ((rotate
          (run (rotate f hash new_hash ttl id now).0 calls)
          hash
          later_hash
          later_ttl
          later_id
          later).1
        ≡ some e)
rotates_once f hash new_hash ttl id now calls later_hash later_ttl later_id later n ok_now timed =
    let g = run (rotate f hash new_hash ttl id now).0 calls in
    rejected g hash later_hash later_ttl later_id later
      (run-IsSpent hash (rotate f hash new_hash ttl id now).0 calls timed
        (first_use f hash new_hash ttl id now n ok_now))
      (rotate-Rotation g hash later_hash later_ttl later_id later)

-- Presenting a spent token to a live family, with a new hash and a positive lifetime.
reuse_revokes :
    (f : Family) (hash new_hash : Str) (ttl : ℤ) (id : Str) (now : Time)
    → is_revoked f ≡ false
    → is_empty new_hash ≡ false
    → leb_ℤ ttl (pos 0) ≡ false
    → IsSpent hash f
    → rotate f hash new_hash ttl id now
      ≡ (revoked_for f (codes "reuse_detected") now, some reuse_detected)
unfolding rotate
reuse_revokes f hash new_hash ttl id now live given good s =
    rw (live, given, good, rotate) (found (find_token hash f.tokens) s)
  where
    found :
        (o : Option Token)
        → spent o ≡ true
        → rotate_found f o hash new_hash ttl id now
          ≡ (revoked_for f (codes "reuse_detected") now, some reuse_detected)
    found none h = cc
    found (some t) h = rw h refl

-- In a revoked family no call changes any field but the list of pending events.
step_of_revoked :
    (f : Family) (c : Call)
    → is_revoked f ≡ true
    → step f c ≡ record f { events = (step f c).events }
unfolding step rotate revoke pull_events
step_of_revoked f (rotates hash new_hash ttl id now) h = rw (h, step, rotate) refl
step_of_revoked f (revokes reason now) h = ground arith
step_of_revoked f pulls_events h = refl

-- After any calls, a revoked family is the same but for the list of pending events: it stays revoked,
-- and its tokens stay as they were.
pub run_of_revoked :
    (f : Family) (calls : List Call)
    → is_revoked f ≡ true
    → run f calls ≡ record f { events = (run f calls).events }
unfolding run
run_of_revoked f [] h = refl
run_of_revoked f (c ∷ calls) h =
    let same = step_of_revoked f c h in
    let rest = run_of_revoked (step f c) calls (ap is_revoked same ∙ h) in
    rest ∙ ap (λ (g : Family). record g { events = (run f (c ∷ calls)).events }) same

-- A rotation in a revoked family.
refused_when_revoked :
    (f : Family) (hash new_hash : Str) (ttl : ℤ) (id : Str) (now : Time)
    → is_revoked f ≡ true
    → (rotate f hash new_hash ttl id now).1 ≡ some revoked
unfolding rotate
refused_when_revoked f hash new_hash ttl id now h = rw (h, rotate) refl

-- A reuse leaves a revoked family, whether it was revoked before or not.
revoked_by_reuse :
    (f : Family) (hash new_hash : Str) (ttl : ℤ) (id : Str) (now : Time)
    → is_zero_time now ≡ false
    → is_empty new_hash ≡ false
    → leb_ℤ ttl (pos 0) ≡ false
    → IsSpent hash f
    → is_revoked (rotate f hash new_hash ttl id now).0 ≡ true
unfolding rotate
revoked_by_reuse f hash new_hash ttl id now n given good s = elim (Bool-cases (is_revoked f)) [
  | inl gone ↦ rw (gone, rotate) gone
  | inr live ↦ rw (reuse_revokes f hash new_hash ttl id now live given good s) (rw n refl)
]

-- When a token that was rotated successfully is presented again, after any calls, with a new hash and a
-- positive lifetime, then no token of the family is ever rotated again: after any further calls every
-- rotation, whatever is presented, is refused because the family is revoked. The instants of the
-- successful rotation, of the calls up to the second use, and of the second use are not the zero time.
pub locked_out_by_reuse :
    (f : Family) (hash new_hash : Str) (ttl : ℤ) (id : Str) (now : Time) (calls : List Call)
    (stolen_hash : Str) (stolen_ttl : ℤ) (stolen_id : Str) (stolen : Time) (further : List Call)
    (any_hash any_new : Str) (any_ttl : ℤ) (any_id : Str) (any_time : Time)
    → is_zero_time now ≡ false
    → (rotate f hash new_hash ttl id now).1 ≡ none
    → All IsTimed calls
    → is_zero_time stolen ≡ false
    → is_empty stolen_hash ≡ false
    → leb_ℤ stolen_ttl (pos 0) ≡ false
    → let g = run (rotate f hash new_hash ttl id now).0 calls in
      let reused = (rotate g hash stolen_hash stolen_ttl stolen_id stolen).0 in
      (rotate (run reused further) any_hash any_new any_ttl any_id any_time).1 ≡ some revoked
locked_out_by_reuse f hash new_hash ttl id now calls stolen_hash stolen_ttl stolen_id stolen further
      any_hash any_new any_ttl any_id any_time n ok_now timed m given good =
    let g = run (rotate f hash new_hash ttl id now).0 calls in
    let reused = (rotate g hash stolen_hash stolen_ttl stolen_id stolen).0 in
    let spent_token = first_use f hash new_hash ttl id now n ok_now in
    let gone =
      revoked_by_reuse g hash stolen_hash stolen_ttl stolen_id stolen m given good
        (run-IsSpent hash (rotate f hash new_hash ttl id now).0 calls timed spent_token) in
    refused_when_revoked (run reused further) any_hash any_new any_ttl any_id any_time
      (ap is_revoked (run_of_revoked reused further gone) ∙ gone)
