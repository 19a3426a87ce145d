-- ===== src/Identity/RefreshToken.antt =====
-- internal/identity/domain/refreshtoken: family.go, token.go and events.go. A session as a chain of
-- refresh tokens. `Rotate` writes and then returns an error when it detects reuse, so it returns the
-- family together with the error, if any. The id that `ids.NewV7` makes is an argument.
pub mod Outcomes
pub mod Chain
pub mod Reuse
use leadkart_go.Base.{
  ℕ, suc, ◌-◌, ◌≡◌, Bool, true, false, not, ◌&&◌, List, [], ◌∷◌, ◌++◌, Option, none, some, Result,
  ok, err, ◌>>=◌, ◌>>◌, fail_if, after, is_empty, ltb, if◌then◌else◌, ◌==◌,
}
use leadkart_go.Base.Int64.{ℤ, pos, negsuc, leb_ℤ}
use leadkart_go.Base.Text.{Str, codes, str_eq, trim_space, byte_len, is_blank}
use leadkart_go.Base.Clock.{Time, zero_time, is_zero_time, is_after, add_duration}

-- The sentinels of the package.
pub data Err : Type 0 where
  invalid unknown_token reuse_detected revoked expired : Err

abbrev pub hash_min_len : ℕ
hash_min_len = 40

abbrev pub hash_max_len : ℕ
hash_max_len = 256

-- `NewTokenHash`; a hash is its text.
unfoldable pub new_token_hash : Str → Result Err Str
new_token_hash raw = do
  fail_if (is_empty raw) invalid
  fail_if (ltb (byte_len raw) hash_min_len) invalid
  fail_if (ltb hash_max_len (byte_len raw)) invalid
  ok raw

pub record Token : Type 0 where
  pub id : Str
  pub hash : Str
  pub generation : ℤ
  pub issued_at : Time
  pub expires_at : Time
  pub consumed_at : Time
  pub replaced_by_id : Str

-- `IsConsumed` and `IsExpired`.
abbrev pub is_consumed : Token → Bool
is_consumed t = not (is_zero_time t.consumed_at)

abbrev pub is_expired : Token → Time → Bool
is_expired t now = not (is_zero_time t.expires_at) && is_after now t.expires_at

pub record FamilyCreatedEvent : Type 0 where
  pub family_id : Str
  pub person_id : Str
  pub tenant_id : Str
  pub device_label : Str
  pub at : Time

pub record RotatedEvent : Type 0 where
  pub family_id : Str
  pub person_id : Str
  pub tenant_id : Str
  pub consumed_token_id : Str
  pub new_token_id : Str
  pub new_token_generation : ℤ
  pub at : Time

pub record RevokedEvent : Type 0 where
  pub family_id : Str
  pub person_id : Str
  pub tenant_id : Str
  pub reason : Str
  pub at : Time

pub data Event : Type 0 where
  family_created : FamilyCreatedEvent → Event
  rotated_event : RotatedEvent → Event
  revoked_event : RevokedEvent → Event

pub record Family : Type 0 where
  pub id : Str
  pub person_id : Str
  pub tenant_id : Str
  pub device_label : Str
  pub created_at : Time
  pub last_used_at : Time
  pub revoked_at : Time
  pub revoke_reason : Str
  pub tokens : List Token
  pub events : List Event

-- `IsRevoked`.
abbrev pub is_revoked : Family → Bool
is_revoked f = not (is_zero_time f.revoked_at)

-- `generation + 1` on Go's int32.
abbrev pub next_generation : ℤ → ℤ
next_generation (pos n) = if n == 2147483647 then negsuc 2147483647 else pos (suc n)
next_generation (negsuc n) = if n == 0 then pos 0 else negsuc (n - 1)

abbrev pub fresh_token : Str → Str → ℤ → ℤ → Time → Token
fresh_token id hash generation ttl now = record {
  id = id;
  hash = hash;
  generation = generation;
  issued_at = now;
  expires_at = add_duration now ttl;
  consumed_at = zero_time;
  replaced_by_id = [];
}

-- `NewFamily`; `token_id` is the id of the first token.
unfoldable pub new_family : Str → Str → Str → Str → Str → ℤ → Str → Time → Result Err Family
new_family id person_id tenant_id device_label first_hash ttl token_id now = do
  fail_if (is_empty id) invalid
  fail_if (is_empty person_id) invalid
  fail_if (is_empty tenant_id) invalid
  fail_if (is_blank device_label) invalid
  fail_if (is_empty first_hash) invalid
  fail_if (leb_ℤ ttl (pos 0)) invalid
  ok (record {
    id = id;
    person_id = person_id;
    tenant_id = tenant_id;
    device_label = trim_space device_label;
    created_at = now;
    last_used_at = now;
    revoked_at = zero_time;
    revoke_reason = [];
    tokens = fresh_token token_id first_hash (pos 0) ttl now ∷ [];
    events =
        family_created (record {
          family_id = id;
          person_id = person_id;
          tenant_id = tenant_id;
          device_label = trim_space device_label;
          at = now;
        })
        ∷ [];
  })

-- The last token that is not consumed, or the one given: the loop of `CurrentToken`, from the front.
abbrev pub last_unconsumed : Option Token → List Token → Option Token
last_unconsumed found [] = found
last_unconsumed found (t ∷ ts) = last_unconsumed (if is_consumed t then found else some t) ts

-- `CurrentToken`.
unfoldable pub current_token : Family → Option Token
current_token f = last_unconsumed none f.tokens

-- `findToken`: the first token with the hash.
abbrev pub find_token : Str → List Token → Option Token
find_token hash [] = none
find_token hash (t ∷ ts) = if str_eq t.hash hash then some t else find_token hash ts

-- The writes to the token that `findToken` found.
abbrev pub consume : Str → Str → Time → List Token → List Token
consume hash next_id now [] = []
consume hash next_id now (t ∷ ts) =
    if str_eq t.hash hash
    then record t { consumed_at = now; replaced_by_id = next_id } ∷ ts
    else t ∷ consume hash next_id now ts

abbrev pub revoked_for : Family → Str → Time → Family
revoked_for f reason now = record f {
  revoked_at = now;
  revoke_reason = reason;
  events =
      f.events
      ++ revoked_event (record {
        family_id = f.id;
        person_id = f.person_id;
        tenant_id = f.tenant_id;
        reason = reason;
        at = now;
      })
        ∷ [];
}

-- The writes of a rotation that succeeds.
abbrev pub rotated : Family → Token → Str → Str → ℤ → Str → Time → Family
rotated f t presented_hash new_hash ttl next_id now = record f {
  tokens =
      consume presented_hash next_id now f.tokens
      ++ fresh_token next_id new_hash (next_generation t.generation) ttl now ∷ [];
  last_used_at = now;
  events =
      f.events
      ++ rotated_event (record {
        family_id = f.id;
        person_id = f.person_id;
        tenant_id = f.tenant_id;
        consumed_token_id = t.id;
        new_token_id = next_id;
        new_token_generation = next_generation t.generation;
        at = now;
      })
        ∷ [];
}

-- `Rotate`, once the presented token has been looked up.
abbrev pub rotate_found : Family → Option Token → Str → Str → ℤ → Str → Time → Family × Option Err
rotate_found f none presented_hash new_hash ttl next_id now = (f, some unknown_token)
rotate_found f (some t) presented_hash new_hash ttl next_id now =
    if is_consumed t
    then (revoked_for f (codes "reuse_detected") now, some reuse_detected)
    else if is_expired t now
    then (f, some expired)
    else (rotated f t presented_hash new_hash ttl next_id now, none)

-- `Rotate`.
unfoldable pub rotate : Family → Str → Str → ℤ → Str → Time → Family × Option Err
rotate f presented_hash new_hash ttl next_id now =
    if is_revoked f
    then (f, some revoked)
    else if is_empty new_hash
    then (f, some invalid)
    else if leb_ℤ ttl (pos 0)
    then (f, some invalid)
    else rotate_found f (find_token presented_hash f.tokens) presented_hash new_hash ttl next_id now

-- `Revoke`.
unfoldable pub revoke : Family → Str → Time → Result Err Family
revoke f reason now = do
  fail_if (is_blank reason) invalid
  ok (if is_revoked f then f else revoked_for f reason now)

-- `PullEvents`.
unfoldable pub pull_events : Family → List Event × Family
pull_events f = (f.events, record f { events = [] })

-- The calls: a rotation with the presented hash, the new one, the lifetime, the id of the new token
-- and the instant; a revocation; and a hand-over of the events.
pub data Call : Type 0 where
  rotates : Str → Str → ℤ → Str → Time → Call
  revokes : Str → Time → Call
  pulls_events : Call

unfoldable pub step : Family → Call → Family
unfolding rotate revoke pull_events
step f (rotates presented_hash new_hash ttl next_id now) =
    (rotate f presented_hash new_hash ttl next_id now).0
step f (revokes reason now) = after f (revoke f reason now)
step f pulls_events = (pull_events f).1

unfoldable pub run : Family → List Call → Family
run f [] = f
run f (c ∷ calls) = run (step f c) calls
