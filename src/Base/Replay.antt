-- ===== src/Base/Replay.antt =====
-- The state that a log of events leads to, by a partial step on states.
use mathlib.Core.Path.{◌≡◌, refl}
use mathlib.Core.List.{List, [], ◌∷◌, ◌++◌}
use mathlib.Core.Option.{Option, none, some}

module _ {ℓ κ} {S : Type ℓ} {E : Type κ} where
  unfoldable pub replay_from : (S → E → Option S) → Option S → List E → Option S
  replay_from follow none log = none
  replay_from follow (some s) [] = some s
  replay_from follow (some s) (e ∷ log) = replay_from follow (follow s e) log

  replay_from-none : (follow : S → E → Option S) (log : List E) → replay_from follow none log ≡ none
  unfolding replay_from
  replay_from-none follow [] = refl
  replay_from-none follow (e ∷ log) = refl

module _ {ℓ κ} {S : Type ℓ} {E : Type κ} where
  replay_from-nil : (follow : S → E → Option S) (o : Option S) → replay_from follow o [] ≡ o
  unfolding replay_from
  replay_from-nil follow none = refl
  replay_from-nil follow (some s) = refl

  -- One more event at the end of a log is one more step.
  pub replay_from-snoc :
      (follow : S → E → Option S) (o : Option S) (log : List E) (e : E) {s : S}
      → replay_from follow o log ≡ some s
      → replay_from follow o (log ++ e ∷ []) ≡ follow s e
  unfolding replay_from
  replay_from-snoc follow none log e h = cc
  replay_from-snoc follow (some t) [] e {s} h =
      let same : t ≡ s = cc in rw (replay_from-nil follow (follow t e), same) refl
  replay_from-snoc follow (some t) (d ∷ log) e h = replay_from-snoc follow (follow t d) log e h
