-- ===== src/Base/Clock.antt =====
-- Go's `time.Time` and `time.Duration`: an instant is the number of nanoseconds since the zero
-- time, which is what `IsZero` tests for. `UTC()` changes the location and not the instant.
use Prim.Native.Nat.{ℕ, ◌+◌, ◌-◌}
use mathlib.Core.Bool.{Bool}
use leadkart_go.Base.Tests.{ltb, ◌==◌}
use leadkart_go.Base.Int64.{ℤ, pos_part, neg_part}

abbrev pub Time : Type 0
Time = ℕ

abbrev pub zero_time : Time
zero_time = 0

-- `t.IsZero()`.
abbrev pub is_zero_time : Time → Bool
is_zero_time t = t == 0

-- `t.After(u)`; `t.Before(u)` is `is_after u t`.
abbrev pub is_after : Time → Time → Bool
is_after t u = ltb u t

-- `t.Add(d)`, for a result that is not before the zero time.
abbrev pub add_duration : Time → ℤ → Time
add_duration t d = t + pos_part d - neg_part d
