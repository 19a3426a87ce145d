-- ===== src/Identity/Person/Thresholds.antt =====
-- The lockout after failed logins: the thresholds of internal/identity/domain/person/person.go.
use leadkart_go.Base.{
  ℕ, suc, ◌+◌, ◌≤◌, ◌<◌, ◌≡◌, ap, ◌∙◌, true, List, [], ◌∷◌, map, length, leb, ltb, arith,
  Bool-cases, inl, inr,
}
use leadkart_go.Base.Int64.{pos, add64}
use leadkart_go.Base.Clock.{Time, zero_time}
use leadkart_go.Identity.Person.State.{Person, max_failed_logins, lockout_window, lockout_duration}
use leadkart_go.Identity.Person.Lockout.{is_locked, register_failed_login}
use leadkart_go.Identity.Person.Calls.{fails_login, step, run}

-- `k` failures are counted, the last at `t`, and there is no lockout.
record IsCounting (p : Person) (k : ℕ) (t : Time) : Type 0 where
  count : p.failed_login_count ≡ pos k
  last : p.last_failed_login_at ≡ t
  unlocked : p.locked_until ≡ zero_time

-- Every time is within the window that begins at the one before it.
abbrev pub IsBurst : Time → List Time → Type 0
IsBurst t [] = Unit
IsBurst t (u ∷ us) = (u ≤ t + lockout_window) × IsBurst u us

abbrev pub last_of : Time → List Time → Time
last_of t [] = t
last_of t (u ∷ us) = last_of u us

one_more-IsCounting :
    (p : Person) (k : ℕ) (t u : Time)
    → IsCounting p k t
    → u ≤ t + lockout_window
    → suc k < max_failed_logins
    → IsCounting (register_failed_login p u) (suc k) u
unfolding register_failed_login add64
one_more-IsCounting p k t u w h b = ground arith

the_last_locks :
    (p : Person) (k : ℕ) (t u now : Time)
    → IsCounting p k t
    → u ≤ t + lockout_window
    → suc k ≡ max_failed_logins
    → now < u + lockout_duration
    → is_locked (register_failed_login p u) now ≡ true
unfolding register_failed_login add64
the_last_locks p k t u now w h b before = ground arith

run_of_burst :
    (p : Person) (k : ℕ) (t : Time) (us : List Time) (now : Time)
    → IsCounting p k t
    → IsBurst t us
    → k < max_failed_logins
    → k + length us ≤ max_failed_logins
    → now < last_of t us + lockout_duration
    → is_locked (run p (map fails_login us)) now ≡ leb max_failed_logins (k + length us)
unfolding run step
run_of_burst p k t [] now w burst few short before = ground arith
run_of_burst p k t (u ∷ []) now w (first, rest) few short before =
    elim (Bool-cases (ltb (suc k) max_failed_logins)) [
      | inl more ↦ let next = one_more-IsCounting p k t u w first (ground arith) in ground arith
      | inr full ↦ the_last_locks p k t u now w first (ground arith) before ∙ ground arith
    ]
run_of_burst p k t (u ∷ v ∷ us) now w (first, rest) few short before =
    run_of_burst (register_failed_login p u) (suc k) u (v ∷ us) now
      (one_more-IsCounting p k t u w first (omega arith)) rest (omega arith) (omega arith) before
    ∙ ap (leb max_failed_logins) (omega arith)

first_failure-IsCounting :
    (p : Person) (t : Time)
    → p.failed_login_count ≡ pos 0
    → p.last_failed_login_at ≡ zero_time
    → p.locked_until ≡ zero_time
    → IsCounting (register_failed_login p t) 1 t
unfolding register_failed_login add64
first_failure-IsCounting p t c l u = ground arith

-- The threshold is exact: on a person without failures and without a lockout, after one to ten failed
-- logins, each at most fifteen minutes after the one before it, the person is locked out at any time
-- before fifteen minutes after the last one exactly when they are ten.
pub locked_by_burst :
    (p : Person) (first : Time) (us : List Time) (now : Time)
    → p.failed_login_count ≡ pos 0
    → p.last_failed_login_at ≡ zero_time
    → p.locked_until ≡ zero_time
    → IsBurst first us
    → suc (length us) ≤ max_failed_logins
    → now < last_of first us + lockout_duration
    → is_locked (run p (map fails_login (first ∷ us))) now ≡ leb max_failed_logins (suc (length us))
unfolding run step
locked_by_burst p first us now c l u burst short before =
    run_of_burst (register_failed_login p first) 1 first us now
      (first_failure-IsCounting p first c l u) burst (omega arith) (omega arith) before
    ∙ ap (leb max_failed_logins) (omega arith)
