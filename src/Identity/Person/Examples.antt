-- ===== src/Identity/Person/Examples.antt =====
-- Runs of a person on concrete inputs, and the theorems at these inputs.
use leadkart_go.Base.{
  ◌≡◌, ◌⊎◌, refl, true, false, List, [], ◌∷◌, none, some, map, leb, length, suc, ◌*◌, arith,
}
use leadkart_go.Base.Int64.{pos}
use leadkart_go.Base.Text.{codes, str_eq}
use leadkart_go.Base.Clock.{Time, is_after}
use leadkart_go.Identity.Person.State.{Person, invalid, no_email_change, max_failed_logins}
use leadkart_go.Identity.Person.Credentials.{confirm_password_reset, redeem_reset}
use leadkart_go.Identity.Person.Lockout.{is_locked}
use leadkart_go.Identity.Person.Calls.{
  Call, changes_password, fails_login, anonymises, succeeds_login, step, run,
}
use leadkart_go.Identity.Person.Tokens.{confirmed_once}
use leadkart_go.Identity.Person.Stamp.{IsUndisturbed, step_rotates_stamp}
use leadkart_go.Identity.Person.Thresholds.{locked_by_burst}

abbrev asha : Person
asha = record {
  id = codes "p-1";
  email = codes "asha@example.in";
  first_name = codes "Asha";
  last_name = codes "Rao";
  password_hash = codes "h-1";
  security_stamp = codes "s-1";
  is_active = true;
  is_anonymised = false;
  is_globally_suspended = false;
  global_suspension_reason = [];
  globally_suspended_at = 0;
  pending_password_reset = record { hash = codes "t-1"; expires_at = 100 };
  pending_email_change = no_email_change;
  must_change_password = true;
  failed_login_count = pos 0;
  locked_until = 0;
  last_failed_login_at = 0;
  created_at = 5;
  anonymised_at = 0;
  events = [];
}

abbrev reset_asha : Person
reset_asha = (redeem_reset asha (codes "t-1") (codes "h-2") (codes "s-2") 50).0

reset :
    confirm_password_reset asha (codes "t-1") (codes "h-2") (codes "s-2") 50 ≡ (reset_asha, none)
unfolding confirm_password_reset str_eq
reset = refl

abbrev later_calls : List Call
later_calls =
    fails_login 60 ∷ succeeds_login 61 ∷ changes_password (codes "h-3") (codes "s-3") 62 ∷ []

confirmed_once_example :
    (codes "t-1" ≡ codes "t-1")
    × (is_after 100 50 ≡ true)
    × (reset_asha.password_hash ≡ codes "h-2")
    × (reset_asha.security_stamp ≡ codes "s-2")
    × (confirm_password_reset
          (run reset_asha later_calls)
          (codes "t-1")
          (codes "h-4")
          (codes "s-4")
          70
        ≡ (run reset_asha later_calls, some invalid))
unfolding str_eq
confirmed_once_example =
    confirmed_once asha reset_asha (codes "t-1") (codes "h-2") (codes "s-2") 50 later_calls
      (codes "t-1") (codes "h-4") (codes "s-4") 70 reset refl

step_rotates_stamp_example :
    IsUndisturbed asha (step asha (anonymises (codes "s-9") 8))
    ⊎ (some (codes "s-9") ≡ some (step asha (anonymises (codes "s-9") 8)).security_stamp)
step_rotates_stamp_example = step_rotates_stamp asha (anonymises (codes "s-9") 8)

-- Ten failures, a minute apart.
abbrev minute : Time
minute = 60000000000

abbrev failures : List Time
failures =
    2 * minute
    ∷ 3 * minute
    ∷ 4 * minute
    ∷ 5 * minute
    ∷ 6 * minute
    ∷ 7 * minute
    ∷ 8 * minute
    ∷ 9 * minute
    ∷ 10 * minute
    ∷ []

locked_by_burst_example :
    is_locked (run asha (map fails_login (minute ∷ failures))) (11 * minute)
    ≡ leb max_failed_logins (suc (length failures))
locked_by_burst_example =
    locked_by_burst asha minute failures (11 * minute) refl refl refl (ground arith) (omega arith)
      (omega arith)
