-- ===== src/Identity/PermissionRequest/Decision.antt =====
-- internal/identity/domain/permissionrequest/request.go: who decides a request, and that a decision is
-- final.
use leadkart_go.Base.{
  ◌≡◌, refl, sym, ap, ◌∙◌, true, false, List, [], ◌∷◌, ◌++◌, Option, ok, Result-cases, ◌⊎◌, inl,
  inr, ◌≤◌, is_empty, subst, arith,
}
use leadkart_go.Base.Int64.{ℤ, pos, ◌≤ℤ◌}
use leadkart_go.Base.Text.{Str, str_eq, byte_len}
use leadkart_go.Base.Clock.{Time}
use leadkart_go.Identity.Permission.{is_known}
use leadkart_go.Identity.PermissionRequest.{
  Request, approved, denied, is_terminal, Event, new, approve, deny, cancel, pull_events, Call,
  approves, denies, cancels, pulls_events, step, run,
}

-- A second member decides: who approved or denied is someone, and not the requester. The reason and
-- the duration are within their bounds, and the permission is in the catalogue.
pub record IsLawful (r : Request) : Type 0 where
  pub known : is_known r.permission ≡ true
  pub at_least_a_day : pos 1 ≤ℤ r.duration_days
  pub at_most_ninety : r.duration_days ≤ℤ pos 90
  pub explained : (10 ≤ byte_len r.reason) × (byte_len r.reason ≤ 1024)
  pub second_member :
      (r.state ≡ approved) ⊎ (r.state ≡ denied)
      → (is_empty r.approver_membership_id ≡ false)
        × (str_eq r.approver_membership_id r.requester_membership_id ≡ false)

new-IsLawful :
    (id tenant_id requester : Str) (permission : Option Str) (days : ℤ) (reason : Str) (now : Time)
    (r : Request)
    → new id tenant_id requester permission days reason now ≡ ok r
    → IsLawful r
unfolding new
new-IsLawful id tenant_id requester permission days reason now r h = record {
  known = ground arith;
  at_least_a_day = ground arith;
  at_most_ninety = ground arith;
  explained = ground arith;
  second_member = λ d. ground arith;
}

-- The fields that no call changes, and who has decided.
module _ (r s : Request) (w : IsLawful r) where
  same-IsLawful :
      s.permission ≡ r.permission
      → s.duration_days ≡ r.duration_days
      → s.reason ≡ r.reason
      → ((s.state ≡ approved) ⊎ (s.state ≡ denied)
          → (is_empty s.approver_membership_id ≡ false)
            × (str_eq s.approver_membership_id s.requester_membership_id ≡ false))
      → IsLawful s
  same-IsLawful p d e second = record {
    known = ap is_known p ∙ w.known;
    at_least_a_day = subst (λ x. pos 1 ≤ℤ x) (sym d) w.at_least_a_day;
    at_most_ninety = subst (λ x. x ≤ℤ pos 90) (sym d) w.at_most_ninety;
    explained = subst (λ x. (10 ≤ byte_len x) × (byte_len x ≤ 1024)) (sym e) w.explained;
    second_member = second;
  }

step-IsLawful : (r : Request) (c : Call) → IsLawful r → IsLawful (step r c).1
unfolding step pull_events approve deny cancel
step-IsLawful r (approves approver reason override expires_at now) w =
    elim (Result-cases (approve r approver reason override expires_at now)) [
      | inl (s, e) ↦
          rw (e, step)
            (same-IsLawful r s w (ground arith) (ground arith) (ground arith) (λ d. ground arith))
      | inr (_, e) ↦ rw (e, step) w
    ]
step-IsLawful r (denies approver reason now) w = elim (Result-cases (deny r approver reason now)) [
  | inl (s, e) ↦
      rw (e, step)
        (same-IsLawful r s w (ground arith) (ground arith) (ground arith) (λ d. ground arith))
  | inr (_, e) ↦ rw (e, step) w
]
step-IsLawful r (cancels now) w = elim (Result-cases (cancel r now)) [
  | inl (s, e) ↦
      rw (e, step)
        (same-IsLawful r s w (ground arith) (ground arith) (ground arith) (λ d. ground arith))
  | inr (_, e) ↦ rw (e, step) w
]
step-IsLawful r pulls_events w =
    same-IsLawful r (step r pulls_events).1 w refl refl refl w.second_member

run-IsLawful :
    (outbox : List Event) (r : Request) (calls : List Call)
    → IsLawful r
    → IsLawful (run outbox r calls).1
unfolding run
run-IsLawful outbox r [] w = w
run-IsLawful outbox r (c ∷ calls) w =
    run-IsLawful (outbox ++ (step r c).0) (step r c).1 calls (step-IsLawful r c w)

-- A request that `New` made is, after any calls, for a permission of the catalogue, for 1 to 90 days
-- and with a reason of 10 to 1024 bytes; and if it has been approved or denied, the membership that
-- decided is given and is not the one that asked.
pub run-new-IsLawful :
    (id tenant_id requester : Str) (permission : Option Str) (days : ℤ) (reason : Str) (now : Time)
    (r : Request) (calls : List Call)
    → new id tenant_id requester permission days reason now ≡ ok r
    → IsLawful (run [] r calls).1
run-new-IsLawful id tenant_id requester permission days reason now r calls h =
    run-IsLawful [] r calls (new-IsLawful id tenant_id requester permission days reason now r h)

step_of_terminal_request :
    (r : Request) (c : Call)
    → is_terminal r.state ≡ true
    → (step r c).1 ≡ record r { events = (step r c).1.events }
unfolding step approve deny cancel pull_events
step_of_terminal_request r (approves approver reason override expires_at now) h = ground arith
step_of_terminal_request r (denies approver reason now) h = ground arith
step_of_terminal_request r (cancels now) h = ground arith
step_of_terminal_request r pulls_events h = refl

-- After any calls, a request that is approved, denied or cancelled is the same but for the list of
-- pending events.
pub run_of_terminal_request :
    (outbox : List Event) (r : Request) (calls : List Call)
    → is_terminal r.state ≡ true
    → (run outbox r calls).1 ≡ record r { events = (run outbox r calls).1.events }
unfolding run
run_of_terminal_request outbox r [] h = refl
run_of_terminal_request outbox r (c ∷ calls) h =
    let same = step_of_terminal_request r c h in
    let rest =
      run_of_terminal_request (outbox ++ (step r c).0) (step r c).1 calls
        (ap (λ (q : Request). is_terminal q.state) same ∙ h) in
    rest ∙ ap (λ (q : Request). record q { events = (run outbox r (c ∷ calls)).1.events }) same
