-- ===== src/Identity/PermissionRequest/History.antt =====
-- internal/identity/domain/permissionrequest/request.go: the events of a request, and its decision.
use leadkart_go.Base.{
  ◌≡◌, refl, sym, ap, ◌∙◌, List, [], ◌∷◌, ◌++◌, Option, Result, ok, err, after, arith,
}
use mathlib.Core.List.{append-nil, append_assoc}
use leadkart_go.Base.Int64.{ℤ}
use leadkart_go.Base.Text.{Str, trim_space}
use leadkart_go.Base.Clock.{Time}
use leadkart_go.Identity.PermissionRequest.{
  Request, State, pending, approved, denied, cancelled, Event, requested_event, approved_event,
  denied_event, cancelled_event, new, approve, deny, cancel, pull_events, Call, approves, denies,
  cancels, pulls_events, step, run,
}

-- The events that the fields of a request call for: the request, and its decision if it has one.
abbrev pub requested_of : Request → Event
requested_of r = requested_event (record {
  request_id = r.id;
  tenant_id = r.tenant_id;
  requester_membership_id = r.requester_membership_id;
  permission = r.permission;
  duration_days = r.duration_days;
  reason = r.reason;
  at = r.created_at;
})

abbrev pub decision_of : State → Request → List Event
decision_of pending r = []
decision_of approved r =
    approved_event (record {
      request_id = r.id;
      tenant_id = r.tenant_id;
      approver_membership_id = r.approver_membership_id;
      expires_at = r.expires_at;
      at = r.decided_at;
    })
    ∷ []
decision_of denied r =
    denied_event (record {
      request_id = r.id;
      tenant_id = r.tenant_id;
      approver_membership_id = r.approver_membership_id;
      reason = r.decision_reason;
      at = r.decided_at;
    })
    ∷ []
decision_of cancelled r =
    cancelled_event (record { request_id = r.id; tenant_id = r.tenant_id; at = r.decided_at }) ∷ []

abbrev pub IsTold : List Event → Request → Type 0
IsTold outbox r = outbox ++ r.events ≡ requested_of r ∷ decision_of r.state r

-- What a call that decides has found and done.
data Decides (r : Request) (s : Request) : Type 0 where
  decides :
      (d : Event)
      → r.state ≡ pending
      → s.events ≡ r.events ++ d ∷ []
      → decision_of s.state s ≡ d ∷ []
      → requested_of s ≡ requested_of r
      → Decides r s

approve-Decides :
    (r s : Request) (approver reason override : Str) (expires_at now : Time)
    → approve r approver reason override expires_at now ≡ ok s
    → Decides r s
unfolding approve
approve-Decides r s approver reason override expires_at now h =
    decides
      (approved_event (record {
        request_id = r.id;
        tenant_id = r.tenant_id;
        approver_membership_id = approver;
        expires_at = expires_at;
        at = now;
      }))
      (ground arith) (ground arith) (ground arith) (ground arith)

deny-Decides :
    (r s : Request) (approver reason : Str) (now : Time)
    → deny r approver reason now ≡ ok s
    → Decides r s
unfolding deny
deny-Decides r s approver reason now h =
    decides
      (denied_event (record {
        request_id = r.id;
        tenant_id = r.tenant_id;
        approver_membership_id = approver;
        reason = trim_space reason;
        at = now;
      }))
      (ground arith) (ground arith) (ground arith) (ground arith)

cancel-Decides : (r s : Request) (now : Time) → cancel r now ≡ ok s → Decides r s
unfolding cancel
cancel-Decides r s now h =
    decides (cancelled_event (record { request_id = r.id; tenant_id = r.tenant_id; at = now }))
      (ground arith) (ground arith) (ground arith) (ground arith)

decided-IsTold :
    (outbox : List Event) (r s : Request) → Decides r s → IsTold outbox r → IsTold outbox s
decided-IsTold outbox r s (decides d undecided events decision request) told =
    ap (λ es. outbox ++ es) events
    ∙ sym (append_assoc outbox r.events (d ∷ []))
    ∙ ap (λ es. es ++ d ∷ []) (told ∙ ap (λ st. requested_of r ∷ decision_of st r) undecided)
    ∙ sym (ap (λ e. e ∷ d ∷ []) request)
    ∙ ap (λ es. requested_of s ∷ es) (sym decision)

-- A call that may fail, whose success decides.
attempted :
    (outbox : List Event) (r : Request) {E : Type 0} (result : Result E Request)
    → ((s : Request) → result ≡ ok s → Decides r s)
    → IsTold outbox r
    → IsTold (outbox ++ []) (after r result)
attempted outbox r (ok s) f told =
    rw (append-nil outbox) (decided-IsTold outbox r s (f s refl) told)
attempted outbox r (err e) f told = rw (append-nil outbox) told

decision_of_pulled :
    (st : State) (r : Request) → decision_of st (record r { events = [] }) ≡ decision_of st r
decision_of_pulled pending r = refl
decision_of_pulled approved r = refl
decision_of_pulled denied r = refl
decision_of_pulled cancelled r = refl

step-IsTold :
    (outbox : List Event) (r : Request) (c : Call)
    → IsTold outbox r
    → IsTold (outbox ++ (step r c).0) (step r c).1
unfolding step pull_events
step-IsTold outbox r (approves approver reason override expires_at now) told =
    attempted outbox r (approve r approver reason override expires_at now)
      (λ s. approve-Decides r s approver reason override expires_at now) told
step-IsTold outbox r (denies approver reason now) told =
    attempted outbox r (deny r approver reason now) (λ s. deny-Decides r s approver reason now) told
step-IsTold outbox r (cancels now) told =
    attempted outbox r (cancel r now) (λ s. cancel-Decides r s now) told
step-IsTold outbox r pulls_events told =
    append-nil (outbox ++ r.events)
    ∙ told
    ∙ ap (λ es. requested_of r ∷ es) (sym (decision_of_pulled r.state r))

run-IsTold :
    (outbox : List Event) (r : Request) (calls : List Call)
    → IsTold outbox r
    → IsTold (run outbox r calls).0 (run outbox r calls).1
unfolding run
run-IsTold outbox r [] told = told
run-IsTold outbox r (c ∷ calls) told =
    run-IsTold (outbox ++ (step r c).0) (step r c).1 calls (step-IsTold outbox r c told)

new-IsTold :
    (id tenant_id requester : Str) (permission : Option Str) (days : ℤ) (reason : Str) (now : Time)
    (r : Request)
    → new id tenant_id requester permission days reason now ≡ ok r
    → IsTold [] r
unfolding new
new-IsTold id tenant_id requester permission days reason now r h = ground arith

-- After any calls on a new request, the events that were handed out and the pending ones are together
-- the event of the request and, if it has been decided, the one event of its decision, with the
-- fields that the request now has: it is decided at most once.
pub run-new-IsTold :
    (id tenant_id requester : Str) (permission : Option Str) (days : ℤ) (reason : Str) (now : Time)
    (r : Request) (calls : List Call)
    → new id tenant_id requester permission days reason now ≡ ok r
    → IsTold (run [] r calls).0 (run [] r calls).1
run-new-IsTold id tenant_id requester permission days reason now r calls h =
    run-IsTold [] r calls (new-IsTold id tenant_id requester permission days reason now r h)
