-- ===== src/Identity/Examples.antt =====
-- Runs of the identity module at concrete inputs, and the theorems at these inputs.
use leadkart_go.Base.{true, ◌≡◌, refl, List, [], ◌∷◌, none, some, ok, err}
use leadkart_go.Base.Int64.{pos}
use leadkart_go.Base.Text.{codes, str_eq, trim_space, byte_len, is_blank}
use leadkart_go.Identity.Permission.{is_known, create, try_from_constant}
use leadkart_go.Identity.Permission.Catalogue.{try_from_constant-create}
use leadkart_go.Identity.PermissionRequest as R
use leadkart_go.Identity.PermissionRequest.History.{IsTold, run-new-IsTold}
use leadkart_go.Identity.PermissionRequest.Decision.{IsLawful, run-new-IsLawful}
use leadkart_go.Identity.RefreshToken.{
  Family, Err, Call, rotates, pulls_events, new_family, fresh_token, family_created, rotate,
  pull_events, revoked, step, run, new_token_hash, invalid,
}
use leadkart_go.Identity.RefreshToken.Chain.{IsWellFormed, run-new_family-IsWellFormed}
use leadkart_go.Identity.RefreshToken.Reuse.{rotates_once, locked_out_by_reuse, run_of_revoked}

abbrev family : Family
family = record {
  id = codes "f-1";
  person_id = codes "p-1";
  tenant_id = codes "t-1";
  device_label = codes "phone";
  created_at = 10;
  last_used_at = 10;
  revoked_at = 0;
  revoke_reason = [];
  tokens = fresh_token (codes "k-0") (codes "h0") (pos 0) (pos 100) 10 ∷ [];
  events =
      family_created (record {
        family_id = codes "f-1";
        person_id = codes "p-1";
        tenant_id = codes "t-1";
        device_label = codes "phone";
        at = 10;
      })
      ∷ [];
}

new_family-family :
    new_family
      (codes "f-1")
      (codes "p-1")
      (codes "t-1")
      (codes " phone ")
      (codes "h0")
      (pos 100)
      (codes "k-0")
      10
    ≡ ok family
unfolding new_family is_blank trim_space
new_family-family = refl

short_hash : new_token_hash (codes "h0") ≡ err invalid
unfolding new_token_hash byte_len
short_hash = refl

-- Two rotations, and then the first token again, which is detected.
abbrev calls : List Call
calls =
    rotates (codes "h0") (codes "h1") (pos 100) (codes "k-1") 20
    ∷ pulls_events
    ∷ rotates (codes "h1") (codes "h2") (pos 100) (codes "k-2") 30
    ∷ rotates (codes "h0") (codes "h3") (pos 100) (codes "k-3") 40
    ∷ []

revoked_after : (run family calls).revoke_reason ≡ codes "reuse_detected"
unfolding run step rotate pull_events str_eq
revoked_after = refl

run-new_family-IsWellFormed_example : IsWellFormed (run family calls)
run-new_family-IsWellFormed_example =
    run-new_family-IsWellFormed (codes "f-1") (codes "p-1") (codes "t-1") (codes " phone ")
      (codes "h0") (pos 100) (codes "k-0") 10 family calls new_family-family
      (refl, (tt, (refl, (refl, tt))))

first_rotation : (rotate family (codes "h0") (codes "h1") (pos 100) (codes "k-1") 20).1 ≡ none
unfolding rotate str_eq
first_rotation = refl

rotates_once_example :
    (e : Err) × ((rotate
        (run
          (rotate family (codes "h0") (codes "h1") (pos 100) (codes "k-1") 20).0
          (rotates (codes "h1") (codes "h2") (pos 100) (codes "k-2") 30 ∷ []))
        (codes "h0")
        (codes "h9")
        (pos 100)
        (codes "k-9")
        50).1
      ≡ some e)
rotates_once_example =
    rotates_once family (codes "h0") (codes "h1") (pos 100) (codes "k-1") 20
      (rotates (codes "h1") (codes "h2") (pos 100) (codes "k-2") 30 ∷ []) (codes "h9") (pos 100)
      (codes "k-9") 50 refl first_rotation (refl, tt)

-- The first token is presented a second time after the second one was rotated; the current token is
-- then refused as well.
locked_out_by_reuse_example :
    let g =
      run
        (rotate family (codes "h0") (codes "h1") (pos 100) (codes "k-1") 20).0
        (rotates (codes "h1") (codes "h2") (pos 100) (codes "k-2") 30 ∷ []) in
    let reused = (rotate g (codes "h0") (codes "h9") (pos 100) (codes "k-9") 40).0 in
    (rotate (run reused (pulls_events ∷ [])) (codes "h2") (codes "h3") (pos 100) (codes "k-3") 50).1
    ≡ some revoked
locked_out_by_reuse_example =
    locked_out_by_reuse family (codes "h0") (codes "h1") (pos 100) (codes "k-1") 20
      (rotates (codes "h1") (codes "h2") (pos 100) (codes "k-2") 30 ∷ []) (codes "h9") (pos 100)
      (codes "k-9") 40 (pulls_events ∷ []) (codes "h2") (codes "h3") (pos 100) (codes "k-3") 50 refl
      first_rotation (refl, tt) refl refl refl

run_of_revoked_example :
    run (record family { revoked_at = 15; revoke_reason = codes "logout" }) calls
    ≡ record (record family { revoked_at = 15; revoke_reason = codes "logout" }) {
      events =
          (run (record family { revoked_at = 15; revoke_reason = codes "logout" }) calls).events;
    }
run_of_revoked_example =
    run_of_revoked (record family { revoked_at = 15; revoke_reason = codes "logout" }) calls refl

looked_up : try_from_constant (codes " crm.leads.read ") ≡ ok (codes "crm.leads.read")
unfolding try_from_constant is_known trim_space is_blank str_eq
looked_up = refl

try_from_constant-create_example :
    (is_known (codes "crm.leads.read") ≡ true)
    × (trim_space (codes "crm.leads.read") ≡ codes "crm.leads.read")
    × (create (codes " crm.leads.read ") ≡ ok (codes "crm.leads.read"))
try_from_constant-create_example =
    try_from_constant-create (codes " crm.leads.read ") (codes "crm.leads.read") looked_up

abbrev elevation : R.Request
elevation = record {
  id = codes "r-1";
  tenant_id = codes "t-1";
  requester_membership_id = codes "m-1";
  permission = codes "crm.leads.read";
  duration_days = pos 7;
  reason = codes "cover for a colleague";
  state = R.pending;
  approver_membership_id = [];
  decided_at = 0;
  decision_reason = [];
  granted_override_id = R.nil_uuid;
  expires_at = 0;
  created_at = 10;
  updated_at = 10;
  events =
      R.requested_event (record {
        request_id = codes "r-1";
        tenant_id = codes "t-1";
        requester_membership_id = codes "m-1";
        permission = codes "crm.leads.read";
        duration_days = pos 7;
        reason = codes "cover for a colleague";
        at = 10;
      })
      ∷ [];
}

new-elevation :
    R.new
      (codes "r-1")
      (codes "t-1")
      (codes "m-1")
      (some (codes "crm.leads.read"))
      (pos 7)
      (codes " cover for a colleague ")
      10
    ≡ ok elevation
unfolding R.new is_known trim_space byte_len str_eq
new-elevation = refl

-- The requester's own approval is refused, and so is the cancellation after the approval.
abbrev decisions : List R.Call
decisions =
    R.approves (codes "m-1") [] R.nil_uuid 90 20
    ∷ R.approves (codes "m-2") (codes "fine") R.nil_uuid 90 21
    ∷ R.cancels 22
    ∷ R.pulls_events
    ∷ []

approved_after : (R.run [] elevation decisions).1.state ≡ R.approved
unfolding R.run R.step R.approve R.cancel R.pull_events trim_space byte_len str_eq
approved_after = refl

run-new-IsTold_example : IsTold (R.run [] elevation decisions).0 (R.run [] elevation decisions).1
run-new-IsTold_example =
    run-new-IsTold (codes "r-1") (codes "t-1") (codes "m-1") (some (codes "crm.leads.read")) (pos 7)
      (codes " cover for a colleague ") 10 elevation decisions new-elevation

run-new-IsLawful_example : IsLawful (R.run [] elevation decisions).1
run-new-IsLawful_example =
    run-new-IsLawful (codes "r-1") (codes "t-1") (codes "m-1") (some (codes "crm.leads.read"))
      (pos 7) (codes " cover for a colleague ") 10 elevation decisions new-elevation
