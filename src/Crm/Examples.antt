-- ===== src/Crm/Examples.antt =====
-- Runs of the crm models on concrete inputs, and the theorems at these inputs.
use leadkart_go.Base.{◌≡◌, refl, Bool, true, false, not, List, [], ◌∷◌, ◌++◌, some, ok, is_empty}
use leadkart_go.Base.Text.{Str, codes, str_eq, trim_space, byte_len, is_blank}
use leadkart_go.Crm.Lead.Stages.{new_stage, contacted, negotiation, converted, lost, cold}
use leadkart_go.Crm.Lead.Taxonomy.{pcd, unset_medicine_system, upto_25000, unset_buy_timeline}
use leadkart_go.Crm.Lead.Profiles.{Profile, PurchaseSnapshot, validate_profile, profile_of_snapshot}
use leadkart_go.Crm.Lead.{
  Lead, created, new, new_from_purchase_snapshot, Call, assigns, changes_stage, changes_temperature,
  converts, loses, pulls_events, step, run,
}
use leadkart_go.Crm.Lead.Pipeline.{position, replay}
use leadkart_go.Crm.Lead.Refinement.{replay_of_run}
use leadkart_go.Crm.Lead.Stamps.{IsStamped, run-new-IsStamped}
use leadkart_go.Crm.Lead.Progress.{worked, stages_ahead, worked_to_conversion}

-- A stand-in for the parser of ids.
abbrev is_id : Str → Bool
is_id s = not (is_empty s)

abbrev snapshot : PurchaseSnapshot
snapshot = record {
  purchase_id = codes "p1";
  platform_lead_id = codes "l1";
  purchased_by_membership_id = codes "m1";
  contact_name = codes "Asha";
  mobile_e164 = codes "+919876543210";
  email = [];
  pin_code = codes "560001";
  city = codes "Bengaluru";
  district = [];
  state = [];
  street = [];
  has_drug_licence = true;
  has_gst = false;
  gst_number = [];
  has_pan = false;
  pan_number = [];
  business_type = codes "PCD";
  medicine_system = [];
  product_ranges = [];
  dosage_forms = [];
  order_value = codes "Upto25000";
  buy_timeline = [];
}

abbrev profile : Profile
profile = record {
  contact_name = codes "Asha";
  phone_e164 = codes "+919876543210";
  city = codes "Bengaluru";
  district = [];
  state = [];
  pincode = codes "560001";
  business_type = pcd;
  medicine_system = unset_medicine_system;
  order_value = upto_25000;
  buy_timeline = unset_buy_timeline;
  has_drug_licence = true;
  has_gst = false;
  gst_verified = false;
  product_ranges = [];
  dosage_forms = [];
  extra = record {
    street = [];
    gst_number = [];
    pan_number = [];
    has_pan = false;
    email = [];
    notes = [];
  };
}

abbrev purchased_lead : Lead
purchased_lead = created (codes "c1") (codes "t1") profile (codes "p1") (codes "l1") (codes "m1") 5

abbrev entered_lead : Lead
entered_lead = created (codes "c1") (codes "t1") profile [] [] (codes "m1") 5

purchased :
    new_from_purchase_snapshot is_id (codes "c1") (codes "t1") snapshot 5 ≡ ok purchased_lead
unfolding new_from_purchase_snapshot profile_of_snapshot validate_profile trim_space byte_len str_eq
purchased = refl

entered : new is_id (codes "c1") (codes "t1") profile (codes "m1") 5 ≡ ok entered_lead
unfolding new validate_profile trim_space byte_len
entered = refl

-- An assignment, two stages, a skipped stage that is refused, a loss, and a late conversion.
abbrev calls : List Call
calls =
    assigns (codes "m2") (codes "m1") [] 6
    ∷ changes_stage contacted (codes "m2") [] 7
    ∷ changes_stage negotiation (codes "m2") [] 8
    ∷ pulls_events
    ∷ changes_temperature cold (codes "m2") 9
    ∷ loses (codes "m2") (codes "no budget") 10
    ∷ converts (codes "m2") 11
    ∷ []

replay_of_run_example :
    let (outbox, m) = run is_id [] purchased_lead calls in
    replay (outbox ++ m.events) ≡ some (position m)
replay_of_run_example =
    replay_of_run is_id (codes "c1") (codes "t1") snapshot 5 purchased_lead calls purchased

run-new-IsStamped_example : IsStamped (run is_id [] entered_lead calls).1
run-new-IsStamped_example =
    run-new-IsStamped is_id (codes "c1") (codes "t1") profile (codes "m1") 5 entered_lead calls
      entered

-- The calls end at a loss.
run_is_lost : (run is_id [] entered_lead calls).1.stage ≡ lost
unfolding run step trim_space is_blank byte_len str_eq
run_is_lost = refl

worked_to_conversion_example :
    let path = worked (codes "m2") 7 (stages_ahead new_stage) in
    ((run is_id [] entered_lead path).1.stage ≡ negotiation)
    × ((run is_id [] entered_lead (path ++ converts (codes "m2") 7 ∷ [])).1.stage ≡ converted)
unfolding trim_space
worked_to_conversion_example =
    worked_to_conversion is_id entered_lead (codes "m2") 7 refl refl refl refl refl
