-- ===== src/Inventory/StockMovement.antt =====
-- internal/inventory/domain/stockmovement/stockmovement.go and events.go: a row of the stock ledger.
use leadkart_go.Base.{
  ℕ, Bool, not, List, [], ◌∷◌, Option, none, some, Result, ok, err, ◌>>=◌, ◌>>◌, fail_if, is_empty,
  ltb, if◌then◌else◌,
}
use leadkart_go.Base.Int64.{ℤ, pos, ltb_ℤ, leb_ℤ, eqb_ℤ}
use leadkart_go.Base.Text.{Str, trim_space, byte_len}
use leadkart_go.Base.Clock.{Time}
use leadkart_go.Base.Uuid.{validate_uuid}
use leadkart_go.Inventory.Batch.{
  MovementType, inbound, outbound, adjustment, reservation, release, unknown, is_valid,
}

-- `ErrInvalid`.
pub data Err : Type 0 where
  invalid : Err

abbrev pub reason_max_length : ℕ
reason_max_length = 500

abbrev pub source_reference_max : ℕ
source_reference_max = 200

pub record Spec : Type 0 where
  pub batch_id : Str
  pub product_id : Str
  pub tenant_id : Str
  pub movement_type : MovementType
  pub quantity : ℤ
  pub quantity_on_hand_after : ℤ
  pub reason : Str
  pub actor_membership_id : Str
  pub source_reference : Option Str

pub record LoggedEvent : Type 0 where
  pub movement_id : Str
  pub batch_id : Str
  pub product_id : Str
  pub tenant_id : Str
  pub movement_type : MovementType
  pub quantity : ℤ
  pub quantity_on_hand_after : ℤ
  pub actor_membership_id : Str
  pub source_reference : Option Str
  pub at : Time

pub record Movement : Type 0 where
  pub id : Str
  pub batch_id : Str
  pub product_id : Str
  pub tenant_id : Str
  pub movement_type : MovementType
  pub quantity : ℤ
  pub quantity_on_hand_after : ℤ
  pub reason : Str
  pub actor_membership_id : Str
  pub source_reference : Option Str
  pub occurred_at : Time
  pub events : List LoggedEvent

-- `validateQuantityForType`: the signed convention of the ledger.
unfoldable pub validate_quantity_for_type : MovementType → ℤ → Result Err (Unit {0})
validate_quantity_for_type inbound q = fail_if (leb_ℤ q (pos 0)) invalid
validate_quantity_for_type outbound q = fail_if (leb_ℤ (pos 0) q) invalid
validate_quantity_for_type adjustment q = fail_if (eqb_ℤ q (pos 0)) invalid
validate_quantity_for_type reservation q = fail_if (leb_ℤ q (pos 0)) invalid
validate_quantity_for_type release q = fail_if (leb_ℤ q (pos 0)) invalid
validate_quantity_for_type (unknown raw) q = err invalid

-- The source reference trimmed; an empty one is dropped.
unfoldable pub trimmed_reference : Option Str → Result Err (Option Str)
trimmed_reference none = ok none
trimmed_reference (some raw) = do
  fail_if (ltb source_reference_max (byte_len (trim_space raw))) invalid
  ok (if is_empty (trim_space raw) then none else some (trim_space raw))

-- The row that `New` builds once its input has passed.
abbrev pub logged : Str → Spec → Option Str → Time → Movement
logged id spec reference now = record {
  id = id;
  batch_id = spec.batch_id;
  product_id = spec.product_id;
  tenant_id = spec.tenant_id;
  movement_type = spec.movement_type;
  quantity = spec.quantity;
  quantity_on_hand_after = spec.quantity_on_hand_after;
  reason = trim_space spec.reason;
  actor_membership_id = spec.actor_membership_id;
  source_reference = reference;
  occurred_at = now;
  events =
      (record {
        movement_id = id;
        batch_id = spec.batch_id;
        product_id = spec.product_id;
        tenant_id = spec.tenant_id;
        movement_type = spec.movement_type;
        quantity = spec.quantity;
        quantity_on_hand_after = spec.quantity_on_hand_after;
        actor_membership_id = spec.actor_membership_id;
        source_reference = reference;
        at = now;
      })
      ∷ [];
}

-- `New`. The minimum of a reason's length, 1, is what the test for the empty text ensures.
unfoldable pub new : (Str → Bool) → Str → Spec → Time → Result Err Movement
unfolding validate_uuid validate_quantity_for_type trimmed_reference
new is_uuid id spec now = do
  validate_uuid is_uuid invalid id
  validate_uuid is_uuid invalid spec.batch_id
  validate_uuid is_uuid invalid spec.product_id
  validate_uuid is_uuid invalid spec.tenant_id
  validate_uuid is_uuid invalid spec.actor_membership_id
  fail_if (not (is_valid spec.movement_type)) invalid
  validate_quantity_for_type spec.movement_type spec.quantity
  fail_if (ltb_ℤ spec.quantity_on_hand_after (pos 0)) invalid
  fail_if (is_empty (trim_space spec.reason)) invalid
  fail_if (ltb reason_max_length (byte_len (trim_space spec.reason))) invalid
  reference ← trimmed_reference spec.source_reference
  ok (logged id spec reference now)
