-- ===== src/Inventory/Batch.antt =====
-- internal/inventory/domain/batch/batch.go and events.go: a manufacturing batch with its stock on
-- hand. A method that returns an error before its first write is a function into `Result Err Batch`.
pub mod Bounds
use leadkart_go.Base.{
  ℕ, ◌≡◌, Bool, true, false, not, ◌||◌, List, [], ◌∷◌, ◌++◌, Result, ok, err, ◌>>=◌, ◌>>◌, fail_if,
  is_empty, ltb, if◌then◌else◌,
}
use leadkart_go.Base.Int64.{ℤ, pos, ltb_ℤ, leb_ℤ, eqb_ℤ, add64, sub64}
use leadkart_go.Base.Text.{Str, trim_space, byte_len}
use leadkart_go.Base.Clock.{Time, zero_time, is_zero_time, is_after}
use leadkart_go.Base.Uuid.{validate_uuid}

-- The sentinels of the package.
pub data Err : Type 0 where
  invalid insufficient_stock expired_batch deleted_batch concurrency_conflict not_found : Err

abbrev pub batch_number_max_len : ℕ
batch_number_max_len = 100

abbrev pub manufacturer_name_max_len : ℕ
manufacturer_name_max_len = 200

abbrev pub manufacturing_licence_max : ℕ
manufacturing_licence_max = 100

-- The catalogue of movement types; `unknown` is any other text of the Go type.
pub data MovementType : Type 0 where
  inbound outbound adjustment reservation release : MovementType
  unknown : Str → MovementType

-- `MovementType.IsValid`.
abbrev pub is_valid : MovementType → Bool
is_valid inbound = true
is_valid outbound = true
is_valid adjustment = true
is_valid reservation = true
is_valid release = true
is_valid (unknown raw) = false

-- `MovementType.IsMutating`.
abbrev pub is_mutating : MovementType → Bool
is_mutating inbound = true
is_mutating outbound = true
is_mutating adjustment = true
is_mutating reservation = false
is_mutating release = false
is_mutating (unknown raw) = false

pub record Spec : Type 0 where
  pub batch_number : Str
  pub manufacture_date : Time
  pub expiry_date : Time
  pub manufacturer_name : Str
  pub manufacturing_licence_number : Str
  pub mrp_paise : ℤ
  pub purchase_price_paise : ℤ

pub record AddedEvent : Type 0 where
  pub batch_id : Str
  pub product_id : Str
  pub tenant_id : Str
  pub actor_id : Str
  pub batch_number : Str
  pub expiry_date : Time
  pub quantity_on_hand : ℤ
  pub at : Time

pub record Batch : Type 0 where
  pub id : Str
  pub product_id : Str
  pub tenant_id : Str
  pub batch_number : Str
  pub manufacture_date : Time
  pub expiry_date : Time
  pub manufacturer_name : Str
  pub manufacturing_licence_number : Str
  pub mrp_paise : ℤ
  pub purchase_price_paise : ℤ
  pub quantity_on_hand : ℤ
  pub version : ℤ
  pub created_at : Time
  pub updated_at : Time
  pub deleted : Bool
  pub deleted_at : Time
  pub deleted_by : Str
  pub events : List AddedEvent

-- The batch that `New` builds once its input has passed.
abbrev pub added : Str → Str → Str → Str → Spec → Time → Batch
added id product_id tenant_id actor_id spec now = record {
  id = id;
  product_id = product_id;
  tenant_id = tenant_id;
  batch_number = trim_space spec.batch_number;
  manufacture_date = spec.manufacture_date;
  expiry_date = spec.expiry_date;
  manufacturer_name = trim_space spec.manufacturer_name;
  manufacturing_licence_number = trim_space spec.manufacturing_licence_number;
  mrp_paise = spec.mrp_paise;
  purchase_price_paise = spec.purchase_price_paise;
  quantity_on_hand = pos 0;
  version = pos 0;
  created_at = now;
  updated_at = now;
  deleted = false;
  deleted_at = zero_time;
  deleted_by = [];
  events =
      (record {
        batch_id = id;
        product_id = product_id;
        tenant_id = tenant_id;
        actor_id = actor_id;
        batch_number = trim_space spec.batch_number;
        expiry_date = spec.expiry_date;
        quantity_on_hand = pos 0;
        at = now;
      })
      ∷ [];
}

-- The checks of `New` on the fields of `Spec`.
unfoldable pub check_spec : Spec → Result Err (Unit {0})
check_spec spec = do
  fail_if (is_empty (trim_space spec.batch_number)) invalid
  fail_if (ltb batch_number_max_len (byte_len (trim_space spec.batch_number))) invalid
  fail_if (is_empty (trim_space spec.manufacturer_name)) invalid
  fail_if (ltb manufacturer_name_max_len (byte_len (trim_space spec.manufacturer_name))) invalid
  fail_if (is_empty (trim_space spec.manufacturing_licence_number)) invalid
  fail_if (ltb manufacturing_licence_max (byte_len (trim_space spec.manufacturing_licence_number)))
      invalid
  fail_if (ltb_ℤ spec.mrp_paise (pos 0)) invalid
  fail_if (ltb_ℤ spec.purchase_price_paise (pos 0)) invalid
  fail_if (is_zero_time spec.manufacture_date) invalid
  fail_if (is_zero_time spec.expiry_date) invalid
  fail_if (not (is_after spec.expiry_date spec.manufacture_date)) invalid
  ok tt

-- `New`. The minimum of a batch number's length, 1, is what the test for the empty text ensures.
unfoldable pub new : (Str → Bool) → Str → Str → Str → Str → Spec → Time → Result Err Batch
unfolding validate_uuid check_spec
new is_uuid id product_id tenant_id actor_id spec now = do
  validate_uuid is_uuid invalid id
  validate_uuid is_uuid invalid product_id
  validate_uuid is_uuid invalid tenant_id
  validate_uuid is_uuid invalid actor_id
  check_spec spec
  ok (added id product_id tenant_id actor_id spec now)

-- `IsExpired`.
abbrev pub is_expired : Batch → Time → Bool
is_expired b now = not (is_after b.expiry_date now)

-- The switch of `ApplyMovement`: the new quantity on hand.
unfoldable pub moved_quantity : MovementType → Batch → ℤ → Time → Result Err ℤ
moved_quantity inbound b quantity now = do
  fail_if (leb_ℤ quantity (pos 0)) invalid
  fail_if (is_expired b now) expired_batch
  ok (add64 b.quantity_on_hand quantity)
moved_quantity outbound b quantity now = do
  fail_if (leb_ℤ quantity (pos 0)) invalid
  fail_if (ltb_ℤ b.quantity_on_hand quantity) insufficient_stock
  ok (sub64 b.quantity_on_hand quantity)
moved_quantity adjustment b quantity now = do
  fail_if (eqb_ℤ quantity (pos 0)) invalid
  fail_if (ltb_ℤ (add64 b.quantity_on_hand quantity) (pos 0)) insufficient_stock
  ok (add64 b.quantity_on_hand quantity)
moved_quantity reservation b quantity now = do
  fail_if (leb_ℤ quantity (pos 0)) invalid
  ok b.quantity_on_hand
moved_quantity release b quantity now = do
  fail_if (leb_ℤ quantity (pos 0)) invalid
  ok b.quantity_on_hand
moved_quantity (unknown raw) b quantity now = ok b.quantity_on_hand

-- `ApplyMovement`.
unfoldable pub apply_movement : Batch → MovementType → ℤ → Time → Result Err Batch
unfolding moved_quantity
apply_movement b movement quantity now = do
  fail_if b.deleted deleted_batch
  fail_if (not (is_valid movement)) invalid
  next ← moved_quantity movement b quantity now
  ok (record b { quantity_on_hand = next; version = add64 b.version (pos 1); updated_at = now })

-- `SoftDelete`.
unfoldable pub soft_delete : Batch → Str → Time → Result Err Batch
soft_delete b actor_id now = if b.deleted then ok b else do
  fail_if (is_empty actor_id) invalid
  ok (record b {
    deleted = true;
    deleted_at = now;
    deleted_by = actor_id;
    updated_at = now;
    version = add64 b.version (pos 1);
  })

-- `PullEvents`: the events, and the batch without them.
unfoldable pub pull_events : Batch → List AddedEvent × Batch
pull_events b = (b.events, record b { events = [] })
