-- ===== src/Inventory/LogStockMovement.antt =====
-- internal/inventory/app/command/log_stock_movement.go: the handler that moves stock. It changes a
-- batch row and adds a ledger row in one transaction of the database.
--
-- The database is a table of batches by their primary key and the ledger, the newest row first. What
-- a transaction wrote is lost when it returns an error. `Storage` says which writes the database
-- accepts; it stands for its constraints and for a lost connection, and may refuse any write.
pub mod Ledger
use leadkart_go.Base.{
  ℕ, ◌≡◌, Bool, true, false, not, ◌&&◌, List, [], ◌∷◌, Option, none, some, Result, ok, err, ◌>>=◌,
  ◌>>◌, fail_if, map_err, after, is_empty, if◌then◌else◌,
}
use leadkart_go.Base.Int64.{ℤ, pos, ltb_ℤ, eqb_ℤ, neg64}
use leadkart_go.Base.Text.{Str, str_eq}
use leadkart_go.Base.Clock.{Time}
use leadkart_go.Inventory.Batch.{
  Batch, MovementType, inbound, outbound, adjustment, reservation, release, unknown, is_valid,
  apply_movement, pull_events, not_found,
}
use leadkart_go.Inventory.Batch as Batches
use leadkart_go.Inventory.StockMovement.{Movement}
use leadkart_go.Inventory.StockMovement as Movements

pub record Command : Type 0 where
  pub tenant_id : Str
  pub batch_id : Str
  pub actor_membership_id : Str
  pub movement_type : MovementType
  pub quantity : ℤ
  pub reason : Str
  pub source_reference : Option Str

pub record LogResult : Type 0 where
  pub movement_id : Str
  pub quantity_on_hand_after : ℤ

pub data Err : Type 0 where
  tenant_required bad_id storage : Err
  batch_error : Batches.Err → Err
  movement_error : Movements.Err → Err

pub record Database : Type 0 where
  pub batches : Str → Option Batch
  pub movements : List Movement

pub record Storage : Type 0 where
  pub accepts_update : Batch → Bool
  pub accepts_insert : Movement → Bool

-- `signedQuantityForType`.
unfoldable pub signed_quantity_for_type : MovementType → ℤ → ℤ
signed_quantity_for_type inbound magnitude = magnitude
signed_quantity_for_type outbound magnitude = neg64 magnitude
signed_quantity_for_type adjustment magnitude = magnitude
signed_quantity_for_type reservation magnitude = magnitude
signed_quantity_for_type release magnitude = magnitude
signed_quantity_for_type (unknown raw) magnitude = magnitude

-- A row as the tenant sees it: row-level security hides the rows of other tenants, and the query
-- leaves out the deleted ones.
abbrev visible : Str → Option Batch → Option Batch
visible tenant_id none = none
visible tenant_id (some b) = if str_eq b.tenant_id tenant_id && not b.deleted then some b else none

abbrev require {ℓ} : {A : Type ℓ} → Option A → Err → Result Err A
require none e = err e
require (some a) e = ok a

abbrev pub put : Str → Batch → (Str → Option Batch) → Str → Option Batch
put id b batches k = if str_eq k id then some b else batches k

-- `BatchRepository.UpdateByID` on the transaction: the row is locked, loaded, changed and written
-- back, and its events are drained to the outbox. The version test of the UPDATE holds under the lock.
unfoldable pub update_by_id :
    (Str → Bool)
    → Storage
    → Database
    → Str
    → Str
    → (Batch → Result Batches.Err Batch)
    → Result Err (Database × Batch)
update_by_id is_uuid storage_of db tenant_id id update = do
  fail_if (not (is_uuid id)) bad_id
  b ← require (visible tenant_id (db.batches id)) (batch_error not_found)
  c ← map_err batch_error (update b)
  fail_if (not (storage_of.accepts_update c)) storage
  ok (record db { batches = put id (pull_events c).1 db.batches }, (pull_events c).1)

-- `StockMovementRepository.Add` on the transaction.
unfoldable pub add : Storage → Database → Movement → Result Err Database
add storage_of db m = do
  fail_if (not (storage_of.accepts_insert m)) storage
  ok (record db { movements = m ∷ db.movements })

-- The ledger row that the handler asks for, from the batch after the movement.
abbrev pub row_spec : Command → Batch → Movements.Spec
row_spec cmd loaded = record {
  batch_id = loaded.id;
  product_id = loaded.product_id;
  tenant_id = loaded.tenant_id;
  movement_type = cmd.movement_type;
  quantity = signed_quantity_for_type cmd.movement_type cmd.quantity;
  quantity_on_hand_after = loaded.quantity_on_hand;
  reason = cmd.reason;
  actor_membership_id = cmd.actor_membership_id;
  source_reference = cmd.source_reference;
}

module _ (is_uuid : Str → Bool) (storage_of : Storage) where
  -- `persist`: the closure that the unit of work runs.
  unfoldable pub persist : Database → Command → Time → Str → Result Err (Database × LogResult)
  persist db cmd now movement_id = do
    (updated, loaded) ←
        update_by_id is_uuid storage_of db cmd.tenant_id cmd.batch_id
          (λ b. apply_movement b cmd.movement_type cmd.quantity now)
    m ← map_err movement_error (Movements.new is_uuid movement_id (row_spec cmd loaded) now)
    written ← add storage_of updated m
    ok (written, record { movement_id = m.id; quantity_on_hand_after = loaded.quantity_on_hand })

  -- `Handle`.
  unfoldable pub handle : Database → Command → Time → Str → Result Err (Database × LogResult)
  handle db cmd now movement_id = do
    fail_if (is_empty cmd.tenant_id) tenant_required
    fail_if (not (is_valid cmd.movement_type)) (batch_error Batches.invalid)
    fail_if (eqb_ℤ cmd.quantity (pos 0)) (batch_error Batches.invalid)
    fail_if (ltb_ℤ cmd.quantity (pos 0)) (batch_error Batches.invalid)
    persist db cmd now movement_id

  -- The database after a request: an error rolls the transaction back.
  unfoldable pub step : Database → Command × Time × Str → Database
  step db (cmd, now, movement_id) = elim (handle db cmd now movement_id) [
    | ok (after_commit, _) ↦ after_commit
    | err _ ↦ db
  ]

  unfoldable pub run : Database → List (Command × Time × Str) → Database
  run db [] = db
  run db (r ∷ requests) = run (step db r) requests
