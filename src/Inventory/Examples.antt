-- ===== src/Inventory/Examples.antt =====
-- Runs of the inventory module at concrete inputs, and the theorems at these inputs.
use leadkart_go.Base.{
  ℕ, ◌≡◌, refl, ◌⊎◌, Bool, true, not, List, [], ◌∷◌, Option, none, some, ok, is_empty,
  if◌then◌else◌, arith,
}
use leadkart_go.Base.Int64.{ℤ, pos, add64, sub64, neg64, ◌+ℤ◌, ◌<ℤ◌}
use leadkart_go.Base.Text.{Str, codes, str_eq, eq_of_str_eq, trim_space, byte_len}
use leadkart_go.Inventory.Batch as B
use leadkart_go.Inventory.Batch.{Batch, inbound, outbound}
use leadkart_go.Inventory.Batch.Bounds.{
  delta, IsStock, apply_movement-exact, apply_movement-overflow,
}
use leadkart_go.Inventory.StockMovement as M
use leadkart_go.Inventory.LogStockMovement as L
use leadkart_go.Inventory.LogStockMovement.{Database, Storage, Command}
use leadkart_go.Inventory.LogStockMovement.Ledger.{IsReconciled, run-IsReconciled}

-- A parser that takes every text that is not empty.
abbrev any_text : Str → Bool
any_text s = not (is_empty s)

-- A database that accepts every write.
abbrev accepting : Storage
accepting = record { accepts_update = λ b. true; accepts_insert = λ m. true }

abbrev spec : B.Spec
spec = record {
  batch_number = codes " LOT-7 ";
  manufacture_date = 10;
  expiry_date = 1000;
  manufacturer_name = codes "Acme";
  manufacturing_licence_number = codes "25/KA";
  mrp_paise = pos 1500;
  purchase_price_paise = pos 900;
}

abbrev lot : Batch
lot = B.added (codes "b-7") (codes "p-1") (codes "t-1") (codes "m-1") spec 20

new-lot : B.new any_text (codes "b-7") (codes "p-1") (codes "t-1") (codes "m-1") spec 20 ≡ ok lot
unfolding B.new trim_space byte_len
new-lot = refl

-- One new batch, and an empty ledger.
abbrev opening : Database
opening = record {
  batches = λ k. if str_eq k (codes "b-7") then some lot else none;
  movements = [];
}

abbrev move : B.MovementType → ℤ → Command
move kind quantity = record {
  tenant_id = codes "t-1";
  batch_id = codes "b-7";
  actor_membership_id = codes "m-1";
  movement_type = kind;
  quantity = quantity;
  reason = codes "count";
  source_reference = none;
}

-- The last request asks for more than there is, and is refused.
abbrev requests : List (Command × ℕ × Str)
requests =
    (move inbound (pos 100), 30, codes "s-1")
    ∷ (move outbound (pos 30), 40, codes "s-2")
    ∷ (move outbound (pos 71), 50, codes "s-3")
    ∷ []

abbrev on_hand : Option Batch → Option ℤ
on_hand none = none
on_hand (some b) = some b.quantity_on_hand

stock_after :
    on_hand ((L.run any_text accepting opening requests).batches (codes "b-7")) ≡ some (pos 70)
unfolding L.run L.step L.handle L.persist L.update_by_id L.add L.signed_quantity_for_type
    B.apply_movement B.pull_events M.new trim_space byte_len str_eq add64 sub64 neg64
stock_after = refl

opening-IsReconciled : IsReconciled opening
opening-IsReconciled = record {
  keyed = λ k b h. ground (arith, eq_of_str_eq k (codes "b-7"));
  stocked = λ k b h. ground arith;
  balanced = λ k b h. ground arith;
}

run-IsReconciled_example : IsReconciled (L.run any_text accepting opening requests)
run-IsReconciled_example =
    run-IsReconciled any_text accepting opening requests (omega arith) opening-IsReconciled

moved_lot :
    B.apply_movement lot inbound (pos 5) 30
    ≡ ok (record lot { quantity_on_hand = pos 5; version = pos 1; updated_at = 30 })
unfolding B.apply_movement add64
moved_lot = refl

apply_movement-exact_example :
    ((inbound ≡ inbound) × (pos 5 <ℤ pos 0))
    ⊎ ((pos 5 ≡ pos 0 +ℤ delta inbound (pos 5)) × IsStock (pos 5))
apply_movement-exact_example =
    apply_movement-exact lot
      (record lot { quantity_on_hand = pos 5; version = pos 1; updated_at = 30 }) inbound (pos 5) 30
      (omega arith) (omega arith) moved_lot

-- A batch at the int64 maximum, and one more unit.
apply_movement-overflow_example :
    (c : Batch) × (B.apply_movement
        (record lot { quantity_on_hand = pos 9223372036854775807 })
        inbound
        (pos 1)
        30
      ≡ ok c)
    × (c.quantity_on_hand <ℤ pos 0)
apply_movement-overflow_example =
    apply_movement-overflow (record lot { quantity_on_hand = pos 9223372036854775807 })
      9223372036854775807 1 30 refl refl refl (omega arith) (omega arith) (omega arith)
      (omega arith)
