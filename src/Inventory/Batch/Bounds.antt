-- ===== src/Inventory/Batch/Bounds.antt =====
-- The quantity on hand against exact integer arithmetic: bounds, overflow and refusals.
use leadkart_go.Base.{ℕ, ◌+◌, ◌<◌, ◌≤◌, ◌≡◌, ◌⊎◌, false, ok, arith}
use leadkart_go.Base.Int64.{ℤ, pos, two63, ◌+ℤ◌, ◌-ℤ◌, ◌≤ℤ◌, ◌<ℤ◌, IsInt64, add64, sub64}
use leadkart_go.Base.Clock.{Time}
use leadkart_go.Inventory.Batch.{
  Batch, MovementType, inbound, outbound, adjustment, reservation, release, unknown, is_expired,
  moved_quantity, apply_movement,
}

-- The signed change of the stock, as the ledger counts it.
abbrev pub delta : MovementType → ℤ → ℤ
delta inbound q = q
delta outbound q = pos 0 -ℤ q
delta adjustment q = q
delta reservation q = pos 0
delta release q = pos 0
delta (unknown raw) q = pos 0

-- The stock is a count that fits an int64.
abbrev pub IsStock : ℤ → Type 0
IsStock a = (pos 0 ≤ℤ a) × IsInt64 a

moved_quantity-exact :
    (m : MovementType) (b : Batch) (q : ℤ) (now : Time) (next : ℤ)
    → IsStock b.quantity_on_hand
    → IsInt64 q
    → moved_quantity m b q now ≡ ok next
    → pos 0 ≤ℤ next
    → (next ≡ b.quantity_on_hand +ℤ delta m q) × IsStock next
unfolding moved_quantity add64 sub64 ◌+ℤ◌ ◌-ℤ◌
moved_quantity-exact inbound b q now next s i h n = ground arith
moved_quantity-exact outbound b q now next s i h n = ground arith
moved_quantity-exact adjustment b q now next s i h n = ground arith
moved_quantity-exact reservation b q now next s i h n = ground arith
moved_quantity-exact _ b q now next s i h n = ground arith

-- A movement that is accepted and leaves a stock that is not negative changes the stock exactly by
-- its signed quantity; only an inbound movement can be accepted and leave a negative stock, by
-- overflow.
pub apply_movement-exact :
    (b c : Batch) (m : MovementType) (q : ℤ) (now : Time)
    → IsStock b.quantity_on_hand
    → IsInt64 q
    → apply_movement b m q now ≡ ok c
    → ((m ≡ inbound) × (c.quantity_on_hand <ℤ pos 0))
      ⊎ ((c.quantity_on_hand ≡ b.quantity_on_hand +ℤ delta m q) × IsStock c.quantity_on_hand)
unfolding apply_movement add64 sub64 ◌+ℤ◌ ◌-ℤ◌
apply_movement-exact b c inbound q now s i h = ground arith
apply_movement-exact b c outbound q now s i h = ground arith
apply_movement-exact b c adjustment q now s i h = ground arith
apply_movement-exact b c _ q now s i h = ground arith

-- An inbound movement of a live batch is not checked against the int64 range: where stock and
-- quantity add up to 2 ^ 63 or more, it is accepted and the stock on hand turns negative.
pub apply_movement-overflow :
    (b : Batch) (s q : ℕ) (now : Time)
    → b.deleted ≡ false
    → is_expired b now ≡ false
    → b.quantity_on_hand ≡ pos s
    → s < two63
    → 0 < q
    → q < two63
    → two63 ≤ s + q
    → (c : Batch) × (apply_movement b inbound (pos q) now ≡ ok c) × (c.quantity_on_hand <ℤ pos 0)
unfolding apply_movement add64
apply_movement-overflow b s q now d x e fs pq fq over = (
  record b {
    quantity_on_hand = add64 b.quantity_on_hand (pos q);
    version = add64 b.version (pos 1);
    updated_at = now;
  },
  ground arith,
  ground arith,
)
