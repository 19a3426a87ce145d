-- ===== src/Inventory/LogStockMovement/Ledger.antt =====
-- The ledger against the stock on hand, over any sequence of requests.
use leadkart_go.Base.{
  ◌≡◌, sym, ap, ◌∙◌, inl, inr, Bool, false, not, ◌&&◌, List, [], ◌∷◌, Option, none, some, ok,
  map_err, bind_inversion, map_err_inversion, Result-cases, Bool-cases, All, if◌then◌else◌, arith,
  fail_if, subst, ◌>>=◌,
}
use leadkart_go.Base.Int64.{ℤ, pos, ◌+ℤ◌, ◌-ℤ◌, ◌≤ℤ◌, ◌<ℤ◌, IsInt64, neg64}
use leadkart_go.Base.Text.{Str, str_eq, eq_of_str_eq, str_eq_refl}
use leadkart_go.Base.Clock.{Time}
use leadkart_go.Inventory.Batch.{
  Batch, MovementType, inbound, outbound, is_mutating, apply_movement, pull_events, not_found,
}
use leadkart_go.Inventory.Batch.Bounds.{delta, IsStock, apply_movement-exact}
use leadkart_go.Inventory.StockMovement.{Movement}
use leadkart_go.Inventory.StockMovement as Movements
use leadkart_go.Inventory.LogStockMovement.{
  visible, require, batch_error, movement_error, storage, Command, LogResult, Database, Storage,
  bad_id, signed_quantity_for_type, put, update_by_id, add, row_spec, persist, handle, step, run,
}

-- The sum of the signed quantities of a batch's rows of the mutating types.
abbrev pub ledger_sum : Str → List Movement → ℤ
ledger_sum id [] = pos 0
ledger_sum id (m ∷ ms) =
    (if str_eq m.batch_id id && is_mutating m.movement_type then m.quantity else pos 0)
    +ℤ ledger_sum id ms

-- What a request that succeeds has done.
data Logs (db : Database) (cmd : Command) (now : Time) (after_commit : Database) : Type 0 where
  logs :
      (b c : Batch) (m : Movement)
      → db.batches cmd.batch_id ≡ some b
      → apply_movement b cmd.movement_type cmd.quantity now ≡ ok c
      → pos 0 ≤ℤ c.quantity_on_hand
      → m.batch_id ≡ c.id
      → m.movement_type ≡ cmd.movement_type
      → m.quantity ≡ signed_quantity_for_type cmd.movement_type cmd.quantity
      → after_commit ≡ record {
        batches = put cmd.batch_id (pull_events c).1 db.batches;
        movements = m ∷ db.movements;
      }
      → Logs db cmd now after_commit

found_inversion :
    (tenant_id : Str) (o : Option Batch) (b : Batch)
    → require (visible tenant_id o) (batch_error not_found) ≡ ok b
    → o ≡ some b
found_inversion tenant_id none b h = cc
found_inversion tenant_id (some d) b h = ground arith

-- What `UpdateByID` has done when it succeeds.
update_by_id_inversion :
    (is_uuid : Str → Bool) (storage_of : Storage) (db : Database) (cmd : Command) (now : Time)
    (updated : Database) (loaded : Batch)
    → update_by_id is_uuid storage_of db cmd.tenant_id cmd.batch_id
        (λ b. apply_movement b cmd.movement_type cmd.quantity now)
      ≡ ok (updated, loaded)
    → (b c : Batch) × (db.batches cmd.batch_id ≡ some b)
      × (apply_movement b cmd.movement_type cmd.quantity now ≡ ok c)
      × (loaded ≡ (pull_events c).1)
      × (updated ≡ record db { batches = put cmd.batch_id (pull_events c).1 db.batches })
unfolding update_by_id
update_by_id_inversion is_uuid storage_of db cmd now updated loaded h =
    let (_, _, h₀) = bind_inversion (fail_if (not (is_uuid cmd.batch_id)) bad_id) _ h in
    let (b, found, h₁) =
      bind_inversion
        (require (visible cmd.tenant_id (db.batches cmd.batch_id)) (batch_error not_found)) _ h₀ in
    let (c, moved, h₂) =
      bind_inversion (map_err batch_error (apply_movement b cmd.movement_type cmd.quantity now)) _
        h₁ in
    let (_, _, h₃) = bind_inversion (fail_if (not (storage_of.accepts_update c)) storage) _ h₂ in
    (
      b,
      c,
      found_inversion cmd.tenant_id (db.batches cmd.batch_id) b found,
      map_err_inversion batch_error _ moved,
      ground arith,
      ground arith,
    )

new_inversion :
    (is_uuid : Str → Bool) (id : Str) (spec : Movements.Spec) (now : Time) (m : Movement)
    → Movements.new is_uuid id spec now ≡ ok m
    → (pos 0 ≤ℤ spec.quantity_on_hand_after)
      × (m.batch_id ≡ spec.batch_id)
      × (m.movement_type ≡ spec.movement_type)
      × (m.quantity ≡ spec.quantity)
unfolding Movements.new
new_inversion is_uuid id spec now m h = ground arith

add_inversion :
    (storage_of : Storage) (db : Database) (m : Movement) (r s : LogResult)
    (after_commit : Database)
    → ◌>>=◌ {B = Database × LogResult} (add storage_of db m) (λ written. ok (written, r))
      ≡ ok (after_commit, s)
    → after_commit ≡ record db { movements = m ∷ db.movements }
unfolding add
add_inversion storage_of db m r s after_commit h = ground arith

module _ (is_uuid : Str → Bool) (storage_of : Storage) where
  persist_inversion :
      (db : Database) (cmd : Command) (now : Time) (movement_id : Str) (after_commit : Database)
      (r : LogResult)
      → persist is_uuid storage_of db cmd now movement_id ≡ ok (after_commit, r)
      → Logs db cmd now after_commit
  unfolding persist pull_events
  persist_inversion db cmd now movement_id after_commit r h =
      let ((updated, loaded), changed, h₁) =
        bind_inversion
          (update_by_id is_uuid storage_of db cmd.tenant_id cmd.batch_id
            (λ b. apply_movement b cmd.movement_type cmd.quantity now))
          _ h in
      let (m, made, h₂) =
        bind_inversion
          (map_err movement_error (Movements.new is_uuid movement_id (row_spec cmd loaded) now)) _
          h₁ in
      let (b, c, found, moved, same, table) =
        update_by_id_inversion is_uuid storage_of db cmd now updated loaded changed in
      let (nonneg, id, kind, quantity) =
        new_inversion is_uuid movement_id (row_spec cmd loaded) now m
          (map_err_inversion movement_error _ made) in
      logs b c m found moved (subst (λ (l : Batch). pos 0 ≤ℤ l.quantity_on_hand) same nonneg)
        (id ∙ ap (λ (l : Batch). l.id) same) kind quantity
        (add_inversion storage_of updated m _ r after_commit h₂
          ∙ ap (λ (d : Database). record d { movements = m ∷ d.movements }) table)

  handle_inversion :
      (db : Database) (cmd : Command) (now : Time) (movement_id : Str) (after_commit : Database)
      (r : LogResult)
      → handle is_uuid storage_of db cmd now movement_id ≡ ok (after_commit, r)
      → (pos 0 <ℤ cmd.quantity) × Logs db cmd now after_commit
  unfolding handle
  handle_inversion db cmd now movement_id after_commit r h =
      (ground arith, persist_inversion db cmd now movement_id after_commit r (ground arith))

-- Every batch row stands under its own id, its stock is a count that fits an int64, and the mutating
-- rows of the ledger add up to it.
pub record IsReconciled (db : Database) : Type 0 where
  pub keyed : (k : Str) (b : Batch) → db.batches k ≡ some b → b.id ≡ k
  pub stocked : (k : Str) (b : Batch) → db.batches k ≡ some b → IsStock b.quantity_on_hand
  pub balanced :
      (k : Str) (b : Batch) → db.batches k ≡ some b → b.quantity_on_hand ≡ ledger_sum k db.movements

-- The signed quantity of the row is the change of the stock.
signed-delta :
    (m : MovementType) (q : ℤ)
    → pos 0 <ℤ q
    → IsInt64 q
    → (if is_mutating m then signed_quantity_for_type m q else pos 0) ≡ delta m q
unfolding signed_quantity_for_type neg64 ◌-ℤ◌
signed-delta inbound q h i = ground arith
signed-delta outbound q h i = ground arith
signed-delta _ q h i = ground arith

+ℤ_comm : (a b : ℤ) → a +ℤ b ≡ b +ℤ a
unfolding ◌+ℤ◌
+ℤ_comm a b = ground arith

zero_+ℤ : (a : ℤ) → pos 0 +ℤ a ≡ a
unfolding ◌+ℤ◌
zero_+ℤ a = ground arith

apply_movement-id :
    (b c : Batch) (m : MovementType) (q : ℤ) (now : Time)
    → apply_movement b m q now ≡ ok c
    → c.id ≡ b.id
unfolding apply_movement
apply_movement-id b c m q now h = ground arith

-- What a row adds to the sum of its batch.
abbrev row_delta : Movement → ℤ
row_delta m = if is_mutating m.movement_type then m.quantity else pos 0

ledger_sum_self :
    (k : Str) (m : Movement) (ms : List Movement)
    → m.batch_id ≡ k
    → ledger_sum k (m ∷ ms) ≡ ledger_sum k ms +ℤ row_delta m
ledger_sum_self k m ms e = ground (arith, str_eq_refl k, +ℤ_comm (row_delta m) (ledger_sum k ms))

ledger_sum_other :
    (k : Str) (m : Movement) (ms : List Movement)
    → str_eq k m.batch_id ≡ false
    → ledger_sum k (m ∷ ms) ≡ ledger_sum k ms
ledger_sum_other k m ms e =
    ground (arith, eq_of_str_eq m.batch_id k, str_eq_refl k, zero_+ℤ (ledger_sum k ms))

-- Writing a moved batch back under its id, with the row of the movement, keeps the books balanced.
module _ (db : Database) (w : IsReconciled db) (id : Str) (b c : Batch) (m : Movement)
    (found : db.batches id ≡ some b) (keyed : c.id ≡ id) (stocked : IsStock c.quantity_on_hand)
    (moved : c.quantity_on_hand ≡ b.quantity_on_hand +ℤ row_delta m)
    (logged : m.batch_id ≡ id) where
  put-IsReconciled :
      IsReconciled (record { batches = put id c db.batches; movements = m ∷ db.movements })
  put-IsReconciled = record {
    keyed = λ k d h. ground (arith, eq_of_str_eq k id, w.keyed k d);
    stocked = λ k d h. ground (arith, w.stocked k d);
    balanced = λ k d h. elim (Bool-cases (str_eq k id)) [
      | inl here ↦
          let same = eq_of_str_eq k id here in
          ground (arith, w.balanced id b found, ledger_sum_self k m db.movements)
      | inr there ↦ ground (arith, w.balanced k d, ledger_sum_other k m db.movements)
    ];
  }

Logs-IsReconciled :
    (db : Database) (cmd : Command) (now : Time) (after_commit : Database)
    → pos 0 <ℤ cmd.quantity
    → IsInt64 cmd.quantity
    → Logs db cmd now after_commit
    → IsReconciled db
    → IsReconciled after_commit
unfolding pull_events
Logs-IsReconciled db cmd now after_commit q i (logs b c m found moved nonneg id kind quantity same)
      w =
    let cid =
      apply_movement-id b c cmd.movement_type cmd.quantity now moved
      ∙ w.keyed cmd.batch_id b found in
    let (change, stock) = exact in
    subst IsReconciled (sym same) (
      put-IsReconciled db w cmd.batch_id b (pull_events c).1 m found cid stock
        (ground (arith, change, signed-delta cmd.movement_type cmd.quantity q i)) (id ∙ cid))
  where
    exact :
        (c.quantity_on_hand ≡ b.quantity_on_hand +ℤ delta cmd.movement_type cmd.quantity)
        × IsStock c.quantity_on_hand
    exact =
        elim (apply_movement-exact b c cmd.movement_type cmd.quantity now
          (w.stocked cmd.batch_id b found) i moved) [
            | inl over ↦ absurd (omega (arith, over.1))
            | inr e ↦ e
          ]

step-IsReconciled :
    (is_uuid : Str → Bool) (storage_of : Storage) (db : Database) (cmd : Command) (now : Time)
    (id : Str)
    → IsInt64 cmd.quantity
    → IsReconciled db
    → IsReconciled (step is_uuid storage_of db (cmd, now, id))
unfolding step
step-IsReconciled is_uuid storage_of db cmd now id i w =
    elim (Result-cases (handle is_uuid storage_of db cmd now id)) [
      | inl ((after_commit, r), e) ↦
          let (q, l) = handle_inversion is_uuid storage_of db cmd now id after_commit r e in
          rw (e, step) (Logs-IsReconciled db cmd now after_commit q i l w)
      | inr (_, e) ↦ rw (e, step) w
    ]

-- Whatever requests the handler serves, with whatever the database refuses: if every stock is the sum
-- of its ledger's mutating rows before, and a count that fits an int64, so it is afterwards. No
-- overflow breaks this, since the ledger row of a negative stock is refused.
pub run-IsReconciled :
    (is_uuid : Str → Bool) (storage_of : Storage) (db : Database)
    (requests : List (Command × Time × Str))
    → All (λ (r : Command × Time × Str). IsInt64 r.0.quantity) requests
    → IsReconciled db
    → IsReconciled (run is_uuid storage_of db requests)
unfolding run
run-IsReconciled is_uuid storage_of db [] i w = w
run-IsReconciled is_uuid storage_of db ((cmd, now, id) ∷ requests) i w =
    run-IsReconciled is_uuid storage_of (step is_uuid storage_of db (cmd, now, id)) requests i.1
      (step-IsReconciled is_uuid storage_of db cmd now id i.0 w)
