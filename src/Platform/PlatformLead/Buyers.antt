-- ===== src/Platform/PlatformLead/Buyers.antt =====
-- The buyers of a lead: each tenant at most once, and no more than the sale limit.
use leadkart_go.Base.{
  ◌≤◌, ◌≡◌, refl, Bool, false, List, [], ◌∷◌, ◌++◌, ok, Result-cases, inl, inr, length, arith,
  length-snoc, after,
}
use leadkart_go.Base.Int64.{ℤ, pos, pos_part, ◌<ℤ◌}
use leadkart_go.Base.Text.{Str, str_eq, eq_of_str_eq, str_eq_refl}
use leadkart_go.Base.Clock.{Time}
use leadkart_go.Platform.PlatformLead.{
  PlatformLead, mem_str, effective_sale_limit, record_purchase, sold_to,
}

-- No text occurs twice.
abbrev pub IsDistinct : List Str → Type 0
IsDistinct [] = Unit
IsDistinct (x ∷ xs) = (mem_str x xs ≡ false) × IsDistinct xs

mem_str-snoc :
    (x y : Str) (xs : List Str)
    → mem_str x xs ≡ false
    → str_eq y x ≡ false
    → mem_str x (xs ++ y ∷ []) ≡ false
mem_str-snoc x y [] h k = ground arith
mem_str-snoc x y (z ∷ xs) h k = ground (arith, mem_str-snoc x y xs)

pub IsDistinct-snoc :
    (xs : List Str) (y : Str) → mem_str y xs ≡ false → IsDistinct xs → IsDistinct (xs ++ y ∷ [])
IsDistinct-snoc [] y h d = (refl, tt)
IsDistinct-snoc (x ∷ xs) y h d = (
  mem_str-snoc x y xs d.0 (ground (arith, eq_of_str_eq y x, str_eq_refl y)),
  IsDistinct-snoc xs y (ground arith) d.1,
)

module _ {Form : Type 0} where
  -- What a successful `RecordPurchase` has checked and done.
  pub record_purchase_inversion :
      (is_uuid : Str → Bool) (l m : PlatformLead Form) (purchase_id tenant_id membership_id : Str)
      (amount tier_default : ℤ) (now : Time)
      → record_purchase is_uuid l purchase_id tenant_id membership_id amount tier_default now ≡ ok m
      → (m ≡ sold_to l purchase_id tenant_id membership_id amount now)
        × (mem_str tenant_id l.buyers ≡ false)
        × (pos (length l.buyers) <ℤ effective_sale_limit l tier_default)
        × (pos 0 <ℤ amount)
  unfolding record_purchase
  record_purchase_inversion is_uuid l m purchase_id tenant_id membership_id amount tier_default now
        h =
      ground arith

  -- Every tenant bought at most once, and the buyers are at most as many as the sale limit.
  abbrev pub IsSold : ℤ → PlatformLead Form → Type 0
  IsSold tier_default l =
      IsDistinct l.buyers × (length l.buyers ≤ pos_part (effective_sale_limit l tier_default))

-- The purchases that are asked for: id, tenant, membership, amount and instant.
abbrev pub Request : Type 0
Request = Str × Str × Str × ℤ × Time

module _ {Form : Type 0} (is_uuid : Str → Bool) (tier_default : ℤ) where
  -- A purchase that is refused leaves the lead as it was.
  unfoldable pub buy : PlatformLead Form → Request → PlatformLead Form
  buy l (id, tenant_id, membership_id, amount, now) =
      after l (record_purchase is_uuid l id tenant_id membership_id amount tier_default now)

  unfoldable pub buy_all : PlatformLead Form → List Request → PlatformLead Form
  buy_all l [] = l
  buy_all l (r ∷ requests) = buy_all (buy l r) requests

  buy-IsSold :
      (l : PlatformLead Form) (r : Request) → IsSold tier_default l → IsSold tier_default (buy l r)
  unfolding buy
  buy-IsSold l (id, tenant_id, membership_id, amount, now) w =
      elim (Result-cases
        (record_purchase is_uuid l id tenant_id membership_id amount tier_default now)) [
          | inl (m, e) ↦
              let (same, absent, room, _) =
                record_purchase_inversion is_uuid l m id tenant_id membership_id amount tier_default
                  now e in
              rw (e, same)
                (
                  IsDistinct-snoc l.buyers tenant_id absent w.0,
                  ground (arith, length-snoc l.buyers tenant_id, room),
                )
          | inr (_, e) ↦ rw e w
        ]

  -- Whatever purchases are asked for with the tier's default limit: if no tenant is twice among the
  -- buyers of a lead and they are no more than its effective sale limit, this stays so.
  pub buy_all-IsSold :
      (l : PlatformLead Form) (requests : List Request)
      → IsSold tier_default l
      → IsSold tier_default (buy_all l requests)
  unfolding buy_all
  buy_all-IsSold l [] w = w
  buy_all-IsSold l (r ∷ requests) w = buy_all-IsSold (buy l r) requests (buy-IsSold l r w)
