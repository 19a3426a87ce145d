-- ===== src/Platform/PlatformLead/Price.antt =====
-- internal/platform/domain/platformlead/pricing.go: the price of a lead against natural numbers.
use leadkart_go.Base.{ℕ, ◌+◌, ◌-◌, ◌*◌, ◌/◌, ◌<◌, ◌≤◌, ◌≡◌, ltb, if◌then◌else◌, arith}
use leadkart_go.Base.Int64.{pos, two63, ◌≤ℤ◌, quot64, add64_pos, sub64_pos, mul64_pos}
use leadkart_go.Platform.PlatformLead.{total_bps, compute_purchase_price_paisa}

abbrev min : ℕ → ℕ → ℕ
min a b = if ltb b a then b else a

-- The discount of a lead that `n` tenants have, for a buyer with the package discount `p`.
abbrev pub discount : ℕ → ℕ → ℕ
discount n p = min (min (n * 500) 3000 + p) 5000

abbrev pub at_least_one : ℕ → ℕ
at_least_one price = if ltb price 1 then 1 else price

mul_mono_right : (a b c : ℕ) → b ≤ c → a * b ≤ a * c
mul_mono_right a b c h = grind arith

total_bps-exact :
    (n p : ℕ) → n * 500 < two63 → p + 3000 < two63 → total_bps (pos n) (pos p) ≡ pos (discount n p)
unfolding total_bps
total_bps-exact n p h k =
    ground (arith, mul64_pos n 500 h, add64_pos (n * 500) p, add64_pos 3000 p (omega arith))

-- The price of a tier with a positive base price is the base price less a discount of 500 basis
-- points for each prior buyer, at most 3000, and the package's, at most 5000 together; it is rounded
-- down, and is at least one paisa. This holds while no product leaves the int64 range.
pub compute_price-exact :
    (base n p : ℕ)
    → 0 < base
    → base * 10000 < two63
    → n * 500 < two63
    → p + 3000 < two63
    → compute_purchase_price_paisa (pos base) (pos n) (pos p)
      ≡ pos (at_least_one (base * (10000 - discount n p) / 10000))
unfolding compute_purchase_price_paisa quot64
compute_price-exact base n p h f g k =
    let small : base * (10000 - discount n p) < two63 =
      omega (arith, mul_mono_right base (10000 - discount n p) 10000 (omega arith)) in
    rw
      (
        total_bps-exact n p g k,
        sub64_pos 10000 (discount n p) (ground arith) (omega arith),
        mul64_pos base (10000 - discount n p) small,
      )
      (ground arith)

-- The price is from one paisa to the base price, and at least half of the base price, rounded down.
price_bounds :
    (base d : ℕ)
    → 0 < base
    → d ≤ 5000
    → (1 ≤ at_least_one (base * (10000 - d) / 10000))
      × (at_least_one (base * (10000 - d) / 10000) ≤ base)
      × (base / 2 ≤ at_least_one (base * (10000 - d) / 10000))
price_bounds base d h k =
    let below : base * (10000 - d) ≤ base * 10000 =
      mul_mono_right base (10000 - d) 10000 (omega arith) in
    let above : base * 5000 ≤ base * (10000 - d) =
      mul_mono_right base 5000 (10000 - d) (omega arith) in
    (ground arith, ground (arith, below), ground (arith, above))

-- The price of a tier with a positive base price is at least one paisa, at most the base price, and
-- at least half of the base price, rounded down, while no product leaves the int64 range.
pub compute_price_bounds :
    (base n p : ℕ)
    → 0 < base
    → base * 10000 < two63
    → n * 500 < two63
    → p + 3000 < two63
    → (pos 1 ≤ℤ compute_purchase_price_paisa (pos base) (pos n) (pos p))
      × (compute_purchase_price_paisa (pos base) (pos n) (pos p) ≤ℤ pos base)
      × (pos (base / 2) ≤ℤ compute_purchase_price_paisa (pos base) (pos n) (pos p))
compute_price_bounds base n p h f g k =
    let (low, high, half) = price_bounds base (discount n p) h (ground arith) in
    rw (compute_price-exact base n p h f g k)
      (omega (arith, low), omega (arith, high), omega (arith, half))

-- For a positive base price, the more tenants already have the lead, the less it costs, or the same, if
-- the base price times 10000, the greater number of tenants times 500, and the further discount plus
-- 3000 are all below 2^63, so that int64 does not wrap.
pub compute_price_antitone :
    (base n m p : ℕ)
    → 0 < base
    → base * 10000 < two63
    → m * 500 < two63
    → p + 3000 < two63
    → n ≤ m
    → compute_purchase_price_paisa (pos base) (pos m) (pos p)
      ≤ℤ compute_purchase_price_paisa (pos base) (pos n) (pos p)
compute_price_antitone base n m p h f g k le =
    let order : base * (10000 - discount m p) ≤ base * (10000 - discount n p) =
      mul_mono_right base (10000 - discount m p) (10000 - discount n p) (ground arith) in
    rw (compute_price-exact base n p h f (omega arith) k, compute_price-exact base m p h f g k)
      (ground (arith, order))
