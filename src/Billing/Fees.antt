-- ===== src/Billing/Fees.antt =====
-- The active student fee (apps/api/src/modules/billing/billing.types.ts). Rates are whole rupees; the
-- effective rate is in hundredths of a rupee, and the rounding is that of exact fractions.
use edu_lanka.Prelude.{
  ℕ, ◌+◌, ◌-◌, ◌*◌, ◌/◌, ◌≤◌, ◌<◌, ◌≡◌, ◌⊎◌, inl, inr, Bool, Option, none, some, ltb, if◌then◌else◌,
  arith,
}

pub record VolumeDiscountResult : Type 0 where
  pub student_count : ℕ
  pub discount_percent : ℕ
  pub listed_rate_per_student_lkr : ℕ
  pub effective_rate_per_student_cents : ℕ
  pub total_student_fee_lkr : ℕ
  pub is_custom_quote : Bool

-- `custom !== undefined ? custom : 20`.
abbrev pub negotiated : Option ℕ → ℕ
negotiated none = 20
negotiated (some d) = d

pub discount_percent : ℕ → Option ℕ → ℕ
discount_percent n custom =
    if ltb 3000 n then negotiated custom else if ltb 1000 n then 20 else if ltb 250 n then 10 else 0

-- A negotiated discount is a percentage, at most 100.
pub calculate_active_student_fee : ℕ → ℕ → Option ℕ → VolumeDiscountResult
unfolding discount_percent
calculate_active_student_fee n price custom =
    let d = discount_percent n custom in
    record {
      student_count = n;
      discount_percent = d;
      listed_rate_per_student_lkr = price;
      effective_rate_per_student_cents = price * (100 - d);
      total_student_fee_lkr = (n * (price * (100 - d)) + 50) / 100;
      is_custom_quote = ltb 3000 n;
    }

-- The tier table without a negotiated discount.
discount_percent_cases :
    (n : ℕ)
    → ((n ≤ 250) × (discount_percent n none ≡ 0))
      ⊎ ((250 < n) × (n ≤ 1000) × (discount_percent n none ≡ 10))
      ⊎ ((1000 < n) × (discount_percent n none ≡ 20))
unfolding discount_percent
discount_percent_cases n = ground arith

-- Without a negotiated discount the fee is the listed price of all students less 0 percent up to 250
-- students, 10 percent up to 1000 and 20 percent above, rounded to the nearest rupee.
pub fee_tiers :
    (n price : ℕ)
    → let fee = (calculate_active_student_fee n price none).total_student_fee_lkr in
      ((n ≤ 250) × (fee ≡ n * price))
      ⊎ ((250 < n)
          × (n ≤ 1000)
          × (90 * (n * price) ≤ 100 * fee + 50)
          × (100 * fee ≤ 90 * (n * price) + 50))
      ⊎ ((1000 < n) × (80 * (n * price) ≤ 100 * fee + 50) × (100 * fee ≤ 80 * (n * price) + 50))
unfolding calculate_active_student_fee
fee_tiers n price = elim (discount_percent_cases n) [
  | inl (small, e) ↦ inl (small, rw e (omega arith))
  | inr (inl (low, high, e)) ↦ inr (inl (low, high, rw e (omega arith), rw e (omega arith)))
  | inr (inr (large, e)) ↦ inr (inr (large, rw e (omega arith), rw e (omega arith)))
]
