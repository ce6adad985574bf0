-- ===== src/Domain/TopupFee.antt =====
-- Fees on wallet top-ups: src/domain/wallet-topup-fee.ts. The rate of 1.5 % is 15 / 1000. The source
-- computes with doubles; for every credit that reaches the division (the branch under the cap, up to
-- 12,666,666 kobo) and for the comparison with the cap they give the same as the exact quotients.
use mealdirectbackend.Common.{
  ℕ, ◌+◌, ◌-◌, ◌*◌, ◌/◌, ◌≤◌, ◌<◌, ◌≡◌, ◌⊎◌, Bool, true, Option, none, some, arith, ltb, leb,
  if◌then◌else◌, min, ◌||◌,
}

pub record TopupCharge : Type 0 where
  pub credit_kobo : ℕ
  pub fee_kobo : ℕ
  pub charge_kobo : ℕ

abbrev pub flat_fee_kobo : ℕ
flat_fee_kobo = 10000

abbrev pub flat_fee_waived_below_kobo : ℕ
flat_fee_waived_below_kobo = 250000

abbrev pub fee_cap_kobo : ℕ
fee_cap_kobo = 200000

-- `Math.ceil(x / (1 - FEE_RATE))`
abbrev pub gross_up : ℕ → ℕ
gross_up x = (x * 1000 + 984) / 985

unfoldable pub calculate_topup_charge : ℕ → Bool → TopupCharge
calculate_topup_charge credit_kobo pass_fees =
    let flat_kobo = if ltb credit_kobo flat_fee_waived_below_kobo then 0 else flat_fee_kobo in
    let charge_kobo =
      if ltb (fee_cap_kobo * 1000) (credit_kobo * 15 + flat_kobo * 1000)
      then credit_kobo + fee_cap_kobo
      else gross_up (credit_kobo + flat_kobo) + 1 in
    if pass_fees
    then record {
      credit_kobo = credit_kobo;
      fee_kobo = charge_kobo - credit_kobo;
      charge_kobo = charge_kobo;
    }
    else record { credit_kobo = credit_kobo; fee_kobo = 0; charge_kobo = credit_kobo }

-- The published pricing that the module's first comment states, on the amount that is charged, in
-- whole kobo and rounded up: 1.5 % and a flat fee, waived below a limit, up to a cap.
unfoldable pub published_fee : ℕ → ℕ
published_fee charge = min fee_cap_kobo (
    (charge * 15 + 999) / 1000
    + (if ltb charge flat_fee_waived_below_kobo then 0 else flat_fee_kobo))

pub record DepositSplit : Type 0 where
  pub deposit_fee_kobo : ℕ
  pub credit_kobo : ℕ

-- The fee in basis points, rounded to the nearest kobo and cut at the cap, if there is a cap.
unfoldable pub capped_fee : ℕ → ℕ → Option ℕ → ℕ
capped_fee amount_kobo fee_bps none = (amount_kobo * fee_bps + 5000) / 10000
capped_fee amount_kobo fee_bps (some cap_kobo) =
    if ltb 0 cap_kobo
    then min ((amount_kobo * fee_bps + 5000) / 10000) cap_kobo
    else (amount_kobo * fee_bps + 5000) / 10000

unfoldable pub split_dedicated_account_deposit : ℕ → ℕ → Option ℕ → DepositSplit
unfolding capped_fee
split_dedicated_account_deposit amount_kobo fee_bps cap_kobo =
    if leb fee_bps 0 || leb amount_kobo 1
    then record { deposit_fee_kobo = 0; credit_kobo = amount_kobo }
    else let fee = min (capped_fee amount_kobo fee_bps cap_kobo) (amount_kobo - 1) in
      record { deposit_fee_kobo = fee; credit_kobo = amount_kobo - fee }

-- With the fees passed on, the charge less the published fee on it covers the credit, and the fee
-- shown is the difference of the two, for every credit below 246,249 kobo and from 250,000 kobo up.
pub calculate_topup_charge_covers :
    (credit : ℕ)
    → (credit < 246249) ⊎ (250000 ≤ credit)
    → let c = calculate_topup_charge credit true in
      (credit + published_fee c.charge_kobo ≤ c.charge_kobo) × (c.fee_kobo + credit ≡ c.charge_kobo)
unfolding calculate_topup_charge published_fee
calculate_topup_charge_covers credit h = ground arith

-- For a credit from 246,249 up to 249,999 kobo the flat fee is left out of the charge, though the
-- charge itself reaches the limit from which the published pricing takes it: the charge less the
-- fee on it falls short of the credit, by more than 9,990 kobo.
pub calculate_topup_charge_shortfall :
    (credit : ℕ)
    → 246249 ≤ credit
    → credit < 250000
    → let c = calculate_topup_charge credit true in
      c.charge_kobo + 9990 < credit + published_fee c.charge_kobo
unfolding calculate_topup_charge published_fee
calculate_topup_charge_shortfall credit h k = ground arith

-- A deposit is split without loss: fee and credit add up to the amount. The fee never takes the
-- whole of an amount, stays at or below a positive cap, and is at most half a kobo above the rate's
-- share of the amount; with no rate it is 0.
pub split_dedicated_account_deposit_sums :
    (amount bps : ℕ) (cap : Option ℕ)
    → let s = split_dedicated_account_deposit amount bps cap in
      (s.deposit_fee_kobo + s.credit_kobo ≡ amount)
      × (10000 * s.deposit_fee_kobo ≤ amount * bps + 5000)
      × (0 < amount → 0 < s.credit_kobo)
      × ((c : ℕ) → cap ≡ some c → 0 < c → s.deposit_fee_kobo ≤ c)
      × (bps ≡ 0 → s.deposit_fee_kobo ≡ 0)
unfolding split_dedicated_account_deposit
split_dedicated_account_deposit_sums amount bps cap =
    (ground arith, ground arith, (λ h. ground arith), (λ c e h. ground arith), λ e. ground arith)
