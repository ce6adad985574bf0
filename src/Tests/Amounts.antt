-- ===== src/Tests/Amounts.antt =====
-- Amounts, fees, refunds and settlements at concrete inputs.
use mealdirectbackend.Common.{◌+◌, ◌≤◌, ◌<◌, ◌≡◌, refl, inr, true, none, some, nat, ok, arith}
use mealdirectbackend.Domain.Money.{add_cents, add_cents_from, calculate_basis_points_amount}
use mealdirectbackend.Domain.Refunds.{RefundInput, Refund, calculate_refund}
use mealdirectbackend.Domain.Settlements.{
  VendorSettlementInput, VendorSettlement, calculate_vendor_settlement,
}
use mealdirectbackend.Domain.TopupFee.{
  calculate_topup_charge, published_fee, calculate_topup_charge_covers,
  calculate_topup_charge_shortfall,
}

abbrev refund_input : RefundInput
refund_input = record {
  captured_amount_cents = nat 5000;
  item_refund_cents = nat 4000;
  delivery_refund_cents = some (nat 2000);
  service_fee_refund_cents = none;
  penalty_cents = some (nat 500);
}

abbrev refund_of_5000 : Refund
refund_of_5000 = record {
  requested_refund_cents = 6000;
  penalty_cents = 500;
  refundable_cents = 4500;
}

refund_input-ok : calculate_refund refund_input ≡ ok refund_of_5000
unfolding calculate_refund add_cents add_cents_from
refund_input-ok = refl

abbrev vendor_input : VendorSettlementInput
vendor_input = record {
  food_gross_cents = nat 10000;
  commission_basis_points = nat 1500;
  refund_cents = some (nat 700);
  adjustment_cents = none;
}

abbrev vendor_settlement : VendorSettlement
vendor_settlement = record {
  gross_cents = 10000;
  commission_cents = 1500;
  refund_cents = 700;
  adjustment_cents = 0;
  net_payable_cents = 7800;
}

vendor_input-ok : calculate_vendor_settlement vendor_input ≡ ok vendor_settlement
unfolding calculate_vendor_settlement calculate_basis_points_amount
vendor_input-ok = refl

calculate_topup_charge_covers_example :
    let c = calculate_topup_charge 300000 true in
    (300000 + published_fee c.charge_kobo ≤ c.charge_kobo) × (c.fee_kobo + 300000 ≡ c.charge_kobo)
calculate_topup_charge_covers_example = calculate_topup_charge_covers 300000 (inr (omega arith))

calculate_topup_charge_shortfall_example :
    let c = calculate_topup_charge 247000 true in
    c.charge_kobo + 9990 < 247000 + published_fee c.charge_kobo
calculate_topup_charge_shortfall_example =
    calculate_topup_charge_shortfall 247000 (omega arith) (omega arith)
