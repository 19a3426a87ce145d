-- ===== src/Orders/Examples.antt =====
-- Runs of the orders module at concrete inputs, and the theorems at these inputs.
use leadkart_go.Base.{◌+◌, ◌*◌, ◌≤◌, ◌≡◌, refl, List, [], ◌∷◌, ◌++◌, some, ok, err, length, arith}
use leadkart_go.Base.Int64.{pos_part, pos, add64, mul64}
use leadkart_go.Base.Text.{codes, is_blank, trim_space}
use leadkart_go.Orders.LineItem.{LineItem, invalid, validate, validate_all, IsValid}
use leadkart_go.Orders.LineItem.Totals.{
  line_tax, line_subtotal, compute_totals, sum_amounts, sum_taxes, sum_exact_taxes,
  compute_totals-exact, compute_totals_rounding,
}
use leadkart_go.Orders.Quotation as Q
use leadkart_go.Orders.Quotation.Invariant as QuotationInvariant
use leadkart_go.Orders.Quotation.History as QuotationHistory
use leadkart_go.Orders.Order as O
use leadkart_go.Orders.Order.States as States
use leadkart_go.Orders.Order.Invariant as OrderInvariant
use leadkart_go.Orders.Order.Replay as Replay
use leadkart_go.Orders.Order.Terminal as Terminal

-- Three strips at 12.49 rupees, with 12 per cent tax: 449.64 paise, of which 449 are charged.
abbrev strip : LineItem
strip = record {
  product_id = codes "p-1";
  sku = codes "PCM-500";
  description = [];
  quantity = pos 3;
  unit_mrp_paise = pos 1500;
  unit_sale_paise = pos 1249;
  gst_rate_bps = pos 1200;
}

abbrev vial : LineItem
vial = record strip { sku = codes "INJ-2"; quantity = pos 2; gst_rate_bps = pos 500 }

strip-IsValid : IsValid strip
strip-IsValid = ground arith

vial-IsValid : IsValid vial
vial-IsValid = ground arith

totals_of_two : compute_totals (strip ∷ vial ∷ []) ≡ (pos 6245, pos 573, pos 6818)
unfolding compute_totals line_tax line_subtotal add64 mul64
totals_of_two = refl

compute_totals-exact_example : compute_totals (strip ∷ vial ∷ []) ≡ (
  pos (sum_amounts (strip ∷ vial ∷ [])),
  pos (sum_taxes (strip ∷ vial ∷ [])),
  pos (sum_amounts (strip ∷ vial ∷ []) + sum_taxes (strip ∷ vial ∷ [])),
)
compute_totals-exact_example =
    compute_totals-exact (strip ∷ vial ∷ []) (strip-IsValid, (vial-IsValid, tt)) (omega arith)

compute_totals_rounding_example :
    (pos_part (compute_totals (strip ∷ [])).1 * 10000 ≤ sum_exact_taxes (strip ∷ []))
    × (sum_exact_taxes (strip ∷ [])
        ≤ pos_part (compute_totals (strip ∷ [])).1 * 10000 + 9999 * length (strip ∷ []))
compute_totals_rounding_example =
    compute_totals_rounding (strip ∷ []) (strip-IsValid, tt) (omega arith)

-- A price above the maximum retail price is refused.
overpriced : validate (record strip { unit_sale_paise = pos 1501 }) ≡ err invalid
unfolding validate
overpriced = refl

abbrev draft_input : Q.NewInput
draft_input = record {
  id = codes "q-1";
  tenant_id = codes "t-1";
  customer_lead_id = codes "lead-1";
  initial_items = strip ∷ [];
  initial_note = codes " first offer ";
  created_by_membership_id = codes "m-1";
  now = 100;
}

abbrev first_quote : Q.Quotation
first_quote = Q.seeded draft_input

new_quote : Q.new draft_input ≡ ok first_quote
unfolding Q.new validate_all
new_quote = refl

abbrev second_offer : Q.ReviseInput
second_offer = record {
  items = strip ∷ vial ∷ [];
  note = [];
  revised_by_membership = codes "m-1";
  now = 200;
}

abbrev negotiation : List Q.Call
negotiation =
    Q.revises second_offer
    ∷ Q.approves (codes "m-2") 300
    ∷ Q.rejects (codes "m-2") (codes "late") 400
    ∷ []

run-new-IsWellFormed_example : QuotationInvariant.IsWellFormed (Q.run first_quote negotiation)
run-new-IsWellFormed_example =
    QuotationInvariant.run-new-IsWellFormed draft_input first_quote negotiation new_quote

negotiated : (Q.run first_quote negotiation).state ≡ Q.approved
unfolding Q.run Q.step validate_all
negotiated = refl

run-revisions_example :
    (later : List Q.Revision) × ((Q.run first_quote negotiation).revisions
      ≡ first_quote.revisions ++ later)
run-revisions_example = QuotationHistory.run-revisions first_quote negotiation

abbrev order_input : O.NewInput
order_input = record {
  id = codes "o-1";
  tenant_id = codes "t-1";
  approved_quotation_id = codes "q-1";
  customer_lead_id = codes "lead-1";
  confirmed_items = strip ∷ [];
  created_by_membership_id = codes "m-1";
  now = 500;
}

abbrev first_order : O.Order
first_order = O.opened order_input (pos 3747, pos 449, pos 4196)

new_order : O.new order_input ≡ ok first_order
unfolding O.new validate_all compute_totals line_tax line_subtotal add64 mul64
new_order = refl

abbrev fulfilment : List O.Call
fulfilment =
    O.records_token_payment (codes "m-1") 510
    ∷ O.confirms (codes "m-1") 520
    ∷ O.pulls_events
    ∷ O.marks_packed (codes "m-1") 530
    ∷ O.attaches_invoice (codes "inv-1") (codes "m-1") 540
    ∷ O.attaches_consignment (codes "cn-1") (codes "m-1") 550
    ∷ O.marks_delivered (codes "m-1") 560
    ∷ O.marks_complete (codes "m-1") 570
    ∷ O.cancels (codes "no") (codes "m-1") 580
    ∷ []

run-new-IsConsistent_example : OrderInvariant.IsConsistent (O.run [] first_order fulfilment).1
run-new-IsConsistent_example =
    OrderInvariant.run-new-IsConsistent order_input first_order fulfilment new_order

fulfilled : (O.run [] first_order fulfilment).1.state ≡ States.complete
unfolding O.run O.step is_blank
fulfilled = refl

run-new-replay_example :
    Replay.replay
      ((O.run [] first_order fulfilment).0 ++ (O.run [] first_order fulfilment).1.events)
    ≡ some (O.run [] first_order fulfilment).1.state
run-new-replay_example = Replay.run-new-replay order_input first_order fulfilment new_order

complete_passed_stages_example :
    Replay.stages
      ((O.run [] first_order fulfilment).0 ++ (O.run [] first_order fulfilment).1.events)
    ≡ Replay.stages_after States.quotation_approved
complete_passed_stages_example =
    Replay.complete_passed_stages order_input first_order fulfilment new_order fulfilled

step_of_terminal_example :
    (O.step (O.run [] first_order fulfilment).1 (O.cancels (codes "x") (codes "m-1") 600)).1
    ≡ record (O.run [] first_order fulfilment).1 {
      events =
          (O.step
            (O.run [] first_order fulfilment).1
            (O.cancels (codes "x") (codes "m-1") 600)).1.events;
    }
unfolding O.run O.step is_blank
step_of_terminal_example =
    Terminal.step_of_terminal (O.run [] first_order fulfilment).1
      (O.cancels (codes "x") (codes "m-1") 600)
      (OrderInvariant.run-new-IsConsistent order_input first_order fulfilment new_order) refl

new-current_revision_example :
    O.new order_input ≡ ok (O.opened order_input (compute_totals (strip ∷ [])))
unfolding Q.current_revision Q.run trim_space
new-current_revision_example =
    Terminal.new-current_revision first_quote
      (record {
        number = 1;
        items = strip ∷ [];
        note = codes "first offer";
        revised_at = 100;
        revised_by_membership = codes "m-1";
      })
      order_input (QuotationInvariant.run-new-IsWellFormed draft_input first_quote [] new_quote)
      refl refl
      (record {
        order = refl;
        tenant = refl;
        quotation = refl;
        lead = refl;
        actor = refl;
        clock = refl;
      })
