-- ===== src/Returns/Examples.antt =====
-- A return from the request to the credit, and the properties on it.
use b2b_stm.Prelude.{
  ◌+◌, ◌≡◌, refl, ◌∙◌, set_size, some, [], ◌∷◌, ◌++◌, String, arith, nat_eq, pair_eq,
}
use b2b_stm.Prelude.Int.{pos, ◌+ℤ◌, ◌-ℤ◌}
use b2b_stm.Text.{Text, codes, uuid_test, uuid_value}
use b2b_stm.Json.{
  Json, get, string, integer_from, number, natural, items, str, num, int, arr, obj, field, end,
  cons, nil,
}
use b2b_stm.Table.{lookup, total}
use b2b_stm.Schema.{TaxCategory}
use b2b_stm.Returns.{ShippedTax, Shipped, ReturnTables, credited_sum, credited_tax, target_credit}
use b2b_stm.Returns.Input.{credit_input, inspection_input, return_input}
use b2b_stm.Returns.Operations.{request_return, inspect_return, defect_disposition, resolve_defect}
use b2b_stm.Returns.Credits.{credit_return}
use b2b_stm.Returns.Requested.{IsRequested, follows-IsRequested}
use b2b_stm.Returns.Counted.{IsCounted, follows-IsCounted}
use b2b_stm.Returns.Taxed.{IsTaxed, follows-whole_tax}
use b2b_stm.Returns.Stocked.{on_hand, moved, follows-stocked}
use b2b_stm.Returns.History.{
  ReturnCall, request_call, inspect_call, credit_call, run_return, Follows, begin, then_return,
}

abbrev uuid : String → Text
uuid tail = codes "00000000-0000-0000-0000-0000000000" ++ codes tail

abbrev sold_tax : ShippedTax
sold_tax = record { tax_amount = pos 301; tax_category = TaxCategory.taxable; tax_rate_bps = 1000 }

-- Three pieces, shipped from warehouse 1 to customer 2.
abbrev sold : Shipped
sold = record {
  shipment_id = 9;
  warehouse_id = 1;
  product_id = 3;
  customer_id = 2;
  quantity = 3;
  unit_price = some 1003;
  tax = some sold_tax;
}

abbrev shop : ReturnTables
shop = record {
  next_id = 100;
  shipment_lines = (8, sold) ∷ [];
  suppliers = [];
  counting = [];
  balances = ((1, 3), record { on_hand_quantity = 7; reserved_quantity = 0; version = 1 }) ∷ [];
  movements = [];
  returns = [];
  return_lines = [];
  return_inspections = [];
  defect_dispositions = [];
  defect_resolutions = [];
  return_credits = [];
  credit_entries = [];
  command_results = [];
}

abbrev all_back : Json
all_back = obj (
    field "requestId" (str (uuid "a1")) (
      field "lines"
        (arr (
          cons
            (obj (
              field "shipmentLineId" (str (uuid "08"))
                (field "quantity" (num (int (pos 3))) (field "reason" (str (codes "broken")) end))))
            nil))
        end))

-- The line 101 of the return 100.
abbrev one_broken : Json
one_broken = obj (
    field "requestId" (str (uuid "a2")) (
      field "receivedQuantity" (num (int (pos 3))) (
        field "normalQuantity" (num (int (pos 2))) (
          field "defectiveQuantity" (num (int (pos 1)))
            (field "defectiveReason" (str (codes "cracked")) end)))))

-- The inspection 102.
abbrev credit_all : Json
credit_all = obj (field "requestId" (str (uuid "a3")) (field "quantity" (num (int (pos 3))) end))

abbrev ask_back : ReturnCall
ask_back = request_call 2 7 all_back

abbrev inspect_it : ReturnCall
inspect_it = inspect_call 6 (uuid "65") one_broken

abbrev credit_it : ReturnCall
credit_it = credit_call 5 (uuid "66") credit_all

abbrev asked : ReturnTables
unfolding request_return inspect_return defect_disposition resolve_defect credit_return
asked = (run_return ask_back shop).1

abbrev received_back : ReturnTables
unfolding request_return inspect_return defect_disposition resolve_defect credit_return
received_back = (run_return inspect_it asked).1

abbrev credited : ReturnTables
unfolding request_return inspect_return defect_disposition resolve_defect credit_return
credited = (run_return credit_it received_back).1

history : Follows shop credited
unfolding asked received_back credited
history =
    then_return credit_it received_back
      (then_return inspect_it asked (then_return ask_back shop begin))

shop-IsRequested : IsRequested shop
unfolding lookup total
shop-IsRequested = record { fits = λ k x e. ground arith }

follows-IsRequested_example : IsRequested credited
follows-IsRequested_example = follows-IsRequested shop credited shop-IsRequested history

shop-IsCounted : IsCounted shop
unfolding lookup total
shop-IsCounted = record {
  received = λ k l e. cc;
  decided = λ k i e. cc;
  resolved = λ k d e. cc;
  known_inspection = λ k i e. cc;
  known_disposition = λ k d e. cc;
  no_decided = λ k n. refl;
  no_resolved = λ k n. refl;
}

follows-IsCounted_example : IsCounted credited
follows-IsCounted_example = follows-IsCounted shop credited shop-IsCounted history

follows-stocked_example :
    on_hand (1, 3) credited.balances + moved (1, 3) shop
    ≡ on_hand (1, 3) shop.balances + moved (1, 3) credited
follows-stocked_example = follows-stocked shop credited (1, 3) history

-- Two of the three are back in stock.
on_hand_after : on_hand (1, 3) credited.balances ≡ 9
unfolding request_return inspect_return defect_disposition resolve_defect credit_return lookup get
    total on_hand uuid_test credit_input string integer_from number inspection_input natural
    return_input items set_size uuid_value ◌-ℤ◌ ◌+ℤ◌
on_hand_after = refl

no_tax : credited_tax 8 [] ≡ target_credit (pos 301) 3 0
unfolding credited_tax target_credit ◌+ℤ◌
no_tax = refl

shop-IsTaxed : IsTaxed shop
unfolding lookup total credited_tax
shop-IsTaxed = record {
  taxed = λ k x t e has.
      let its : sold ≡ x = ground (arith, e) in
      let tax : sold_tax ≡ t = ground (arith, has, its) in
      no_tax ∙ (λ i. target_credit (tax i).tax_amount (its i).quantity 0);
}

line_there : lookup 8 credited.shipment_lines ≡ some sold
unfolding request_return inspect_return defect_disposition resolve_defect credit_return lookup get
    total on_hand uuid_test credit_input string integer_from number inspection_input natural
    return_input items set_size uuid_value ◌-ℤ◌ ◌+ℤ◌
line_there = refl

all_credited : credited_sum 8 credited.return_credits ≡ 3
unfolding request_return inspect_return defect_disposition resolve_defect credit_return lookup get
    total on_hand uuid_test credit_input string integer_from number inspection_input natural
    return_input items set_size uuid_value ◌-ℤ◌ ◌+ℤ◌
all_credited = refl

follows-whole_tax_example : credited_tax 8 credited.return_credits ≡ pos 301
follows-whole_tax_example =
    follows-whole_tax shop credited 8 sold sold_tax 301 shop-IsTaxed history line_there refl refl
      (ground arith) all_credited
