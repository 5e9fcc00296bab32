-- ===== src/Payments/Examples.antt =====
-- A payment of 1000 with 700 of it allocated to a settlement over 900.
use b2b_stm.Prelude.{ℕ, ◌≡◌, ◌≢◌, refl, none, some, any, [], ◌∷◌, arith, nat_eq}
use b2b_stm.Prelude.Int.{pos, ◌+ℤ◌}
use b2b_stm.Table.{lookup, insert, total}
use b2b_stm.Text.{Text, text_eq}
use b2b_stm.Tx.{ok}
use b2b_stm.Payments.{
  recorded, voided, Payment, finalized, Ledger, used, live_sum, is_reversed, exceeds, line_sum,
  allocate_payment, refund_payment, void_payment, void_all,
}
use b2b_stm.Payments.Settled.{IsSettled, step-IsSettled}
use b2b_stm.Payments.Covered.{IsCovered, allocate_step, step-IsCovered, void_payment-final}

abbrev paid : Ledger
paid = record {
  next_id = 10;
  payments = (1, record { customer_id = 5; amount = 1000; status = recorded }) ∷ [];
  settlements = (2, record { customer_id = 5; status = finalized }) ∷ [];
  settlement_lines = (3, record { settlement_id = 2; amount = pos 900 }) ∷ [];
  payment_allocations = (4, record { payment_id = 1; settlement_id = 2; amount = 700 }) ∷ [];
  payment_allocation_reversals = [];
  refunds = [];
}

paid-IsCovered : IsCovered paid
unfolding lookup live_sum is_reversed total
paid-IsCovered = record {
  covered = λ k p e. ground arith;
  known = λ k p e. ground arith;
  unused = λ k n. ground arith;
}

abbrev allocated : Ledger
unfolding insert
allocated = record paid {
  next_id = 11;
  payment_allocations =
      insert 10 (record { payment_id = 1; settlement_id = 2; amount = 200 })
        paid.payment_allocations;
}

allocated_run : allocate_payment 200 1 2 paid ≡ ok allocated
unfolding allocate_payment exceeds lookup live_sum is_reversed total line_sum ◌+ℤ◌ insert
allocated_run = refl

step-IsCovered_example : IsCovered allocated
step-IsCovered_example =
    step-IsCovered paid allocated paid-IsCovered (allocate_step 200 1 2 allocated allocated_run)

paid-IsSettled : IsSettled paid
unfolding live_sum is_reversed line_sum ◌+ℤ◌
paid-IsSettled k some_of = ground arith

step-IsSettled_example : IsSettled allocated
step-IsSettled_example =
    step-IsSettled paid allocated paid-IsSettled (allocate_step 200 1 2 allocated allocated_run)

abbrev later : Ledger
later = void_all 1 paid

voided_run : void_payment 1 paid ≡ ok later
unfolding void_payment lookup any
voided_run = refl

void_payment-final_example :
    (lookup 1 paid.payments ≢ none)
    × ((p : Payment)
        → lookup 1 paid.payments ≡ some p
        → lookup 1 later.payments ≡ some (record p { status = voided }))
    × (used 1 later ≡ 0)
    × (((amount settlement : ℕ) (l : Ledger) → allocate_payment amount 1 settlement later ≢ ok l)
        × (((amount : ℕ) (reference : Text) (l : Ledger)
              → refund_payment amount 1 reference later ≢ ok l)
            × ((l : Ledger) → void_payment 1 later ≢ ok l)))
void_payment-final_example = void_payment-final 1 paid later voided_run
