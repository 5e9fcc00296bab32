-- ===== src/Payments/Settled.antt =====
-- What is allocated to settlements never exceeds what is due on them.
use mathlib.Core.Path.{subst}
use b2b_stm.Prelude.{ℕ, ◌+◌, ◌≤◌, ◌<◌, ◌≡◌, false, arith, nat_eq, ◌==◌, if◌then◌else◌}
use b2b_stm.Prelude.Int.{ℤ, pos, negsuc}
use b2b_stm.Table.{insert}
use b2b_stm.Text.{Text}
use b2b_stm.Tx.{ok}
use b2b_stm.Payments.{
  Ledger, live_sum, is_for, settled_amount, line_sum, is_below, record_payment, exceeds,
  allocate_payment, refund_payment, void_payment, void_all, reverse_all, insert_allocation,
}
use b2b_stm.Payments.Covered.{
  Step, record_step, allocate_step, refund_step, void_step, live_sum_less, reverse_all_kept,
}

-- No settlement has more allocated to it than the sum of its lines.
abbrev pub IsSettled : Ledger → Type 0
IsSettled l =
    (k : ℕ)
    → 0 < settled_amount k l
    → is_below (line_sum k l.settlement_lines) (settled_amount k l) ≡ false

below_less : (due : ℤ) (m n : ℕ) → m ≤ n → is_below due n ≡ false → is_below due m ≡ false
below_less (pos a) m n le e = ground (arith, e, le)
below_less (negsuc a) m n le e = ground (arith, e)

module _ (amount payment settlement : ℕ) (l l' : Ledger) (h : IsSettled l) where
  inserted-IsSettled :
      is_below (line_sum settlement l.settlement_lines) (amount + settled_amount settlement l)
        ≡ false
      → IsSettled (insert_allocation amount payment settlement l)
  unfolding live_sum insert
  inserted-IsSettled fits k some_of =
      below_less (line_sum k l.settlement_lines) _
        (if settlement == k then amount + settled_amount k l else settled_amount k l) (ground arith)
        (ground (arith, fits, some_of, h k))

  allocated-IsSettled : allocate_payment amount payment settlement l ≡ ok l' → IsSettled l'
  unfolding allocate_payment exceeds
  allocated-IsSettled ran =
      let fits : is_below (line_sum settlement l.settlement_lines)
            (amount + settled_amount settlement l)
          ≡ false =
        ground (arith, ran) in
      let same : insert_allocation amount payment settlement l ≡ l' = ground (arith, ran) in
      subst IsSettled same (inserted-IsSettled fits)

voided-IsSettled :
    (payment : ℕ) (l l' : Ledger) → IsSettled l → void_payment payment l ≡ ok l' → IsSettled l'
unfolding void_payment void_all
voided-IsSettled payment l l' h ran =
    let same : void_all payment l ≡ l' = ground (arith, ran) in
    let rs = l.payment_allocation_reversals in
    let less : (k : ℕ) → settled_amount k (void_all payment l) ≤ settled_amount k l = λ k.
      live_sum_less (is_for k) rs (reverse_all payment l.payment_allocations l.next_id rs).1
        l.payment_allocations
        (λ id e. reverse_all_kept payment l.payment_allocations l.next_id rs id e) in
    subst IsSettled same (λ k some_of.
      below_less (line_sum k l.settlement_lines) (settled_amount k (void_all payment l))
        (settled_amount k l) (less k) (h k (ground (arith, less k, some_of))))

refunded-IsSettled :
    (amount payment : ℕ) (reference : Text) (l l' : Ledger)
    → IsSettled l
    → refund_payment amount payment reference l ≡ ok l'
    → IsSettled l'
unfolding refund_payment
refunded-IsSettled amount payment reference l l' h ran k = ground (arith, ran, h k)

-- Whatever is recorded, allocated, refunded or voided, no settlement gets more allocated to it than
-- the sum of its lines.
pub step-IsSettled : (l l' : Ledger) → IsSettled l → Step l l' → IsSettled l'
unfolding record_payment
step-IsSettled l _ h (record_step customer amount) = h
step-IsSettled l _ h (allocate_step amount payment settlement l' ran) =
    allocated-IsSettled amount payment settlement l l' h ran
step-IsSettled l _ h (refund_step amount payment reference l' ran) =
    refunded-IsSettled amount payment reference l l' h ran
step-IsSettled l _ h (void_step payment l' ran) = voided-IsSettled payment l l' h ran
