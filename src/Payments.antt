-- ===== src/Payments.antt =====
-- Payments and what they are used for: the transactions of payment, allocate, refund (of a payment)
-- and voidPayment of apps/api/src/receivables/receivable.service.ts, after the check of the request and
-- the look for an earlier answer.
pub mod Covered
pub mod Settled
mod Examples
use b2b_stm.Prelude.{
  ℕ, zero, suc, ◌+◌, Bool, true, false, ◌&&◌, ◌||◌, not, Option, none, some, List, [], ◌∷◌, any,
  ◌==◌, nat_eq, if◌then◌else◌, ltb, is_some,
}
use b2b_stm.Prelude.Int.{ℤ, pos, negsuc, ◌+ℤ◌}
use b2b_stm.Text.{Text, text_eq}
use b2b_stm.Table.{Table, lookup, modify, insert, total}
use b2b_stm.Tx.{Error, Result, ok, err, conflict, not_found, fault}

pub data PaymentStatus : Type 0 where
  recorded voided : PaymentStatus

pub record Payment : Type 0 where
  pub customer_id : ℕ
  pub amount : ℕ
  pub status : PaymentStatus

pub data SettlementStatus : Type 0 where
  draft finalized : SettlementStatus

pub record Settlement : Type 0 where
  pub customer_id : ℕ
  pub status : SettlementStatus

pub record SettlementLine : Type 0 where
  pub settlement_id : ℕ
  pub amount : ℤ

pub record Allocation : Type 0 where
  pub payment_id : ℕ
  pub settlement_id : ℕ
  pub amount : ℕ

-- A row of `refunds`; the payment is null where a return credit is refunded.
pub record Refund : Type 0 where
  pub payment_id : Option ℕ
  pub amount : ℕ
  pub reference : Text

-- The tables. A reversal is kept with the allocation it reverses.
pub record Ledger : Type 0 where
  pub next_id : ℕ
  pub payments : Table ℕ Payment
  pub settlements : Table ℕ Settlement
  pub settlement_lines : Table ℕ SettlementLine
  pub payment_allocations : Table ℕ Allocation
  pub payment_allocation_reversals : Table ℕ ℕ
  pub refunds : Table ℕ Refund

unfoldable pub is_reversed : ℕ → Table ℕ ℕ → Bool
is_reversed id [] = false
is_reversed id (r ∷ rs) = r.1 == id || is_reversed id rs

-- The sum of the allocations that a test picks and nothing reverses: the LEFT JOIN with
-- `payment_allocation_reversals` where `r.id IS NULL`.
unfoldable pub live_sum : (Allocation → Bool) → Table ℕ ℕ → Table ℕ Allocation → ℕ
live_sum picks rs [] = 0
live_sum picks rs ((id, a) ∷ rows) =
    (if picks a && not (is_reversed id rs) then a.amount else 0) + live_sum picks rs rows

abbrev pub is_from : ℕ → Allocation → Bool
is_from payment a = a.payment_id == payment

abbrev pub is_for : ℕ → Allocation → Bool
is_for settlement a = a.settlement_id == settlement

abbrev pub used : ℕ → Ledger → ℕ
used payment l = live_sum (is_from payment) l.payment_allocation_reversals l.payment_allocations

abbrev pub settled_amount : ℕ → Ledger → ℕ
settled_amount settlement l =
    live_sum (is_for settlement) l.payment_allocation_reversals l.payment_allocations

abbrev pub is_refund_of : ℕ → Option ℕ → Bool
is_refund_of payment none = false
is_refund_of payment (some p) = p == payment

abbrev pub refund_share : ℕ → Refund → ℕ
refund_share payment r = if is_refund_of payment r.payment_id then r.amount else 0

abbrev pub refunded : ℕ → Ledger → ℕ
refunded payment l = total (refund_share payment) l.refunds

unfoldable pub line_sum : ℕ → Table ℕ SettlementLine → ℤ
line_sum settlement [] = pos 0
line_sum settlement (s ∷ ss) =
    (if s.1.settlement_id == settlement then s.1.amount else pos 0) +ℤ line_sum settlement ss

abbrev pub is_below : ℤ → ℕ → Bool
is_below (pos a) n = ltb a n
is_below (negsuc a) n = true

abbrev pub is_recorded : PaymentStatus → Bool
is_recorded recorded = true
is_recorded voided = false

abbrev pub is_final : SettlementStatus → Bool
is_final finalized = true
is_final draft = false

-- The row where it stands in the wanted status, as `WHERE id=$1 AND status=...` selects it.
abbrev pub where_recorded : Option Payment → Option Payment
where_recorded none = none
where_recorded (some p) = if is_recorded p.status then some p else none

abbrev pub where_final : Option Settlement → Option Settlement
where_final none = none
where_final (some s) = if is_final s.status then some s else none

-- `payment`: the new payment, whose amount the request gives.
unfoldable pub record_payment : ℕ → ℕ → Ledger → Ledger
record_payment customer amount l = record l {
  next_id = suc l.next_id;
  payments =
      insert l.next_id (record { customer_id = customer; amount = amount; status = recorded })
        l.payments;
}

-- `amount>payment-used-refunded || amount>due-settled`
unfoldable pub exceeds : ℕ → ℕ → ℕ → Payment → Ledger → Bool
exceeds amount payment settlement p l =
    ltb p.amount (amount + used payment l + refunded payment l)
    || is_below (line_sum settlement l.settlement_lines) (amount + settled_amount settlement l)

abbrev pub insert_allocation : ℕ → ℕ → ℕ → Ledger → Ledger
insert_allocation amount payment settlement l = record l {
  next_id = suc l.next_id;
  payment_allocations =
      insert l.next_id
        (record { payment_id = payment; settlement_id = settlement; amount = amount })
        l.payment_allocations;
}

abbrev pub allocate_rows : ℕ → ℕ → ℕ → Ledger → Option Payment → Option Settlement → Result Ledger
allocate_rows amount payment settlement l none s =
    err (not_found "Payment or finalized settlement unavailable")
allocate_rows amount payment settlement l (some p) none =
    err (not_found "Payment or finalized settlement unavailable")
allocate_rows amount payment settlement l (some p) (some s) =
    if not (p.customer_id == s.customer_id)
    then err (conflict "Payment and settlement customer differ")
    else if exceeds amount payment settlement p l
    then err (conflict "Allocation exceeds remaining balance")
    else ok (insert_allocation amount payment settlement l)

-- `allocate`
unfoldable pub allocate_payment : ℕ → ℕ → ℕ → Ledger → Result Ledger
unfolding exceeds
allocate_payment amount payment settlement l =
    allocate_rows amount payment settlement l (where_recorded (lookup payment l.payments))
      (where_final (lookup settlement l.settlements))

abbrev pub has_reference : Text → ℕ × Refund → Bool
has_reference reference r = r.1.reference == reference

abbrev pub insert_refund : ℕ → ℕ → Text → Ledger → Ledger
insert_refund amount payment reference l = record l {
  next_id = suc l.next_id;
  refunds =
      insert l.next_id
        (record { payment_id = some payment; amount = amount; reference = reference }) l.refunds;
}

abbrev pub refund_row : ℕ → ℕ → Text → Ledger → Option Payment → Result Ledger
refund_row amount payment reference l none = err (not_found "Payment unavailable")
refund_row amount payment reference l (some p) =
    if ltb p.amount (amount + used payment l + refunded payment l)
    then err (conflict "Refund exceeds available source amount")
    else ok (insert_refund amount payment reference l)

-- `refund` where the source is a payment
unfoldable pub refund_payment : ℕ → ℕ → Text → Ledger → Result Ledger
refund_payment amount payment reference l =
    if any (has_reference reference) l.refunds
    then err (conflict "Refund reference already exists")
    else refund_row amount payment reference l (where_recorded (lookup payment l.payments))

-- A reversal for every allocation of the payment, under ids from the given one.
unfoldable pub reverse_all : ℕ → Table ℕ Allocation → ℕ → Table ℕ ℕ → ℕ × Table ℕ ℕ
reverse_all payment [] next rs = (next, rs)
reverse_all payment ((id, a) ∷ rows) next rs =
    let is_its = is_from payment a in
    reverse_all payment rows (if is_its then suc next else next)
      (if is_its then insert next id rs else rs)

abbrev pub void : Payment → Payment
void p = record p { status = voided }

unfoldable pub void_all : ℕ → Ledger → Ledger
void_all payment l =
    let reversed =
      reverse_all payment l.payment_allocations l.next_id l.payment_allocation_reversals in
    record l {
      next_id = reversed.0;
      payment_allocation_reversals = reversed.1;
      payments = modify payment void l.payments;
    }

-- An allocation is reversed once: `payment_allocation_id` is unique.
abbrev pub is_reversed_of : ℕ → Table ℕ ℕ → ℕ × Allocation → Bool
unfolding is_reversed
is_reversed_of payment rs a = is_from payment a.1 && is_reversed a.0 rs

abbrev pub void_row : ℕ → Ledger → Option Payment → Result Ledger
unfolding is_reversed void_all
void_row payment l none = err (conflict "Payment unavailable")
void_row payment l (some p) =
    if any (λ r. is_refund_of payment r.1.payment_id) l.refunds
    then err (conflict "Refunded payment cannot be voided")
    else if any (is_reversed_of payment l.payment_allocation_reversals) l.payment_allocations
    then err (fault "payment_allocation_reversals_payment_allocation_id_key")
    else ok (void_all payment l)

-- `voidPayment`
unfoldable pub void_payment : ℕ → Ledger → Result Ledger
unfolding void_all is_reversed
void_payment payment l = void_row payment l (where_recorded (lookup payment l.payments))
