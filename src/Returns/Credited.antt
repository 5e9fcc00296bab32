-- ===== src/Returns/Credited.antt =====
-- Credits of returned goods taken apart.
use b2b_stm.Prelude.{
  ℕ, ◌≤◌, ◌≡◌, refl, ap, Bool, true, false, Option, none, some, arith, any, nat_eq, if◌then◌else◌,
  ltb,
}
use b2b_stm.Table.{total}
use b2b_stm.Tx.{Result, ok, err, conflict, fault}
use b2b_stm.Returns.{
  ReturnCredit, ReturnAnswer, return_credited, ReturnTables, credited_tax, target_credit,
}
use b2b_stm.Returns.Steps.{state_of}
use b2b_stm.Returns.Credits.{
  Creditable, creditable, is_credit_of, credit_tax, new_credit, insert_credit, is_negative,
  check_credit, credit_at, credit_row, credit_work,
}

-- A successful credit.
pub record IsCredited (actor inspection q : ℕ) (s s' : ReturnTables) : Type 0 where
  pub row : Creditable
  pub price : ℕ
  pub there : creditable inspection s ≡ some row
  pub fits : q ≤ row.inspection.received_quantity
  pub new : any (is_credit_of inspection) s.return_credits ≡ false
  pub wrote :
      insert_credit row
        (new_credit actor inspection row q price (credit_tax row q s.return_credits))
        s
      ≡ s'

check_credit-state :
    (r : Creditable) (c : ReturnCredit) (s : ReturnTables) (a : ReturnAnswer) (s' : ReturnTables)
    → check_credit r c s ≡ ok (a, s')
    → insert_credit r c s ≡ s'
unfolding insert_credit
check_credit-state r c s a s' ran = go (is_negative c.tax_amount) ran
  where
    answer : ReturnAnswer
    answer =
        return_credited s.next_id c.return_inspection_id c.credited_quantity c.unit_price
          c.supply_amount c.tax_amount c.amount

    booked : Result (ReturnAnswer × ReturnTables)
    booked = ok (answer, insert_credit r c s)

    go :
        (b : Bool)
        → (if b then err (fault "return_credits_amount_check") else booked) ≡ ok (a, s')
        → insert_credit r c s ≡ s'
    go true e = cc
    go false e = ap (state_of s) e

credit_at-IsCredited :
    (actor inspection q : ℕ) (s : ReturnTables) (r : Creditable) (o : Option ℕ) (a : ReturnAnswer)
    (s' : ReturnTables)
    → creditable inspection s ≡ some r
    → q ≤ r.inspection.received_quantity
    → credit_at actor inspection q s r o ≡ ok (a, s')
    → IsCredited actor inspection q s s'
unfolding insert_credit any target_credit credited_tax total
credit_at-IsCredited actor inspection q s r none a s' there fits ran = cc
credit_at-IsCredited actor inspection q s r (some price) a s' there fits ran =
    go (any (is_credit_of inspection) s.return_credits) refl ran
  where
    credit : ReturnCredit
    credit = new_credit actor inspection r q price (credit_tax r q s.return_credits)

    go :
        (b : Bool)
        → any (is_credit_of inspection) s.return_credits ≡ b
        → (if b
            then err (conflict "Return inspection is already credited")
            else check_credit r credit s)
          ≡ ok (a, s')
        → IsCredited actor inspection q s s'
    go true e k = cc
    go false e k = record {
      row = r;
      price = price;
      there = there;
      fits = fits;
      new = e;
      wrote = check_credit-state r credit s a s' k;
    }

credit_row-IsCredited :
    (actor inspection q : ℕ) (s : ReturnTables) (o : Option Creditable) (a : ReturnAnswer)
    (s' : ReturnTables)
    → creditable inspection s ≡ o
    → credit_row actor inspection q s o ≡ ok (a, s')
    → IsCredited actor inspection q s s'
unfolding insert_credit any target_credit credited_tax total
credit_row-IsCredited actor inspection q s none a s' there ran = cc
credit_row-IsCredited actor inspection q s (some r) a s' there ran =
    go (ltb r.inspection.received_quantity q) refl ran
  where
    go :
        (b : Bool)
        → ltb r.inspection.received_quantity q ≡ b
        → (if b
            then err (conflict "Credit quantity exceeds inspected quantity")
            else credit_at actor inspection q s r r.shipped.unit_price)
          ≡ ok (a, s')
        → IsCredited actor inspection q s s'
    go true e k = cc
    go false e k =
        credit_at-IsCredited actor inspection q s r r.shipped.unit_price a s' there
          (ground (arith, e)) k

pub credit_work-IsCredited :
    (actor inspection q : ℕ) (s : ReturnTables) (a : ReturnAnswer) (s' : ReturnTables)
    → credit_work actor inspection q s ≡ ok (a, s')
    → IsCredited actor inspection q s s'
unfolding credit_work
credit_work-IsCredited actor inspection q s a s' ran =
    credit_row-IsCredited actor inspection q s (creditable inspection s) a s' refl ran
