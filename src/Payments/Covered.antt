-- ===== src/Payments/Covered.antt =====
-- What payments are used for never exceeds them.
use mathlib.Core.Path.{subst}
use b2b_stm.Prelude.{
  ℕ, suc, ◌+◌, ◌≤◌, ◌<◌, ◌≡◌, ◌≢◌, refl, Bool, true, Option, none, some, [], ◌∷◌, arith, nat_eq,
}
use b2b_stm.Table.{Table, lookup, insert, total}
use b2b_stm.Table.Laws.{lookup-modify}
use b2b_stm.Text.{Text, text_eq}
use b2b_stm.Tx.{ok}
use b2b_stm.Payments.{
  Payment, voided, Allocation, Ledger, is_reversed, live_sum, is_from, used, refunded,
  where_recorded, record_payment, exceeds, allocate_payment, refund_payment, reverse_all, void,
  void_all, void_payment, insert_allocation, insert_refund,
}

-- Every payment covers its live allocations and its refunds, and an id that is not given out yet names
-- no payment and nothing that is charged to one.
pub record IsCovered (l : Ledger) : Type 0 where
  pub covered :
      (k : ℕ) (p : Payment) → lookup k l.payments ≡ some p → used k l + refunded k l ≤ p.amount
  pub known : (k : ℕ) (p : Payment) → lookup k l.payments ≡ some p → k < l.next_id
  pub unused : (k : ℕ) → l.next_id ≤ k → used k l + refunded k l ≡ 0

record_payment-IsCovered :
    (customer amount : ℕ) (l : Ledger) → IsCovered l → IsCovered (record_payment customer amount l)
unfolding record_payment lookup insert
record_payment-IsCovered customer amount l h = record {
  covered = λ k p e. ground (arith, h.covered k p, h.unused k, e);
  known = λ k p e. ground (arith, h.known k p, e);
  unused = λ k n. ground (arith, h.unused k, n);
}

where_recorded_row :
    (k : ℕ) (p : Payment) (l : Ledger)
    → where_recorded (lookup k l.payments) ≡ some p
    → lookup k l.payments ≡ some p
where_recorded_row k p l e = ground (arith, e)

module _ (amount payment : ℕ) (p : Payment) (l l' : Ledger) (h : IsCovered l)
    (there : lookup payment l.payments ≡ some p)
    (fits : amount + used payment l + refunded payment l ≤ p.amount) where
  insert_allocation-IsCovered :
      (settlement : ℕ) → IsCovered (insert_allocation amount payment settlement l)
  unfolding live_sum insert
  insert_allocation-IsCovered settlement = record {
    covered = λ k x e. ground (arith, h.covered k x, fits, there, e);
    known = λ k x e. ground (arith, h.known k x, e);
    unused = λ k n. ground (arith, h.unused k, h.known payment p there, n);
  }

  insert_refund-IsCovered :
      (reference : Text) → IsCovered (insert_refund amount payment reference l)
  unfolding total insert
  insert_refund-IsCovered reference = record {
    covered = λ k x e. ground (arith, h.covered k x, fits, there, e);
    known = λ k x e. ground (arith, h.known k x, e);
    unused = λ k n. ground (arith, h.unused k, h.known payment p there, n);
  }

module _ (amount payment : ℕ) (l l' : Ledger) (h : IsCovered l) where
  allocate_payment-IsCovered :
      (settlement : ℕ) → allocate_payment amount payment settlement l ≡ ok l' → IsCovered l'
  unfolding allocate_payment exceeds
  allocate_payment-IsCovered settlement ran =
      charged (where_recorded (lookup payment l.payments)) refl
    where
      charged : (o : Option Payment) → where_recorded (lookup payment l.payments) ≡ o → IsCovered l'
      charged none e = ground (arith, e, ran)
      charged (some p) e =
          let there = where_recorded_row payment p l e in
          let fits : amount + used payment l + refunded payment l ≤ p.amount =
            ground (arith, e, ran) in
          let same : insert_allocation amount payment settlement l ≡ l' = ground (arith, e, ran) in
          subst IsCovered same
            (insert_allocation-IsCovered amount payment p l l' h there fits settlement)

  refund_payment-IsCovered :
      (reference : Text) → refund_payment amount payment reference l ≡ ok l' → IsCovered l'
  unfolding refund_payment
  refund_payment-IsCovered reference ran = charged (where_recorded (lookup payment l.payments)) refl
    where
      charged : (o : Option Payment) → where_recorded (lookup payment l.payments) ≡ o → IsCovered l'
      charged none e = ground (arith, e, ran)
      charged (some p) e =
          let there = where_recorded_row payment p l e in
          let fits : amount + used payment l + refunded payment l ≤ p.amount =
            ground (arith, e, ran) in
          let same : insert_refund amount payment reference l ≡ l' = ground (arith, e, ran) in
          subst IsCovered same
            (insert_refund-IsCovered amount payment p l l' h there fits reference)

-- More reversals leave less.
pub reverse_all_kept :
    (payment : ℕ) (rows : Table ℕ Allocation) (next : ℕ) (rs : Table ℕ ℕ) (id : ℕ)
    → is_reversed id rs ≡ true
    → is_reversed id (reverse_all payment rows next rs).1 ≡ true
unfolding reverse_all is_reversed insert
reverse_all_kept payment [] next rs id e = e
reverse_all_kept payment ((j, a) ∷ rows) next rs id e = ground (
  arith,
  e,
  reverse_all_kept payment rows (suc next) ((next, j) ∷ rs) id,
  reverse_all_kept payment rows next rs id,
)

pub live_sum_less :
    (picks : Allocation → Bool) (rs rs' : Table ℕ ℕ) (rows : Table ℕ Allocation)
    → ((id : ℕ) → is_reversed id rs ≡ true → is_reversed id rs' ≡ true)
    → live_sum picks rs' rows ≤ live_sum picks rs rows
unfolding live_sum
live_sum_less picks rs rs' [] more = ground arith
live_sum_less picks rs rs' ((id, a) ∷ rows) more =
    ground (arith, more id, live_sum_less picks rs rs' rows more)

next-reverse_all :
    (payment : ℕ) (rows : Table ℕ Allocation) (next : ℕ) (rs : Table ℕ ℕ)
    → next ≤ (reverse_all payment rows next rs).0
unfolding reverse_all insert
next-reverse_all payment [] next rs = ground arith
next-reverse_all payment ((j, a) ∷ rows) next rs = ground (
  arith,
  next-reverse_all payment rows (suc next) ((next, j) ∷ rs),
  next-reverse_all payment rows next rs,
)

-- After the reversals nothing of the payment is live.
live_sum-reverse_all :
    (payment : ℕ) (rows : Table ℕ Allocation) (next : ℕ) (rs : Table ℕ ℕ)
    → live_sum (is_from payment) (reverse_all payment rows next rs).1 rows ≡ 0
unfolding reverse_all live_sum insert is_reversed
live_sum-reverse_all payment [] next rs = refl
live_sum-reverse_all payment ((j, a) ∷ rows) next rs = ground (
  arith,
  live_sum-reverse_all payment rows (suc next) ((next, j) ∷ rs),
  live_sum-reverse_all payment rows next rs,
  reverse_all_kept payment rows (suc next) ((next, j) ∷ rs) j,
)

void_all-IsCovered : (payment : ℕ) (l : Ledger) → IsCovered l → IsCovered (void_all payment l)
unfolding void_all
void_all-IsCovered payment l h =
    let rs = l.payment_allocation_reversals in
    let rs' = (reverse_all payment l.payment_allocations l.next_id rs).1 in
    let less : (k : ℕ) → live_sum (is_from k) rs' l.payment_allocations ≤ used k l = λ k.
      live_sum_less (is_from k) rs rs' l.payment_allocations
        (λ id e. reverse_all_kept payment l.payment_allocations l.next_id rs id e) in
    let later = next-reverse_all payment l.payment_allocations l.next_id rs in
    record {
      covered = λ k p e.
          elim (lookup k l.payments)
              as (λ o.
                lookup k l.payments ≡ o → used k (void_all payment l) + refunded k l ≤ p.amount) [
                  | none ↦ λ no. ground (arith, no, e, lookup-modify k payment void l.payments)
                  | some x ↦ λ there. ground (
                    arith,
                    there,
                    e,
                    less k,
                    h.covered k x there,
                    lookup-modify k payment void l.payments,
                  )
                ]
            refl;
      known = λ k p e.
          elim (lookup k l.payments)
              as (λ o. lookup k l.payments ≡ o → k < (void_all payment l).next_id) [
                | none ↦ λ no. ground (arith, no, e, lookup-modify k payment void l.payments)
                | some x ↦ λ there. ground (arith, later, h.known k x there)
              ]
            refl;
      unused = λ k n. ground (arith, less k, later, n, h.unused k);
    }

void_payment-IsCovered :
    (payment : ℕ) (l l' : Ledger) → IsCovered l → void_payment payment l ≡ ok l' → IsCovered l'
unfolding void_payment
void_payment-IsCovered payment l l' h ran =
    let same : void_all payment l ≡ l' = ground (arith, ran) in
    subst IsCovered same (void_all-IsCovered payment l h)

-- A successful operation on payments.
pub data Step (l : Ledger) : Ledger → Type 0 where
  record_step : (customer amount : ℕ) → Step l (record_payment customer amount l)
  allocate_step :
      (amount payment settlement : ℕ) (l' : Ledger)
      → allocate_payment amount payment settlement l ≡ ok l'
      → Step l l'
  refund_step :
      (amount payment : ℕ) (reference : Text) (l' : Ledger)
      → refund_payment amount payment reference l ≡ ok l'
      → Step l l'
  void_step : (payment : ℕ) (l' : Ledger) → void_payment payment l ≡ ok l' → Step l l'

-- Whatever is recorded, allocated, refunded or voided, every payment goes on to cover its live
-- allocations and its refunds.
pub step-IsCovered : (l l' : Ledger) → IsCovered l → Step l l' → IsCovered l'
step-IsCovered l _ h (record_step customer amount) = record_payment-IsCovered customer amount l h
step-IsCovered l _ h (allocate_step amount payment settlement l' ran) =
    allocate_payment-IsCovered amount payment l l' h settlement ran
step-IsCovered l _ h (refund_step amount payment reference l' ran) =
    refund_payment-IsCovered amount payment l l' h reference ran
step-IsCovered l _ h (void_step payment l' ran) = void_payment-IsCovered payment l l' h ran

-- A payment that is voided was there, keeps its row with no change but the status voided, has no live
-- allocation left, and can be neither allocated nor refunded nor voided again.
pub void_payment-final :
    (payment : ℕ) (l l' : Ledger)
    → void_payment payment l ≡ ok l'
    → (lookup payment l.payments ≢ none)
      × ((p : Payment)
          → lookup payment l.payments ≡ some p
          → lookup payment l'.payments ≡ some (record p { status = voided }))
      × (used payment l' ≡ 0)
      × (((amount settlement : ℕ) (l'' : Ledger)
            → allocate_payment amount payment settlement l' ≢ ok l'')
          × (((amount : ℕ) (reference : Text) (l'' : Ledger)
                → refund_payment amount payment reference l' ≢ ok l'')
              × ((l'' : Ledger) → void_payment payment l' ≢ ok l'')))
unfolding void_payment void_all allocate_payment refund_payment
void_payment-final payment l l' ran =
    let same : void_all payment l ≡ l' = ground (arith, ran) in
    let gone : where_recorded (lookup payment l'.payments) ≡ none =
      ground (arith, ran, lookup-modify payment payment void l.payments) in
    (
      λ e. ground (arith, e, ran),
      λ p there. ground (arith, there, ran, lookup-modify payment payment void l.payments),
      subst (λ m. used payment m ≡ 0) same
          (live_sum-reverse_all payment l.payment_allocations l.next_id
            l.payment_allocation_reversals),
      (
        λ amount settlement l'' e. ground (arith, gone, e),
        (λ amount reference l'' e. ground (arith, gone, e), λ l'' e. ground (arith, gone, e)),
      ),
    )
