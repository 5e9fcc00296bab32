-- ===== src/Returns/Taxed.antt =====
-- The tax that credits of returned goods give back.
use native.Mathlib.Nat.{add-mul-div_right, div-eq_of_lt}
use mathlib.Core.Path.{subst}
use b2b_stm.Prelude.{
  ℕ, ◌+◌, ◌*◌, ◌/◌, ◌<◌, ◌≡◌, refl, sym, ap, ◌∙◌, Bool, Bool-cases, inl, inr, false, Option, none,
  some, List, [], ◌∷◌, arith, ◌==◌, nat_eq, if◌then◌else◌, beq_refl,
}
use b2b_stm.Prelude.Int.{ℤ, pos, ◌+ℤ◌, ◌-ℤ◌, +ℤ_parts, -ℤ_parts, eq_of_parts}
use b2b_stm.Table.{Table, lookup, insert, total}
use b2b_stm.Tx.{ok}
use b2b_stm.Returns.{
  ShippedTax, Shipped, ReturnLine, Inspection, ReturnCredit, ReturnTables, credited_sum,
  credited_tax, target_credit,
}
use b2b_stm.Returns.Operations.{
  insert_disposition, insert_resolution, insert_lines, insert_line, insert_return, Found,
}
use b2b_stm.Returns.Steps.{
  inspect_work-Written, disposition_work-IsDecided, resolution_work-IsResolved,
}
use b2b_stm.Returns.Credited.{credit_work-IsCredited}
use b2b_stm.Returns.Requested.{ask_work-Few}
use b2b_stm.Returns.History.{IsKept, with_answer, Follows, follows-kept}
use b2b_stm.Order.Tax.{scale, floor_div}
use b2b_stm.Returns.Credits.{
  Creditable, with_tax, with_shipped, with_line, with_inspection, creditable, credit_tax,
  new_credit, insert_credit,
}

-- The rows that the joins found.
record Joined (r : Creditable) (s : ReturnTables) : Type 0 where
  shipped : lookup r.line.shipment_line_id s.shipment_lines ≡ some r.shipped
  taxed : r.shipped.tax ≡ some r.tax

with_tax-Joined :
    (i : Inspection) (l : ReturnLine) (x : Shipped) (o : Option ShippedTax) (r : Creditable)
    (s : ReturnTables)
    → lookup l.shipment_line_id s.shipment_lines ≡ some x
    → x.tax ≡ o
    → with_tax i l x o ≡ some r
    → Joined r s
with_tax-Joined i l x none r s there has e = cc
with_tax-Joined i l x (some t) r s there has e =
    let same : record { inspection = i; line = l; shipped = x; tax = t } ≡ r = ground (arith, e) in
    subst (λ (z : Creditable). Joined z s) same (record { shipped = there; taxed = has })

with_shipped-Joined :
    (i : Inspection) (l : ReturnLine) (o : Option Shipped) (r : Creditable) (s : ReturnTables)
    → lookup l.shipment_line_id s.shipment_lines ≡ o
    → with_shipped i l o ≡ some r
    → Joined r s
with_shipped-Joined i l none r s there e = cc
with_shipped-Joined i l (some x) r s there e = with_tax-Joined i l x x.tax r s there refl e

with_line-Joined :
    (i : Inspection) (o : Option ReturnLine) (r : Creditable) (s : ReturnTables)
    → with_line i o s.shipment_lines ≡ some r
    → Joined r s
unfolding lookup
with_line-Joined i none r s e = cc
with_line-Joined i (some l) r s e =
    with_shipped-Joined i l (lookup l.shipment_line_id s.shipment_lines) r s refl e

creditable-Joined :
    (inspection : ℕ) (r : Creditable) (s : ReturnTables)
    → creditable inspection s ≡ some r
    → Joined r s
unfolding creditable
creditable-Joined inspection r s e = go (lookup inspection s.return_inspections) e
  where
    go : (o : Option Inspection) → with_inspection o s ≡ some r → Joined r s
    go none k = cc
    go (some i) k = with_line-Joined i (lookup i.return_line_id s.return_lines) r s k

-- The tax that was credited for a shipment line is the tax of the credited quantity.
pub record IsTaxed (s : ReturnTables) : Type 0 where
  pub taxed :
      (k : ℕ) (x : Shipped) (t : ShippedTax)
      → lookup k s.shipment_lines ≡ some x
      → x.tax ≡ some t
      → credited_tax k s.return_credits
        ≡ target_credit t.tax_amount x.quantity (credited_sum k s.return_credits)

same-IsTaxed :
    (s s' : ReturnTables)
    → s.shipment_lines ≡ s'.shipment_lines
    → s.return_credits ≡ s'.return_credits
    → IsTaxed s
    → IsTaxed s'
same-IsTaxed s s' shipped credits h = record {
  taxed = λ k x t there has.
      subst
        (λ (c : Table ℕ ReturnCredit).
          credited_tax k c ≡ target_credit t.tax_amount x.quantity (credited_sum k c))
        credits (h.taxed k x t (ap (lookup k) shipped ∙ there) has);
}

cancel_sub : (a b : ℤ) → (a -ℤ b) +ℤ b ≡ a
cancel_sub a b = eq_of_parts _ _ (omega (arith, +ℤ_parts (a -ℤ b) b, -ℤ_parts a b))

zero_plus : (a : ℤ) → pos 0 +ℤ a ≡ a
zero_plus a = eq_of_parts _ _ (omega (arith, +ℤ_parts (pos 0) a))

module _ (actor inspection q price : ℕ) (r : Creditable) (s : ReturnTables) where
  abbrev credit : ReturnCredit
  unfolding target_credit credited_tax total
  credit = new_credit actor inspection r q price (credit_tax r q s.return_credits)

  after_credit : Table ℕ ReturnCredit
  after_credit = insert s.next_id credit s.return_credits

  tax_before :
      (k : ℕ)
      → (r.line.shipment_line_id == k) ≡ false
      → credited_tax k after_credit ≡ credited_tax k s.return_credits
  unfolding credited_tax insert after_credit credit
  tax_before k other =
      ap (λ (b : Bool). (if b then credit.tax_amount else pos 0) +ℤ credited_tax k s.return_credits)
        other
      ∙ zero_plus (credited_tax k s.return_credits)

  sum_before :
      (k : ℕ)
      → (r.line.shipment_line_id == k) ≡ false
      → credited_sum k after_credit ≡ credited_sum k s.return_credits
  unfolding total insert after_credit credit
  sum_before k other = ground (arith, other)

  tax_of_all :
      credited_tax r.line.shipment_line_id after_credit
      ≡ target_credit r.tax.tax_amount r.shipped.quantity
          (credited_sum r.line.shipment_line_id after_credit)
  unfolding credited_tax insert after_credit total ◌+ℤ◌ target_credit credit
  tax_of_all =
      let id = r.line.shipment_line_id in
      ap
        (λ (b : Bool). (if b then credit.tax_amount else pos 0) +ℤ credited_tax id s.return_credits)
        (beq_refl id)
      ∙ cancel_sub
          (target_credit r.tax.tax_amount r.shipped.quantity (credited_sum id s.return_credits + q))
          (credited_tax id s.return_credits)
      ∙ ap (target_credit r.tax.tax_amount r.shipped.quantity) (ground (arith, beq_refl id))

  insert_credit-IsTaxed : Joined r s → IsTaxed s → IsTaxed (insert_credit r credit s)
  unfolding insert_credit insert after_credit
  insert_credit-IsTaxed j h = record { taxed = line_taxed }
    where
      line_taxed :
          (k : ℕ) (x : Shipped) (t : ShippedTax)
          → lookup k s.shipment_lines ≡ some x
          → x.tax ≡ some t
          → credited_tax k after_credit
            ≡ target_credit t.tax_amount x.quantity (credited_sum k after_credit)
      line_taxed k x t there has = elim (Bool-cases (r.line.shipment_line_id == k)) [
        | inl same ↦
            let id : r.line.shipment_line_id ≡ k = ground (arith, same) in
            let its : r.shipped ≡ x = ground (arith, j.shipped, there, id) in
            let tax : r.tax ≡ t = ground (arith, j.taxed, has, its) in
            subst
              (λ (m : ℕ).
                credited_tax m after_credit
                ≡ target_credit t.tax_amount x.quantity (credited_sum m after_credit))
              id
              (tax_of_all ∙ (λ n.
                target_credit (tax n).tax_amount (its n).quantity
                  (credited_sum r.line.shipment_line_id after_credit)))
        | inr other ↦
            tax_before k other
            ∙ h.taxed k x t there has
            ∙ ap (target_credit t.tax_amount x.quantity) (sym (sum_before k other))
      ]

-- Inserting lines changes neither table.
insert_lines-IsTaxed :
    (return : ℕ) (xs : List Found) (s s' : ReturnTables)
    → insert_lines return xs s ≡ ok s'
    → IsTaxed s
    → IsTaxed s'
unfolding insert_lines insert_line
insert_lines-IsTaxed return [] s s' ran h = subst IsTaxed (ground (arith, ran)) h
insert_lines-IsTaxed return (x ∷ xs) s s' ran h =
    insert_lines-IsTaxed return xs (insert_line return x s) s' (ground (arith, ran))
      (same-IsTaxed s (insert_line return x s) refl refl h)

taxes-kept : IsKept IsTaxed
unfolding insert_disposition insert_resolution insert_credit insert insert_return credit ◌+ℤ◌
taxes-kept = record {
  answers = λ key a s h. same-IsTaxed s (with_answer key a s) refl refl h;
  requests = λ customer actor lines s a s' h ran.
      let few = ask_work-Few customer actor lines s a s' ran in
      insert_lines-IsTaxed s.next_id (few.x ∷ few.xs)
        (insert_return customer actor few.x.1.shipment_id s) s' few.few.inserted
        (same-IsTaxed s (insert_return customer actor few.x.1.shipment_id s) refl refl h);
  inspects = λ actor line i s a s' whole h ran.
      let done = inspect_work-Written actor line i s a s' ran in
      same-IsTaxed s s' (sym done.shipped) (sym done.credits) h;
  decides = λ actor inspection d s a s' h ran.
      let done = disposition_work-IsDecided actor inspection d s a s' ran in
      subst IsTaxed done.wrote
        (same-IsTaxed s (insert_disposition actor inspection d s) refl refl h);
  resolves = λ actor disposition d s a s' h ran.
      let done = resolution_work-IsResolved actor disposition d s a s' ran in
      subst IsTaxed done.wrote
        (same-IsTaxed s (insert_resolution actor disposition d s) refl refl h);
  credits = λ actor inspection q s a s' h ran.
      let done = credit_work-IsCredited actor inspection q s a s' ran in
      subst IsTaxed done.wrote (
        insert_credit-IsTaxed actor inspection q done.price done.row s
          (creditable-Joined inspection done.row s done.there) h);
}

-- However a shipment line is returned in parts, and in whatever order parts are credited, the tax credited
-- for it is the rounded tax of the quantity credited, if that held before.
pub follows-IsTaxed : (s t : ReturnTables) → IsTaxed s → Follows s t → IsTaxed t
follows-IsTaxed s t h f = follows-kept IsTaxed taxes-kept s t h f

half_over : (n q : ℕ) → 0 < q → (n * q + q / 2) / q ≡ n
half_over n q h =
    let half : q / 2 < q = omega arith in
    ap (λ (m : ℕ). m / q) (omega arith)
    ∙ add-mul-div_right (q / 2) n h
    ∙ ap (λ (m : ℕ). m + n) (div-eq_of_lt half)
    ∙ omega arith

scaled_sum : (n q : ℕ) → scale (pos n) q +ℤ pos (q / 2) ≡ pos (n * q + q / 2)
unfolding scale ◌+ℤ◌
scaled_sum n q = ground arith

whole_target : (n q : ℕ) → 0 < q → target_credit (pos n) q q ≡ pos n
unfolding target_credit floor_div
whole_target n q h = ap (λ (z : ℤ). floor_div z q) (scaled_sum n q) ∙ ap pos (half_over n q h)

-- When all that was shipped of a line has been credited, the credits give back exactly the tax that the
-- shipment booked, if the tax credited before was the rounded one.
pub follows-whole_tax :
    (s t : ReturnTables) (k : ℕ) (x : Shipped) (w : ShippedTax) (n : ℕ)
    → IsTaxed s
    → Follows s t
    → lookup k t.shipment_lines ≡ some x
    → x.tax ≡ some w
    → w.tax_amount ≡ pos n
    → 0 < x.quantity
    → credited_sum k t.return_credits ≡ x.quantity
    → credited_tax k t.return_credits ≡ pos n
follows-whole_tax s t k x w n h f there has amount some_shipped all =
    (follows-IsTaxed s t h f).taxed k x w there has
    ∙ (λ i. target_credit (amount i) x.quantity (all i))
    ∙ whole_target n x.quantity some_shipped
