-- ===== src/Returns/Stocked.antt =====
-- Returned goods that go back into stock, and the movements that book them.
use mathlib.Core.Path.{subst}
use b2b_stm.Prelude.{
  ℕ, ◌+◌, ◌≡◌, refl, sym, ap, ◌∙◌, Bool, Bool-cases, inl, inr, true, false, Option, none, some,
  List, [], ◌∷◌, arith, ◌==◌, nat_eq, pair_eq, if◌then◌else◌, ltb,
}
use b2b_stm.Table.{Table, lookup, insert, upsert, total}
use b2b_stm.Table.Laws.{lookup-upsert_self, lookup-upsert_ne}
use b2b_stm.Schema.{Sku, Balance}
use b2b_stm.Tx.{ok}
use b2b_stm.Returns.{ReturnLine, ReturnMovement, ReturnTables}
use b2b_stm.Returns.Input.{InspectionInput}
use b2b_stm.Returns.Operations.{
  Found, insert_line, insert_lines, insert_return, new_balance, add_on_hand, put_back,
  insert_inspection, log_movement, update_line, write_as, write_inspection, insert_disposition,
  insert_resolution,
}
use b2b_stm.Returns.Steps.{
  inspect_work-Inspected, disposition_work-IsDecided, resolution_work-IsResolved,
}
use b2b_stm.Returns.Credits.{insert_credit, new_credit, credit_tax}
use b2b_stm.Returns.Credited.{credit_work-IsCredited}
use b2b_stm.Returns.Requested.{ask_work-Few}
use b2b_stm.Returns.History.{IsKept, with_answer, Follows, follows-kept}

-- The stock of a SKU, and what movements of returns brought of it.
unfoldable pub on_hand : Sku → Table Sku Balance → ℕ
unfolding lookup
on_hand sku t = elim (lookup sku t) [ none ↦ 0 | some b ↦ b.on_hand_quantity ]

abbrev pub moved_share : Sku → ReturnMovement → ℕ
moved_share sku m = if m.sku == sku then m.quantity_delta else 0

abbrev pub moved : Sku → ReturnTables → ℕ
unfolding total
moved sku s = total (moved_share sku) s.movements

-- The stock differs from the stock at the start by what the movements since then brought.
pub record IsStocked (start s : ReturnTables) : Type 0 where
  pub balanced :
      (sku : Sku)
      → on_hand sku s.balances + moved sku start ≡ on_hand sku start.balances + moved sku s

same-IsStocked :
    (start s s' : ReturnTables)
    → s.balances ≡ s'.balances
    → s.movements ≡ s'.movements
    → IsStocked start s
    → IsStocked start s'
unfolding total
same-IsStocked start s s' balances movements h = record {
  balanced = λ sku.
      sym (ap (λ (t : Table Sku Balance). on_hand sku t + moved sku start) balances)
      ∙ h.balanced sku
      ∙ ap (λ (t : Table ℕ ReturnMovement). on_hand sku start.balances + total (moved_share sku) t)
          movements;
}

quantity_of : Option Balance → ℕ
quantity_of none = 0
quantity_of (some b) = b.on_hand_quantity

on_hand_of : (sku : Sku) (t : Table Sku Balance) → on_hand sku t ≡ quantity_of (lookup sku t)
unfolding on_hand quantity_of
on_hand_of sku t = go (lookup sku t)
  where
    go : (o : Option Balance) → (elim o [ none ↦ 0 | some b ↦ b.on_hand_quantity ]) ≡ quantity_of o
    go none = refl
    go (some b) = refl

stocked_quantity :
    (q : ℕ) (o : Option Balance)
    → quantity_of (elim o [ none ↦ some (new_balance q) | some b ↦ some (add_on_hand q b) ])
      ≡ quantity_of o + q
unfolding quantity_of
stocked_quantity q none = ground arith
stocked_quantity q (some b) = refl

on_hand-upsert_self :
    (k : Sku) (q : ℕ) (t : Table Sku Balance)
    → on_hand k (upsert k (new_balance q) (add_on_hand q) t) ≡ on_hand k t + q
on_hand-upsert_self k q t =
    on_hand_of k (upsert k (new_balance q) (add_on_hand q) t)
    ∙ ap quantity_of (lookup-upsert_self k (new_balance q) (add_on_hand q) t)
    ∙ stocked_quantity q (lookup k t)
    ∙ ap (λ (n : ℕ). n + q) (sym (on_hand_of k t))

on_hand-upsert :
    (sku k : Sku) (q : ℕ) (t : Table Sku Balance)
    → on_hand k (upsert sku (new_balance q) (add_on_hand q) t)
      ≡ on_hand k t + (if sku == k then q else 0)
on_hand-upsert sku k q t = elim (Bool-cases (sku == k)) [
  | inl same ↦
      let id : sku ≡ k = (pair_eq.beq_iff sku k).0 same in
      subst
        (λ (j : Sku).
          on_hand k (upsert j (new_balance q) (add_on_hand q) t)
          ≡ on_hand k t + (if sku == k then q else 0))
        (sym id)
        (on_hand-upsert_self k q t
          ∙ ap (λ (b : Bool). on_hand k t + (if b then q else 0)) (sym same))
  | inr other ↦
      on_hand_of k (upsert sku (new_balance q) (add_on_hand q) t)
      ∙ ap quantity_of (lookup-upsert_ne k sku (new_balance q) (add_on_hand q) t other)
      ∙ sym (on_hand_of k t)
      ∙ ground (arith, other)
]

write_as-IsStocked :
    (b : Bool) (actor line : ℕ) (l : ReturnLine) (sku : Sku) (i : InspectionInput)
    (start s : ReturnTables)
    → IsStocked start s
    → IsStocked start (write_as b actor line l sku i s)
unfolding write_as update_line insert_inspection log_movement put_back total insert
write_as-IsStocked false actor line l sku i start s h = record { balanced = h.balanced }
write_as-IsStocked true actor line l sku i start s h = record {
  balanced = λ k. omega (arith, h.balanced k, on_hand-upsert sku k i.normal s.balances);
}

insert_lines-IsStocked :
    (return : ℕ) (xs : List Found) (start s s' : ReturnTables)
    → insert_lines return xs s ≡ ok s'
    → IsStocked start s
    → IsStocked start s'
unfolding insert_lines insert_line
insert_lines-IsStocked return [] start s s' ran h = subst (IsStocked start) (ground (arith, ran)) h
insert_lines-IsStocked return (x ∷ xs) start s s' ran h =
    insert_lines-IsStocked return xs start (insert_line return x s) s' (ground (arith, ran))
      (same-IsStocked start s (insert_line return x s) refl refl h)

stock-kept : (start : ReturnTables) → IsKept (IsStocked start)
unfolding insert_return insert_credit insert insert_disposition insert_resolution write_inspection
stock-kept start = record {
  answers = λ key a s h. same-IsStocked start s (with_answer key a s) refl refl h;
  requests = λ customer actor lines s a s' h ran.
      let r = ask_work-Few customer actor lines s a s' ran in
      insert_lines-IsStocked s.next_id (r.x ∷ r.xs) start
        (insert_return customer actor r.x.1.shipment_id s) s' r.few.inserted
        (same-IsStocked start s (insert_return customer actor r.x.1.shipment_id s) refl refl h);
  inspects = λ actor line i s a s' whole h ran.
      let done = inspect_work-Inspected actor line i s a s' ran in
      subst (IsStocked start) done.wrote
        (write_as-IsStocked (ltb 0 i.normal) actor line done.found done.sku i start s h);
  decides = λ actor inspection d s a s' h ran.
      let done = disposition_work-IsDecided actor inspection d s a s' ran in
      subst (IsStocked start) done.wrote
        (same-IsStocked start s (insert_disposition actor inspection d s) refl refl h);
  resolves = λ actor disposition d s a s' h ran.
      let done = resolution_work-IsResolved actor disposition d s a s' ran in
      subst (IsStocked start) done.wrote
        (same-IsStocked start s (insert_resolution actor disposition d s) refl refl h);
  credits = λ actor inspection q s a s' h ran.
      let done = credit_work-IsCredited actor inspection q s a s' ran in
      subst (IsStocked start) done.wrote (
        same-IsStocked start s
          (insert_credit done.row
            (new_credit actor inspection done.row q done.price
              (credit_tax done.row q s.return_credits))
            s)
          refl refl h);
}

-- Whatever is requested, inspected, decided and credited, in any order: the stock of each SKU grows by
-- exactly what the movements of returns book, and nothing else changes it.
pub follows-stocked :
    (s t : ReturnTables) (sku : Sku)
    → Follows s t
    → on_hand sku t.balances + moved sku s ≡ on_hand sku s.balances + moved sku t
follows-stocked s t sku f =
    (follows-kept (IsStocked s) (stock-kept s) s t (record { balanced = λ k. refl }) f).balanced sku
