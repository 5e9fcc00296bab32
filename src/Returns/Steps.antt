-- ===== src/Returns/Steps.antt =====
-- Successful transactions of the return service taken apart: what was found, what was tested, and what was
-- written.
use mathlib.Core.Path.{subst}
use b2b_stm.Prelude.{
  ℕ, suc, ◌+◌, ◌≤◌, ◌≡◌, refl, ap, Bool, true, false, ◌&&◌, Option, none, some, arith, any, ◌==◌,
  nat_eq, pair_eq, if◌then◌else◌, ltb,
}
use b2b_stm.Table.{lookup, modify, insert, total}
use b2b_stm.Schema.{Sku}
use b2b_stm.Tx.{Error, Result, ok, err, not_found, conflict, fault}
use b2b_stm.Returns.{
  Shipped, ReturnLine, Inspection, DefectDisposition, ReturnAnswer, line_inspected, defect_decided,
  defect_resolved, ReturnTables, decided_sum, resolved_sum,
}
use b2b_stm.Returns.Input.{InspectionInput, Decided}
use b2b_stm.Returns.Operations.{
  receive, inspect_work, inspect_line, write_inspection, write_as, new_inspection, join_shipment,
  join_line, has_no_room, status_of, update_line, put_back, insert_inspection, log_movement,
  disposition_work, dispose_of, lacks_supplier, insert_disposition, resolution_work, resolve_with,
  where_quarantined, insert_resolution,
}

-- The state of a successful run, or another one.
abbrev pub state_of : ReturnTables → Result (ReturnAnswer × ReturnTables) → ReturnTables
state_of s (ok (a, t)) = t
state_of s (err e) = s

-- Two tests that were passed.
pub record Passed (b c : Bool) (r : Result (ReturnAnswer × ReturnTables)) (a : ReturnAnswer)
    (s' : ReturnTables) : Type 0 where
  pub first : b ≡ false
  pub second : c ≡ false
  pub last : r ≡ ok (a, s')

pub if-Passed :
    (b c : Bool) (e f : Error) (r : Result (ReturnAnswer × ReturnTables)) (a : ReturnAnswer)
    (s' : ReturnTables)
    → (if b then err e else if c then err f else r) ≡ ok (a, s')
    → Passed b c r a s'
if-Passed true c e f r a s' h = cc
if-Passed false true e f r a s' h = cc
if-Passed false false e f r a s' h = record { first = refl; second = refl; last = h }

pub ok-state :
    (s : ReturnTables) (r : Result (ReturnAnswer × ReturnTables)) (a : ReturnAnswer)
    (s' : ReturnTables)
    → r ≡ ok (a, s')
    → state_of s r ≡ s'
ok-state s r a s' h = ap (state_of s) h

-- A successful inspection.
pub record Inspected (actor line : ℕ) (i : InspectionInput) (s s' : ReturnTables) : Type 0 where
  pub found : ReturnLine
  pub sku : Sku
  pub there : lookup line s.return_lines ≡ some found
  pub fits : found.received_quantity + i.received ≤ found.requested_quantity
  pub wrote : write_inspection actor line found sku i s ≡ s'

if_err :
    (b : Bool) (e : Error) (r : Result (ReturnAnswer × ReturnTables)) (a : ReturnAnswer)
    (s' : ReturnTables)
    → (if b then err e else r) ≡ ok (a, s')
    → r ≡ ok (a, s')
if_err true e r a s' h = cc
if_err false e r a s' h = h

joined_line :
    (x : ReturnLine) (o : Option Shipped) (l : ReturnLine) (sku : Sku)
    → join_shipment x o ≡ some (l, sku)
    → x ≡ l
joined_line x none l sku h = ground (arith, h)
joined_line x (some y) l sku h = ground (arith, h)

join_line-lookup :
    (o : Option ReturnLine) (s : ReturnTables) (l : ReturnLine) (sku : Sku)
    → join_line o s ≡ some (l, sku)
    → o ≡ some l
unfolding lookup
join_line-lookup none s l sku h = cc
join_line-lookup (some x) s l sku h =
    ap some (joined_line x (lookup x.shipment_line_id s.shipment_lines) l sku h)

inspect_line-Inspected :
    (actor line : ℕ) (i : InspectionInput) (s : ReturnTables) (l : ReturnLine) (sku : Sku)
    (a : ReturnAnswer) (s' : ReturnTables)
    → lookup line s.return_lines ≡ some l
    → inspect_line actor line i s (some (l, sku)) ≡ ok (a, s')
    → Inspected actor line i s s'
unfolding write_inspection lookup any
inspect_line-Inspected actor line i s l sku a s' there ran =
    let after = write_inspection actor line l sku i s in
    let answer =
      line_inspected line (status_of l.return_id after.return_lines) i.received i.normal
        i.defective in
    let p =
      if-Passed (ltb l.requested_quantity (l.received_quantity + i.received))
        (ltb 0 i.normal && any (λ c. c == sku) s.counting)
        (conflict "Inspection quantity exceeds remaining return quantity")
        (conflict "SKU is under stock count") _ a s' ran in
    record {
      found = l;
      sku = sku;
      there = there;
      fits = ground (arith, p.first);
      wrote = ok-state s (ok (answer, after)) a s' (
          if_err (ltb 0 i.normal && has_no_room i.normal (lookup sku s.balances))
            (fault "integer out of range") (ok (answer, after)) a s' p.last);
    }

pub inspect_work-Inspected :
    (actor line : ℕ) (i : InspectionInput) (s : ReturnTables) (a : ReturnAnswer) (s' : ReturnTables)
    → inspect_work actor line i s ≡ ok (a, s')
    → Inspected actor line i s s'
unfolding inspect_work
inspect_work-Inspected actor line i s a s' ran =
    go (join_line (lookup line s.return_lines) s) refl ran
  where
    go :
        (o : Option (ReturnLine × Sku))
        → join_line (lookup line s.return_lines) s ≡ o
        → inspect_line actor line i s o ≡ ok (a, s')
        → Inspected actor line i s s'
    go none e r = cc
    go (some (l, sku)) e r =
        inspect_line-Inspected actor line i s l sku a s'
          (join_line-lookup (lookup line s.return_lines) s l sku e) r

-- What an inspection writes of each table.
pub record Written (actor line : ℕ) (i : InspectionInput) (s s' : ReturnTables) : Type 0 where
  pub lines : s'.return_lines ≡ modify line (receive i) s.return_lines
  pub inspections :
      s'.return_inspections ≡ insert s.next_id (new_inspection actor line i) s.return_inspections
  pub shipped : s'.shipment_lines ≡ s.shipment_lines
  pub dispositions : s'.defect_dispositions ≡ s.defect_dispositions
  pub resolutions : s'.defect_resolutions ≡ s.defect_resolutions
  pub credits : s'.return_credits ≡ s.return_credits
  pub later : suc s.next_id ≤ s'.next_id

write_as-Written :
    (b : Bool) (actor line : ℕ) (l : ReturnLine) (sku : Sku) (i : InspectionInput)
    (s : ReturnTables)
    → Written actor line i s (write_as b actor line l sku i s)
unfolding write_as update_line insert_inspection log_movement put_back
write_as-Written false actor line l sku i s = record {
  lines = refl;
  inspections = refl;
  shipped = refl;
  dispositions = refl;
  resolutions = refl;
  credits = refl;
  later = ground arith;
}
write_as-Written true actor line l sku i s = record {
  lines = refl;
  inspections = refl;
  shipped = refl;
  dispositions = refl;
  resolutions = refl;
  credits = refl;
  later = ground arith;
}

pub inspect_work-Written :
    (actor line : ℕ) (i : InspectionInput) (s : ReturnTables) (a : ReturnAnswer) (s' : ReturnTables)
    → inspect_work actor line i s ≡ ok (a, s')
    → Written actor line i s s'
unfolding write_inspection
inspect_work-Written actor line i s a s' ran =
    let done = inspect_work-Inspected actor line i s a s' ran in
    subst (Written actor line i s) done.wrote
      (write_as-Written (ltb 0 i.normal) actor line done.found done.sku i s)

-- A successful decision on defects.
pub record IsDecided (actor inspection : ℕ) (d : Decided) (s s' : ReturnTables) : Type 0 where
  pub found : Inspection
  pub there : lookup inspection s.return_inspections ≡ some found
  pub fits : decided_sum inspection s.defect_dispositions + d.quantity ≤ found.defective_quantity
  pub wrote : insert_disposition actor inspection d s ≡ s'

dispose_of-IsDecided :
    (actor inspection : ℕ) (d : Decided) (s : ReturnTables) (i : Inspection) (a : ReturnAnswer)
    (s' : ReturnTables)
    → lookup inspection s.return_inspections ≡ some i
    → dispose_of actor inspection d s (some i) ≡ ok (a, s')
    → IsDecided actor inspection d s s'
unfolding insert_disposition lookup total
dispose_of-IsDecided actor inspection d s i a s' there ran =
    let p =
      if-Passed
        (ltb i.defective_quantity (decided_sum inspection s.defect_dispositions + d.quantity))
        (lacks_supplier d s) (conflict "Defect disposition exceeds inspected quantity")
        (not_found "Supplier unavailable")
        (ok (
          defect_decided inspection d.quantity d.destination,
          insert_disposition actor inspection d s,
        ))
        a s' ran in
    record {
      found = i;
      there = there;
      fits = ground (arith, p.first);
      wrote = ok-state s _ a s' p.last;
    }

pub disposition_work-IsDecided :
    (actor inspection : ℕ) (d : Decided) (s : ReturnTables) (a : ReturnAnswer) (s' : ReturnTables)
    → disposition_work actor inspection d s ≡ ok (a, s')
    → IsDecided actor inspection d s s'
unfolding disposition_work
disposition_work-IsDecided actor inspection d s a s' ran =
    go (lookup inspection s.return_inspections) refl ran
  where
    go :
        (o : Option Inspection)
        → lookup inspection s.return_inspections ≡ o
        → dispose_of actor inspection d s o ≡ ok (a, s')
        → IsDecided actor inspection d s s'
    go none e r = cc
    go (some i) e r = dispose_of-IsDecided actor inspection d s i a s' e r

-- A successful resolution of quarantined defects.
pub record IsResolved (actor disposition : ℕ) (d : Decided) (s s' : ReturnTables) : Type 0 where
  pub found : DefectDisposition
  pub there : where_quarantined (lookup disposition s.defect_dispositions) ≡ some found
  pub fits : resolved_sum disposition s.defect_resolutions + d.quantity ≤ found.quantity
  pub wrote : insert_resolution actor disposition d s ≡ s'

resolve_with-IsResolved :
    (actor disposition : ℕ) (d : Decided) (s : ReturnTables) (q : DefectDisposition)
    (a : ReturnAnswer) (s' : ReturnTables)
    → where_quarantined (lookup disposition s.defect_dispositions) ≡ some q
    → resolve_with actor disposition d s (some q) ≡ ok (a, s')
    → IsResolved actor disposition d s s'
unfolding insert_resolution lookup total
resolve_with-IsResolved actor disposition d s q a s' there ran =
    let p =
      if-Passed (ltb q.quantity (resolved_sum disposition s.defect_resolutions + d.quantity))
        (lacks_supplier d s) (conflict "Defect resolution exceeds quarantined quantity")
        (not_found "Supplier unavailable")
        (ok (
          defect_resolved s.next_id disposition d.quantity d.destination,
          insert_resolution actor disposition d s,
        ))
        a s' ran in
    record {
      found = q;
      there = there;
      fits = ground (arith, p.first);
      wrote = ok-state s _ a s' p.last;
    }

pub resolution_work-IsResolved :
    (actor disposition : ℕ) (d : Decided) (s : ReturnTables) (a : ReturnAnswer) (s' : ReturnTables)
    → resolution_work actor disposition d s ≡ ok (a, s')
    → IsResolved actor disposition d s s'
unfolding resolution_work
resolution_work-IsResolved actor disposition d s a s' ran =
    go (where_quarantined (lookup disposition s.defect_dispositions)) refl ran
  where
    go :
        (o : Option DefectDisposition)
        → where_quarantined (lookup disposition s.defect_dispositions) ≡ o
        → resolve_with actor disposition d s o ≡ ok (a, s')
        → IsResolved actor disposition d s s'
    go none e r = cc
    go (some q) e r = resolve_with-IsResolved actor disposition d s q a s' e r
