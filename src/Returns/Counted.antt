-- ===== src/Returns/Counted.antt =====
-- What was received of a return line, and what was decided on defects.
use mathlib.Core.Path.{subst}
use b2b_stm.Prelude.{
  ℕ, ◌+◌, ◌≤◌, ◌<◌, ◌≡◌, refl, sym, ap, ◌∙◌, Bool-cases, inl, inr, Option, none, some, List, [],
  ◌∷◌, arith, ◌==◌, nat_eq,
}
use b2b_stm.Table.{Table, lookup, modify, insert, total}
use b2b_stm.Table.Laws.{lookup-modify}
use b2b_stm.Tx.{ok}
use b2b_stm.Returns.{
  ReturnLine, Inspection, DefectDisposition, ReturnTables, decided_sum, resolved_sum,
}
use b2b_stm.Returns.Input.{InspectionInput, Decided}
use b2b_stm.Returns.Operations.{
  Found, insert_line, insert_lines, insert_return, receive, where_quarantined, insert_disposition,
  insert_resolution,
}
use b2b_stm.Returns.Steps.{
  Inspected, inspect_work-Inspected, Written, inspect_work-Written, disposition_work-IsDecided,
  resolution_work-IsResolved,
}
use b2b_stm.Returns.Credits.{insert_credit, new_credit, credit_tax}
use b2b_stm.Returns.Credited.{credit_work-IsCredited}
use b2b_stm.Returns.Requested.{ask_work-Few}
use b2b_stm.Returns.History.{IsKept, with_answer, Follows, follows-kept}

-- Of each line no more was received than requested, and all of it is normal or defective.
pub record IsReceived (l : ReturnLine) : Type 0 where
  pub within : l.received_quantity ≤ l.requested_quantity
  pub whole : l.normal_quantity + l.defective_quantity ≡ l.received_quantity

-- No more defective goods are decided on than an inspection found, and no more are taken out of quarantine
-- than went there. Ids that are not given out yet have no rows.
pub record IsCounted (s : ReturnTables) : Type 0 where
  pub received : (k : ℕ) (l : ReturnLine) → lookup k s.return_lines ≡ some l → IsReceived l
  pub decided :
      (k : ℕ) (i : Inspection)
      → lookup k s.return_inspections ≡ some i
      → decided_sum k s.defect_dispositions ≤ i.defective_quantity
  pub resolved :
      (k : ℕ) (d : DefectDisposition)
      → lookup k s.defect_dispositions ≡ some d
      → resolved_sum k s.defect_resolutions ≤ d.quantity
  pub known_inspection :
      (k : ℕ) (i : Inspection) → lookup k s.return_inspections ≡ some i → k < s.next_id
  pub known_disposition :
      (k : ℕ) (d : DefectDisposition) → lookup k s.defect_dispositions ≡ some d → k < s.next_id
  pub no_decided : (k : ℕ) → s.next_id ≤ k → decided_sum k s.defect_dispositions ≡ 0
  pub no_resolved : (k : ℕ) → s.next_id ≤ k → resolved_sum k s.defect_resolutions ≡ 0

record Later (s s' : ReturnTables) : Type 0 where
  lines : s.return_lines ≡ s'.return_lines
  inspections : s.return_inspections ≡ s'.return_inspections
  dispositions : s.defect_dispositions ≡ s'.defect_dispositions
  resolutions : s.defect_resolutions ≡ s'.defect_resolutions
  later : s.next_id ≤ s'.next_id

insert_line-IsCounted :
    (return : ℕ) (x : Found) (s : ReturnTables) → IsCounted s → IsCounted (insert_line return x s)
unfolding insert_line lookup insert
insert_line-IsCounted return x s h = record {
  received = λ k l e.
      let within : lookup k s.return_lines ≡ some l → l.received_quantity ≤ l.requested_quantity =
        λ o. (h.received k l o).within in
      let whole : lookup k s.return_lines ≡ some l
          → l.normal_quantity + l.defective_quantity ≡ l.received_quantity =
        λ o. (h.received k l o).whole in
      record { within = ground (arith, within, e); whole = ground (arith, whole, e) };
  decided = h.decided;
  resolved = h.resolved;
  known_inspection = λ k i e. ground (arith, h.known_inspection k i e);
  known_disposition = λ k d e. ground (arith, h.known_disposition k d e);
  no_decided = λ k n. h.no_decided k (ground arith);
  no_resolved = λ k n. h.no_resolved k (ground arith);
}

insert_disposition-IsCounted :
    (actor inspection : ℕ) (d : Decided) (i : Inspection) (s : ReturnTables)
    → lookup inspection s.return_inspections ≡ some i
    → decided_sum inspection s.defect_dispositions + d.quantity ≤ i.defective_quantity
    → IsCounted s
    → IsCounted (insert_disposition actor inspection d s)
unfolding insert_disposition insert lookup total
insert_disposition-IsCounted actor inspection d i s there fits h = record {
  received = h.received;
  decided = λ k j e. ground (arith, h.decided k j, there, fits, e);
  resolved = λ k q e. ground (arith, h.resolved k q, h.no_resolved k, e);
  known_inspection = λ k j e. ground (arith, h.known_inspection k j e);
  known_disposition = λ k q e. ground (arith, h.known_disposition k q, e);
  no_decided = λ k n. ground (arith, h.no_decided k, h.known_inspection inspection i there, n);
  no_resolved = λ k n. h.no_resolved k (ground arith);
}

where_quarantined_row :
    (o : Option DefectDisposition) (q : DefectDisposition)
    → where_quarantined o ≡ some q
    → o ≡ some q
where_quarantined_row none q e = cc
where_quarantined_row (some d) q e = ground (arith, e)

insert_resolution-IsCounted :
    (actor disposition : ℕ) (d : Decided) (q : DefectDisposition) (s : ReturnTables)
    → lookup disposition s.defect_dispositions ≡ some q
    → resolved_sum disposition s.defect_resolutions + d.quantity ≤ q.quantity
    → IsCounted s
    → IsCounted (insert_resolution actor disposition d s)
unfolding insert_resolution insert lookup total
insert_resolution-IsCounted actor disposition d q s there fits h = record {
  received = h.received;
  decided = h.decided;
  resolved = λ k p e. ground (arith, h.resolved k p, there, fits, e);
  known_inspection = λ k j e. ground (arith, h.known_inspection k j e);
  known_disposition = λ k p e. ground (arith, h.known_disposition k p e);
  no_decided = λ k n. h.no_decided k (ground arith);
  no_resolved = λ k n. ground (arith, h.no_resolved k, h.known_disposition disposition q there, n);
}

receive-IsReceived :
    (i : InspectionInput) (l : ReturnLine)
    → IsReceived l
    → l.received_quantity + i.received ≤ l.requested_quantity
    → i.normal + i.defective ≡ i.received
    → IsReceived (receive i l)
receive-IsReceived i l h fits whole =
    let before = h.whole in record { within = fits; whole = omega arith }

received_line :
    (line k : ℕ) (i : InspectionInput) (found l : ReturnLine) (t : Table ℕ ReturnLine)
    → lookup line t ≡ some found
    → lookup k (modify line (receive i) t) ≡ some l
    → IsReceived found
    → found.received_quantity + i.received ≤ found.requested_quantity
    → i.normal + i.defective ≡ i.received
    → (lookup k t ≡ some l → IsReceived l)
    → IsReceived l
received_line line k i found l t there e h fits whole others = elim (Bool-cases (line == k)) [
  | inl same ↦
      let id : line ≡ k = ground (arith, same) in
      let its : receive i found ≡ l =
        ground (arith, lookup-modify k line (receive i) t, same, there, id, e) in
      subst IsReceived its (receive-IsReceived i found h fits whole)
  | inr other ↦ others (ground (arith, lookup-modify k line (receive i) t, other, e))
]

inspect_work-IsCounted :
    (actor line : ℕ) (i : InspectionInput) (s s' : ReturnTables)
    → i.normal + i.defective ≡ i.received
    → Inspected actor line i s s'
    → Written actor line i s s'
    → IsCounted s
    → IsCounted s'
unfolding lookup insert
inspect_work-IsCounted actor line i s s' whole done w h = record {
  received = λ k l e.
      let there = ap (lookup k) (sym w.lines) ∙ e in
      let found = received_line line k i done.found l s.return_lines done.there there in
      found (h.received line done.found done.there) done.fits whole (λ o. h.received k l o);
  decided =
      λ k j e. ground (arith, h.decided k j, h.no_decided k, w.inspections, w.dispositions, e);
  resolved = λ k d e. ground (arith, h.resolved k d, w.dispositions, w.resolutions, e);
  known_inspection = λ k j e. ground (arith, h.known_inspection k j, w.inspections, w.later, e);
  known_disposition = λ k d e. ground (arith, h.known_disposition k d, w.dispositions, w.later, e);
  no_decided = λ k n. ground (arith, h.no_decided k, w.dispositions, w.later, n);
  no_resolved = λ k n. ground (arith, h.no_resolved k, w.resolutions, w.later, n);
}

insert_lines-IsCounted :
    (return : ℕ) (xs : List Found) (s s' : ReturnTables)
    → insert_lines return xs s ≡ ok s'
    → IsCounted s
    → IsCounted s'
unfolding insert_lines
insert_lines-IsCounted return [] s s' ran h = subst IsCounted (ground (arith, ran)) h
insert_lines-IsCounted return (x ∷ xs) s s' ran h =
    insert_lines-IsCounted return xs (insert_line return x s) s' (ground (arith, ran))
      (insert_line-IsCounted return x s h)

-- More ids given out, and other tables changed.
unchanged-IsCounted :
    (s : ReturnTables) (s' : ReturnTables) → Later s s' → IsCounted s → IsCounted s'
unchanged-IsCounted s s' w h = record {
  received = λ k l e. h.received k l (ap (lookup k) w.lines ∙ e);
  decided = λ k i e. ground (arith, h.decided k i, w.inspections, w.dispositions, e);
  resolved = λ k d e. ground (arith, h.resolved k d, w.dispositions, w.resolutions, e);
  known_inspection = λ k i e. ground (arith, h.known_inspection k i, w.inspections, w.later, e);
  known_disposition = λ k d e. ground (arith, h.known_disposition k d, w.dispositions, w.later, e);
  no_decided = λ k n. ground (arith, h.no_decided k, w.dispositions, w.later, n);
  no_resolved = λ k n. ground (arith, h.no_resolved k, w.resolutions, w.later, n);
}

counts-kept : IsKept IsCounted
unfolding insert_return insert_credit insert
counts-kept = record {
  answers = λ key a s h.
      unchanged-IsCounted s (with_answer key a s)
        (record {
          lines = refl;
          inspections = refl;
          dispositions = refl;
          resolutions = refl;
          later = ground arith;
        })
        h;
  requests = λ customer actor lines s a s' h ran.
      let r = ask_work-Few customer actor lines s a s' ran in
      insert_lines-IsCounted s.next_id (r.x ∷ r.xs)
        (insert_return customer actor r.x.1.shipment_id s) s' r.few.inserted
        (unchanged-IsCounted s (insert_return customer actor r.x.1.shipment_id s)
          (record {
            lines = refl;
            inspections = refl;
            dispositions = refl;
            resolutions = refl;
            later = ground arith;
          })
          h);
  inspects = λ actor line i s a s' whole h ran.
      inspect_work-IsCounted actor line i s s' whole
        (inspect_work-Inspected actor line i s a s' ran)
        (inspect_work-Written actor line i s a s' ran) h;
  decides = λ actor inspection d s a s' h ran.
      let done = disposition_work-IsDecided actor inspection d s a s' ran in
      subst IsCounted done.wrote
        (insert_disposition-IsCounted actor inspection d done.found s done.there done.fits h);
  resolves = λ actor disposition d s a s' h ran.
      let done = resolution_work-IsResolved actor disposition d s a s' ran in
      let there =
        where_quarantined_row (lookup disposition s.defect_dispositions) done.found done.there in
      subst IsCounted done.wrote
        (insert_resolution-IsCounted actor disposition d done.found s there done.fits h);
  credits = λ actor inspection q s a s' h ran.
      let done = credit_work-IsCredited actor inspection q s a s' ran in
      subst IsCounted done.wrote (
        unchanged-IsCounted s
          (insert_credit done.row
            (new_credit actor inspection done.row q done.price
              (credit_tax done.row q s.return_credits))
            s)
          (record {
            lines = refl;
            inspections = refl;
            dispositions = refl;
            resolutions = refl;
            later = ground arith;
          })
          h);
}

-- Whatever is requested, inspected, decided and credited, in any order: of no line more is received than
-- requested, and what was received is normal or defective; no more defective goods are decided on than an
-- inspection found, and no more leave quarantine than went there; if that held before.
pub follows-IsCounted : (s t : ReturnTables) → IsCounted s → Follows s t → IsCounted t
follows-IsCounted s t h f = follows-kept IsCounted counts-kept s t h f
