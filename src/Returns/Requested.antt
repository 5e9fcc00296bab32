-- ===== src/Returns/Requested.antt =====
-- Never more is requested back of a shipment line than was shipped.
use mathlib.Core.Path.{subst}
use b2b_stm.Prelude.{
  ℕ, ◌+◌, ◌≤◌, ◌≡◌, refl, sym, ap, ◌∙◌, Bool, true, false, not, Option, none, some, List, [], ◌∷◌,
  arith, any, nat_eq, if◌then◌else◌, beq_refl,
}
use b2b_stm.Table.{Table, lookup, modify, insert, total}
use b2b_stm.Tx.{Result, ok, err, bad_request, conflict}
use b2b_stm.Returns.{
  Shipped, ReturnLine, ReturnAnswer, return_requested, ReturnTables, requested_sum,
}
use b2b_stm.Returns.Input.{RequestLine, InspectionInput}
use b2b_stm.Returns.Operations.{
  Found, is_of_shipment, add_found, find_lines, is_too_many, is_line_of, insert_line, insert_lines,
  insert_return, request_found, ask_work, answer_with, receive, inspect_work, insert_disposition,
  insert_resolution,
}
use b2b_stm.Returns.Credits.{insert_credit, new_credit, credit_tax}
use b2b_stm.Returns.Steps.{
  inspect_work-Written, disposition_work-IsDecided, resolution_work-IsResolved,
}
use b2b_stm.Returns.Credited.{credit_work-IsCredited}
use b2b_stm.Returns.History.{IsKept, with_answer, Follows, follows-kept}

pub record IsRequested (s : ReturnTables) : Type 0 where
  pub fits :
      (k : ℕ) (x : Shipped)
      → lookup k s.shipment_lines ≡ some x
      → requested_sum k s.return_lines ≤ x.quantity

-- Lines that fit on top of what was requested before, and are of the shipment lines they were found for.
data Fit (base : ℕ → ℕ) (t : Table ℕ Shipped) : List Found → Type 0 where
  no_more : Fit base t []
  one_line :
      (l : RequestLine) (x : Shipped) (rest : List Found)
      → lookup l.shipment_line t ≡ some x
      → base l.shipment_line + l.quantity ≤ x.quantity
      → Fit base t rest
      → Fit base t ((l, x) ∷ rest)

-- While the lines of a return are inserted, a shipment line that has none of them yet is requested as before.
record Between (return : ℕ) (base : ℕ → ℕ) (s : ReturnTables) : Type 0 where
  untouched :
      (k : ℕ)
      → any (is_line_of return k) s.return_lines ≡ false
      → requested_sum k s.return_lines ≡ base k
  all_fit : IsRequested s

insert_line-Between :
    (return : ℕ) (base : ℕ → ℕ) (s : ReturnTables) (l : RequestLine) (x : Shipped)
    → Between return base s
    → any (is_line_of return l.shipment_line) s.return_lines ≡ false
    → lookup l.shipment_line s.shipment_lines ≡ some x
    → base l.shipment_line + l.quantity ≤ x.quantity
    → Between return base (insert_line return (l, x) s)
unfolding insert_line any total insert
insert_line-Between return base s l x h new there fit = record {
  untouched = λ k e. ground (arith, h.untouched k, e, beq_refl return);
  all_fit = record {
    fits = λ k y e.
        ground (arith, h.all_fit.fits k y, h.untouched l.shipment_line, new, there, fit, e);
  };
}

insert_lines-IsRequested :
    (return : ℕ) (base : ℕ → ℕ) (xs : List Found) (s s' : ReturnTables)
    → Between return base s
    → Fit base s.shipment_lines xs
    → insert_lines return xs s ≡ ok s'
    → IsRequested s'
unfolding insert_lines insert_line
insert_lines-IsRequested return base [] s s' h _ ran =
    subst IsRequested (ground (arith, ran)) h.all_fit
insert_lines-IsRequested return base ((l, x) ∷ xs) s s' h (one_line _ _ _ there fit rest) ran =
    let new : any (is_line_of return l.shipment_line) s.return_lines ≡ false =
      ground (arith, ran) in
    insert_lines-IsRequested return base xs (insert_line return (l, x) s) s'
      (insert_line-Between return base s l x h new there fit) rest (ground (arith, ran, new))

pub record Few (customer actor : ℕ) (s : ReturnTables) (x : Found) (xs : List Found)
    (s' : ReturnTables) : Type 0 where
  pub few : any (is_too_many s) (x ∷ xs) ≡ false
  pub inserted :
      insert_lines s.next_id (x ∷ xs) (insert_return customer actor x.1.shipment_id s) ≡ ok s'

answer_with_ok :
    (a b : ReturnAnswer) (r : Result ReturnTables) (s : ReturnTables)
    → answer_with a r ≡ ok (b, s)
    → r ≡ ok s
answer_with_ok a b (ok t) s e = ground (arith, e)
answer_with_ok a b (err x) s e = cc

request_found-Few :
    (customer actor : ℕ) (s : ReturnTables) (x : Found) (xs : List Found) (a : ReturnAnswer)
    (s' : ReturnTables)
    → request_found customer actor s (some (x ∷ xs)) ≡ ok (a, s')
    → Few customer actor s x xs s'
unfolding insert_return insert_lines any total
request_found-Few customer actor s x xs a s' r =
    go (any (λ y. not (is_of_shipment x.1.shipment_id y)) (x ∷ xs)) (any (is_too_many s) (x ∷ xs))
      refl r
  where
    work : Result (ReturnAnswer × ReturnTables)
    work =
        answer_with (return_requested s.next_id)
          (insert_lines s.next_id (x ∷ xs) (insert_return customer actor x.1.shipment_id s))

    go :
        (b c : Bool)
        → any (is_too_many s) (x ∷ xs) ≡ c
        → (if b
            then err (bad_request "Return lines must belong to one shipment")
            else if c
            then err (conflict "Return quantity exceeds shipped quantity")
            else work)
          ≡ ok (a, s')
        → Few customer actor s x xs s'
    go true c e ran = ground (arith, ran)
    go false true e ran = ground (arith, ran)
    go false false e ran = record {
      few = e;
      inserted = answer_with_ok (return_requested s.next_id) a _ s' ran;
    }

any_first :
    (s : ReturnTables) (x : Found) (xs : List Found)
    → any (is_too_many s) (x ∷ xs) ≡ false
    → (requested_sum x.0.shipment_line s.return_lines + x.0.quantity ≤ x.1.quantity)
      × (any (is_too_many s) xs ≡ false)
unfolding any total
any_first s x xs e = (ground (arith, e), ground (arith, e))

record Added (l : RequestLine) (o : Option Shipped) (os : Option (List Found)) (xs : List Found)
    : Type 0 where
  x : Shipped
  rest : List Found
  here : o ≡ some x
  others : os ≡ some rest
  all : (l, x) ∷ rest ≡ xs

add_found-Added :
    (customer : ℕ) (l : RequestLine) (o : Option Shipped) (os : Option (List Found))
    (xs : List Found)
    → add_found l customer o os ≡ some xs
    → Added l o os xs
add_found-Added customer l none none xs e = cc
add_found-Added customer l none (some rest) xs e = cc
add_found-Added customer l (some x) none xs e = cc
add_found-Added customer l (some x) (some rest) xs e = record {
  x = x;
  rest = rest;
  here = refl;
  others = refl;
  all = ground (arith, e);
}

find_lines-Fit :
    (customer : ℕ) (s : ReturnTables) (lines : List RequestLine) (xs : List Found)
    → find_lines customer lines s.shipment_lines ≡ some xs
    → any (is_too_many s) xs ≡ false
    → Fit (λ k. requested_sum k s.return_lines) s.shipment_lines xs
unfolding find_lines
find_lines-Fit customer s [] xs found fits =
    subst (λ (ys : List Found). Fit (λ k. requested_sum k s.return_lines) s.shipment_lines ys)
      (ground (arith, found)) no_more
find_lines-Fit customer s (l ∷ ls) xs found fits =
    let a =
      add_found-Added customer l (lookup l.shipment_line s.shipment_lines)
        (find_lines customer ls s.shipment_lines) xs found in
    let split : any (is_too_many s) ((l, a.x) ∷ a.rest) ≡ false =
      ap (any (is_too_many s)) a.all ∙ fits in
    let first = any_first s (l, a.x) a.rest split in
    subst (λ (ys : List Found). Fit (λ k. requested_sum k s.return_lines) s.shipment_lines ys) a.all
      (one_line l a.x a.rest a.here first.0 (find_lines-Fit customer s ls a.rest a.others first.1))

-- A successful request: its lines were found, and fit.
pub record Requesting (customer actor : ℕ) (lines : List RequestLine) (s s' : ReturnTables)
    : Type 0 where
  pub x : Found
  pub xs : List Found
  pub found : find_lines customer lines s.shipment_lines ≡ some (x ∷ xs)
  pub few : Few customer actor s x xs s'

pub ask_work-Few :
    (customer actor : ℕ) (lines : List RequestLine) (s : ReturnTables) (a : ReturnAnswer)
    (s' : ReturnTables)
    → ask_work customer actor lines s ≡ ok (a, s')
    → Requesting customer actor lines s s'
unfolding ask_work
ask_work-Few customer actor lines s a s' ran =
    go (find_lines customer lines s.shipment_lines) refl ran
  where
    go :
        (o : Option (List Found))
        → find_lines customer lines s.shipment_lines ≡ o
        → request_found customer actor s o ≡ ok (a, s')
        → Requesting customer actor lines s s'
    go none e r = cc
    go (some []) e r = cc
    go (some (x ∷ xs)) e r = record {
      x = x;
      xs = xs;
      found = e;
      few = request_found-Few customer actor s x xs a s' r;
    }

ask_work-IsRequested :
    (customer actor : ℕ) (lines : List RequestLine) (s : ReturnTables) (a : ReturnAnswer)
    (s' : ReturnTables)
    → IsRequested s
    → ask_work customer actor lines s ≡ ok (a, s')
    → IsRequested s'
unfolding insert_return
ask_work-IsRequested customer actor lines s a s' h ran =
    let r = ask_work-Few customer actor lines s a s' ran in
    insert_lines-IsRequested s.next_id (λ k. requested_sum k s.return_lines) (r.x ∷ r.xs)
      (insert_return customer actor r.x.1.shipment_id s) s'
      (record {
        untouched = λ k n. refl;
        all_fit = record { fits = λ k y there. h.fits k y there };
      })
      (find_lines-Fit customer s lines (r.x ∷ r.xs) r.found r.few.few) r.few.inserted

requested-receive :
    (k line : ℕ) (i : InspectionInput) (t : Table ℕ ReturnLine)
    → requested_sum k (modify line (receive i) t) ≡ requested_sum k t
unfolding total modify
requested-receive k line i [] = refl
requested-receive k line i ((j, l) ∷ t) = ground (arith, requested-receive k line i t)

-- The tables that the property is about.
same-IsRequested :
    (s s' : ReturnTables)
    → s.shipment_lines ≡ s'.shipment_lines
    → s.return_lines ≡ s'.return_lines
    → IsRequested s
    → IsRequested s'
same-IsRequested s s' shipped lines h = record {
  fits = λ k x there.
      subst (λ (t : Table ℕ ReturnLine). requested_sum k t ≤ x.quantity) lines
        (h.fits k x (ap (lookup k) shipped ∙ there));
}

inspect_work-IsRequested :
    (actor line : ℕ) (i : InspectionInput) (s : ReturnTables) (a : ReturnAnswer) (s' : ReturnTables)
    → IsRequested s
    → inspect_work actor line i s ≡ ok (a, s')
    → IsRequested s'
inspect_work-IsRequested actor line i s a s' h ran =
    let done = inspect_work-Written actor line i s a s' ran in
    record {
      fits = λ k x there.
          subst (λ (n : ℕ). n ≤ x.quantity)
            (sym (requested-receive k line i s.return_lines)
              ∙ ap (requested_sum k) (sym done.lines))
            (h.fits k x (ap (lookup k) (sym done.shipped) ∙ there));
    }

requests-kept : IsKept IsRequested
unfolding insert_disposition insert_resolution insert_credit insert
requests-kept = record {
  answers = λ key a s h. same-IsRequested s (with_answer key a s) refl refl h;
  requests =
      λ customer actor lines s a s' h ran. ask_work-IsRequested customer actor lines s a s' h ran;
  inspects = λ actor line i s a s' whole h ran. inspect_work-IsRequested actor line i s a s' h ran;
  decides = λ actor inspection d s a s' h ran.
      let done = disposition_work-IsDecided actor inspection d s a s' ran in
      subst IsRequested done.wrote
        (same-IsRequested s (insert_disposition actor inspection d s) refl refl h);
  resolves = λ actor disposition d s a s' h ran.
      let done = resolution_work-IsResolved actor disposition d s a s' ran in
      subst IsRequested done.wrote
        (same-IsRequested s (insert_resolution actor disposition d s) refl refl h);
  credits = λ actor inspection q s a s' h ran.
      let done = credit_work-IsCredited actor inspection q s a s' ran in
      subst IsRequested done.wrote (
        same-IsRequested s
          (insert_credit done.row
            (new_credit actor inspection done.row q done.price
              (credit_tax done.row q s.return_credits))
            s)
          refl refl h);
}

-- Whatever is requested, inspected, decided and credited, in any order, never more is requested back of a
-- shipment line than was shipped, if that held before.
pub follows-IsRequested : (s t : ReturnTables) → IsRequested s → Follows s t → IsRequested t
follows-IsRequested s t h f = follows-kept IsRequested requests-kept s t h f
