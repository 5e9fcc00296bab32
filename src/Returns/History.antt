-- ===== src/Returns/History.antt =====
-- All requests of the return service as one type, and what a command keeps.
use b2b_stm.Prelude.{
  ℕ, ◌+◌, refl, nat_eq, string_eq, pair_eq, Bool, true, false, not, if◌then◌else◌, ◌≡◌, Option,
  none, some, List, String, arith,
}
use b2b_stm.Text.{Text, uuid_test, uuid_value}
use b2b_stm.Json.{Json}
use b2b_stm.Table.{lookup, insert}
use b2b_stm.Schema.{CommandKey}
use b2b_stm.Tx.{Result, ok, err, bad_request}
use b2b_stm.Returns.{
  ReturnAnswer, ReturnTables, Work, keep_answer, answer_or_work, commit_or_rollback, return_command,
  after_check,
}
use b2b_stm.Returns.Operations.{
  request_return, inspect_return, defect_disposition, resolve_defect, ask_work, inspect_work,
  disposition_work, resolution_work,
}
use b2b_stm.Returns.Credits.{credit_return, credit_work}
use b2b_stm.Returns.Input.{
  RequestLine, InspectionInput, Decided, return_input, inspection_input, disposition_input,
  resolution_input, credit_input,
}

pub data ReturnCall : Type 0 where
  request_call : (customer actor : ℕ) (body : Json) → ReturnCall
  inspect_call : (actor : ℕ) (line : Text) (body : Json) → ReturnCall
  disposition_call : (actor : ℕ) (inspection : Text) (body : Json) → ReturnCall
  resolution_call : (actor : ℕ) (disposition : Text) (body : Json) → ReturnCall
  credit_call : (actor : ℕ) (inspection : Text) (body : Json) → ReturnCall

-- The answer of a call and what it leaves.
abbrev pub run_return : ReturnCall → ReturnTables → Result ReturnAnswer × ReturnTables
unfolding request_return inspect_return defect_disposition resolve_defect credit_return
run_return (request_call customer actor body) s = request_return customer actor body s
run_return (inspect_call actor line body) s = inspect_return actor line body s
run_return (disposition_call actor inspection body) s = defect_disposition actor inspection body s
run_return (resolution_call actor disposition body) s = resolve_defect actor disposition body s
run_return (credit_call actor inspection body) s = credit_return actor inspection body s

-- The states that calls lead to, in any order.
pub data Follows (s : ReturnTables) : ReturnTables → Type 0 where
  begin : Follows s s
  then_return :
      (call : ReturnCall) (t : ReturnTables) → Follows s t → Follows s (run_return call t).1

abbrev pub with_answer : CommandKey → ReturnAnswer → ReturnTables → ReturnTables
unfolding insert
with_answer key a s = record s { command_results = insert key a s.command_results }

-- What does not look at the stored answers, is kept by a command whose work keeps it.
module _ (P : ReturnTables → Type 0)
    (keeps_answer : (key : CommandKey) (a : ReturnAnswer) (s : ReturnTables)
      → P s
      → P (with_answer key a s)) where
  kept_work :
      (key : CommandKey) (o : Result (ReturnAnswer × ReturnTables)) (s : ReturnTables)
      → P s
      → ((a : ReturnAnswer) (s' : ReturnTables) → o ≡ ok (a, s') → P s')
      → P (commit_or_rollback s (keep_answer key o)).1
  unfolding insert
  kept_work key (ok (a, s')) s h works = keeps_answer key a s' (works a s' (λ i. ok (a, s')))
  kept_work key (err e) s h works = h

  kept_answer :
      (key : CommandKey) (work : Work) (o : Option ReturnAnswer) (s : ReturnTables)
      → P s
      → ((a : ReturnAnswer) (s' : ReturnTables) → work s ≡ ok (a, s') → P s')
      → P (commit_or_rollback s (answer_or_work key work o s)).1
  unfolding insert
  kept_answer key work (some a) s h works = h
  kept_answer key work none s h works = kept_work key (work s) s h works

  pub kept_command :
      (key : CommandKey) (work : Work) (s : ReturnTables)
      → P s
      → ((a : ReturnAnswer) (s' : ReturnTables) → work s ≡ ok (a, s') → P s')
      → P (return_command key work s).1
  unfolding return_command
  kept_command key work s h works = kept_answer key work (lookup key s.command_results) s h works

  kept_check :
      {A : Type 0} (r : Result A) (f : A → ReturnTables → Result ReturnAnswer × ReturnTables)
      (s : ReturnTables)
      → P s
      → ((i : A) → r ≡ ok i → P (f i s).1)
      → P (after_check r f s).1
  kept_check (err e) f s h works = h
  kept_check (ok i) f s h works = works i refl

  kept_id :
      (b : Bool) (message : String) (rest : Result ReturnAnswer × ReturnTables) (s : ReturnTables)
      → P s
      → P rest.1
      → P (if b then (err (bad_request message), s) else rest).1
  kept_id true message rest s h works = h
  kept_id false message rest s h works = works

-- The parts of an inspection that passed its check add up.
input-whole :
    (body : Json) (i : InspectionInput)
    → inspection_input body ≡ ok i
    → i.normal + i.defective ≡ i.received
unfolding inspection_input
input-whole body i e = ground (arith, e)

-- The five transactions keep a property.
pub record IsKept (P : ReturnTables → Type 0) : Type 0 where
  pub answers :
      (key : CommandKey) (a : ReturnAnswer) (s : ReturnTables) → P s → P (with_answer key a s)
  pub requests :
      (customer actor : ℕ) (lines : List RequestLine) (s : ReturnTables) (a : ReturnAnswer)
      (s' : ReturnTables)
      → P s
      → ask_work customer actor lines s ≡ ok (a, s')
      → P s'
  pub inspects :
      (actor line : ℕ) (i : InspectionInput) (s : ReturnTables) (a : ReturnAnswer)
      (s' : ReturnTables)
      → i.normal + i.defective ≡ i.received
      → P s
      → inspect_work actor line i s ≡ ok (a, s')
      → P s'
  pub decides :
      (actor inspection : ℕ) (d : Decided) (s : ReturnTables) (a : ReturnAnswer) (s' : ReturnTables)
      → P s
      → disposition_work actor inspection d s ≡ ok (a, s')
      → P s'
  pub resolves :
      (actor disposition : ℕ) (d : Decided) (s : ReturnTables) (a : ReturnAnswer)
      (s' : ReturnTables)
      → P s
      → resolution_work actor disposition d s ≡ ok (a, s')
      → P s'
  pub credits :
      (actor inspection q : ℕ) (s : ReturnTables) (a : ReturnAnswer) (s' : ReturnTables)
      → P s
      → credit_work actor inspection q s ≡ ok (a, s')
      → P s'

module _ (P : ReturnTables → Type 0) (k : IsKept P) where
  kept_call : (call : ReturnCall) (s : ReturnTables) → P s → P (run_return call s).1
  unfolding request_return inspect_return defect_disposition resolve_defect credit_return
  kept_call (request_call customer actor body) s h =
      kept_check P k.answers (return_input body) _ s h λ i e.
        kept_command P k.answers _ _ s h λ a s' ran. k.requests customer actor i.lines s a s' h ran
  kept_call (inspect_call actor line body) s h =
      kept_id P k.answers (not (uuid_test line)) _ _ s h (
        kept_check P k.answers (inspection_input body) _ s h λ i e.
          kept_command P k.answers _ _ s h
            λ a s' ran. k.inspects actor (uuid_value line) i s a s' (input-whole body i e) h ran)
  kept_call (disposition_call actor inspection body) s h =
      kept_id P k.answers (not (uuid_test inspection)) _ _ s h (
        kept_check P k.answers (disposition_input body) _ s h λ d e.
          kept_command P k.answers _ _ s h
            λ a s' ran. k.decides actor (uuid_value inspection) d s a s' h ran)
  kept_call (resolution_call actor disposition body) s h =
      kept_id P k.answers (not (uuid_test disposition)) _ _ s h (
        kept_check P k.answers (resolution_input body) _ s h λ d e.
          kept_command P k.answers _ _ s h
            λ a s' ran. k.resolves actor (uuid_value disposition) d s a s' h ran)
  kept_call (credit_call actor inspection body) s h =
      kept_id P k.answers (not (uuid_test inspection)) _ _ s h (
        kept_check P k.answers (credit_input body) _ s h λ i e.
          kept_command P k.answers _ _ s h
            λ a s' ran. k.credits actor (uuid_value inspection) i.quantity s a s' h ran)

  -- A property that the transactions keep, holds wherever calls lead.
  pub follows-kept : (s t : ReturnTables) → P s → Follows s t → P t
  follows-kept s _ h begin = h
  follows-kept s _ h (then_return call t before) = kept_call call t (follows-kept s t h before)
