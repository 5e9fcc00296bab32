-- ===== src/Outbox.antt =====
-- The sender of notifications: apps/api/src/notifications/notification.service.ts. What becomes of a
-- mail is up to the transport and the connection, which are parameters, as are the times of the clock.
-- One server process sends.
pub mod Retries
mod Examples
use b2b_stm.Prelude.{
  ℕ, zero, suc, ◌+◌, ◌-◌, ◌*◌, ◌^◌, min, Bool, true, false, ◌&&◌, ◌||◌, not, Option, none, some, [],
  ◌∷◌, ◌++◌, length, any, filter, sort_by, ◌==◌, nat_eq, if◌then◌else◌, ltb, leb, List,
}
use b2b_stm.Text.{Text, uuid_value, is_hex}
use b2b_stm.Table.{Table, lookup, modify}
use b2b_stm.Tx.{Error, Result, ok, err, bad_request, conflict}

pub data MailStatus : Type 0 where
  waiting processing sent failed : MailStatus

-- A row of `notification_outbox`. Times are seconds.
pub record Mail : Type 0 where
  pub status : MailStatus
  pub attempts : ℕ
  pub next_attempt_at : Option ℕ
  pub locked_at : Option ℕ
  pub sent_at : Option ℕ
  pub created_at : ℕ

abbrev pub Outbox : Type 0
Outbox = Table ℕ Mail

abbrev pub max_attempts : ℕ
max_attempts = 8

-- `COALESCE(next_attempt_at,now())<=now()`
unfoldable pub is_time : ℕ → Option ℕ → Bool
is_time now none = true
is_time now (some t) = leb t now

-- `locked_at<now()-interval '5 minutes'`
unfoldable pub is_stale : ℕ → Option ℕ → Bool
is_stale now none = false
is_stale now (some t) = ltb (t + 300) now

unfoldable pub is_ready : ℕ → Mail → Bool
unfolding is_time is_stale
is_ready now m = elim m.status [
  | waiting ↦ is_time now m.next_attempt_at
  | failed ↦ is_time now m.next_attempt_at
  | processing ↦ is_stale now m.locked_at
  | sent ↦ false
]

unfoldable pub is_due : ℕ → Mail → Bool
unfolding is_ready
is_due now m = is_ready now m && ltb m.attempts max_attempts

unfoldable pub first_mail : Outbox → Option (ℕ × Mail)
first_mail [] = none
first_mail (row ∷ rows) = some row

-- `ORDER BY created_at,id ... LIMIT 1`
unfoldable pub next_due : ℕ → Outbox → Option (ℕ × Mail)
unfolding first_mail
next_due now box = first_mail (
    sort_by (λ row. row.1.created_at)
      (sort_by (λ row. row.0) (filter (λ row. is_due now row.1) box)))

abbrev pub take : ℕ → Mail → Mail
take now m = record m { status = processing; attempts = suc m.attempts; locked_at = some now }

abbrev pub mark_sent : ℕ → Mail → Mail
mark_sent now m = record m {
  status = sent;
  sent_at = some now;
  locked_at = none;
  next_attempt_at = none;
}

-- `LEAST(interval '6 hours',interval '1 minute'*power(2,$2-1))`
unfoldable pub delay : ℕ → ℕ
delay attempts = min 21600 (60 * 2 ^ (attempts - 1))

abbrev pub mark_failed : ℕ → ℕ → Mail → Mail
mark_failed now attempts m = record m {
  status = failed;
  locked_at = none;
  next_attempt_at = if leb max_attempts attempts then none else some (now + delay attempts);
}

-- What becomes of a mail that is handed to the transport, and of the update after it: it goes out and
-- that is written; it goes out and the update for it fails, which is caught as a failure to send; it is
-- not sent; or the update in the handler fails too, and the run ends with the exception.
pub data MailOutcome : Type 0 where
  delivered unrecorded refused broken : MailOutcome

abbrev pub settle_mail : MailOutcome → ℕ → ℕ → Mail → Mail
settle_mail delivered now attempts m = mark_sent now m
settle_mail unrecorded now attempts m = mark_failed now attempts m
settle_mail refused now attempts m = mark_failed now attempts m
settle_mail broken now attempts m = m

-- A round of the loop: the time of its transaction, the time of the update after the mail, and what
-- becomes of the mail.
pub record Round : Type 0 where
  pub taken_at : ℕ
  pub settled_at : ℕ
  pub delivery : Mail → MailOutcome

-- The outbox after the mail of a row: it is taken in a transaction of its own, then sent, and the
-- outcome is written.
abbrev pub sent_row : Round → ℕ × Mail → Outbox → Outbox
sent_row r row box =
    modify row.0 (settle_mail (r.delivery row.1) r.settled_at (suc row.1.attempts))
      (modify row.0 (take r.taken_at) box)

-- A run: the number that it answers, none where it throws; the mails that were handed to the
-- transport, in order, with what became of them; and the outbox after it.
pub record Run : Type 0 where
  pub processed : Option ℕ
  pub sends : List (ℕ × MailOutcome)
  pub outbox : Outbox

abbrev pub count_one : Option ℕ → Option ℕ
count_one none = none
count_one (some n) = some (suc n)

abbrev pub then_run : ℕ → MailOutcome → Outbox → (Outbox → Run) → Run
then_run id delivered box run =
    let rest = run box in
    record rest { processed = count_one rest.processed; sends = (id, delivered) ∷ rest.sends }
then_run id broken box run = record { processed = none; sends = (id, broken) ∷ []; outbox = box }
then_run id d box run = let rest = run box in record rest { sends = (id, d) ∷ rest.sends }

-- A mail that is due, and what the rest of the run does after it.
abbrev pub sent_from : Round → (Outbox → Run) → Outbox → Option (ℕ × Mail) → Run
sent_from r run box none = record { processed = some 0; sends = []; outbox = box }
sent_from r run box (some row) = then_run row.0 (r.delivery row.1) (sent_row r row box) run

-- At most so many rounds, until no mail is due.
unfoldable pub send_due : (ℕ → Round) → ℕ → Outbox → Run
send_due rounds zero box = record { processed = some 0; sends = []; outbox = box }
send_due rounds (suc n) box =
    sent_from (rounds n) (send_due rounds n) box (next_due (rounds n).taken_at box)

-- `processDue`, where a transport is configured and no run is under way.
unfoldable pub process_due : (ℕ → Round) → Outbox → Run
process_due rounds box = send_due rounds 20 box

-- `/^[0-9a-f-]{36}$/i`
unfoldable pub is_mail_id : Text → Bool
unfolding any is_hex
is_mail_id s = length s == 36 && not (any (λ c. not (is_hex c || c == b'-')) s)

abbrev pub again : ℕ → Mail → Mail
again now m = record m {
  status = waiting;
  attempts = 0;
  next_attempt_at = some now;
  locked_at = none;
}

abbrev pub has_failed : MailStatus → Bool
has_failed failed = true
has_failed _ = false

-- The update of the failed row with this id.
unfoldable pub retry_mail : ℕ → ℕ → Outbox → Result Outbox
retry_mail id now box = elim (lookup id box) [
  | none ↦ err (conflict "Only failed notification can be retried")
  | some m ↦
      if has_failed m.status
      then ok (modify id (again now) box)
      else err (conflict "Only failed notification can be retried")
]

unfoldable pub retry : Text → ℕ → Outbox → Result Outbox
retry id now box =
    if not (is_mail_id id)
    then err (bad_request "Invalid notification ID")
    else retry_mail (uuid_value id) now box

-- What happens to the outbox: a run of the worker, or a call of `retry`.
pub data MailEvent : Type 0 where
  worked : (ℕ → Round) → MailEvent
  retried : Text → ℕ → MailEvent

abbrev pub box_after : Outbox → Result Outbox → Outbox
box_after box (ok later) = later
box_after box (err e) = box

-- The mails that are handed to the transport over a series of events, and the outbox after it.
unfoldable pub mail_history : List MailEvent → Outbox → List (ℕ × MailOutcome) × Outbox
unfolding process_due retry
mail_history [] box = ([], box)
mail_history (worked rounds ∷ events) box =
    let run = process_due rounds box in
    let rest = mail_history events run.outbox in (run.sends ++ rest.0, rest.1)
mail_history (retried id now ∷ events) box = mail_history events (box_after box (retry id now box))
