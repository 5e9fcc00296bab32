-- ===== src/Outbox/Retries.antt =====
-- How often a mail is tried, and how often it goes out.
use mathlib.Core.Path.{subst}
use b2b_stm.Prelude.{
  ℕ, zero, suc, ◌+◌, ◌≤◌, ◌<◌, ◌≡◌, ◌≢◌, refl, Bool, true, false, ◌&&◌, Option, none, some, List,
  [], ◌∷◌, ◌++◌, map, nat_eq, ◌==◌, if◌then◌else◌, arith, All, All-sort_by, All-filter,
  All-filter_of, All-zip, not,
}
use b2b_stm.Text.{Text, uuid_value}
use b2b_stm.Table.{lookup, modify}
use b2b_stm.Table.Laws.{lookup-modify}
use b2b_stm.Integrity.{IsKeyed}
use b2b_stm.Integrity.Rows.{IsRow, IsKeyed-modify, rows_found}
use b2b_stm.Tx.{ok, err, conflict, bad_request}
use b2b_stm.Outbox.{
  MailStatus, processing, sent, Mail, Outbox, is_ready, is_due, next_due, take, settle_mail,
  MailOutcome, delivered, unrecorded, refused, broken, Round, Run, then_run, sent_row, sent_from,
  send_due, process_due, retry_mail, retry, is_mail_id, has_failed, again, first_mail, MailEvent,
  worked, retried, box_after, mail_history,
}

-- The attempts that the row of a mail shows.
unfoldable pub attempts_of : ℕ → Outbox → ℕ
attempts_of k box = elim (lookup k box) [ none ↦ 0 | some m ↦ m.attempts ]

abbrev pub is_sent : MailStatus → Bool
is_sent sent = true
is_sent _ = false

-- One where the row of a mail shows it as sent.
unfoldable pub sent_of : ℕ → Outbox → ℕ
sent_of k box = elim (lookup k box) [ none ↦ 0 | some m ↦ if is_sent m.status then 1 else 0 ]

-- How often a mail was handed to the transport.
unfoldable pub tries : ℕ → List (ℕ × MailOutcome) → ℕ
tries k [] = 0
tries k (s ∷ ss) = (if s.0 == k then 1 else 0) + tries k ss

abbrev pub is_delivered : MailOutcome → Bool
is_delivered delivered = true
is_delivered _ = false

-- How often it went out and that was written.
unfoldable pub deliveries : ℕ → List (ℕ × MailOutcome) → ℕ
deliveries k [] = 0
deliveries k (s ∷ ss) = (if s.0 == k && is_delivered s.1 then 1 else 0) + deliveries k ss

abbrev Due : ℕ → Outbox → ℕ × Mail → Type 0
Due now box row = IsRow box row × (is_due now row.1 ≡ true)

first-Due :
    (now : ℕ) (box rows : Outbox) (row : ℕ × Mail)
    → All (Due now box) rows
    → first_mail rows ≡ some row
    → Due now box row
unfolding first_mail
first-Due now box [] row h e = cc
first-Due now box (r ∷ rows) row h e =
    let same : r ≡ row = ground (arith, e) in subst (Due now box) same h.0

-- The mail that is taken next stands in the outbox and is due.
next_due-Due :
    (now : ℕ) (box : Outbox) (row : ℕ × Mail)
    → IsKeyed box
    → next_due now box ≡ some row
    → Due now box row
unfolding next_due
next_due-Due now box row keyed e =
    first-Due now box _ row
      (All-sort_by (Due now box) _ _ (
        All-sort_by (Due now box) _ _ (
          All-zip (IsRow box) (λ r. is_due now r.1 ≡ true) (Due now box) _
            (λ r found due. (found, due))
            (All-filter_of (IsRow box) (λ r. is_due now r.1) box (rows_found box keyed))
            (All-filter (λ r. is_due now r.1 ≡ true) (λ r. is_due now r.1) box (λ r h. h)))))
      e

-- What a stretch of the sender's work does to a mail.
record IsTraced (k : ℕ) (box : Outbox) (sends : List (ℕ × MailOutcome)) (box' : Outbox)
    : Type 0 where
  tried : tries k sends + attempts_of k box ≡ attempts_of k box'
  went_out : deliveries k sends + sent_of k box ≡ sent_of k box'
  bounded : attempts_of k box ≤ 8 → attempts_of k box' ≤ 8
  kept :
      (x : Mail)
      → lookup k box ≡ some x
      → ((now : ℕ) → is_due now x ≡ false)
      → lookup k box' ≡ some x

untouched : (k : ℕ) (box : Outbox) → IsTraced k box [] box
unfolding tries deliveries
untouched k box = record {
  tried = omega arith;
  went_out = omega arith;
  bounded = λ h. h;
  kept = λ x there idle. there;
}

module _ (r : Round) (box : Outbox) (id : ℕ) (m : Mail) (due : Due r.taken_at box (id, m)) where
  abbrev after : Outbox
  after = sent_row r (id, m) box

  after-lookup :
      (k : ℕ)
      → lookup k after ≡ (
          if id == k
          then some (settle_mail (r.delivery m) r.settled_at (suc m.attempts) (take r.taken_at m))
          else lookup k box)
  after-lookup k = ground (
    arith,
    due.0,
    lookup-modify k id (take r.taken_at) box,
    lookup-modify k id (settle_mail (r.delivery m) r.settled_at (suc m.attempts))
        (modify id (take r.taken_at) box),
  )

  tried_few : (m.attempts < 8) × (is_sent m.status ≡ false)
  unfolding is_due is_ready
  tried_few = (ground (arith, due.1), ground (arith, due.1))

  step-IsTraced : (k : ℕ) → IsTraced k box ((id, r.delivery m) ∷ []) after
  unfolding tries deliveries attempts_of sent_of
  step-IsTraced k = record {
    tried = ground (arith, due.0, after-lookup k);
    went_out = ground (arith, due.0, tried_few.1, after-lookup k);
    bounded = λ h. ground (arith, h, due.0, tried_few.0, after-lookup k);
    kept = λ x there idle. ground (arith, there, idle r.taken_at, due.0, due.1, after-lookup k);
  }

  step-IsKeyed : IsKeyed box → IsKeyed after
  step-IsKeyed keyed =
      IsKeyed-modify id (settle_mail (r.delivery m) r.settled_at (suc m.attempts))
        (modify id (take r.taken_at) box) (IsKeyed-modify id (take r.taken_at) box keyed)

tries-append : (k : ℕ) (a b : List (ℕ × MailOutcome)) → tries k (a ++ b) ≡ tries k a + tries k b
unfolding tries
tries-append k [] b = omega arith
tries-append k (s ∷ a) b = ground (arith, tries-append k a b)

deliveries-append :
    (k : ℕ) (a b : List (ℕ × MailOutcome)) → deliveries k (a ++ b) ≡ deliveries k a + deliveries k b
unfolding deliveries
deliveries-append k [] b = omega arith
deliveries-append k (s ∷ a) b = ground (arith, deliveries-append k a b)

-- One stretch after the other.
IsTraced-append :
    (k : ℕ) (box box' box'' : Outbox) (a b : List (ℕ × MailOutcome))
    → IsTraced k box a box'
    → IsTraced k box' b box''
    → IsTraced k box (a ++ b) box''
IsTraced-append k box box' box'' a b h g = record {
  tried = omega (arith, tries-append k a b, h.tried, g.tried);
  went_out = omega (arith, deliveries-append k a b, h.went_out, g.went_out);
  bounded = λ few. g.bounded (h.bounded few);
  kept = λ x there idle. g.kept x (h.kept x there idle) idle;
}

-- What a run does to every mail, and that ids stay different.
abbrev Traced : Outbox → Run → Type 0
Traced box run = ((k : ℕ) → IsTraced k box run.sends run.outbox) × IsKeyed run.outbox

then_run-Traced :
    (id : ℕ) (d : MailOutcome) (box box' : Outbox) (run : Outbox → Run)
    → ((k : ℕ) → IsTraced k box ((id, d) ∷ []) box')
    → IsKeyed box'
    → Traced box' (run box')
    → Traced box (then_run id d box' run)
then_run-Traced id delivered box box' run h keyed rest =
    (λ k. IsTraced-append k box box' _ _ _ (h k) (rest.0 k), rest.1)
then_run-Traced id unrecorded box box' run h keyed rest =
    (λ k. IsTraced-append k box box' _ _ _ (h k) (rest.0 k), rest.1)
then_run-Traced id refused box box' run h keyed rest =
    (λ k. IsTraced-append k box box' _ _ _ (h k) (rest.0 k), rest.1)
then_run-Traced id broken box box' run h keyed rest = (h, keyed)

sent_from-Traced :
    (r : Round) (run : Outbox → Run) (box : Outbox) (o : Option (ℕ × Mail))
    → IsKeyed box
    → next_due r.taken_at box ≡ o
    → ((later : Outbox) → IsKeyed later → Traced later (run later))
    → Traced box (sent_from r run box o)
sent_from-Traced r run box none keyed e rest = (λ k. untouched k box, keyed)
sent_from-Traced r run box (some (id, m)) keyed e rest =
    let due : Due r.taken_at box (id, m) = next_due-Due r.taken_at box (id, m) keyed e in
    let later_keyed = step-IsKeyed r box id m due keyed in
    then_run-Traced id (r.delivery m) box (after r box id m due) run (step-IsTraced r box id m due)
      later_keyed (rest (after r box id m due) later_keyed)

send_due-Traced :
    (rounds : ℕ → Round) (n : ℕ) (box : Outbox) → IsKeyed box → Traced box (send_due rounds n box)
unfolding send_due
send_due-Traced rounds zero box keyed = (λ k. untouched k box, keyed)
send_due-Traced rounds (suc n) box keyed =
    sent_from-Traced (rounds n) (send_due rounds n) box (next_due (rounds n).taken_at box) keyed
      refl (λ later later_keyed. send_due-Traced rounds n later later_keyed)

process_due-Traced :
    (rounds : ℕ → Round) (box : Outbox) → IsKeyed box → Traced box (process_due rounds box)
unfolding process_due
process_due-Traced rounds box keyed = send_due-Traced rounds 20 box keyed

works-IsTraced :
    (k : ℕ) (runs : List (ℕ → Round)) (box : Outbox)
    → IsKeyed box
    → IsTraced k box (mail_history (map worked runs) box).0 (mail_history (map worked runs) box).1
unfolding mail_history
works-IsTraced k [] box keyed = untouched k box
works-IsTraced k (rounds ∷ runs) box keyed =
    let first = process_due-Traced rounds box keyed in
    IsTraced-append k box _ _ _ _ (first.0 k)
      (works-IsTraced k runs (process_due rounds box).outbox first.1)

-- Over any number of runs of the worker, whatever becomes of its mails, a mail is handed to the
-- transport once for each attempt by which its row has grown, and a row with at most eight attempts
-- goes on to have at most eight: so a new mail is tried eight times at most, unless it is retried by
-- hand, which starts the count again.
pub mail_history-tries :
    (k : ℕ) (runs : List (ℕ → Round)) (box : Outbox)
    → IsKeyed box
    → attempts_of k box ≤ 8
    → (tries k (mail_history (map worked runs) box).0 + attempts_of k box
        ≡ attempts_of k (mail_history (map worked runs) box).1)
      × (attempts_of k (mail_history (map worked runs) box).1 ≤ 8)
mail_history-tries k runs box keyed few =
    let h = works-IsTraced k runs box keyed in (h.tried, h.bounded few)

-- What a retry leaves.
abbrev Retried : ℕ → Outbox → Outbox → Type 0
Retried k box box' = (sent_of k box' ≡ sent_of k box) × IsKeyed box'

retry_mail-Retried :
    (k id now : ℕ) (box : Outbox)
    → IsKeyed box
    → Retried k box (box_after box (retry_mail id now box))
unfolding retry_mail sent_of
retry_mail-Retried k id now box keyed = found (lookup id box) refl
  where
    chosen :
        (m : Mail) (b : Bool)
        → lookup id box ≡ some m
        → has_failed m.status ≡ b
        → Retried k box (
            box_after box (
              if b
              then ok (modify id (again now) box)
              else err (conflict "Only failed notification can be retried")))
    chosen m false there e = (refl, keyed)
    chosen m true there e = (
      ground (arith, there, e, lookup-modify k id (again now) box),
      IsKeyed-modify id (again now) box keyed,
    )

    found :
        (o : Option Mail)
        → lookup id box ≡ o
        → Retried k box (
            box_after box (elim o [
              | none ↦ err (conflict "Only failed notification can be retried")
              | some m ↦
                  if has_failed m.status
                  then ok (modify id (again now) box)
                  else err (conflict "Only failed notification can be retried")
            ]))
    found none e = (refl, keyed)
    found (some m) e = chosen m (has_failed m.status) e refl

retry-Retried :
    (k : ℕ) (id : Text) (now : ℕ) (box : Outbox)
    → IsKeyed box
    → Retried k box (box_after box (retry id now box))
unfolding retry
retry-Retried k id now box keyed = checked (not (is_mail_id id))
  where
    checked :
        (b : Bool)
        → Retried k box (
            box_after box (
              if b
              then err (bad_request "Invalid notification ID")
              else retry_mail (uuid_value id) now box))
    checked true = (refl, keyed)
    checked false = retry_mail-Retried k (uuid_value id) now box keyed

small : (k : ℕ) (box : Outbox) → sent_of k box ≤ 1
unfolding sent_of
small k box = ground arith

-- Over any series of runs and retries, a mail goes out with that written exactly as often as its row
-- has turned from not sent to sent: at most once, and not at all when it was sent before. A mail that
-- goes out although the update for it fails is not counted: it is put down as failed.
pub mail_history-deliveries :
    (k : ℕ) (events : List MailEvent) (box : Outbox)
    → IsKeyed box
    → (deliveries k (mail_history events box).0 + sent_of k box
        ≡ sent_of k (mail_history events box).1)
      × (sent_of k (mail_history events box).1 ≤ 1)
unfolding mail_history deliveries
mail_history-deliveries k [] box keyed = (omega arith, small k box)
mail_history-deliveries k (worked rounds ∷ events) box keyed =
    let first = process_due-Traced rounds box keyed in
    let rest = mail_history-deliveries k events (process_due rounds box).outbox first.1 in
    (
      omega (
        arith,
        deliveries-append k (process_due rounds box).sends
            (mail_history events (process_due rounds box).outbox).0,
        (first.0 k).went_out,
        rest.0,
      ),
      rest.1,
    )
mail_history-deliveries k (retried id now ∷ events) box keyed =
    let one = retry-Retried k id now box keyed in
    let rest = mail_history-deliveries k events (box_after box (retry id now box)) one.1 in
    (omega (arith, one.0, rest.0), rest.1)

eighth_idle : (now : ℕ) (m : Mail) → m.attempts ≡ 8 → is_due now m ≡ false
unfolding is_due
eighth_idle now m eight = ground (arith, eight)

-- A mail whose eighth attempt was broken off after it was taken stays in processing: no later run
-- takes it, and it cannot be retried.
pub eighth_lost :
    (rounds : ℕ → Round) (now id : ℕ) (m : Mail) (box : Outbox)
    → IsKeyed box
    → lookup id box ≡ some m
    → m.status ≡ processing
    → m.attempts ≡ 8
    → (lookup id (process_due rounds box).outbox ≡ some m)
      × ((later : Outbox) → retry_mail id now box ≢ ok later)
unfolding retry_mail
eighth_lost rounds now id m box keyed there stuck eight = (
  ((process_due-Traced rounds box keyed).0 id).kept m there (λ t. eighth_idle t m eight),
  λ later e. ground (arith, there, stuck, e),
)
