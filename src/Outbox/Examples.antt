-- ===== src/Outbox/Examples.antt =====
-- Mails on their way.
use b2b_stm.Prelude.{
  ℕ, ◌+◌, ◌≤◌, ◌≡◌, ◌≢◌, refl, none, some, List, [], ◌∷◌, map, any, sort_by, insert_by, filter,
  arith, nat_eq,
}
use b2b_stm.Text.{codes, uuid_value, is_hex}
use b2b_stm.Table.{lookup, modify}
use b2b_stm.Tx.{ok}
use b2b_stm.Integrity.{IsKeyed}
use b2b_stm.Outbox.{
  MailStatus, waiting, processing, sent, Mail, Outbox, MailOutcome, delivered, unrecorded, refused,
  Round, process_due, send_due, next_due, first_mail, retry_mail, retry, is_mail_id, is_due,
  is_ready, is_time, is_stale, delay, MailEvent, worked, retried, mail_history,
}
use b2b_stm.Outbox.Retries.{
  attempts_of, sent_of, tries, deliveries, mail_history-tries, mail_history-deliveries, eighth_lost,
}

abbrev mail : MailStatus → ℕ → Mail
mail status attempts = record {
  status = status;
  attempts = attempts;
  next_attempt_at = none;
  locked_at = some 5;
  sent_at = none;
  created_at = 1;
}

abbrev box : Outbox
box = (1, mail waiting 7) ∷ (2, mail sent 1) ∷ (3, mail processing 8) ∷ []

box-IsKeyed : IsKeyed box
unfolding lookup
box-IsKeyed = (refl, (refl, (refl, tt)))

third_row : lookup 3 box ≡ some (mail processing 8)
unfolding lookup
third_row = refl

abbrev round : MailOutcome → ℕ → Round
round d n = record { taken_at = 1000; settled_at = 1001; delivery = λ m. d }

first_few : attempts_of 1 box ≤ 8
unfolding attempts_of lookup
first_few = ground arith

abbrev two_runs : List (ℕ → Round)
two_runs = round refused ∷ round delivered ∷ []

mail_history-tries_example :
    (tries 1 (mail_history (map worked two_runs) box).0 + attempts_of 1 box
      ≡ attempts_of 1 (mail_history (map worked two_runs) box).1)
    × (attempts_of 1 (mail_history (map worked two_runs) box).1 ≤ 8)
mail_history-tries_example = mail_history-tries 1 two_runs box box-IsKeyed first_few

abbrev events : List MailEvent
events =
    worked (round unrecorded)
    ∷ retried (codes "00000000-0000-0000-0000-000000000001") 1000
    ∷ worked (round delivered)
    ∷ []

mail_history-deliveries_example :
    (deliveries 1 (mail_history events box).0 + sent_of 1 box
      ≡ sent_of 1 (mail_history events box).1)
    × (sent_of 1 (mail_history events box).1 ≤ 1)
mail_history-deliveries_example = mail_history-deliveries 1 events box box-IsKeyed

-- The mail goes out twice when the update after the first time fails, and the second is written.
goes_out_twice : mail_history events box ≡ (
  (1, unrecorded) ∷ (1, delivered) ∷ [],
  (1, record (mail sent 1) { locked_at = none; sent_at = some 1001 })
      ∷ (2, mail sent 1)
      ∷ (3, mail processing 8)
      ∷ [],
)
unfolding mail_history process_due send_due next_due first_mail sort_by insert_by filter is_due
    is_ready is_time is_stale lookup modify retry retry_mail is_mail_id uuid_value delay any is_hex
goes_out_twice = refl

eighth_lost_example :
    (lookup 3 (process_due (round delivered) box).outbox ≡ some (mail processing 8))
    × ((later : Outbox) → retry_mail 3 1000 box ≢ ok later)
eighth_lost_example =
    eighth_lost (round delivered) 1000 3 (mail processing 8) box box-IsKeyed third_row refl refl
