-- ===== src/Integrity/Ids.antt =====
-- Ids that are used up keep the books in order, and so does what the books do not show.
use b2b_stm.Prelude.{ℕ, ◌≤◌, ◌≡◌, sym, arith}
use mathlib.Core.Path.{subst}
use b2b_stm.Integrity.{Books, IsIntegral}

pub later-IsIntegral :
    (t : Books) (n : ℕ) → t.next_id ≤ n → IsIntegral t → IsIntegral (record t { next_id = n })
later-IsIntegral t n le h = record {
  covered = h.covered;
  matched = h.matched;
  lined = h.lined;
  limited = h.limited;
  sound = h.sound;
  placed = h.placed;
  inspected = h.inspected;
  picked = h.picked;
  keyed_lines = h.keyed_lines;
  keyed_reservations = h.keyed_reservations;
  fresh_order = λ k o e. omega (arith, h.fresh_order k o e);
  fresh_line = λ k l e. omega (arith, h.fresh_line k l e);
  fresh_reservation = λ k r e. omega (arith, h.fresh_reservation k r e);
}

-- Books that are those of t, but for ids that have been used up.
pub same-IsIntegral :
    (t u : Books)
    → IsIntegral t
    → t.next_id ≤ u.next_id
    → u ≡ record t { next_id = u.next_id }
    → IsIntegral u
same-IsIntegral t u h le e = subst IsIntegral (sym e) (later-IsIntegral t u.next_id le h)
