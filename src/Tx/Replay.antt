-- ===== src/Tx/Replay.antt =====
-- A command that succeeded, sent again with the same request id, gives the stored answer and
-- changes nothing; a command that failed has changed nothing.
use b2b_stm.Prelude.{
  ◌≡◌, none, some, String, inl, inr, Option-cases, arith, nat_eq, string_eq, pair_eq,
}
use b2b_stm.Table.{lookup}
use b2b_stm.Table.Laws.{lookup-insert_self}
use b2b_stm.Schema.{Db, Response, CommandKey}
use b2b_stm.Tx.{Result, ok, err, Tx, settle, run_or_replay, transaction, command, remember}

lookup-remember :
    (key : CommandKey) (r : Response) (db : Db)
    → lookup key (remember key r db).command_results ≡ some r
unfolding remember
lookup-remember key r db = lookup-insert_self key r db.command_results

-- Where the answer is stored, the command gives it and nothing else happens.
pub command_stored :
    (name : String) (key : CommandKey) (work : Tx Response) (r : Response) (db : Db)
    → lookup key db.command_results ≡ some r
    → transaction name (command key work) db ≡ (ok r, db)
unfolding transaction command
command_stored name key work r db h = rw (h, command)

settled :
    {A : Type 0} (name : String) (db : Db) (x : Result (A × Db)) (a : A) (db' : Db)
    → settle name db x ≡ (ok a, db')
    → x ≡ ok (a, db')
settled name db (ok (b, d)) a db' h = ground arith
settled name db (err e) a db' h = ground arith

answered :
    (key : CommandKey) (m : Tx Response) (r : Response) (db db' : Db)
    → run_or_replay key m none db ≡ ok (r, db')
    → lookup key db'.command_results ≡ some r
answered key m r db db' h = go (m db) h
  where
    go :
        (x : Result (Response × Db))
        → ◌≡◌ {A = Result (Response × Db)}
            (elim x [ ok (a, d) ↦ ok (a, remember key a d) | err e ↦ err e ])
            (ok (r, db'))
        → lookup key db'.command_results ≡ some r
    go (ok (a, d)) e = ground (arith, lookup-remember key a d)
    go (err f) e = ground arith

-- After a success the answer is stored.
pub command_stores :
    (name : String) (key : CommandKey) (work : Tx Response) (r : Response) (db db' : Db)
    → transaction name (command key work) db ≡ (ok r, db')
    → lookup key db'.command_results ≡ some r
unfolding transaction command
command_stores name key work r db db' h =
    let ran : run_or_replay key work (lookup key db.command_results) db ≡ ok (r, db') =
      settled name db _ r db' h in
    elim (Option-cases (lookup key db.command_results)) [
      | inl e ↦ answered key work r db db' (rw e at ran)
      | inr (s, e) ↦ ground arith
    ]

pub command_replay :
    (name : String) (key : CommandKey) (work : Tx Response) (r : Response) (db db' : Db)
    → transaction name (command key work) db ≡ (ok r, db')
    → transaction name (command key work) db' ≡ (ok r, db')
command_replay name key work r db db' h =
    command_stored name key work r db' (command_stores name key work r db db' h)
