-- ===== src/Import/Agreement.antt =====
-- What the preview and the import of one file have to do with each other, and the import done twice.
use mathlib.Core.Path.{subst}
use b2b_stm.Prelude.{
  ℕ, suc, ◌+◌, ◌-◌, ◌≡◌, refl, ap, ◌∙◌, true, false, not, Option-cases, inl, inr, some, List, [],
  ◌∷◌, length, filter, arith, nat_eq, ◌==◌,
}
use b2b_stm.Text.{Text, text_eq}
use b2b_stm.Json.{Json}
use b2b_stm.Table.{Table, insert}
use b2b_stm.Tx.{
  Error, Result, ok, err, bad_request, conflict, not_found, service_unavailable, fault, forbidden,
  unauthorized, too_many_requests,
}
use b2b_stm.Import.Rows.{ImportRow, Parsed, parse_initial_import}
use b2b_stm.Import.Analysis.{
  Batch, RowDecision, Store, Analysis, Verdict, create, skip, refuse, verdict, add_verdict, analyze,
  analyze_rows,
}
use b2b_stm.Import.Apply.{
  Upload, Preview, Applied, apply, apply_work, apply_parsed, apply_upload, upload, preview,
  preview_parsed, preview_upload, preview_analysis, answer_or_rollback, as_bad_request, applied,
  new_batch, find_batch, insert_rows, insert_batch, insert_details, insert_entities, created_of,
  is_created, write_analyzed, write_details, record_batch,
}

-- Every row is decided or refused.
length-add_verdict :
    (r : ImportRow) (v : Verdict) (a : Analysis)
    → length (add_verdict r v a).decisions + length (add_verdict r v a).errors
      ≡ suc (length a.decisions + length a.errors)
length-add_verdict r create a = ground arith
length-add_verdict r skip a = ground arith
length-add_verdict r (refuse problem) a = ground arith

length-analyze_rows :
    (s : Store) (rows rest : List ImportRow)
    → length (analyze_rows s rows rest).decisions + length (analyze_rows s rows rest).errors
      ≡ length rest
unfolding analyze_rows
length-analyze_rows s rows [] = refl
length-analyze_rows s rows (r ∷ rest) =
    length-add_verdict r (verdict s rows r) (analyze_rows s rows rest)
    ∙ ap suc (length-analyze_rows s rows rest)

-- What is decided is new or skipped.
created_skipped :
    (ds : List RowDecision)
    → length (created_of ds) + length (filter (λ d. not (is_created d)) ds) ≡ length ds
unfolding filter
created_skipped [] = refl
created_skipped (d ∷ ds) = ground (arith, created_skipped ds)

-- The preview that an import's answer has to agree with.
abbrev pub Agrees : Applied → Preview → Type 0
Agrees r p =
    (length p.errors ≡ 0)
    × (p.filename ≡ r.filename)
    × (p.total_rows ≡ r.total_rows)
    × (p.created_rows ≡ r.created_rows)
    × (p.skipped_rows ≡ r.skipped_rows)

-- The first import of a file, or its repetition.
abbrev Written : Upload → (Text → Text) → List ImportRow → Store → Applied → Store → Type 0
Written u sha256 rows s r s' =
    let a = analyze s rows in
    (length a.errors ≡ 0)
    × (r ≡ new_batch r.id u.filename a.decisions)
    × (find_batch (sha256 u.content) s'.import_batches
        ≡ some (
          r.id,
          record {
            file_hash = sha256 u.content;
            filename = r.filename;
            total_rows = r.total_rows;
            created_rows = r.created_rows;
            skipped_rows = r.skipped_rows;
          },
        ))

insert_rows_batches :
    (batch : ℕ) (ds : List RowDecision) (s : Store)
    → (insert_rows batch ds s).import_batches ≡ s.import_batches
unfolding insert_rows
insert_rows_batches batch [] s = refl
insert_rows_batches batch (d ∷ ds) s = insert_rows_batches batch ds _

find_new :
    (hash : Text) (b : Batch) (id : ℕ) (bs : Table ℕ Batch)
    → b.file_hash ≡ hash
    → find_batch hash (insert id b bs) ≡ some (id, b)
unfolding find_batch insert
find_new hash b id bs h = ground (arith, text_eq.beq_iff b.file_hash hash, h)

abbrev WrittenPair : Upload → (Text → Text) → List ImportRow → Store → Applied × Store → Type 0
WrittenPair u sha256 rows s x = Written u sha256 rows s x.0 x.1

module _ (sha256 : Text → Text) (u : Upload) (rows : List ImportRow) (s : Store) where
  batch_found :
      (ds : List RowDecision) (t : Store)
      → find_batch
          (sha256 u.content)
          (insert_batch (sha256 u.content) u.filename ds t).import_batches
        ≡ some (
          t.next_id,
          record {
            file_hash = sha256 u.content;
            filename = u.filename;
            total_rows = length ds;
            created_rows = length (created_of ds);
            skipped_rows = length ds - length (created_of ds);
          },
        )
  unfolding insert_rows
  batch_found ds t =
      ap (find_batch (sha256 u.content)) (insert_rows_batches t.next_id ds _)
      ∙ find_new (sha256 u.content) _ t.next_id t.import_batches refl

  details_written :
      (o : Result Store) (x : Applied × Store)
      → length (analyze s rows).errors ≡ 0
      → write_details (sha256 u.content) u.filename (analyze s rows).decisions o ≡ ok x
      → WrittenPair u sha256 rows s x
  details_written (err e) x none_wrong ran = cc
  details_written (ok t) x none_wrong ran =
      let same : record_batch (sha256 u.content) u.filename (analyze s rows).decisions t ≡ x = cc in
      subst (WrittenPair u sha256 rows s) same
        (none_wrong, refl, batch_found (analyze s rows).decisions t)

  fresh_written :
      (x : Applied × Store)
      → write_analyzed (sha256 u.content) u.filename s (analyze s rows) ≡ ok x
      → WrittenPair u sha256 rows s x
  unfolding insert_details insert_entities
  fresh_written x ran =
      let none_wrong : length (analyze s rows).errors ≡ 0 = ground (arith, ran) in
      details_written
        (insert_details (created_of (analyze s rows).decisions)
          (insert_entities (created_of (analyze s rows).decisions) s))
        x none_wrong (ground (arith, ran, none_wrong))

module _ (upper lower sha256 : Text → Text) (u : Upload) (rows : List ImportRow) where
  work_again :
      (x : Applied × Store) (b : Batch)
      → find_batch (sha256 u.content) x.1.import_batches ≡ some (x.0.id, b)
      → applied x.0.id true b ≡ record x.0 { duplicate = true }
      → apply_work upper lower sha256 u rows x.1 ≡ ok (record x.0 { duplicate = true }, x.1)
  unfolding apply_work
  work_again x b found same = rw (apply_work, found) (ap (λ (a : Applied). ok (a, x.1)) same)

  -- An import that answers has written its batch just now, or found it.
  work_written :
      (s : Store) (x : Applied × Store)
      → apply_work upper lower sha256 u rows s ≡ ok x
      → (x.0.duplicate ≡ false → WrittenPair u sha256 rows s x)
        × (apply_work upper lower sha256 u rows x.1 ≡ ok (record x.0 { duplicate = true }, x.1))
  unfolding apply_work
  work_written s x ran = elim (Option-cases (find_batch (sha256 u.content) s.import_batches)) [
    | inl fresh ↦
        let written = fresh_written sha256 u rows s x (rw (apply_work, fresh) at ran) in
        (λ d. written, work_again x _ written.2 refl)
    | inr (b, found) ↦
        let same : (applied b.0 true b.1, s) ≡ x = ground (arith, ran, found) in
        (
          λ d. ground (arith, ran, found, d),
          subst
              (λ (y : Applied × Store).
                apply_work upper lower sha256 u rows y.1
                ≡ ok (record y.0 { duplicate = true }, y.1))
              same (rw (apply_work, found) refl),
        )
  ]

  answered :
      (s : Store) (o : Result (Applied × Store)) (r : Applied) (s' : Store)
      → answer_or_rollback s o ≡ (ok r, s')
      → o ≡ ok (r, s')
  answered s (ok x) r s' h = ground (arith, h)
  answered s (err (bad_request m)) r s' h = ground (arith, h)
  answered s (err (conflict m)) r s' h = ground (arith, h)
  answered s (err (not_found m)) r s' h = ground (arith, h)
  answered s (err (service_unavailable m)) r s' h = ground (arith, h)
  answered s (err (fault m)) r s' h = ground (arith, h)
  answered s (err (too_many_requests m)) r s' h = ground (arith, h)
  answered s (err (unauthorized m)) r s' h = ground (arith, h)
  answered s (err (forbidden m)) r s' h = ground (arith, h)

-- An import that failed left the tables as they were.
abbrev Undone : Store → Result Applied × Store → Type 0
Undone s x = (e : Error) → x.0 ≡ err e → x.1 ≡ s

undone : (s : Store) (o : Result (Applied × Store)) → Undone s (answer_or_rollback s o)
undone s (ok x) e h = ground (arith, h)
undone s (err (bad_request m)) e h = refl
undone s (err (conflict m)) e h = refl
undone s (err (not_found m)) e h = refl
undone s (err (service_unavailable m)) e h = refl
undone s (err (fault m)) e h = refl
undone s (err (too_many_requests m)) e h = refl
undone s (err (unauthorized m)) e h = refl
undone s (err (forbidden m)) e h = refl

module _ (upper lower sha256 : Text → Text) where
  parsed_again :
      (u : Upload) (o : Result Parsed) (s : Store) (r : Applied) (s' : Store)
      → apply_parsed upper lower sha256 u o s ≡ (ok r, s')
      → apply_parsed upper lower sha256 u o s' ≡ (ok (record r { duplicate = true }), s')
  parsed_again u (err e) s r s' h = ground (arith, h)
  parsed_again u (ok p) s r s' h =
      let fine : (length p.errors == 0) ≡ true = ground (arith, h) in
      let ran : answer_or_rollback s (apply_work upper lower sha256 u p.rows s) ≡ (ok r, s') =
        ground (arith, h, fine) in
      let work =
        answered upper lower sha256 u p.rows s (apply_work upper lower sha256 u p.rows s) r s'
          ran in
      let again = (work_written upper lower sha256 u p.rows s (r, s') work).1 in
      rw (fine, again) refl

  parsed_preview :
      (u : Upload) (o : Result Parsed) (s : Store) (r : Applied) (s' : Store)
      → apply_parsed upper lower sha256 u o s ≡ (ok r, s')
      → r.duplicate ≡ false
      → (p : Preview) × (preview_parsed upper lower sha256 u o s ≡ ok p) × Agrees r p
  unfolding analyze
  parsed_preview u (err e) s r s' h d = ground (arith, h)
  parsed_preview u (ok p) s r s' h d =
      let fine : (length p.errors == 0) ≡ true = ground (arith, h) in
      let ran : answer_or_rollback s (apply_work upper lower sha256 u p.rows s) ≡ (ok r, s') =
        ground (arith, h, fine) in
      let work =
        answered upper lower sha256 u p.rows s (apply_work upper lower sha256 u p.rows s) r s'
          ran in
      let written = (work_written upper lower sha256 u p.rows s (r, s') work).0 d in
      let ds = (analyze s p.rows).decisions in
      let all = length-analyze_rows s p.rows p.rows in
      let parts = created_skipped ds in
      (
        preview_analysis upper lower sha256 u p (analyze s p.rows),
        rw fine refl,
        (
          written.0,
          ground (arith, written.1),
          ground (arith, written.1, all, written.0),
          ground (arith, written.1),
          ground (arith, written.1, parts),
        ),
      )

  parsed-Undone :
      (u : Upload) (o : Result Parsed) (s : Store)
      → Undone s (apply_parsed upper lower sha256 u o s)
  parsed-Undone u (err e) s f h = refl
  parsed-Undone u (ok p) s f h =
      ground (arith, undone s (apply_work upper lower sha256 u p.rows s) f, h)

  upload_again :
      (o : Result Upload) (s : Store) (r : Applied) (s' : Store)
      → apply_upload upper lower sha256 o s ≡ (ok r, s')
      → apply_upload upper lower sha256 o s' ≡ (ok (record r { duplicate = true }), s')
  upload_again (ok u) s r s' h =
      parsed_again u (as_bad_request (parse_initial_import upper true u.content)) s r s' h
  upload_again (err e) s r s' h = ground (arith, h)

  upload_preview :
      (o : Result Upload) (s : Store) (r : Applied) (s' : Store)
      → apply_upload upper lower sha256 o s ≡ (ok r, s')
      → r.duplicate ≡ false
      → (p : Preview) × (preview_upload upper lower sha256 o s ≡ ok p) × Agrees r p
  upload_preview (ok u) s r s' h d =
      parsed_preview u (as_bad_request (parse_initial_import upper true u.content)) s r s' h d
  upload_preview (err e) s r s' h d = ground (arith, h)

  upload-Undone : (o : Result Upload) (s : Store) → Undone s (apply_upload upper lower sha256 o s)
  upload-Undone (ok u) s f h =
      parsed-Undone u (as_bad_request (parse_initial_import upper true u.content)) s f h
  upload-Undone (err e) s f h = refl

  -- A file that has been imported, imported again, gives the same batch with the same counts, marked
  -- as a duplicate, and changes nothing.
  pub apply-apply :
      (body : Json) (s : Store) (r : Applied) (s' : Store)
      → apply upper lower sha256 body s ≡ (ok r, s')
      → apply upper lower sha256 body s' ≡ (ok (record r { duplicate = true }), s')
  unfolding apply
  apply-apply body s r s' h = upload_again (upload upper lower sha256 body) s r s' h

  -- Where the import of a file succeeds that was not imported before, its preview at that moment shows no
  -- error and the same file name and numbers of rows, new rows and known rows.
  pub apply-preview :
      (body : Json) (s : Store) (r : Applied) (s' : Store)
      → apply upper lower sha256 body s ≡ (ok r, s')
      → r.duplicate ≡ false
      → (p : Preview) × (preview upper lower sha256 body s ≡ ok p) × Agrees r p
  unfolding apply preview
  apply-preview body s r s' h d = upload_preview (upload upper lower sha256 body) s r s' h d

  -- An import that fails, at whatever row, leaves every table as it was.
  pub apply-rollback :
      (body : Json) (s : Store) (e : Error)
      → (apply upper lower sha256 body s).0 ≡ err e
      → (apply upper lower sha256 body s).1 ≡ s
  unfolding apply
  apply-rollback body s e h = upload-Undone (upload upper lower sha256 body) s e h
