-- ===== src/Attachments/Limited.antt =====
-- How many attachments a record has, and that no two of them are the same.
use mathlib.Core.Path.{subst}
use b2b_stm.Prelude.{
  ℕ, ◌+◌, ◌≤◌, ◌≡◌, refl, Bool, Bool-cases, inl, inr, true, false, ◌&&◌, Option, List, [], ◌∷◌,
  arith, any, filter, ◌==◌, nat_eq, if◌then◌else◌,
}
use b2b_stm.Text.{Text, text_eq}
use b2b_stm.Table.{Table, insert}
use b2b_stm.Tx.{Result, ok, err, conflict}
use b2b_stm.Identity.Guard.{Principal}
use b2b_stm.Attachments.{
  ResourceType, shipment_record, return_record, Attachment, Files, FileUpload, has_digest,
  is_crowded, count_of, new_attachment, insert_attachment, store_for, store, commit_files,
  authorize, checked_upload, scanned, authorized, upload_checked, upload_file, target,
  same_resource,
}

-- How many attachments of a record have some digest.
unfoldable pub count_digest : ResourceType → ℕ → Text → Table ℕ Attachment → ℕ
count_digest type id digest [] = 0
count_digest type id digest (a ∷ t) =
    (if has_digest type id digest a then 1 else 0) + count_digest type id digest t

pub record IsFull (f : Files) : Type 0 where
  pub at_most : (type : ResourceType) (id : ℕ) → count_of type id f.business_attachments ≤ 5
  pub different :
      (type : ResourceType) (id : ℕ) (digest : Text)
      → count_digest type id digest f.business_attachments ≤ 1

none_counted :
    (type : ResourceType) (id : ℕ) (digest : Text) (t : Table ℕ Attachment)
    → any (has_digest type id digest) t ≡ false
    → count_digest type id digest t ≡ 0
unfolding any count_digest
none_counted type id digest [] e = refl
none_counted type id digest (a ∷ t) e = ground (arith, none_counted type id digest t, e)

pub same_type : (a b : ResourceType) → same_resource a b ≡ true → a ≡ b
same_type shipment_record shipment_record e = refl
same_type shipment_record return_record e = cc
same_type return_record shipment_record e = cc
same_type return_record return_record e = refl

-- A record that has fewer than five attachments and none with a digest can get one with the digest.
pub insert_attachment-IsFull :
    (a : Attachment) (f : Files)
    → IsFull f
    → count_of a.resource_type a.resource_id f.business_attachments ≤ 4
    → any (has_digest a.resource_type a.resource_id a.sha256) f.business_attachments ≡ false
    → IsFull (insert_attachment a f)
unfolding insert_attachment insert count_of count_digest filter
insert_attachment-IsFull a f h few new = record {
  at_most = λ type id.
      elim (Bool-cases (same_resource a.resource_type type && a.resource_id == id)) [
        | inl mine ↦
            let t : a.resource_type ≡ type =
              same_type a.resource_type type (ground (arith, mine)) in
            let i : a.resource_id ≡ id = ground (arith, mine) in
            let moved : count_of type id f.business_attachments ≤ 4 =
              subst (λ (k : ℕ). count_of type k f.business_attachments ≤ 4) i
                (subst (λ (x : ResourceType). count_of x a.resource_id f.business_attachments ≤ 4) t
                  few) in
            ground (arith, mine, moved)
        | inr other ↦ ground (arith, other, h.at_most type id)
      ];
  different = λ type id digest.
      elim (Bool-cases
        (same_resource a.resource_type type && a.resource_id == id && a.sha256 == digest)) [
          | inl mine ↦
              let t : a.resource_type ≡ type =
                same_type a.resource_type type (ground (arith, mine)) in
              let i : a.resource_id ≡ id = ground (arith, mine) in
              let same : (a.sha256 == digest) ≡ true = ground (arith, mine) in
              let d = (text_eq.beq_iff a.sha256 digest).0 same in
              let none_yet : count_digest type id digest f.business_attachments ≡ 0 =
                subst (λ (w : Text). count_digest type id w f.business_attachments ≡ 0) d
                  (subst (λ (k : ℕ). count_digest type k a.sha256 f.business_attachments ≡ 0) i
                    (subst
                      (λ (x : ResourceType).
                        count_digest x a.resource_id a.sha256 f.business_attachments ≡ 0)
                      t
                      (none_counted a.resource_type a.resource_id a.sha256 f.business_attachments
                        new))) in
              ground (arith, mine, none_yet)
          | inr other ↦ ground (arith, other, h.different type id digest)
        ];
}

store_for-IsFull :
    (p : Principal) (u : FileUpload) (f : Files) (r : Result ℕ)
    → IsFull f
    → IsFull (commit_files f (store_for p u f r)).1
unfolding insert_attachment any count_of
store_for-IsFull p u f (err e) h = h
store_for-IsFull p u f (ok customer) h =
    go (is_crowded u.resource_type u.resource_id f.business_attachments)
      (any (has_digest u.resource_type u.resource_id u.sha256) f.business_attachments) refl refl
  where
    added : Result (ℕ × Files)
    added = ok (f.next_id, insert_attachment (new_attachment p u customer) f)

    go :
        (b c : Bool)
        → is_crowded u.resource_type u.resource_id f.business_attachments ≡ b
        → any (has_digest u.resource_type u.resource_id u.sha256) f.business_attachments ≡ c
        → IsFull
            (commit_files f (
              if b
              then err (conflict "A business record can have at most five attachments")
              else if c
              then err (conflict "The same attachment already exists")
              else added)).1
    go true c e d = h
    go false true e d = h
    go false false e d =
        insert_attachment-IsFull (new_attachment p u customer) f h (ground (arith, e)) d

module _ (nfc lower : Text → Text) (sha256 : List ℕ → Text)
    (scan : List ℕ → Result (Unit {0})) where
  scanned-IsFull :
      (p : Principal) (u : FileUpload) (f : Files) (r : Result (Unit {0}))
      → IsFull f
      → IsFull (scanned nfc lower sha256 scan p u f r).1
  unfolding store
  scanned-IsFull p u f (err e) h = h
  scanned-IsFull p u f (ok x) h =
      store_for-IsFull p u f (authorize p u.resource_type u.resource_id true f) h

  authorized-IsFull :
      (p : Principal) (u : FileUpload) (f : Files) (r : Result ℕ)
      → IsFull f
      → IsFull (authorized nfc lower sha256 scan p u f r).1
  unfolding store
  authorized-IsFull p u f (err e) h = h
  authorized-IsFull p u f (ok customer) h = scanned-IsFull p u f (scan u.content) h

  upload_checked-IsFull :
      (p : Principal) (f : Files) (r : Result FileUpload)
      → IsFull f
      → IsFull (upload_checked nfc lower sha256 scan p f r).1
  unfolding authorize store
  upload_checked-IsFull p f (err e) h = h
  upload_checked-IsFull p f (ok u) h =
      authorized-IsFull p u f (authorize p u.resource_type u.resource_id true f) h

  -- An upload that runs while no other is under way leaves no record with more than five attachments, or
  -- with two of the same digest, if none had before.
  pub upload_file-IsFull :
      (p : Principal) (type id : Text) (name media : Option Text) (content : Option (List ℕ))
      (f : Files)
      → IsFull f
      → IsFull (upload_file nfc lower sha256 scan p type id name media content f).1
  unfolding upload_file
  upload_file-IsFull p type id name media content f h =
      upload_checked-IsFull p f
        (checked_upload nfc lower sha256 scan id name media content (target type id)) h
