-- ===== src/Attachments/Interleaved.antt =====
-- Uploads whose transactions run at the same time: `upload` of apps/api/src/attachments/attachment.service.ts
-- from BEGIN to COMMIT, in two steps, since the advisory lock goes by the id of the record as it is written.
use mathlib.Core.Path.{subst}
use b2b_stm.Prelude.{
  Bool-cases, inl, inr, beq_refl, ℕ, zero, suc, ◌+◌, ◌≤◌, ◌≡◌, refl, Bool, true, false, ◌&&◌,
  Option, none, some, List, [], ◌∷◌, any, All, filter, arith, ◌==◌, nat_eq, if◌then◌else◌,
}
use b2b_stm.Text.{Text, text_eq, uuid_value}
use b2b_stm.Table.{insert}
use b2b_stm.Tx.{ok}
use b2b_stm.Identity.Guard.{Principal}
use b2b_stm.Attachments.{
  ResourceType, shipment_record, return_record, Attachment, Files, FileUpload, same_resource,
  has_digest, is_crowded, count_of, new_attachment, insert_attachment, authorize,
}
use b2b_stm.Attachments.Limited.{IsFull, same_type, insert_attachment-IsFull}

-- A transaction that has taken its lock and counted: the id as written, and the row that it will insert.
pub record OpenUpload : Type 0 where
  pub id : Text
  pub row : Attachment

-- The committed tables, and the transactions that are under way.
pub record Uploads : Type 0 where
  pub files : Files
  pub under_way : List OpenUpload

-- Whether a transaction holds the lock `attachment:${resourceType}:${resourceId}`.
unfoldable pub is_locked : ResourceType → Text → List OpenUpload → Bool
is_locked type id [] = false
is_locked type id (o ∷ os) =
    if same_resource o.row.resource_type type && o.id == id then true else is_locked type id os

-- The transaction up to the count, where it goes on.
abbrev pub begin_upload : Text → Attachment → Uploads → Uploads
begin_upload id row s = record s { under_way = record { id = id; row = row } ∷ s.under_way }

unfoldable pub upload_at : ℕ → List OpenUpload → Option OpenUpload
upload_at n [] = none
upload_at zero (o ∷ os) = some o
upload_at (suc n) (o ∷ os) = upload_at n os

unfoldable pub drop_upload : ℕ → List OpenUpload → List OpenUpload
drop_upload n [] = []
drop_upload zero (o ∷ os) = os
drop_upload (suc n) (o ∷ os) = o ∷ drop_upload n os

-- `ROLLBACK`, and `COMMIT` after the row was inserted: the lock is given back.
unfoldable pub undo_upload : ℕ → Uploads → Uploads
unfolding drop_upload
undo_upload n s = record s { under_way = drop_upload n s.under_way }

unfoldable pub commit_upload : ℕ → OpenUpload → Uploads → Uploads
unfolding drop_upload insert_attachment
commit_upload n o s = record {
  files = insert_attachment o.row s.files;
  under_way = drop_upload n s.under_way;
}

-- The steps of uploads by clients that write ids in the given spellings.
pub data Step (spelled : Text → Type 0) (s : Uploads) : Uploads → Type 0 where
  begun :
      (p : Principal) (id : Text) (u : FileUpload) (customer : ℕ)
      → spelled id
      → u.resource_id ≡ uuid_value id
      → authorize p u.resource_type u.resource_id true s.files ≡ ok customer
      → is_locked u.resource_type id s.under_way ≡ false
      → is_crowded u.resource_type u.resource_id s.files.business_attachments ≡ false
      → Step spelled s (begin_upload id (new_attachment p u customer) s)
  committed :
      (n : ℕ) (o : OpenUpload)
      → upload_at n s.under_way ≡ some o
      → any
          (has_digest o.row.resource_type o.row.resource_id o.row.sha256)
          s.files.business_attachments
        ≡ false
      → Step spelled s (commit_upload n o s)
  undone : (n : ℕ) → Step spelled s (undo_upload n s)

pub data Reaches (spelled : Text → Type 0) (start : Uploads) : Uploads → Type 0 where
  here : Reaches spelled start start
  next : {s t : Uploads} → Reaches spelled start s → Step spelled s t → Reaches spelled start t

-- How many transactions are under way for a record.
unfoldable held_count : ResourceType → ℕ → List OpenUpload → ℕ
held_count type id [] = 0
held_count type id (o ∷ os) =
    (if same_resource o.row.resource_type type && o.row.resource_id == id then 1 else 0)
    + held_count type id os

abbrev IsSpelled : (Text → Type 0) → OpenUpload → Type 0
IsSpelled spelled o = spelled o.id × (o.row.resource_id ≡ uuid_value o.id)

record IsRoomy (spelled : Text → Type 0) (s : Uploads) : Type 0 where
  full : IsFull s.files
  room :
      (type : ResourceType) (id : ℕ)
      → count_of type id s.files.business_attachments + held_count type id s.under_way ≤ 5
  spellings : All (IsSpelled spelled) s.under_way

All-drop_upload :
    (P : OpenUpload → Type 0) (n : ℕ) (os : List OpenUpload) → All P os → All P (drop_upload n os)
unfolding drop_upload
All-drop_upload P n [] h = tt
All-drop_upload P zero (o ∷ os) h = h.1
All-drop_upload P (suc n) (o ∷ os) h = (h.0, All-drop_upload P n os h.1)

held_count-drop_upload :
    (type : ResourceType) (id n : ℕ) (os : List OpenUpload)
    → held_count type id (drop_upload n os) ≤ held_count type id os
unfolding held_count drop_upload
held_count-drop_upload type id n [] = ground arith
held_count-drop_upload type id zero (o ∷ os) = ground arith
held_count-drop_upload type id (suc n) (o ∷ os) =
    ground (arith, held_count-drop_upload type id n os)

-- The transaction that ends is one of those that were counted.
held_count-upload_at :
    (type : ResourceType) (id n : ℕ) (o : OpenUpload) (os : List OpenUpload)
    → upload_at n os ≡ some o
    → held_count type id os
      ≡ (if same_resource o.row.resource_type type && o.row.resource_id == id then 1 else 0)
        + held_count type id (drop_upload n os)
unfolding held_count drop_upload upload_at
held_count-upload_at type id n o [] e = cc
held_count-upload_at type id zero o (x ∷ os) e = ground (arith, e)
held_count-upload_at type id (suc n) o (x ∷ os) e =
    ground (arith, held_count-upload_at type id n o os e)

same_resource_refl : (type : ResourceType) → same_resource type type ≡ true
same_resource_refl shipment_record = refl
same_resource_refl return_record = refl

-- What holds of a record holds of the record that is the same.
at_record :
    (P : ResourceType → ℕ → Type 0) (a b : ResourceType) (i k : ℕ)
    → (same_resource a b && i == k) ≡ true
    → P a i
    → P b k
at_record P a b i k mine h =
    let t : a ≡ b = same_type a b (ground (arith, mine)) in
    let e : i ≡ k = ground (arith, mine) in
    subst (λ (x : ℕ). P b x) e (subst (λ (x : ResourceType). P x i) t h)

abbrev Roomy : Uploads → ResourceType → ℕ → Type 0
Roomy s type id = count_of type id s.files.business_attachments + held_count type id s.under_way ≤ 5

committed-room :
    (n : ℕ) (o : OpenUpload) (s : Uploads) (type : ResourceType) (id : ℕ)
    → Roomy s type id
    → upload_at n s.under_way ≡ some o
    → Roomy (commit_upload n o s) type id
unfolding commit_upload insert_attachment insert count_of filter
committed-room n o s type id h there =
    ground (arith, h, held_count-upload_at type id n o s.under_way there)

committed-few :
    (n : ℕ) (o : OpenUpload) (s : Uploads)
    → Roomy s o.row.resource_type o.row.resource_id
    → upload_at n s.under_way ≡ some o
    → count_of o.row.resource_type o.row.resource_id s.files.business_attachments ≤ 4
committed-few n o s h there = ground (
  arith,
  h,
  held_count-upload_at o.row.resource_type o.row.resource_id n o s.under_way there,
  same_resource_refl o.row.resource_type,
  beq_refl o.row.resource_id,
)

begun-room :
    (id : Text) (a : Attachment) (s : Uploads) (type : ResourceType) (k : ℕ)
    → Roomy s type k
    → is_crowded a.resource_type a.resource_id s.files.business_attachments ≡ false
    → held_count a.resource_type a.resource_id s.under_way ≡ 0
    → Roomy (begin_upload id a s) type k
unfolding held_count is_crowded
begun-room id a s type k h few alone =
    elim (Bool-cases (same_resource a.resource_type type && a.resource_id == k)) [
      | inl mine ↦
          at_record (Roomy (begin_upload id a s)) a.resource_type type a.resource_id k mine
            (ground (arith, few, alone))
      | inr other ↦ ground (arith, other, h)
    ]

module _ (spelled : Text → Type 0)
    (one_spelling : (s t : Text)
      → spelled s
      → spelled t
      → uuid_value s ≡ uuid_value t
      → s ≡ t) where
  -- Where no lock is held for an id, no transaction is under way for its record.
  held_count-is_locked :
      (type : ResourceType) (id : Text) (os : List OpenUpload)
      → spelled id
      → All (IsSpelled spelled) os
      → is_locked type id os ≡ false
      → held_count type (uuid_value id) os ≡ 0
  unfolding held_count is_locked
  held_count-is_locked type id [] its h e = refl
  held_count-is_locked type id (o ∷ os) its h e =
      let same : uuid_value o.id ≡ uuid_value id → o.id ≡ id = one_spelling o.id id h.0.0 its in
      ground
        (arith, e, h.0.1, same, text_eq.beq_iff o.id id, held_count-is_locked type id os its h.1)

  step-IsRoomy : (s t : Uploads) → IsRoomy spelled s → Step spelled s t → IsRoomy spelled t
  unfolding undo_upload commit_upload
  step-IsRoomy s t h (begun p id u customer its names allowed free few) =
      let alone : held_count u.resource_type u.resource_id s.under_way ≡ 0 =
        rw names (held_count-is_locked u.resource_type id s.under_way its h.spellings free) in
      record {
        full = h.full;
        room = λ type k.
            begun-room id (new_attachment p u customer) s type k (h.room type k) few alone;
        spellings = ((its, names), h.spellings);
      }
  step-IsRoomy s t h (committed n o there new) = record {
    full =
        insert_attachment-IsFull o.row s.files h.full
          (committed-few n o s (h.room o.row.resource_type o.row.resource_id) there) new;
    room = λ type id. committed-room n o s type id (h.room type id) there;
    spellings = All-drop_upload (IsSpelled spelled) n s.under_way h.spellings;
  }
  step-IsRoomy s t h (undone n) = record {
    full = h.full;
    room = λ type id. omega (arith, h.room type id, held_count-drop_upload type id n s.under_way);
    spellings = All-drop_upload (IsSpelled spelled) n s.under_way h.spellings;
  }

  reaches-IsRoomy : (s t : Uploads) → IsRoomy spelled s → Reaches spelled s t → IsRoomy spelled t
  reaches-IsRoomy s _ h here = h
  reaches-IsRoomy s _ h (next {s = m} path step) =
      step-IsRoomy m _ (reaches-IsRoomy s m h path) step

-- Where every record's id is written in one spelling only, uploads that run at the same time, in any
-- interleaving of their transactions, leave no record with more than five attachments, or with two of
-- the same digest, if there were none at the start.
pub reaches-IsFull :
    (spelled : Text → Type 0) (f : Files) (s : Uploads)
    → ((x y : Text) → spelled x → spelled y → uuid_value x ≡ uuid_value y → x ≡ y)
    → IsFull f
    → Reaches spelled (record { files = f; under_way = [] }) s
    → IsFull s.files
unfolding held_count
reaches-IsFull spelled f s one_spelling h path =
    (reaches-IsRoomy spelled one_spelling (record { files = f; under_way = [] }) s
      (record { full = h; room = λ type id. omega (arith, h.at_most type id); spellings = tt })
      path).full
