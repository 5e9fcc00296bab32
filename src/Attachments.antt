-- ===== src/Attachments.antt =====
-- Attachments of shipments and returns: apps/api/src/attachments. The digest, the NFC form and lower case
-- are parameters; so is what the malware scanner answers.
pub mod Scanner
pub mod Limited
pub mod Interleaved
pub mod Shielded
mod Examples
use b2b_stm.Prelude.{
  ℕ, suc, ◌+◌, ◌%◌, Bool, true, false, ◌&&◌, ◌||◌, not, Option, none, some, List, [], ◌∷◌, any,
  filter, length, leb, ltb, ◌==◌, nat_eq, if◌then◌else◌,
}
use b2b_stm.Text.{Text, text_eq, codes, trim, uuid_value}
use b2b_stm.Table.{Table, lookup, insert}
use b2b_stm.Tx.{
  Error, Result, ok, err, bad_request, conflict, not_found, forbidden, service_unavailable, fault,
  http_error,
}
use b2b_stm.StockCount.{versioned_test}
use b2b_stm.Identity.{Role, customer_role, warehouse, operations, settlement, system}
use b2b_stm.Identity.Password.{split}
use b2b_stm.Identity.Guard.{Principal, is_role}

pub data ResourceType : Type 0 where
  shipment_record return_record : ResourceType

pub data MediaType : Type 0 where
  jpeg png pdf : MediaType

-- A row of `business_attachments`.
pub record Attachment : Type 0 where
  pub resource_type : ResourceType
  pub resource_id : ℕ
  pub customer_id : ℕ
  pub filename : Text
  pub media_type : MediaType
  pub byte_size : ℕ
  pub sha256 : Text
  pub content : List ℕ
  pub uploaded_by : ℕ

-- The customers of the shipments, through their orders, and of the returns; and the attachments.
pub record Files : Type 0 where
  pub next_id : ℕ
  pub shipments : Table ℕ ℕ
  pub returns : Table ℕ ℕ
  pub business_attachments : Table ℕ Attachment

-- `target`
unfoldable pub resource_of : Text → Option ResourceType
resource_of s =
    if s == codes "shipment"
    then some shipment_record
    else if s == codes "return"
    then some return_record
    else none

abbrev pub target_with : Option ResourceType → Text → Result ResourceType
unfolding versioned_test
target_with none id = err (bad_request "Invalid attachment target")
target_with (some type) id =
    if versioned_test id then ok type else err (bad_request "Invalid attachment target")

unfoldable pub target : Text → Text → Result ResourceType
unfolding resource_of versioned_test
target type id = target_with (resource_of type) id

abbrev pub begins_with : List ℕ → List ℕ → Bool
begins_with [] s = true
begins_with (c ∷ p) [] = false
begins_with (c ∷ p) (d ∷ s) = c == d && begins_with p s

-- `toString('ascii')` of bytes, which drops their highest bit.
abbrev pub ascii : List ℕ → List ℕ
ascii [] = []
ascii (c ∷ s) = c % 128 ∷ ascii s

-- `validSignature`
unfoldable pub valid_signature : List ℕ → MediaType → Bool
valid_signature content jpeg = begins_with (255 ∷ 216 ∷ 255 ∷ []) content
valid_signature content png = begins_with (137 ∷ 80 ∷ 78 ∷ 71 ∷ 13 ∷ 10 ∷ 26 ∷ 10 ∷ []) content
valid_signature content pdf = begins_with (codes "%PDF-") (ascii content)

unfoldable pub media_type_of : Text → Option MediaType
media_type_of s =
    if s == codes "image/jpeg"
    then some jpeg
    else if s == codes "image/png"
    then some png
    else if s == codes "application/pdf"
    then some pdf
    else none

abbrev pub extension_fits : MediaType → Text → Bool
extension_fits jpeg s = s == codes "jpg" || s == codes "jpeg"
extension_fits png s = s == codes "png"
extension_fits pdf s = s == codes "pdf"

-- `/[\\/\x00-\x1f\x7f]/`
abbrev pub is_bad_in_name : ℕ → Bool
is_bad_in_name c = c == 92 || c == 47 || leb c 31 || c == 127

abbrev pub bad_name : Text → Bool
unfolding any
bad_name s = length s == 0 || ltb 180 (length s) || any is_bad_in_name s

abbrev pub last_of : List Text → Text
last_of [] = []
last_of (t ∷ []) = t
last_of (t ∷ u ∷ ts) = last_of (u ∷ ts)

abbrev pub first_of : List Text → Text
first_of [] = []
first_of (t ∷ ts) = t

abbrev pub or_blank : Option Text → Text
or_blank none = []
or_blank (some s) = s

abbrev pub customer_of : ResourceType → ℕ → Files → Option ℕ
unfolding lookup
customer_of shipment_record id f = lookup id f.shipments
customer_of return_record id f = lookup id f.returns

abbrev pub is_shipment : ResourceType → Bool
is_shipment shipment_record = true
is_shipment return_record = false

abbrev pub same_id : ℕ → Option ℕ → Bool
same_id c none = false
same_id c (some d) = d == c

abbrev pub is_operator : Role → Bool
is_operator system = true
is_operator operations = true
is_operator _ = false

abbrev pub is_customer_role : Role → Bool
is_customer_role customer_role = true
is_customer_role _ = false

abbrev pub is_warehouse_role : Role → Bool
is_warehouse_role warehouse = true
is_warehouse_role _ = false

-- The rights of a principal on a record of a customer.
unfoldable pub authorize_for : Principal → ResourceType → Bool → ℕ → Result ℕ
unfolding any
authorize_for p type write customer =
    if any is_customer_role p.roles
    then if is_shipment type && write
      then err (forbidden "Customer cannot upload shipment evidence")
      else if not (same_id customer p.customer_id)
      then err (forbidden "Attachment belongs to another customer")
      else ok customer
    else if any is_warehouse_role p.roles
    then ok customer
    else if p.mfa_verified && any is_operator p.roles
    then ok customer
    else err (forbidden "Attachment role required")

abbrev pub authorize_found : Principal → ResourceType → Bool → Option ℕ → Result ℕ
unfolding authorize_for
authorize_found p type write none = err (not_found "Attachment target unavailable")
authorize_found p type write (some customer) = authorize_for p type write customer

-- `authorize`
unfoldable pub authorize : Principal → ResourceType → ℕ → Bool → Files → Result ℕ
unfolding authorize_for lookup
authorize p type id write f = authorize_found p type write (customer_of type id f)

abbrev pub same_resource : ResourceType → ResourceType → Bool
same_resource shipment_record shipment_record = true
same_resource return_record return_record = true
same_resource _ _ = false

abbrev pub is_of : ResourceType → ℕ → ℕ × Attachment → Bool
is_of type id a = same_resource a.1.resource_type type && a.1.resource_id == id

abbrev pub has_digest : ResourceType → ℕ → Text → ℕ × Attachment → Bool
has_digest type id digest a = is_of type id a && a.1.sha256 == digest

-- How many attachments a record has.
unfoldable pub count_of : ResourceType → ℕ → Table ℕ Attachment → ℕ
unfolding filter
count_of type id t = length (filter (is_of type id) t)

-- `count >= 5`
abbrev pub is_crowded : ResourceType → ℕ → Table ℕ Attachment → Bool
unfolding count_of
is_crowded type id t = leb 5 (count_of type id t)

-- An upload that has passed its checks.
pub record FileUpload : Type 0 where
  pub resource_type : ResourceType
  pub resource_id : ℕ
  pub filename : Text
  pub media_type : MediaType
  pub content : List ℕ
  pub sha256 : Text

abbrev pub new_attachment : Principal → FileUpload → ℕ → Attachment
new_attachment p u customer = record {
  resource_type = u.resource_type;
  resource_id = u.resource_id;
  customer_id = customer;
  filename = u.filename;
  media_type = u.media_type;
  byte_size = length u.content;
  sha256 = u.sha256;
  content = u.content;
  uploaded_by = p.id;
}

unfoldable pub insert_attachment : Attachment → Files → Files
insert_attachment a f = record f {
  next_id = suc f.next_id;
  business_attachments = insert f.next_id a f.business_attachments;
}

abbrev pub store_for : Principal → FileUpload → Files → Result ℕ → Result (ℕ × Files)
unfolding insert_attachment any count_of
store_for p u f (err e) = err e
store_for p u f (ok customer) =
    if is_crowded u.resource_type u.resource_id f.business_attachments
    then err (conflict "A business record can have at most five attachments")
    else if any (has_digest u.resource_type u.resource_id u.sha256) f.business_attachments
    then err (conflict "The same attachment already exists")
    else ok (f.next_id, insert_attachment (new_attachment p u customer) f)

-- The transaction of `upload`.
unfoldable pub store : Principal → FileUpload → Files → Result (ℕ × Files)
unfolding authorize insert_attachment any count_of
store p u f = store_for p u f (authorize p u.resource_type u.resource_id true f)

abbrev pub commit_files : Files → Result (ℕ × Files) → Result ℕ × Files
commit_files f (ok (id, g)) = (ok id, g)
commit_files f (err e) = (err (http_error "Attachment upload unavailable" e), f)

abbrev pub allowed_content : Attachment → Result ℕ → Result Attachment
allowed_content a (ok customer) = ok a
allowed_content a (err e) = err e

abbrev pub content_for : Principal → Files → Option Attachment → Result Attachment
unfolding authorize
content_for p f none = err (not_found "Attachment unavailable")
content_for p f (some a) = allowed_content a (authorize p a.resource_type a.resource_id false f)

-- `content`: the row whose name, type, size and bytes are answered.
unfoldable pub content_of : Principal → Text → Files → Result Attachment
unfolding authorize versioned_test lookup
content_of p id f =
    if not (versioned_test id)
    then err (bad_request "Invalid attachment ID")
    else content_for p f (lookup (uuid_value id) f.business_attachments)

-- `list`: the attachments of a record, in some order.
abbrev pub list_for : Principal → ResourceType → ℕ → Files → Result ℕ → Result (Table ℕ Attachment)
unfolding filter
list_for p type id f (err e) = err e
list_for p type id f (ok customer) = ok (filter (is_of type id) f.business_attachments)

abbrev pub list_target : Principal → ℕ → Files → Result ResourceType → Result (Table ℕ Attachment)
unfolding authorize filter
list_target p id f (err e) = err e
list_target p id f (ok type) = list_for p type id f (authorize p type id false f)

unfoldable pub list_attachments : Principal → Text → Text → Files → Result (Table ℕ Attachment)
unfolding target authorize filter
list_attachments p type id f = list_target p (uuid_value id) f (target type id)

module _ (nfc lower : Text → Text) (sha256 : List ℕ → Text)
    (scan : List ℕ → Result (Unit {0})) where
  abbrev pub extension : Text → Text
  unfolding split any
  extension name = if any (λ c. c == b'.') name then lower (last_of (split b'.' name)) else []

  abbrev pub bad_content : List ℕ → MediaType → Bool
  unfolding valid_signature
  bad_content content media =
      length content == 0 || ltb 10485760 (length content) || not (valid_signature content media)

  abbrev pub checked_content :
      ResourceType → ℕ → Text → MediaType → Option (List ℕ) → Result FileUpload
  unfolding valid_signature
  checked_content type id name media none = err (bad_request "Attachment content is invalid")
  checked_content type id name media (some content) =
      if bad_content content media
      then err (bad_request "Attachment content is invalid")
      else ok (record {
        resource_type = type;
        resource_id = id;
        filename = name;
        media_type = media;
        content = content;
        sha256 = sha256 content;
      })

  abbrev pub checked_media :
      ResourceType → ℕ → Text → Option MediaType → Option (List ℕ) → Result FileUpload
  unfolding split any valid_signature
  checked_media type id name none content = err (bad_request "Invalid attachment metadata")
  checked_media type id name (some media) content =
      if bad_name name
      then err (bad_request "Invalid attachment metadata")
      else if not (extension_fits media (extension name))
      then err (bad_request "Filename extension does not match content type")
      else checked_content type id name media content

  -- The checks of `upload`, by the target.
  abbrev pub checked_upload :
      Text → Option Text → Option Text → Option (List ℕ) → Result ResourceType → Result FileUpload
  unfolding split any valid_signature media_type_of trim
  checked_upload id name media content (err e) = err e
  checked_upload id name media content (ok type) =
      checked_media type (uuid_value id) (trim (nfc (or_blank name)))
        (media_type_of (lower (trim (first_of (split b';' (or_blank media)))))) content

  abbrev pub scanned : Principal → FileUpload → Files → Result (Unit {0}) → Result ℕ × Files
  unfolding store
  scanned p u f (err e) = (err e, f)
  scanned p u f (ok x) = commit_files f (store p u f)

  abbrev pub authorized : Principal → FileUpload → Files → Result ℕ → Result ℕ × Files
  unfolding store
  authorized p u f (err e) = (err e, f)
  authorized p u f (ok customer) = scanned p u f (scan u.content)

  abbrev pub upload_checked : Principal → Files → Result FileUpload → Result ℕ × Files
  unfolding authorize store
  upload_checked p f (err e) = (err e, f)
  upload_checked p f (ok u) = authorized p u f (authorize p u.resource_type u.resource_id true f)

  -- `upload`: the checks, the rights, the scan, and the transaction. Its answer is the id.
  unfoldable pub upload_file :
      Principal
      → Text
      → Text
      → Option Text
      → Option Text
      → Option (List ℕ)
      → Files
      → Result ℕ × Files
  unfolding target authorize store split any valid_signature media_type_of trim
  upload_file p type id name media content f =
      upload_checked p f (checked_upload id name media content (target type id))
