-- ===== src/Attachments/Examples.antt =====
-- A customer's file on a return, and the properties on it.
use b2b_stm.Prelude.{
  ℕ, ◌≤◌, List, ◌++◌, length, map, ◌≡◌, refl, sym, ◌∙◌, true, false, some, [], ◌∷◌, any, filter,
  arith, nat_eq,
}
use b2b_stm.Text.{Text, codes, trim, uuid_value, uuid_test}
use b2b_stm.Table.{lookup, insert}
use b2b_stm.Tx.{ok}
use b2b_stm.StockCount.{versioned_test}
use b2b_stm.Identity.{customer_role}
use b2b_stm.Identity.Guard.{Principal}
use b2b_stm.Attachments.{
  return_record, pdf, Attachment, Files, customer_of, is_customer_role, authorize, authorize_for,
  content_of, upload_file, count_of, FileUpload, new_attachment, insert_attachment, is_crowded,
}
use b2b_stm.Attachments.Limited.{IsFull, count_digest, upload_file-IsFull}
use b2b_stm.Attachments.Interleaved.{
  Uploads, begin_upload, commit_upload, drop_upload, upload_at, is_locked, begun, committed,
  Reaches, here, next, reaches-IsFull,
}
use b2b_stm.Attachments.Shielded.{content_of-own}
use b2b_stm.Attachments.Scanner.{payload}
use b2b_stm.Attachments.Scanner.Answer.{
  received, ended, before_zero, joined, answer_from, answer_from-chunks,
}
use b2b_stm.Attachments.Scanner.Framing.{read_payload, read_payload-payload}

abbrev return_text : Text
return_text = codes "00000000-0000-4000-8000-00000000000a"

abbrev file_text : Text
file_text = codes "00000000-0000-4000-8000-00000000000b"

abbrev buyer : Principal
buyer = record { id = 7; customer_id = some 2; roles = customer_role ∷ []; mfa_verified = false }

abbrev photo : Attachment
photo = record {
  resource_type = return_record;
  resource_id = 5;
  customer_id = 2;
  filename = codes "a.pdf";
  media_type = pdf;
  byte_size = 5;
  sha256 = codes "x";
  content = codes "%PDF-";
  uploaded_by = 7;
}

abbrev cabinet : Files
unfolding uuid_value
cabinet = record {
  next_id = 100;
  shipments = [];
  returns = (5, 2) ∷ (uuid_value return_text, 2) ∷ [];
  business_attachments = (uuid_value file_text, photo) ∷ [];
}

cabinet-IsFull : IsFull cabinet
unfolding count_of count_digest cabinet filter any
cabinet-IsFull = record {
  at_most = λ type id. ground arith;
  different = λ type id digest. ground arith;
}

abbrev after_upload : Files
unfolding upload_file uuid_value
after_upload =
    (upload_file (λ s. s) (λ s. s) (λ s. s) (λ s. ok tt) buyer (codes "return") return_text
      (some (codes "b.pdf")) (some (codes "application/pdf; x")) (some (codes "%PDF-1.7"))
      cabinet).1

upload_file-IsFull_example : IsFull after_upload
unfolding after_upload upload_file
upload_file-IsFull_example =
    upload_file-IsFull (λ s. s) (λ s. s) (λ s. s) (λ s. ok tt) buyer (codes "return") return_text
      (some (codes "b.pdf")) (some (codes "application/pdf; x")) (some (codes "%PDF-1.7")) cabinet
      cabinet-IsFull

abbrev upload_of : Text → FileUpload
unfolding uuid_value
upload_of digest = record {
  resource_type = return_record;
  resource_id = uuid_value return_text;
  filename = codes "b.pdf";
  media_type = pdf;
  content = codes "%PDF-";
  sha256 = digest;
}

abbrev row_of : Text → Attachment
unfolding upload_of
row_of digest = new_attachment buyer (upload_of digest) 2

abbrev quiet : Files → Uploads
quiet f = record { files = f; under_way = [] }

abbrev IsReturnText : Text → Type 0
IsReturnText s = s ≡ return_text

one_upload : Reaches IsReturnText (quiet cabinet) (
    commit_upload 0
      (record { id = return_text; row = row_of (codes "p") })
      (begin_upload return_text (row_of (codes "p")) (quiet cabinet)))
unfolding upload_of row_of cabinet uuid_value authorize authorize_for lookup any is_locked
    is_crowded count_of filter upload_at commit_upload drop_upload insert_attachment insert
one_upload =
    next (next here (begun buyer return_text (upload_of (codes "p")) 2 refl refl refl refl refl))
      (committed 0 (record { id = return_text; row = row_of (codes "p") }) refl refl)

reaches-IsFull_example :
    IsFull
      (commit_upload 0
        (record { id = return_text; row = row_of (codes "p") })
        (begin_upload return_text (row_of (codes "p")) (quiet cabinet))).files
reaches-IsFull_example =
    reaches-IsFull IsReturnText cabinet
      (commit_upload 0 (record { id = return_text; row = row_of (codes "p") })
        (begin_upload return_text (row_of (codes "p")) (quiet cabinet)))
      (λ x y a b e. a ∙ sym b) cabinet-IsFull one_upload

-- The same id with its letter in upper case.
abbrev other_text : Text
other_text = codes "00000000-0000-4000-8000-00000000000A"

abbrev four_files : Files
unfolding cabinet row_of
four_files = record cabinet {
  business_attachments =
      (1, row_of (codes "a"))
      ∷ (2, row_of (codes "b"))
      ∷ (3, row_of (codes "c"))
      ∷ (4, row_of (codes "d"))
      ∷ [];
}

abbrev six_files : Uploads
unfolding four_files row_of commit_upload
six_files =
    commit_upload 0 (record { id = return_text; row = row_of (codes "p") })
      (commit_upload 0 (record { id = other_text; row = row_of (codes "q") })
        (begin_upload other_text (row_of (codes "q"))
          (begin_upload return_text (row_of (codes "p")) (quiet four_files))))

-- Two spellings of the id take two locks, and both transactions count four attachments.
two_spellings : Reaches (λ s. Unit) (quiet four_files) six_files
unfolding upload_of row_of cabinet four_files six_files uuid_value authorize authorize_for lookup
    any is_locked is_crowded count_of filter upload_at commit_upload drop_upload insert_attachment
    insert
two_spellings =
    next
      (next
        (next (next here (begun buyer return_text (upload_of (codes "p")) 2 tt refl refl refl refl))
          (begun buyer other_text (upload_of (codes "q")) 2 tt refl refl refl refl))
        (committed 0 (record { id = other_text; row = row_of (codes "q") }) refl refl))
      (committed 0 (record { id = return_text; row = row_of (codes "p") }) refl refl)

six_attachments :
    count_of return_record (uuid_value return_text) six_files.files.business_attachments ≡ 6
unfolding six_files four_files row_of upload_of uuid_value count_of filter commit_upload drop_upload
    insert_attachment insert
six_attachments = refl

is_buyer : any is_customer_role buyer.roles ≡ true
unfolding any
is_buyer = refl

given : content_of buyer file_text cabinet ≡ ok photo
unfolding content_of uuid_value versioned_test lookup authorize authorize_for uuid_test
given = refl

content_of-own_example : customer_of return_record 5 cabinet ≡ some 2
content_of-own_example = content_of-own buyer file_text cabinet photo is_buyer given

read_payload-payload_example : read_payload (payload (codes "%PDF-1.7")) ≡ some (codes "%PDF-1.7")
read_payload-payload_example = read_payload-payload (codes "%PDF-1.7")

abbrev pieces : List (List ℕ)
pieces = codes "str" ∷ codes "eam: O" ∷ (codes "K" ++ 0 ∷ codes "rest") ∷ []

short_pieces : length (joined pieces) ≤ 8192
short_pieces = ground arith

pieces_end : before_zero (joined pieces) ≡ some (codes "stream: OK")
unfolding before_zero
pieces_end = refl

answer_from-chunks_example :
    answer_from (λ s. s) [] (map received pieces ++ ended ∷ []) ≡ some (trim (codes "stream: OK"))
answer_from-chunks_example =
    answer_from-chunks (λ s. s) pieces (ended ∷ []) (codes "stream: OK") short_pieces pieces_end
