-- ===== src/Attachments/Scanner.antt =====
-- The malware scan: `scan` and `assertSafe` of apps/api/src/attachments/attachment-malware-scanner.ts. The
-- connection is a parameter that answers a payload with a text, or not at all.
pub mod Framing
pub mod Answer
use b2b_stm.Prelude.{
  ℕ, zero, suc, ◌+◌, ◌*◌, ◌/◌, ◌%◌, ◌^◌, Bool, true, false, ◌&&◌, ◌||◌, not, Option, none, some,
  List, [], ◌∷◌, ◌++◌, length, ◌==◌, nat_eq, if◌then◌else◌,
}
use b2b_stm.Text.{Text, text_eq, codes}
use b2b_stm.Tx.{Error, Result, ok, err, bad_request, service_unavailable}

unfoldable pub first_bytes : ℕ → List ℕ → List ℕ
first_bytes zero s = []
first_bytes (suc n) [] = []
first_bytes (suc n) (c ∷ s) = c ∷ first_bytes n s

unfoldable pub rest_bytes : ℕ → List ℕ → List ℕ
rest_bytes zero s = s
rest_bytes (suc n) [] = []
rest_bytes (suc n) (c ∷ s) = rest_bytes n s

-- `64*1024`
abbrev pub chunk_size : ℕ
chunk_size = 65536

-- `writeUInt32BE`
unfoldable pub uint32_be : ℕ → List ℕ
uint32_be n = (n / 16777216) % 256 ∷ (n / 65536) % 256 ∷ (n / 256) % 256 ∷ n % 256 ∷ []

unfoldable pub frame : List ℕ → List ℕ
unfolding uint32_be
frame chunk = uint32_be (length chunk) ++ chunk

-- The loop over the content; each round takes at least one byte, so its length is fuel enough.
unfoldable pub frames : ℕ → List ℕ → List ℕ
unfolding frame first_bytes rest_bytes
frames zero content = []
frames (suc fuel) [] = []
frames (suc fuel) (c ∷ content) =
    frame (first_bytes chunk_size (c ∷ content))
    ++ frames fuel (rest_bytes chunk_size (c ∷ content))

-- `zINSTREAM` and a zero byte.
abbrev pub command_bytes : List ℕ
command_bytes = codes "zINSTREAM" ++ 0 ∷ []

-- The payload of `scan`.
unfoldable pub payload : List ℕ → List ℕ
unfolding frames
payload content = command_bytes ++ frames (length content) content ++ 0 ∷ 0 ∷ 0 ∷ 0 ∷ []

abbrev pub strip_prefix : List ℕ → List ℕ → Option (List ℕ)
strip_prefix [] s = some s
strip_prefix (c ∷ p) [] = none
strip_prefix (c ∷ p) (d ∷ s) = if c == d then strip_prefix p s else none

-- Ends in ` FOUND`, with something before.
abbrev pub has_found : List ℕ → Bool
has_found [] = false
has_found (c ∷ s) = s == codes " FOUND" || has_found s

abbrev pub is_line_break : ℕ → Bool
is_line_break c = c == 10 || c == 13 || c == 8232 || c == 8233

abbrev pub no_breaks : List ℕ → Bool
no_breaks [] = true
no_breaks (c ∷ s) = not (is_line_break c) && no_breaks s

-- `/^stream: .+ FOUND$/`
abbrev pub names_virus : Option (List ℕ) → Bool
names_virus none = false
names_virus (some s) = no_breaks s && has_found s

-- `assertSafe`, where a scanner is configured, by its answer.
unfoldable pub verdict_of : Option Text → Result (Unit {0})
verdict_of none = err (service_unavailable "Attachment malware scan unavailable")
verdict_of (some response) =
    if response == codes "stream: OK"
    then ok tt
    else if names_virus (strip_prefix (codes "stream: ") response)
    then err (bad_request "Attachment contains malware")
    else err (service_unavailable "Attachment malware scan unavailable")

unfoldable pub assert_safe : Option (List ℕ → Option Text) → List ℕ → Result (Unit {0})
unfolding payload verdict_of
assert_safe none content = ok tt
assert_safe (some request) content = verdict_of (request (payload content))
