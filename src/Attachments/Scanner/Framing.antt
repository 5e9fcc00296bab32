-- ===== src/Attachments/Scanner/Framing.antt =====
-- What a scanner reads from the payload.
use b2b_stm.Prelude.{
  ℕ, zero, suc, ◌+◌, ◌*◌, ◌-◌, ◌/◌, ◌%◌, ◌≤◌, ◌<◌, ◌≡◌, refl, sym, ap, ◌∙◌, Bool, false, Option,
  none, some, List, [], ◌∷◌, ◌++◌, length, arith, ◌==◌, nat_eq, if◌then◌else◌,
}
use b2b_stm.Attachments.Scanner.{
  first_bytes, rest_bytes, chunk_size, uint32_be, frame, frames, command_bytes, payload,
  strip_prefix,
}

-- A scanner reads a length of four bytes and as many bytes, until a length is zero; then nothing may follow.
abbrev join_to : List ℕ → Option (List ℕ) → Option (List ℕ)
join_to chunk none = none
join_to chunk (some rest) = some (chunk ++ rest)

abbrev value_of : ℕ → ℕ → ℕ → ℕ → ℕ
value_of a b c d = ((a * 256 + b) * 256 + c) * 256 + d

unfoldable pub read_frames : ℕ → List ℕ → Option (List ℕ)
unfolding first_bytes rest_bytes
read_frames zero s = none
read_frames (suc fuel) (a ∷ b ∷ c ∷ d ∷ s) =
    let n = value_of a b c d in
    let rest = join_to (first_bytes n s) (read_frames fuel (rest_bytes n s)) in
    if n == 0 then (if length s == 0 then some [] else none) else rest
read_frames (suc fuel) _ = none

abbrev read_after : Option (List ℕ) → Option (List ℕ)
unfolding read_frames
read_after none = none
read_after (some s) = read_frames (suc (length s)) s

unfoldable pub read_payload : List ℕ → Option (List ℕ)
unfolding read_frames
read_payload s = read_after (strip_prefix command_bytes s)

first_bytes-append : (s t : List ℕ) → first_bytes (length s) (s ++ t) ≡ s
unfolding first_bytes
first_bytes-append [] t = refl
first_bytes-append (c ∷ s) t = ap (λ (r : List ℕ). c ∷ r) (first_bytes-append s t)

rest_bytes-append : (s t : List ℕ) → rest_bytes (length s) (s ++ t) ≡ t
unfolding rest_bytes
rest_bytes-append [] t = refl
rest_bytes-append (c ∷ s) t = rest_bytes-append s t

first_rest : (n : ℕ) (s : List ℕ) → first_bytes n s ++ rest_bytes n s ≡ s
unfolding first_bytes rest_bytes
first_rest zero s = refl
first_rest (suc n) [] = refl
first_rest (suc n) (c ∷ s) = ap (λ (r : List ℕ). c ∷ r) (first_rest n s)

length-first_bytes : (n : ℕ) (s : List ℕ) → length (first_bytes n s) ≤ n
unfolding first_bytes
length-first_bytes zero s = ground arith
length-first_bytes (suc n) [] = ground arith
length-first_bytes (suc n) (c ∷ s) = ground (arith, length-first_bytes n s)

length-rest_bytes : (n : ℕ) (s : List ℕ) → length (rest_bytes n s) ≡ length s - n
unfolding rest_bytes
length-rest_bytes zero s = ground arith
length-rest_bytes (suc n) [] = ground arith
length-rest_bytes (suc n) (c ∷ s) = ground (arith, length-rest_bytes n s)

append_assoc : (s t u : List ℕ) → (s ++ t) ++ u ≡ s ++ (t ++ u)
append_assoc [] t u = refl
append_assoc (c ∷ s) t u = ap (λ (r : List ℕ). c ∷ r) (append_assoc s t u)

-- Four bytes are the number they were written for, below 2 ^ 32.
uint32_value :
    (n : ℕ)
    → n < 4294967296
    → value_of ((n / 16777216) % 256) ((n / 65536) % 256) ((n / 256) % 256) (n % 256) ≡ n
uint32_value n h = omega arith

is_end : ℕ → ℕ → List ℕ → List ℕ → Option (List ℕ)
unfolding read_frames first_bytes rest_bytes
is_end n m chunk tail =
    let rest =
      join_to (first_bytes n (chunk ++ tail)) (read_frames m (rest_bytes n (chunk ++ tail))) in
    if n == 0 then (if length (chunk ++ tail) == 0 then some [] else none) else rest

chunk_read :
    (m : ℕ) (chunk tail : List ℕ)
    → 0 < length chunk
    → is_end (length chunk) m chunk tail ≡ join_to chunk (read_frames m tail)
unfolding is_end
chunk_read m chunk tail some_bytes =
    let filled : (length chunk == 0) ≡ false = ground (arith, some_bytes) in
    ap
      (λ (b : Bool).
        if b
        then (if length (chunk ++ tail) == 0 then some [] else none)
        else join_to (first_bytes (length chunk) (chunk ++ tail))
            (read_frames m (rest_bytes (length chunk) (chunk ++ tail))))
      filled
    ∙ (λ i.
        join_to (first_bytes-append chunk tail i) (read_frames m (rest_bytes-append chunk tail i)))

read_frames-frame :
    (m : ℕ) (chunk tail : List ℕ)
    → 0 < length chunk
    → length chunk ≤ chunk_size
    → read_frames (suc m) (frame chunk ++ tail) ≡ join_to chunk (read_frames m tail)
unfolding read_frames frame uint32_be is_end
read_frames-frame m chunk tail some_bytes fits =
    ap (λ (n : ℕ). is_end n m chunk tail) (uint32_value (length chunk) (omega arith))
    ∙ chunk_read m chunk tail some_bytes

first_some : (n c : ℕ) (s : List ℕ) → 0 < n → 0 < length (first_bytes n (c ∷ s))
unfolding first_bytes
first_some zero c s h = ground arith
first_some (suc n) c s h = ground arith

abbrev zeros : List ℕ
zeros = 0 ∷ 0 ∷ 0 ∷ 0 ∷ []

read_frames-frames :
    (fuel m : ℕ) (content : List ℕ)
    → length content ≤ fuel
    → fuel < m
    → read_frames m (frames fuel content ++ zeros) ≡ some content
unfolding frames read_frames
read_frames-frames fuel zero content fits more = ground arith
read_frames-frames zero (suc m) [] fits more = refl
read_frames-frames zero (suc m) (c ∷ content) fits more = ground arith
read_frames-frames (suc fuel) (suc m) [] fits more = refl
read_frames-frames (suc fuel) (suc m) (c ∷ content) fits more =
    let s = c ∷ content in
    let later =
      read_frames-frames fuel m (rest_bytes chunk_size s)
        (omega (arith, length-rest_bytes chunk_size s)) (omega arith) in
    ap (read_frames (suc m)) (
      append_assoc (frame (first_bytes chunk_size s)) (frames fuel (rest_bytes chunk_size s)) zeros)
    ∙ read_frames-frame m (first_bytes chunk_size s)
        (frames fuel (rest_bytes chunk_size s) ++ zeros)
        (first_some chunk_size c content (omega arith)) (length-first_bytes chunk_size s)
    ∙ ap (join_to (first_bytes chunk_size s)) later
    ∙ ap (λ (r : List ℕ). some r) (first_rest chunk_size s)

length_append : (s t : List ℕ) → length (s ++ t) ≡ length s + length t
length_append [] t = omega arith
length_append (c ∷ s) t = ground (arith, length_append s t)

length-frame :
    (chunk rest : List ℕ) → length (frame chunk ++ rest) ≡ 4 + (length chunk + length rest)
unfolding frame uint32_be
length-frame chunk rest = ground (arith, length_append chunk rest)

at_least : (n t d l m : ℕ) → n ≡ t + d → d ≤ l → m ≡ 4 + (t + l) → n ≤ m
at_least n t d l m e h k = omega arith

length-frames :
    (fuel : ℕ) (content : List ℕ)
    → length content ≤ fuel
    → length content ≤ length (frames fuel content)
unfolding frames frame uint32_be
length-frames zero [] fits = ground arith
length-frames zero (c ∷ content) fits = ground arith
length-frames (suc fuel) [] fits = ground arith
length-frames (suc fuel) (c ∷ content) fits =
    let s = c ∷ content in
    let later =
      length-frames fuel (rest_bytes chunk_size s)
        (omega (arith, length-rest_bytes chunk_size s)) in
    at_least (length s) (length (first_bytes chunk_size s)) (length (rest_bytes chunk_size s))
      (length (frames fuel (rest_bytes chunk_size s))) _
      (sym (ap length (first_rest chunk_size s))
        ∙ length_append (first_bytes chunk_size s) (rest_bytes chunk_size s))
      later (length-frame (first_bytes chunk_size s) (frames fuel (rest_bytes chunk_size s)))

-- Whatever is uploaded, the scanner reads all of it and nothing else from the payload.
pub read_payload-payload : (content : List ℕ) → read_payload (payload content) ≡ some content
unfolding read_payload payload
read_payload-payload content =
    let s = frames (length content) content ++ zeros in
    let long : length content ≤ length s = omega (
      arith,
      length-frames (length content) content (omega arith),
      length_append (frames (length content) content) zeros,
    ) in
    read_frames-frames (length content) (suc (length s)) content (omega arith) (omega arith)
