-- ===== src/Attachments/Scanner/Answer.antt =====
-- The answer of the scanner: `request` and `ready` of
-- apps/api/src/attachments/attachment-malware-scanner.ts. What the socket does is a list of events, and
-- the decoding of UTF-8 a parameter; no answer is a rejected promise.
use b2b_stm.Prelude.{
  ℕ, ◌+◌, ◌≤◌, ◌≡◌, refl, Option, none, some, List, [], ◌∷◌, ◌++◌, length, map, ltb, arith, ◌==◌,
  nat_eq, if◌then◌else◌,
}
use b2b_stm.Text.{Text, text_eq, codes, trim}
use b2b_stm.Tx.{Result, ok, err, service_unavailable}

-- What the socket tells: bytes, the end of the stream, the timeout, or an error.
pub data SocketEvent : Type 0 where
  received : List ℕ → SocketEvent
  ended timed_out failed : SocketEvent

-- The bytes before the first zero byte: `response.indexOf(0)` and the part before it.
unfoldable pub before_zero : List ℕ → Option (List ℕ)
before_zero [] = none
before_zero (c ∷ s) =
    let rest = before_zero s in
    if c == 0 then some [] else elim rest [ none ↦ none | some t ↦ some (c ∷ t) ]

module _ (decode : List ℕ → Text) where
  abbrev pub answer_text : List ℕ → Option Text
  answer_text s = some (trim (decode s))

  -- `request`, from the bytes that have come so far: the first event that settles it.
  unfoldable pub answer_from : List ℕ → List SocketEvent → Option Text
  unfolding before_zero
  answer_from response [] = none
  answer_from response (received chunk ∷ events) =
      let longer = response ++ chunk in
      let rest = answer_from longer events in
      if ltb 8192 (length longer)
      then none
      else (elim (before_zero longer) [ none ↦ rest | some s ↦ answer_text s ])
  answer_from response (ended ∷ events) =
      if length response == 0 then none else answer_text response
  answer_from response (timed_out ∷ events) = none
  answer_from response (failed ∷ events) = none

-- `ready`, where a scanner is configured, by its answers.
unfoldable pub ready : Option (List ℕ → Option Text) → Result (Unit {0})
ready none = ok tt
ready (some request) = elim (request (codes "zPING" ++ 0 ∷ [])) [
  | none ↦ err (service_unavailable "Attachment malware scanner unavailable")
  | some response ↦
      if response == codes "PONG"
      then ok tt
      else err (service_unavailable "Attachment malware scanner unavailable")
]

abbrev pub joined : List (List ℕ) → List ℕ
joined [] = []
joined (c ∷ cs) = c ++ joined cs

append_assoc : (a b c : List ℕ) → (a ++ b) ++ c ≡ a ++ (b ++ c)
append_assoc [] b c = refl
append_assoc (x ∷ a) b c = ground (arith, append_assoc a b c)

append_nil : (a : List ℕ) → a ++ [] ≡ a
append_nil [] = refl
append_nil (x ∷ a) = ground (arith, append_nil a)

length-append : (a b : List ℕ) → length (a ++ b) ≡ length a + length b
length-append [] b = omega arith
length-append (x ∷ a) b = omega (arith, length-append a b)

before_zero-append : (a b s : List ℕ) → before_zero a ≡ some s → before_zero (a ++ b) ≡ some s
unfolding before_zero
before_zero-append [] b s e = cc
before_zero-append (c ∷ a) b s e = by_rest (before_zero a) refl e (before_zero-append a b)
  where
    by_rest :
        (o : Option (List ℕ))
        → before_zero a ≡ o
        → (if c == 0 then some [] else elim o [ none ↦ none | some t ↦ some (c ∷ t) ]) ≡ some s
        → ((t : List ℕ) → before_zero a ≡ some t → before_zero (a ++ b) ≡ some t)
        → before_zero (c ∷ a ++ b) ≡ some s
    by_rest none p h more = ground (arith, h)
    by_rest (some t) p h more = ground (arith, h, more t p)

module _ (decode : List ℕ → Text) (events : List SocketEvent) (s : List ℕ) where
  answer_from-joined :
      (response : List ℕ) (chunks : List (List ℕ))
      → before_zero response ≡ none
      → length (response ++ joined chunks) ≤ 8192
      → before_zero (response ++ joined chunks) ≡ some s
      → answer_from decode response (map received chunks ++ events) ≡ answer_text decode s
  unfolding answer_from
  answer_from-joined response [] none_yet short e =
      absurd (ground (arith, none_yet, rw (append_nil response) at e))
  answer_from-joined response (c ∷ chunks) none_yet short e =
      let same : (response ++ c) ++ joined chunks ≡ response ++ (c ++ joined chunks) =
        append_assoc response c (joined chunks) in
      let whole : length ((response ++ c) ++ joined chunks) ≤ 8192 = rw same short in
      let few : length (response ++ c) ≤ 8192 =
        omega (arith, whole, length-append (response ++ c) (joined chunks)) in
      let zero_in : before_zero ((response ++ c) ++ joined chunks) ≡ some s = rw same e in
      by_prefix (before_zero (response ++ c)) refl few zero_in
        (λ p. answer_from-joined (response ++ c) chunks p whole zero_in)
    where
      by_prefix :
          (o : Option (List ℕ))
          → before_zero (response ++ c) ≡ o
          → length (response ++ c) ≤ 8192
          → before_zero ((response ++ c) ++ joined chunks) ≡ some s
          → (before_zero (response ++ c) ≡ none
              → answer_from decode (response ++ c) (map received chunks ++ events)
                ≡ answer_text decode s)
          → answer_from decode response (received c ∷ (map received chunks ++ events))
            ≡ answer_text decode s
      by_prefix none p few z later = ground (arith, p, few, later p)
      by_prefix (some t) p few z later =
          ground (arith, p, few, z, before_zero-append (response ++ c) (joined chunks) t p)

-- However an answer of at most 8192 bytes with a zero byte is cut into pieces, and whatever comes after
-- them, the request is settled with the trimmed text before the first zero byte.
pub answer_from-chunks :
    (decode : List ℕ → Text) (chunks : List (List ℕ)) (events : List SocketEvent) (s : List ℕ)
    → length (joined chunks) ≤ 8192
    → before_zero (joined chunks) ≡ some s
    → answer_from decode [] (map received chunks ++ events) ≡ some (trim (decode s))
unfolding before_zero
answer_from-chunks decode chunks events s short e =
    answer_from-joined decode events s [] chunks refl short e
