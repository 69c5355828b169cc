-- ===== src/MessageData/Text.antt =====
-- `copyContentFromString` of uist-game/MessageData.cpp.
use native.Mathlib.Numerals.{add-one}
use footscreen.Base.{
  ℕ, suc, ◌+◌, ◌≤◌, ◌<◌, ◌≡◌, ◌≢◌, refl, ap, ◌∙◌, true, false, some, List, [], ◌∷◌, ◌++◌, length,
  take, drop, set, arith, All, length-append, length-set, ltb,
}
use footscreen.MessageData.{
  MessageData, strlen, copy_content_from_string, payload, max_message_length, set_content_length,
}
use footscreen.MessageData.Copy.{memcpy-fits, length-memcpy}

abbrev pub IsText : List ℕ → Type 0
IsText = All λ c. c ≢ 0

-- The length of a terminated text is the number of bytes before the zero.
pub strlen-append :
    (text rest : List ℕ) → IsText text → strlen (text ++ 0 ∷ rest) ≡ some (length text)
unfolding strlen
strlen-append [] rest t = refl
strlen-append (c ∷ text) rest (h, t) = rw (strlen-append text rest t) (ground arith)

set-end :
    (text rest old : List ℕ)
    → length text < length old
    → take
        (suc (length text))
        (set (take (length text) (text ++ rest) ++ drop (length text) old) (length text) 0)
      ≡ text ++ 0 ∷ []
set-end text rest [] h = elim h [ ]
set-end [] rest (b ∷ old) h = refl
set-end (c ∷ text) rest (b ∷ old) h = ap (◌∷◌ c) (set-end text rest old (omega arith))

module _ (text rest : List ℕ) (m : MessageData) (t : IsText text) where
  -- A zero-terminated text of at most 511 bytes becomes the payload of a package with a buffer of
  -- 512 bytes, together with its zero; the buffer keeps its size.
  pub copy_content_from_string-payload :
      length m.content ≡ max_message_length
      → length text < max_message_length
      → (out : MessageData) × (copy_content_from_string (text ++ 0 ∷ rest) m ≡ some out)
        × (payload out ≡ text ++ 0 ∷ [])
        × (length out.content ≡ max_message_length)
  unfolding copy_content_from_string
  copy_content_from_string-payload l short =
      let n = length text in
      let source = text ++ 0 ∷ rest in
      let copied = take n source ++ drop n m.content in
      let long : n ≤ length source = omega (arith, length-append text (0 ∷ rest)) in
      let room : n ≤ length m.content = omega arith in
      let same = length-memcpy n source m.content long room in
      let fits : ltb max_message_length (n + 1) ≡ false = ground arith in
      let inside : ltb n (length copied) ≡ true = ground (arith, same) in
      (
        set_content_length (n + 1) (record m { content = set copied n 0 }),
        rw (strlen-append text rest t)
            (rw fits (rw (memcpy-fits n source m.content long room) (rw inside refl))),
        rw add-one (set-end text (0 ∷ rest) m.content (omega arith)),
        length-set copied n 0 ∙ same ∙ l,
      )

  -- A longer text leaves the package as it was.
  pub copy_content_from_string_long :
      max_message_length ≤ length text → copy_content_from_string (text ++ 0 ∷ rest) m ≡ some m
  unfolding copy_content_from_string
  copy_content_from_string_long long = rw (strlen-append text rest t) (ground arith)
