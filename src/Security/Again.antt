-- ===== src/Security/Again.antt =====
-- A second redaction.
use uwu_context_db.Prelude.{
  true, false, ◌≡◌, refl, ap, sym, inl, inr, List, [], ◌∷◌, ◌++◌, Text, text, starts_with, join,
  Bool-cases, if◌then◌else◌,
}
use uwu_context_db.Security.Strings.{
  every, is_nil, has_text, trim_start, trim_end, runs, words, lines, is_whitespace,
  is_ascii_punctuation,
}
use uwu_context_db.Security.{
  SensitiveKind, SensitiveFinding, kind_of, marker, trimmed, redact_token, redact_tokens,
  begins_key, outside_keys, redact_private_key_blocks, redact_text,
}
use uwu_context_db.Security.Words.{
  AllWords, unbroken, words-AllWords, words-join, join-unbroken, split-unbroken,
}
use uwu_context_db.Security.Tokens.{IsClean, redact_token-IsClean, redact_token-clean}

abbrev AllClean : List Text → Type 0
AllClean [] = Unit
AllClean (w ∷ ws) = IsClean w × AllClean ws

redact_tokens-AllClean :
    (ws : List Text) (findings : List SensitiveFinding)
    → AllWords ws
    → AllWords (redact_tokens ws findings).0 × AllClean (redact_tokens ws findings).0
unfolding redact_tokens
redact_tokens-AllClean [] findings h = (tt, tt)
redact_tokens-AllClean (w ∷ ws) findings h =
    let (word, clean) = redact_token-IsClean w findings h.0 in
    let (more_words, more_clean) = redact_tokens-AllClean ws (redact_token w findings).1 h.1 in
    ((word, more_words), (clean, more_clean))

redact_tokens-clean :
    (ws : List Text) (findings : List SensitiveFinding)
    → AllClean ws
    → redact_tokens ws findings ≡ (ws, findings)
unfolding redact_tokens
redact_tokens-clean [] findings h = refl
redact_tokens-clean (w ∷ ws) findings h =
    rw (redact_token-clean w findings h.0, redact_tokens-clean ws findings h.1) refl

-- A text of one line that begins a key becomes the marker.
begins_key-full : (s : Text) → begins_key s ≡ true → is_nil s ≡ false
unfolding begins_key has_text text
begins_key-full [] h = sym h
begins_key-full (c ∷ s) h = refl

lines-unbroken : (s : Text) → is_nil s ≡ false → every unbroken s ≡ true → lines s ≡ s ∷ []
unfolding lines
lines-unbroken s full h = rw (split-unbroken s h, full) refl

key-marked :
    (s : Text)
    → begins_key s ≡ true
    → outside_keys false (s ∷ []) ≡ marker SensitiveKind.private_key ++ 10 ∷ []
unfolding outside_keys
key-marked s h = rw (h, outside_keys) refl

key-line :
    (s : Text)
    → begins_key s ≡ true
    → trim_end is_whitespace (outside_keys false (s ∷ [])) ≡ marker SensitiveKind.private_key
unfolding trim_end is_whitespace marker text
key-line s h = ap (trim_end is_whitespace) (key-marked s h)

-- The words of a text, each redacted, and one space between them.
unfoldable pub redacted_words : Text → List SensitiveFinding → Text
unfolding words join
redacted_words s findings = join (32 ∷ []) (redact_tokens (words s) findings).0

redacted_words-again :
    (s : Text) (found findings : List SensitiveFinding)
    → redact_tokens (words (redacted_words s found)) findings
      ≡ ((redact_tokens (words s) found).0, findings)
unfolding redacted_words
redacted_words-again s found findings =
    let (all_words, all_clean) = redact_tokens-AllClean (words s) found (words-AllWords s) in
    rw (words-join (redact_tokens (words s) found).0 all_words)
      (redact_tokens-clean (redact_tokens (words s) found).0 findings all_clean)

-- A redacted text is its words, each redacted, with one space between them, or, where these hold the
-- marks of a private key, nothing but the marker of one.
pub redact_text-result :
    (s : Text) (findings : List SensitiveFinding)
    → (redact_text s findings).0 ≡ (
        if begins_key (redacted_words s findings)
        then marker SensitiveKind.private_key
        else redacted_words s findings)
unfolding redact_text redact_private_key_blocks redacted_words
redact_text-result s findings =
    let (all_words, all_clean) = redact_tokens-AllClean (words s) findings (words-AllWords s) in
    let line = redacted_words s findings in
    elim (Bool-cases (begins_key line)) [
      | inl h ↦
          let one = lines-unbroken line (begins_key-full line h) (join-unbroken _ all_words) in
          rw (h, one) (key-line line h)
      | inr h ↦ rw h refl
    ]

marker-again :
    (findings : List SensitiveFinding)
    → redact_text (marker SensitiveKind.private_key) findings
      ≡ (marker SensitiveKind.private_key, findings)
unfolding redact_text redact_tokens redact_token kind_of trimmed trim_start trim_end
    is_ascii_punctuation redact_private_key_blocks begins_key has_text starts_with words runs join
    is_whitespace marker text
marker-again findings = refl

words-again :
    (s : Text) (found findings : List SensitiveFinding)
    → begins_key (redacted_words s found) ≡ false
    → redact_text (redacted_words s found) findings ≡ (redacted_words s found, findings)
unfolding redact_text redact_private_key_blocks redacted_words
words-again s found findings h = rw (redacted_words-again s found findings, h) refl

-- A redacted text holds nothing more to redact: a second redaction leaves it and the findings as they
-- are.
pub redact_text-again :
    (s : Text) (found findings : List SensitiveFinding)
    → redact_text (redact_text s found).0 findings ≡ ((redact_text s found).0, findings)
redact_text-again s found findings = elim (Bool-cases (begins_key (redacted_words s found))) [
  | inl h ↦ rw (redact_text-result s found, h) (marker-again findings)
  | inr h ↦ rw (redact_text-result s found, h) (words-again s found findings h)
]
