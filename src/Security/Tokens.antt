-- ===== src/Security/Tokens.antt =====
-- The redaction of one token.
use uwu_context_db.Prelude.{
  ℕ, true, false, nat_eq, ◌≡◌, refl, ap, ◌∙◌, inl, inr, ◌⊎◌, none, some, List, [], ◌∷◌, ◌++◌, Text,
  text, Option-cases, arith,
}
use uwu_context_db.Security.Strings.{
  every, is_nil, trim_start, trim_end, replace, is_whitespace, is_ascii_punctuation,
}
use uwu_context_db.Security.{
  SensitiveKind, SensitiveFinding, kind_of, marker, trimmed, redact_token,
}
use uwu_context_db.Security.Words.{dark, IsWord, every-append, every_mono}
use uwu_context_db.Security.Trims.{
  trim_start-append, trim_end-all, trim_end-append, trim_start-parts, trim_end-parts, trim_end-head,
  replace-parts,
}

abbrev pub IsClean : Text → Type 0
IsClean token = kind_of (trimmed token) ≡ none

-- What is left of a marker between punctuation is its name, which is not sensitive.
module _ (post : Text) (after : every is_ascii_punctuation post ≡ true) where
  marker-name : (k : SensitiveKind) → IsClean (marker k ++ post)
  unfolding trimmed marker trim_start text is_ascii_punctuation kind_of
  marker-name SensitiveKind.email =
      ap kind_of (trim_end-append is_ascii_punctuation (text "REDACTED_EMAIL]") post after)
  marker-name SensitiveKind.api_key =
      ap kind_of (trim_end-append is_ascii_punctuation (text "REDACTED_SECRET]") post after)
  marker-name SensitiveKind.phone_or_long_id =
      ap kind_of (trim_end-append is_ascii_punctuation (text "REDACTED_ID]") post after)
  marker-name SensitiveKind.private_key =
      ap kind_of (trim_end-append is_ascii_punctuation (text "REDACTED_PRIVATE_KEY]") post after)

marker-IsClean :
    (k : SensitiveKind) (pre post : Text)
    → every is_ascii_punctuation pre ≡ true
    → every is_ascii_punctuation post ≡ true
    → IsClean (pre ++ (marker k ++ post))
unfolding trimmed
marker-IsClean k pre post before after =
    ap (λ t. kind_of (trim_end is_ascii_punctuation t))
      (trim_start-append is_ascii_punctuation pre (marker k ++ post) before)
    ∙ marker-name post after k

-- The parts of a token around what is trimmed.
abbrev IsTrimmed : Text → Text → Type 0
IsTrimmed token t =
    (pre : Text) × (post : Text) × (every is_ascii_punctuation pre ≡ true)
    × (every is_ascii_punctuation post ≡ true)
    × (token ≡ pre ++ (t ++ post))
    × ((t ≡ []) ⊎ ((a : ℕ) × (rest : Text) × (t ≡ a ∷ rest) × (is_ascii_punctuation a ≡ false)))

trimmed-IsTrimmed : (token : Text) → IsTrimmed token (trimmed token)
unfolding trimmed
trimmed-IsTrimmed token =
    let p = is_ascii_punctuation in
    let (pre, before, e, head) = trim_start-parts p token in
    let (post, after, d) = trim_end-parts p (trim_start p token) in
    (
      pre,
      post,
      before,
      after,
      e ∙ ap (λ t. pre ++ t) d,
      elim head [
        | inl nil ↦ inl (ap (trim_end p) nil ∙ trim_end-all p [] refl)
        | inr (a, rest, start, fails) ↦
            inr (a, trim_end p rest, ap (trim_end p) start ∙ trim_end-head p a rest fails, fails)
      ],
    )

kind_of-nil : kind_of [] ≡ none
unfolding kind_of
kind_of-nil = refl

-- A sensitive token is redacted to a marker between punctuation.
redacted-parts :
    (token : Text) (k : SensitiveKind)
    → kind_of (trimmed token) ≡ some k
    → (pre : Text) × (post : Text) × (every is_ascii_punctuation pre ≡ true)
      × (every is_ascii_punctuation post ≡ true)
      × (replace (trimmed token) (marker k) 0 token ≡ pre ++ (marker k ++ post))
redacted-parts token k h =
    let (pre, post, before, after, e, head) = trimmed-IsTrimmed token in
    (
      pre,
      post,
      before,
      after,
      elim head [
        | inl nil ↦ cc (ap kind_of nil, h, kind_of-nil)
        | inr (a, rest, t, fails) ↦
            let whole = e ∙ ap (λ t. pre ++ (t ++ post)) t in
            ap (λ t. replace t (marker k) 0 token) t
            ∙ ap (replace (a ∷ rest) (marker k) 0) whole
            ∙ replace-parts is_ascii_punctuation a rest (marker k) fails pre post before after
      ],
    )

-- A marker between punctuation is a word.
punctuation-dark : (c : ℕ) → is_ascii_punctuation c ≡ true → dark c ≡ true
unfolding is_ascii_punctuation is_whitespace
punctuation-dark c h = ground arith

marker-dark : (k : SensitiveKind) → every dark (marker k) ≡ true
unfolding marker text is_whitespace
marker-dark SensitiveKind.email = refl
marker-dark SensitiveKind.api_key = refl
marker-dark SensitiveKind.phone_or_long_id = refl
marker-dark SensitiveKind.private_key = refl

marker-full : (k : SensitiveKind) (post : Text) → is_nil (marker k ++ post) ≡ false
unfolding marker text
marker-full SensitiveKind.email post = refl
marker-full SensitiveKind.api_key post = refl
marker-full SensitiveKind.phone_or_long_id post = refl
marker-full SensitiveKind.private_key post = refl

append-full : (s t : Text) → is_nil t ≡ false → is_nil (s ++ t) ≡ false
append-full [] t h = h
append-full (c ∷ s) t h = refl

marker-IsWord :
    (k : SensitiveKind) (pre post : Text)
    → every is_ascii_punctuation pre ≡ true
    → every is_ascii_punctuation post ≡ true
    → IsWord (pre ++ (marker k ++ post))
marker-IsWord k pre post before after =
    let outer = every_mono is_ascii_punctuation dark punctuation-dark in
    (
      append-full pre (marker k ++ post) (marker-full k post),
      rw
          (
            every-append dark pre (marker k ++ post),
            every-append dark (marker k) post,
            outer pre before,
            marker-dark k,
            outer post after,
          )
          refl,
    )

pub redact_token-clean :
    (w : Text) (findings : List SensitiveFinding)
    → IsClean w
    → redact_token w findings ≡ (w, findings)
unfolding redact_token
redact_token-clean w findings h = rw (h, redact_token) refl

redact_token-marked :
    (w : Text) (findings : List SensitiveFinding) (k : SensitiveKind)
    → kind_of (trimmed w) ≡ some k
    → (redact_token w findings).0 ≡ replace (trimmed w) (marker k) 0 w
unfolding redact_token
redact_token-marked w findings k h = rw (h, redact_token) refl

-- A word is redacted to a word that is not sensitive.
pub redact_token-IsClean :
    (w : Text) (findings : List SensitiveFinding)
    → IsWord w
    → IsWord (redact_token w findings).0 × IsClean (redact_token w findings).0
redact_token-IsClean w findings h = elim (Option-cases (kind_of (trimmed w))) [
  | inl e ↦ rw (redact_token-clean w findings e) (h, e)
  | inr (k, e) ↦
      let (pre, post, before, after, whole) = redacted-parts w k e in
      rw (redact_token-marked w findings k e, whole)
        (marker-IsWord k pre post before after, marker-IsClean k pre post before after)
]
