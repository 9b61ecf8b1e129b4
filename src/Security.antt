-- ===== src/Security.antt =====
-- The redaction of texts in crates/context-db-core/src/write_security.rs.
pub mod Strings
pub mod Words
pub mod Trims
pub mod Tokens
pub mod Again
use uwu_context_db.Prelude.{
  ℕ, ◌+◌, ◌-◌, Bool, true, false, not, ◌&&◌, ◌||◌, ◌==◌, nat_eq, leb, if◌then◌else◌, Option, none,
  some, List, [], ◌∷◌, ◌++◌, filter_by, length, Text, text, starts_with, split, split_once, join,
}
use uwu_context_db.Security.Strings.{
  every, is_nil, has_text, has_char, trim_start, trim_end, replace, runs, words, lines,
  is_whitespace, is_ascii_punctuation, is_ascii_digit, is_ascii_alphanumeric, lowercase, byte_len,
}

pub data SensitiveKind : Type 0 where
  email phone_or_long_id api_key private_key : SensitiveKind

pub record SensitiveFinding : Type 0 where
  pub kind : SensitiveKind
  pub count : ℕ

abbrev same_kind : SensitiveKind → SensitiveKind → Bool
same_kind SensitiveKind.email SensitiveKind.email = true
same_kind SensitiveKind.phone_or_long_id SensitiveKind.phone_or_long_id = true
same_kind SensitiveKind.api_key SensitiveKind.api_key = true
same_kind SensitiveKind.private_key SensitiveKind.private_key = true
same_kind _ _ = false

-- The findings of a text are fewer than its bytes, so the count does not overflow.
unfoldable pub push_finding : SensitiveKind → List SensitiveFinding → List SensitiveFinding
push_finding kind [] = (record { kind = kind; count = 1 }) ∷ []
push_finding kind (f ∷ findings) =
    let rest = push_finding kind findings in
    if same_kind f.kind kind then (record f { count = f.count + 1 }) ∷ findings else f ∷ rest

unfoldable pub looks_like_email : Text → Bool
unfolding split_once text
looks_like_email token =
    let (before, after) = split_once 64 token in
    elim after [
      | none ↦ false
      | some domain ↦ not (is_nil before) && has_char domain 46 && leb 3 (byte_len domain)
    ]

unfoldable pub looks_like_api_key : Text → Bool
unfolding starts_with text
looks_like_api_key token =
    let lower = lowercase token in
    starts_with (text "sk-") lower
    || starts_with (text "pk-") lower
    || starts_with (text "ghp_") lower
    || starts_with (text "github_pat_") lower
    || (leb 24 (byte_len token) && every (λ c. is_ascii_alphanumeric c || c == 95 || c == 45) token)

unfoldable pub looks_like_phone_or_long_id : Text → Bool
unfolding text
looks_like_phone_or_long_id token =
    leb 11 (length (filter_by is_ascii_digit token))
    && every (λ c. is_ascii_digit c || has_char (text "+-() ") c) token

-- The tests of `redact_token`, in their order.
unfoldable pub kind_of : Text → Option SensitiveKind
unfolding looks_like_email looks_like_api_key looks_like_phone_or_long_id
kind_of token =
    if looks_like_email token
    then some SensitiveKind.email
    else (if looks_like_api_key token
        then some SensitiveKind.api_key
        else (if looks_like_phone_or_long_id token
            then some SensitiveKind.phone_or_long_id
            else none))

unfoldable pub marker : SensitiveKind → Text
unfolding text
marker SensitiveKind.email = text "[REDACTED_EMAIL]"
marker SensitiveKind.api_key = text "[REDACTED_SECRET]"
marker SensitiveKind.phone_or_long_id = text "[REDACTED_ID]"
marker SensitiveKind.private_key = text "[REDACTED_PRIVATE_KEY]"

unfoldable pub trimmed : Text → Text
unfolding trim_start trim_end is_ascii_punctuation
trimmed token = trim_end is_ascii_punctuation (trim_start is_ascii_punctuation token)

unfoldable pub redact_token : Text → List SensitiveFinding → Text × List SensitiveFinding
unfolding kind_of marker replace push_finding trim_start trim_end
redact_token token findings = elim (kind_of (trimmed token)) [
  | none ↦ (token, findings)
  | some k ↦ (replace (trimmed token) (marker k) 0 token, push_finding k findings)
]

-- The loop of `redact_text`.
unfoldable pub redact_tokens : List Text → List SensitiveFinding → List Text × List SensitiveFinding
unfolding redact_token
redact_tokens [] findings = ([], findings)
redact_tokens (token ∷ tokens) findings =
    let (out, found) = redact_token token findings in
    let (outs, all_found) = redact_tokens tokens found in (out ∷ outs, all_found)

unfoldable pub begins_key : Text → Bool
unfolding has_text text
begins_key line = has_text (text "-----BEGIN") line && has_text (text "PRIVATE KEY-----") line

abbrev ends_key : Text → Bool
unfolding has_text text
ends_key line = has_text (text "-----END") line && has_text (text "PRIVATE KEY-----") line

-- The loop of `redact_private_key_blocks`.
unfoldable pub outside_keys : Bool → List Text → Text
unfolding begins_key has_text marker text
outside_keys in_key [] = []
outside_keys in_key (line ∷ ls) = elim (begins_key line) [
  | true ↦ marker SensitiveKind.private_key ++ 10 ∷ outside_keys true ls
  | false ↦ elim in_key [
    | false ↦ line ++ 10 ∷ outside_keys false ls
    | true ↦ elim (ends_key line) [ true ↦ outside_keys false ls | false ↦ outside_keys true ls ]
  ]
]

unfoldable pub redact_private_key_blocks :
    Text → List SensitiveFinding → Text × List SensitiveFinding
unfolding begins_key outside_keys push_finding trim_end split is_whitespace
redact_private_key_blocks s findings =
    if begins_key s
    then (
      trim_end is_whitespace (outside_keys false (lines s)),
      push_finding SensitiveKind.private_key findings,
    )
    else (s, findings)

unfoldable pub redact_text : Text → List SensitiveFinding → Text × List SensitiveFinding
unfolding redact_tokens redact_private_key_blocks runs join
redact_text s findings =
    let (tokens, found) = redact_tokens (words s) findings in
    redact_private_key_blocks (join (32 ∷ []) tokens) found
