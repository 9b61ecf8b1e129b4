-- ===== src/Uri/Parse.antt =====
-- `UriInner::from_string`, `parse_query_string` and `ContextUri::parse` of uri.rs.
use Prim.Native.Nat.{◌^◌}
use uwu_context_db.Prelude.{
  ℕ, ◌+◌, ◌-◌, ◌*◌, Bool, true, false, not, ◌&&◌, ◌||◌, List, [], ◌∷◌, ◌++◌, Option, none, some,
  Text, text, strip_prefix, split, split_once, leb, nat_beq, ◌==◌, list_eq, nat_eq, if◌then◌else◌,
  Result, ok, err, filter_by, unwrap_or,
}
use uwu_context_db.Error.{ContextError}
use uwu_context_db.Uri.Types.{
  ContentLevel, AsOfTime, QueryParams, ContextUri, TimeFormat, l0, l1, l2, commit, timestamp,
  latest,
}

abbrev pub slash : ℕ
slash = b'/'

unfoldable pub scheme : Text
unfolding text
scheme = text "uwu://"

unfoldable pub is_empty : Text → Bool
is_empty [] = true
is_empty (c ∷ s) = false

abbrev usize_max : ℕ
usize_max = 2 ^ 64 - 1

-- The digits of `str::parse::<usize>`, which fails beyond the 64-bit range.
unfoldable pub parse_digits : ℕ → Text → Option ℕ
parse_digits n [] = some n
parse_digits n (c ∷ s) =
    let next = n * 10 + (c - 48) in
    let rest = parse_digits next s in
    if leb 48 c && leb c 57 && leb next usize_max then rest else none

-- `val.parse::<usize>()`: a `+` sign is accepted, an empty text or a bare sign is not.
unfoldable pub parse_usize : Text → Option ℕ
unfolding parse_digits
parse_usize [] = none
parse_usize (c ∷ []) = if nat_beq c b'+' then none else parse_digits 0 (c ∷ [])
parse_usize (c ∷ d ∷ s) =
    if nat_beq c b'+' then parse_digits 0 (d ∷ s) else parse_digits 0 (c ∷ d ∷ s)

unfoldable pub parse_level : Text → Option ContentLevel
unfolding text
parse_level v =
    if v == text "l0"
    then some l0
    else if v == text "l1"
    then some l1
    else if v == text "l2"
    then some l2
    else none

abbrev pub no_query : QueryParams
no_query = record { as_of = none; level = none; branch = none; limit = none }

-- `path_part.split('/').filter(|seg| !seg.is_empty())`
unfoldable pub segments_of : Text → List Text
unfolding is_empty
segments_of s = filter_by (λ seg. not (is_empty seg)) (split slash s)

abbrev pub from_segments : Text → List Text → Option QueryParams → Result ContextError ContextUri
from_segments s [] q = err (ContextError.invalid_uri (text "empty path: " ++ s))
from_segments s (t ∷ path) q = ok (record { tenant = t; path = t ∷ path; query = q; canonical = s })

module _ (time : TimeFormat) where
  unfoldable pub parse_as_of : Text → AsOfTime
  unfolding is_empty
  parse_as_of v =
      if is_empty v || v == text "latest"
      then latest
      else elim (time.parse_time v) [ some t ↦ timestamp t | none ↦ commit v ]

  -- One `key=value` pair of the loop; an unknown key is passed over.
  unfoldable pub apply_pair : QueryParams → Text → QueryParams
  unfolding is_empty parse_as_of parse_level parse_usize
  apply_pair q pair =
      let (key, value) = split_once b'=' pair in
      let v = unwrap_or [] value in
      if key == text "as_of"
      then record q { as_of = some (parse_as_of v) }
      else if key == text "level"
      then record q { level = parse_level v }
      else if key == text "branch"
      then (if is_empty v then q else record q { branch = some v })
      else if key == text "limit"
      then (elim (parse_usize v) [ some n ↦ record q { limit = some n } | none ↦ q ])
      else q

  unfoldable pub apply_pairs : QueryParams → List Text → QueryParams
  unfolding apply_pair
  apply_pairs q [] = q
  apply_pairs q (p ∷ ps) = apply_pairs (apply_pair q p) ps

  unfoldable pub parse_query_string : Text → Option QueryParams
  unfolding is_empty apply_pairs
  parse_query_string qs = if is_empty qs then none else some (apply_pairs no_query (split b'&' qs))

  abbrev pub and_then_query : Option Text → Option QueryParams
  and_then_query none = none
  and_then_query (some qs) = parse_query_string qs

  unfoldable pub from_string : Text → Result ContextError ContextUri
  unfolding is_empty segments_of parse_query_string
  from_string s = elim (strip_prefix scheme s) [
    | none ↦ err (ContextError.invalid_uri (text "missing `uwu://` scheme: " ++ s))
    | some rest ↦
        if is_empty rest
        then err (ContextError.invalid_uri (text "empty path: " ++ s))
        else (let (path_part, query_str) = split_once b'?' rest in
            from_segments s (segments_of path_part) (and_then_query query_str))
  ]

  -- `ContextUri::parse`
  abbrev pub parse : Text → Result ContextError ContextUri
  parse = from_string
