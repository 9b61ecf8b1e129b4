-- ===== src/Uri/Laws.antt =====
-- What a parsed address is.
use uwu_context_db.Prelude.{
  ◌≡◌, inl, inr, false, Option, some, List, [], ◌∷◌, arith, nat_eq, list_eq, pair_eq, option_eq,
  Bool-cases, Option-cases, head?, contains, ok, Text, strip_prefix, split_once,
}
use uwu_context_db.Uri.Types.{ContextUri, TimeFormat, QueryParams}
use uwu_context_db.Uri.Parse.{
  from_string, from_segments, segments_of, scheme, slash, parse, is_empty, and_then_query,
}

-- A path segment: not empty, and without a slash.
abbrev pub IsSegment : Text → Type 0
IsSegment s = (is_empty s ≡ false) × (contains s slash ≡ false)

abbrev pub AllSegments : List Text → Type 0
AllSegments [] = Unit
AllSegments (s ∷ ss) = IsSegment s × AllSegments ss

-- The tenant is the first segment, and every segment is one.
pub record IsWellFormed (u : ContextUri) : Type 0 where
  pub tenant_first : head? u.path ≡ some u.tenant
  pub segments : AllSegments u.path

module _ (time : TimeFormat) where
  from_segments-canonical :
      (s : Text) (segs : List Text) (q : Option QueryParams) (u : ContextUri)
      → from_segments s segs q ≡ ok u
      → (u.canonical ≡ s) × (u.path ≡ segs) × (u.query ≡ q) × (head? u.path ≡ some u.tenant)
  from_segments-canonical s [] q u h = cc
  from_segments-canonical s (t ∷ path) q u h = ground arith

  -- The parts of a parsed address, from the text that follows the scheme.
  pub parse_parts :
      (s : Text) (u : ContextUri)
      → parse time s ≡ ok u
      → (rest : Text) × (strip_prefix scheme s ≡ some rest)
        × (u.canonical ≡ s)
        × (u.path ≡ segments_of (split_once b'?' rest).0)
        × (u.query ≡ and_then_query time (split_once b'?' rest).1)
        × (head? u.path ≡ some u.tenant)
  unfolding from_string strip_prefix scheme
  parse_parts s u h = elim (Option-cases (strip_prefix scheme s)) [
    | inl absent ↦ absurd (ground arith)
    | inr (rest, found) ↦ elim (Bool-cases (is_empty rest)) [
      | inl bare ↦ absurd (ground arith)
      | inr full ↦
          let parts = split_once b'?' rest in
          let (c, p, q, t) =
            from_segments-canonical s (segments_of parts.0) (and_then_query time parts.1) u
              (rw (found, full) at h) in
          (rest, found, c, p, q, t)
    ]
  ]

  pub parse-canonical : (s : Text) (u : ContextUri) → parse time s ≡ ok u → u.canonical ≡ s
  parse-canonical s u h = let (rest, f, c, p, q, t) = parse_parts s u h in c
