-- ===== src/Uri/Segments.antt =====
-- The path of a parsed address.
use uwu_context_db.Prelude.{
  ℕ, ◌≡◌, refl, inl, inr, false, not, List, [], ◌∷◌, arith, nat_eq, nat_beq, list_eq, pair_eq,
  option_eq, Bool-cases, contains, ok, Text, split_once, split, filter_by, cons_first,
}
use uwu_context_db.Uri.Types.{ContextUri, TimeFormat}
use uwu_context_db.Uri.Parse.{parse, segments_of, is_empty, slash}
use uwu_context_db.Uri.Laws.{parse_parts, AllSegments, IsWellFormed}

-- No part of a split text holds the separator.
abbrev AllFree : ℕ → List Text → Type 0
AllFree c [] = Unit
AllFree c (s ∷ ss) = (contains s c ≡ false) × AllFree c ss

cons_first-AllFree :
    (c d : ℕ) (ss : List Text) → nat_beq d c ≡ false → AllFree c ss → AllFree c (cons_first d ss)
unfolding contains
cons_first-AllFree c d [] h f = (ground arith, tt)
cons_first-AllFree c d (s ∷ ss) h f = (ground (arith, f.0), f.1)

split-AllFree : (c : ℕ) (s : Text) → AllFree c (split c s)
unfolding split contains
split-AllFree c [] = (refl, tt)
split-AllFree c (d ∷ s) = elim (Bool-cases (nat_beq d c)) [
  | inl cut ↦ rw cut (refl, split-AllFree c s)
  | inr kept ↦ rw kept (cons_first-AllFree c d (split c s) kept (split-AllFree c s))
]

kept-AllSegments :
    (ss : List Text) → AllFree slash ss → AllSegments (filter_by (λ seg. not (is_empty seg)) ss)
kept-AllSegments [] f = tt
kept-AllSegments (s ∷ ss) f = elim (Bool-cases (is_empty s)) [
  | inl empty ↦ rw empty (kept-AllSegments ss f.1)
  | inr full ↦ rw full ((full, f.0), kept-AllSegments ss f.1)
]

module _ (time : TimeFormat) where
  -- A parsed address has its first segment as tenant, and segments that are neither empty nor hold a
  -- slash.
  pub parse-IsWellFormed : (s : Text) (u : ContextUri) → parse time s ≡ ok u → IsWellFormed u
  unfolding segments_of
  parse-IsWellFormed s u h =
      let (rest, found, c, p, q, t) = parse_parts time s u h in
      record {
        tenant_first = t;
        segments = rw p (
            kept-AllSegments (split slash (split_once b'?' rest).0)
              (split-AllFree slash (split_once b'?' rest).0));
      }
