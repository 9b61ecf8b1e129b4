-- ===== src/Uri/Equality.antt =====
-- The derived equality of `ContextUri`: all fields, the canonical text included.
use uwu_context_db.Prelude.{
  ◌≡◌, ◌↔◌, Bool, true, false, ◌&&◌, arith, ◌==◌, Eq, nat_eq, list_eq, pair_eq, option_eq,
  option_beq_iff, list_beq_iff, text_iff,
}
use uwu_context_db.Uri.Types.{
  ContentLevel, AsOfTime, QueryParams, ContextUri, l0, l1, l2, commit, timestamp, latest,
}

level_beq : ContentLevel → ContentLevel → Bool
level_beq l0 l0 = true
level_beq l1 l1 = true
level_beq l2 l2 = true
level_beq _ _ = false

level_beq_iff : (a b : ContentLevel) → (level_beq a b ≡ true) ↔ (a ≡ b)
unfolding level_beq
level_beq_iff l0 b = ground arith
level_beq_iff l1 b = ground arith
level_beq_iff l2 b = ground arith

instance abbrev level_eq : Eq ContentLevel
level_eq = record { beq = level_beq; beq_iff = level_beq_iff }

as_of_beq : AsOfTime → AsOfTime → Bool
as_of_beq (commit a) (commit b) = a == b
as_of_beq (timestamp a) (timestamp b) = a == b
as_of_beq latest latest = true
as_of_beq _ _ = false

as_of_beq_iff : (a b : AsOfTime) → (as_of_beq a b ≡ true) ↔ (a ≡ b)
unfolding as_of_beq
as_of_beq_iff (commit a) (commit b) = ground (arith, text_iff a b)
as_of_beq_iff (commit a) (timestamp b) = ground arith
as_of_beq_iff (commit a) latest = ground arith
as_of_beq_iff (timestamp a) b = ground arith
as_of_beq_iff latest b = ground arith

instance abbrev as_of_eq : Eq AsOfTime
as_of_eq = record { beq = as_of_beq; beq_iff = as_of_beq_iff }

abbrev query_beq : QueryParams → QueryParams → Bool
query_beq p q =
    p.as_of == q.as_of && (p.level == q.level && (p.branch == q.branch && p.limit == q.limit))

query_beq_iff : (p q : QueryParams) → (query_beq p q ≡ true) ↔ (p ≡ q)
query_beq_iff p q = ground (
  arith,
  option_beq_iff p.as_of q.as_of,
  option_beq_iff p.level q.level,
  option_beq_iff p.branch q.branch,
  option_beq_iff p.limit q.limit,
)

instance abbrev query_eq : Eq QueryParams
query_eq = record { beq = query_beq; beq_iff = query_beq_iff }

unfoldable pub uri_beq : ContextUri → ContextUri → Bool
unfolding as_of_beq level_beq
uri_beq u v =
    u.tenant == v.tenant && (u.path == v.path && (u.query == v.query && u.canonical == v.canonical))

pub uri_beq_iff : (u v : ContextUri) → (uri_beq u v ≡ true) ↔ (u ≡ v)
unfolding uri_beq
uri_beq_iff u v = ground (
  arith,
  text_iff u.tenant v.tenant,
  list_beq_iff u.path v.path,
  option_beq_iff u.query v.query,
  text_iff u.canonical v.canonical,
)

instance abbrev pub uri_eq : Eq ContextUri
uri_eq = record { beq = uri_beq; beq_iff = uri_beq_iff }
