-- ===== src/Uri/Ops.antt =====
-- The methods of `ContextUri` in uri.rs, and `query_to_string`.
use Prim.Native.Nat.{◌/◌, ◌%◌}
use uwu_context_db.Prelude.{
  ℕ, zero, suc, ◌+◌, List, [], ◌∷◌, ◌++◌, Option, none, some, Text, text, ltb, nat_beq, ◌==◌,
  list_eq, nat_eq, if◌then◌else◌, ok, err, length, init, head?, join as join_with, split_once,
}
use uwu_context_db.Uri.Types.{
  ContentLevel, AsOfTime, QueryParams, ContextUri, TimeFormat, UriCategory, commit, timestamp,
  latest, level_str, user, agent, resources, skills, wiki, sessions, state, persona, metacog,
  character, unknown,
}
use uwu_context_db.Uri.Parse.{parse, scheme, slash}

-- `path()`, `segments()`
abbrev pub segments : ContextUri → List Text
segments u = u.path

-- `tenant_segment()`
abbrev pub tenant_segment : ContextUri → Option Text
tenant_segment u = head? u.path

-- `depth()`
abbrev pub depth : ContextUri → ℕ
depth u = length u.path

-- `to_string()`, `as_str()`
abbrev pub as_str : ContextUri → Text
as_str u = u.canonical

abbrev parent_of : List Text → Option ContextUri
parent_of [] = none
parent_of (t ∷ []) = none
parent_of (t ∷ p ∷ ps) = some (record {
  tenant = t;
  path = init (t ∷ p ∷ ps);
  query = none;
  canonical = scheme ++ join_with (slash ∷ []) (init (t ∷ p ∷ ps));
})

unfoldable pub parent : ContextUri → Option ContextUri
parent u = parent_of u.path

-- `s.trim_end_matches('/')`
unfoldable pub trim_end_slash : Text → Text
trim_end_slash [] = []
trim_end_slash (c ∷ s) = elim (trim_end_slash s) [
  | [] ↦ if nat_beq c slash then [] else c ∷ []
  | d ∷ r ↦ c ∷ d ∷ r
]

-- `ContextUri::join`
unfoldable pub join : ContextUri → Text → ContextUri
unfolding trim_end_slash
join u seg = record {
  tenant = u.tenant;
  path = u.path ++ seg ∷ [];
  query = none;
  canonical = trim_end_slash u.canonical ++ slash ∷ seg;
}

abbrev second : List Text → Text
second (t ∷ c ∷ r) = c
second _ = []

unfoldable pub category : ContextUri → UriCategory
unfolding text
category u =
    let cat = second u.path in
    if cat == text "user"
    then user
    else if cat == text "agent"
    then agent
    else if cat == text "resources"
    then resources
    else if cat == text "skills"
    then skills
    else if cat == text "wiki"
    then wiki
    else if cat == text "sessions"
    then sessions
    else if cat == text "state"
    then state
    else if cat == text "persona"
    then persona
    else if cat == text "metacog"
    then metacog
    else if cat == text "character"
    then character
    else unknown

unfoldable pub as_of : ContextUri → Option AsOfTime
as_of u = elim u.query [ none ↦ none | some q ↦ q.as_of ]

unfoldable pub level : ContextUri → Option ContentLevel
level u = elim u.query [ none ↦ none | some q ↦ q.level ]

-- `format!("{}", n)`; `n + 1` rounds are enough.
unfoldable pub show_digits : ℕ → ℕ → Text → Text
show_digits zero n acc = acc
show_digits (suc f) n acc =
    let digit = 48 + n % 10 in
    let rest = show_digits f (n / 10) (digit ∷ acc) in if ltb n 10 then digit ∷ acc else rest

unfoldable pub show_usize : ℕ → Text
unfolding show_digits
show_usize n = show_digits (suc n) n []

abbrev optional {ℓ} : {A : Type ℓ} → (A → Text) → Option A → List Text
optional f none = []
optional f (some a) = f a ∷ []

module _ (time : TimeFormat) where
  unfoldable pub as_of_str : AsOfTime → Text
  as_of_str latest = text "as_of=latest"
  as_of_str (commit h) = text "as_of=" ++ h
  as_of_str (timestamp t) = text "as_of=" ++ time.show_time t

  unfoldable pub query_to_string : QueryParams → Text
  unfolding as_of_str show_usize
  query_to_string q = join_with (b'&' ∷ []) (
      optional as_of_str q.as_of
      ++ (optional (λ l. text "level=" ++ level_str l) q.level
          ++ (optional (λ b. text "branch=" ++ b) q.branch
              ++ optional (λ n. text "limit=" ++ show_usize n) q.limit)))

  -- The text before the first `?`.
  abbrev base : ContextUri → Text
  base u = (split_once b'?' u.canonical).0

  unfoldable pub with_query : ContextUri → QueryParams → ContextUri
  unfolding query_to_string
  with_query u q = record u { query = some q; canonical = base u ++ b'?' ∷ query_to_string q }

  unfoldable pub without_query : ContextUri → ContextUri
  without_query u = elim u.query [
    | none ↦ u
    | some q ↦ elim (parse time (base u)) [ ok v ↦ v | err e ↦ u ]
  ]
