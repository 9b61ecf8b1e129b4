-- ===== src/Memory/Pages.antt =====
-- `PageRequest` and `Page` of crates/context-db-core/src/store.rs, and `keyset_page`.
pub mod Complete
use uwu_context_db.Prelude.{
  ℕ, ◌+◌, Bool, true, false, Option, none, some, List, [], ◌∷◌, ltb, nat_beq, if◌then◌else◌, length,
  take, init, last?, filter_by, Text,
}

abbrev pub max_page_size : ℕ
max_page_size = 1000

pub record PageRequest : Type 0 where
  pub after : Option Text
  pub limit : ℕ

-- `limit.clamp(1, MAX_PAGE_SIZE)`
unfoldable pub effective_limit : PageRequest → ℕ
effective_limit page =
    if nat_beq page.limit 0
    then 1
    else if ltb max_page_size page.limit
    then max_page_size
    else page.limit

pub record Page (A : Type 0) : Type 0 where
  pub items : List A
  pub next_cursor : Option Text

-- `a < b` on strings, whose order is that of their code points.
abbrev pub text_ltb : Text → Text → Bool
text_ltb [] [] = false
text_ltb [] (d ∷ t) = true
text_ltb (c ∷ s) [] = false
text_ltb (c ∷ s) (d ∷ t) =
    let rest = text_ltb s t in if ltb c d then true else if nat_beq c d then rest else false

abbrev pub is_after : Option Text → Text → Bool
is_after none key = true
is_after (some after) key = text_ltb after key

module _ {A : Type 0} (key : A → Text) where
  abbrev pub cursor : Option A → Option Text
  cursor none = none
  cursor (some a) = some (key a)

  unfoldable pub keyset_page : List A → PageRequest → Page A
  unfolding effective_limit
  keyset_page items page =
      let limit = effective_limit page in
      let selected = take (limit + 1) (filter_by (λ a. is_after page.after (key a)) items) in
      if ltb limit (length selected)
      then record { items = init selected; next_cursor = cursor (last? (init selected)) }
      else record { items = selected; next_cursor = none }
