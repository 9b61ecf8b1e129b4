-- ===== src/Memory/Pages/Complete.antt =====
-- A list that is read page after page with `keyset_page`.
use uwu_context_db.Prelude.{
  ℕ, zero, suc, ◌+◌, ◌-◌, ◌≤◌, ◌<◌, ◌≡◌, refl, sym, ap, ◌∙◌, arith, inl, inr, true, false,
  Bool-cases, Option, none, some, List, [], ◌∷◌, ◌++◌, ltb, nat_beq_iff, length, take, drop, init,
  last?, filter_by, Text,
}
use uwu_context_db.Memory.Pages.{
  PageRequest, Page, text_ltb, is_after, effective_limit, keyset_page,
}

text_ltb_trans : (s t u : Text) → text_ltb s t ≡ true → text_ltb t u ≡ true → text_ltb s u ≡ true
text_ltb_trans [] [] u h k = absurd (ground (arith, h))
text_ltb_trans [] (d ∷ t) [] h k = absurd (ground (arith, k))
text_ltb_trans [] (d ∷ t) (e ∷ u) h k = refl
text_ltb_trans (c ∷ s) [] u h k = absurd (ground (arith, h))
text_ltb_trans (c ∷ s) (d ∷ t) [] h k = absurd (ground (arith, k))
text_ltb_trans (c ∷ s) (d ∷ t) (e ∷ u) h k = ground (arith, text_ltb_trans s t u)

text_ltb_irrefl : (s : Text) → text_ltb s s ≡ false
text_ltb_irrefl [] = refl
text_ltb_irrefl (c ∷ s) = ground (arith, text_ltb_irrefl s)

module _ {A : Type 0} where
  -- What a full page of `n` out of more items is.
  record IsSplit (n : ℕ) (items : List A) : Type 0 where
    front : List A
    final : A
    page : init (take (suc n) items) ≡ front ++ final ∷ []
    whole : items ≡ front ++ final ∷ drop n items

  last?-snoc : (front : List A) (a : A) → last? (front ++ a ∷ []) ≡ some a
  last?-snoc [] a = refl
  last?-snoc (b ∷ []) a = refl
  last?-snoc (b ∷ c ∷ front) a = last?-snoc (c ∷ front) a

  IsSplit-page : (n : ℕ) (items : List A) → suc n < length items → IsSplit (suc n) items
  IsSplit-page n [] h = absurd (omega (arith, h))
  IsSplit-page n (a ∷ []) h = absurd (omega (arith, h))
  IsSplit-page zero (a ∷ b ∷ rest) h = record { front = []; final = a; page = refl; whole = refl }
  IsSplit-page (suc n) (a ∷ b ∷ rest) h =
      let v = IsSplit-page n (b ∷ rest) (omega (arith, h)) in
      record {
        front = a ∷ v.front;
        final = v.final;
        page = ap (◌∷◌ a) v.page;
        whole = ap (◌∷◌ a) v.whole;
      }

  take-all : (n : ℕ) (items : List A) → length items ≤ n → take n items ≡ items
  take-all zero [] h = refl
  take-all (suc n) [] h = refl
  take-all zero (a ∷ items) h = absurd (omega (arith, h))
  take-all (suc n) (a ∷ items) h = ap (◌∷◌ a) (take-all n items (omega (arith, h)))

  -- The items of a page with those of the pages after it.
  unfoldable pub read_on : (Option Text → Option (List A)) → Page A → Option (List A)
  read_on next page = elim page.next_cursor [
    | none ↦ some page.items
    | some c ↦ elim (next (some c)) [ none ↦ none | some rest ↦ some (page.items ++ rest) ]
  ]

  -- The pages that `load` gives one after another, `limit` items in each, from the cursor on; `none`
  -- where there are more than `f` of them.
  unfoldable pub pages : ℕ → (PageRequest → Page A) → ℕ → Option Text → Option (List A)
  unfolding read_on
  pages zero load limit after = none
  pages (suc f) load limit after =
      read_on (λ next. pages f load limit next) (load (record { after = after; limit = limit }))

module _ {A : Type 0} (key : A → Text) where
  -- All keys come after `k`.
  abbrev pub AllAfter : Text → List A → Type 0
  AllAfter k [] = Unit
  AllAfter k (a ∷ items) = (text_ltb k (key a) ≡ true) × AllAfter k items

  -- The keys ascend, without a repetition.
  abbrev pub IsAscending : List A → Type 0
  IsAscending [] = Unit
  IsAscending (a ∷ items) = AllAfter (key a) items × IsAscending items

  abbrev after_key : Text → List A → List A
  after_key k items = filter_by (λ a. text_ltb k (key a)) items

  all-after : (k : Text) (items : List A) → AllAfter k items → after_key k items ≡ items
  all-after k [] h = refl
  all-after k (a ∷ items) h = rw h.0 (ap (◌∷◌ a) (all-after k items h.1))

  AllAfter-middle :
      (k : Text) (done : List A) (a : A) (todo : List A)
      → AllAfter k (done ++ a ∷ todo)
      → text_ltb k (key a) ≡ true
  AllAfter-middle k [] a todo h = h.0
  AllAfter-middle k (b ∷ done) a todo h = AllAfter-middle k done a todo h.1

  -- After the key of an item stand the items behind it.
  after-middle :
      (done : List A) (a : A) (todo : List A)
      → IsAscending (done ++ a ∷ todo)
      → after_key (key a) (done ++ a ∷ todo) ≡ todo
  after-middle [] a todo h = rw (text_ltb_irrefl (key a)) (all-after (key a) todo h.0)
  after-middle (b ∷ done) a todo h =
      let below = AllAfter-middle (key b) done a todo h.0 in
      let off : text_ltb (key a) (key b) ≡ false =
        ground
          (arith, below, text_ltb_trans (key b) (key a) (key b) below, text_ltb_irrefl (key b)) in
      rw off (after-middle done a todo h.1)

  effective_limit-positive : (page : PageRequest) → (n : ℕ) × (effective_limit page ≡ suc n)
  unfolding effective_limit
  effective_limit-positive page =
      (effective_limit page - 1, ground (arith, nat_beq_iff page.limit 0))

  append-middle :
      (done front : List A) (b : A) (todo : List A)
      → (done ++ (front ++ b ∷ todo)) ≡ ((done ++ front) ++ b ∷ todo)
  append-middle [] front b todo = refl
  append-middle (a ∷ done) front b todo = ap (◌∷◌ a) (append-middle done front b todo)

  append-snoc :
      (front : List A) (b : A) (todo : List A) → ((front ++ b ∷ []) ++ todo) ≡ (front ++ b ∷ todo)
  append-snoc [] b todo = refl
  append-snoc (a ∷ front) b todo = ap (◌∷◌ a) (append-snoc front b todo)

  length-drop :
      (n : ℕ) (items : List A) → n ≤ length items → n + length (drop n items) ≡ length items
  length-drop zero items h = omega arith
  length-drop (suc n) [] h = absurd (omega (arith, h))
  length-drop (suc n) (a ∷ items) h = omega (arith, length-drop n items (omega (arith, h)))

  take-long : (n : ℕ) (items : List A) → ltb n (length (take (suc n) items)) ≡ ltb n (length items)
  take-long n [] = refl
  take-long zero (a ∷ items) = ground arith
  take-long (suc n) (a ∷ items) = ground (arith, take-long n items)

  page-last :
      (page : PageRequest) (items todo : List A)
      → filter_by (λ a. is_after page.after (key a)) items ≡ todo
      → length todo ≤ effective_limit page
      → keyset_page key items page ≡ record { items = todo; next_cursor = none }
  unfolding keyset_page
  page-last page items todo left short =
      let limit = effective_limit page in
      let more : limit + 1 ≡ suc limit = omega arith in
      let all = take-all (suc limit) todo (omega (arith, short)) in
      let fits : ltb limit (length todo) ≡ false = ground (arith, short) in
      rw (more, left, all, fits) refl

  page-more :
      (page : PageRequest) (items todo : List A) (n : ℕ)
      → filter_by (λ a. is_after page.after (key a)) items ≡ todo
      → effective_limit page ≡ suc n
      → suc n < length todo
      → (v : IsSplit (suc n) todo)
      → keyset_page key items page
        ≡ record { items = v.front ++ v.final ∷ []; next_cursor = some (key v.final) }
  unfolding keyset_page
  page-more page items todo n left size long v =
      let more : suc n + 1 ≡ suc (suc n) = omega arith in
      let full : ltb (suc n) (length (take (suc (suc n)) todo)) ≡ true =
        take-long (suc n) todo ∙ ground (arith, long) in
      rw (size, more, left, full, v.page, last?-snoc v.front v.final) refl

  pages-rest :
      (f limit : ℕ) (after : Option Text) (done todo items : List A)
      → items ≡ done ++ todo
      → filter_by (λ a. is_after after (key a)) items ≡ todo
      → IsAscending items
      → length todo < f
      → pages f (keyset_page key items) limit after ≡ some todo
  unfolding pages read_on
  pages-rest zero limit after done todo items parts left sorted small =
      absurd (omega (arith, small))
  pages-rest (suc f) limit after done todo items parts left sorted small =
      let page : PageRequest = record { after = after; limit = limit } in
      let (n, size) = effective_limit-positive page in
      elim (Bool-cases (ltb (suc n) (length todo))) [
        | inl full ↦
            let long : suc n < length todo = ground (arith, full) in
            let v = IsSplit-page n todo long in
            let parts' : items ≡ (done ++ v.front) ++ v.final ∷ drop (suc n) todo =
              parts
              ∙ (ap (◌++◌ done) v.whole ∙ append-middle done v.front v.final (drop (suc n) todo)) in
            let left' : after_key (key v.final) items ≡ drop (suc n) todo =
              rw parts' (
                after-middle (done ++ v.front) v.final (drop (suc n) todo) (rw parts' at sorted)) in
            let rest =
              pages-rest f limit (some (key v.final)) ((done ++ v.front) ++ v.final ∷ [])
                (drop (suc n) todo) items
                (parts' ∙ sym (append-snoc (done ++ v.front) v.final (drop (suc n) todo))) left'
                sorted
                (omega (arith, length-drop (suc n) todo (omega (arith, long)), small, long)) in
            ap (read_on (λ next. pages f (keyset_page key items) limit next))
              (page-more page items todo n left size long v)
            ∙ rw (read_on, rest)
                (ap some (append-snoc v.front v.final (drop (suc n) todo) ∙ sym v.whole))
        | inr whole ↦
            ap (read_on (λ next. pages f (keyset_page key items) limit next))
              (page-last page items todo left (ground (arith, whole, size)))
      ]

  filter-none : (items : List A) → filter_by (λ a. is_after none (key a)) items ≡ items
  filter-none [] = refl
  filter-none (a ∷ items) = ap (◌∷◌ a) (filter-none items)

  -- Over items whose keys ascend without a repetition, reading the pages one after another, each
  -- from the cursor of the one before, gives every item once and in order, whatever the limit.
  pub pages-all :
      (f limit : ℕ) (items : List A)
      → IsAscending items
      → length items < f
      → pages f (keyset_page key items) limit none ≡ some items
  pages-all f limit items sorted small =
      pages-rest f limit none [] items items refl (filter-none items) sorted small
