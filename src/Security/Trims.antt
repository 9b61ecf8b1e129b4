-- ===== src/Security/Trims.antt =====
-- Trimming, and the replacement of what is left by it.
use uwu_context_db.Prelude.{
  ℕ, suc, ◌-◌, Bool, true, false, ◌&&◌, nat_eq, nat_beq, nat_beq_iff, ◌≡◌, refl, ap, ◌∙◌, inl, inr,
  ◌⊎◌, [], ◌∷◌, ◌++◌, length, Text, starts_with, Bool-cases, arith,
}
use uwu_context_db.Security.Strings.{every, is_nil, trim_start, trim_end, replace}
use uwu_context_db.Security.Words.{every-first}

and-true : (a b : Bool) → (a && b) ≡ true → (a ≡ true) × (b ≡ true)
and-true a b h = ground arith

nil-empty : (s : Text) → is_nil s ≡ true → s ≡ []
nil-empty [] h = refl
nil-empty (c ∷ s) h = ground arith

-- Trimming takes characters that pass the test off both ends, and the first one left fails it.
module _ (p : ℕ → Bool) where
  pub trim_start-append :
      (pre s : Text) → every p pre ≡ true → trim_start p (pre ++ s) ≡ trim_start p s
  unfolding trim_start
  trim_start-append [] s h = refl
  trim_start-append (c ∷ pre) s h =
      let (first, more) = every-first p c pre h in rw first (trim_start-append pre s more)

  pub trim_end-all : (post : Text) → every p post ≡ true → trim_end p post ≡ []
  unfolding trim_end
  trim_end-all [] h = refl
  trim_end-all (c ∷ post) h =
      let (first, more) = every-first p c post h in rw (first, trim_end-all post more)

  pub trim_end-append :
      (s post : Text) → every p post ≡ true → trim_end p (s ++ post) ≡ trim_end p s
  unfolding trim_end
  trim_end-append [] post h = trim_end-all post h
  trim_end-append (c ∷ s) post h = rw (trim_end-append s post h)

  pub trim_start-parts :
      (s : Text)
      → (pre : Text) × (every p pre ≡ true)
        × (s ≡ pre ++ trim_start p s)
        × ((trim_start p s ≡ [])
            ⊎ ((a : ℕ) × (rest : Text) × (trim_start p s ≡ a ∷ rest) × (p a ≡ false)))
  unfolding trim_start
  trim_start-parts [] = ([], refl, refl, inl refl)
  trim_start-parts (c ∷ s) = elim (Bool-cases (p c)) [
    | inl h ↦
        let (pre, passes, e, rest) = trim_start-parts s in
        (c ∷ pre, rw h passes, rw h (ap (λ t. c ∷ t) e), rw h rest)
    | inr h ↦ ([], refl, rw h, inr (c, s, rw h, h))
  ]

  pub trim_end-parts :
      (s : Text) → (post : Text) × (every p post ≡ true) × (s ≡ trim_end p s ++ post)
  unfolding trim_end
  trim_end-parts [] = ([], refl, refl)
  trim_end-parts (c ∷ s) =
      let (post, passes, e) = trim_end-parts s in
      elim (Bool-cases (p c && is_nil (trim_end p s))) [
        | inl h ↦
            let (first, nil) = and-true (p c) (is_nil (trim_end p s)) h in
            let all = e ∙ ap (λ t. t ++ post) (nil-empty (trim_end p s) nil) in
            (c ∷ s, rw (first, all) passes, rw h refl)
        | inr h ↦ (post, passes, rw h (ap (λ t. c ∷ t) e))
      ]

-- `replace` of a pattern whose first character fails the test that all others outside it pass.
module _ (p : ℕ → Bool) (a : ℕ) (pat new : Text) (fails : p a ≡ false) where
  other : (c : ℕ) → p c ≡ true → nat_beq a c ≡ false
  other c h = elim (Bool-cases (nat_beq a c)) [
    | inl e ↦ cc (fails, h, ap p ((nat_beq_iff a c).0 e))
    | inr e ↦ e
  ]

  replace-outside :
      (pre s : Text)
      → every p pre ≡ true
      → replace (a ∷ pat) new 0 (pre ++ s) ≡ pre ++ replace (a ∷ pat) new 0 s
  unfolding replace starts_with
  replace-outside [] s h = refl
  replace-outside (c ∷ pre) s h =
      let (first, more) = every-first p c pre h in
      rw (other c first, replace, starts_with) (ap (λ t. c ∷ t) (replace-outside pre s more))

  replace-covered :
      (rest s : Text) → replace (a ∷ pat) new (length rest) (rest ++ s) ≡ replace (a ∷ pat) new 0 s
  unfolding replace
  replace-covered [] s = refl
  replace-covered (c ∷ rest) s = replace-covered rest s

  starts_with-append : (s t : Text) → starts_with s (s ++ t) ≡ true
  unfolding starts_with
  starts_with-append [] t = refl
  starts_with-append (c ∷ s) t = rw ((nat_beq_iff c c).1 refl, starts_with-append s t)

  replace-here :
      (post : Text)
      → replace (a ∷ pat) new 0 (a ∷ pat ++ post) ≡ new ++ replace (a ∷ pat) new 0 post
  unfolding replace
  replace-here post =
      let less : suc (length pat) - 1 ≡ length pat = omega arith in
      rw (starts_with-append (a ∷ pat) post, replace, less)
        (ap (λ t. new ++ t) (replace-covered pat post))

  replace-none : (s : Text) → every p s ≡ true → replace (a ∷ pat) new 0 s ≡ s
  unfolding replace starts_with
  replace-none [] h = refl
  replace-none (c ∷ s) h =
      let (first, more) = every-first p c s h in
      rw (other c first, replace, starts_with) (ap (λ t. c ∷ t) (replace-none s more))

  pub replace-parts :
      (pre post : Text)
      → every p pre ≡ true
      → every p post ≡ true
      → replace (a ∷ pat) new 0 (pre ++ (a ∷ pat ++ post)) ≡ pre ++ (new ++ post)
  replace-parts pre post before after =
      rw (replace-outside pre (a ∷ pat ++ post) before, replace-here post)
        (ap (λ t. pre ++ (new ++ t)) (replace-none post after))

pub trim_end-head :
    (p : ℕ → Bool) (a : ℕ) (rest : Text) → p a ≡ false → trim_end p (a ∷ rest) ≡ a ∷ trim_end p rest
unfolding trim_end
trim_end-head p a rest h = rw h refl
