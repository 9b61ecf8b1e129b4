-- ===== src/Security/Words.antt =====
-- The words of a text, and the text that joins words with a space.
use uwu_context_db.Prelude.{
  ℕ, Bool, true, false, not, ◌&&◌, nat_eq, nat_beq, ◌≡◌, refl, inl, inr, List, [], ◌∷◌, ◌++◌, Text,
  split, join, Bool-cases, arith,
}
use uwu_context_db.Security.Strings.{every, is_nil, runs, words, word_first, is_whitespace}

abbrev pub dark : ℕ → Bool
unfolding is_whitespace
dark c = not (is_whitespace c)

-- Words are not empty and hold no white space.
abbrev pub IsWord : Text → Type 0
IsWord w = (is_nil w ≡ false) × (every dark w ≡ true)

abbrev pub AllWords : List Text → Type 0
AllWords [] = Unit
AllWords (w ∷ ws) = IsWord w × AllWords ws

pub every-append : (p : ℕ → Bool) (s t : Text) → every p (s ++ t) ≡ (every p s && every p t)
every-append p [] t = refl
every-append p (c ∷ s) t = elim (Bool-cases (p c)) [
  | inl h ↦ rw (h, every-append p s t)
  | inr h ↦ rw h
]

-- A text begins with a word, which may be empty, and goes on with words.
abbrev IsRuns : Text × List Text → Type 0
IsRuns r = (every dark r.0 ≡ true) × AllWords r.1

word_first-AllWords : (w : Text) (ws : List Text) → IsRuns (w, ws) → AllWords (word_first w ws)
word_first-AllWords [] ws h = h.1
word_first-AllWords (c ∷ w) ws h = ((refl, h.0), h.1)

runs-IsRuns : (s : Text) → IsRuns (runs s)
unfolding runs
runs-IsRuns [] = (refl, tt)
runs-IsRuns (c ∷ s) =
    let (dark_word, more) = runs-IsRuns s in
    elim (Bool-cases (is_whitespace c)) [
      | inl h ↦ rw h (refl, word_first-AllWords (runs s).0 (runs s).1 (dark_word, more))
      | inr h ↦ rw h (rw h dark_word, more)
    ]

pub words-AllWords : (s : Text) → AllWords (words s)
unfolding words
words-AllWords s = word_first-AllWords (runs s).0 (runs s).1 (runs-IsRuns s)

not-true : (b : Bool) → not b ≡ true → b ≡ false
not-true b h = ground arith

-- The first character and the rest, where all of them pass.
pub every-first :
    (p : ℕ → Bool) (c : ℕ) (s : Text) → every p (c ∷ s) ≡ true → (p c ≡ true) × (every p s ≡ true)
every-first p c s h = ground arith

-- A word and a space begin a text whose other words are those of the rest.
runs-word : (w s : Text) → every dark w ≡ true → runs (w ++ 32 ∷ s) ≡ (w, words s)
unfolding runs is_whitespace words
runs-word [] s h = refl
runs-word (c ∷ w) s h =
    let (first, more) = every-first dark c w h in
    rw (not-true (is_whitespace c) first, runs-word w s more)

runs-last : (w : Text) → every dark w ≡ true → runs w ≡ (w, [])
unfolding runs
runs-last [] h = refl
runs-last (c ∷ w) h =
    let (first, more) = every-first dark c w h in
    rw (not-true (is_whitespace c) first, runs-last w more)

word_first-word : (w : Text) (ws : List Text) → is_nil w ≡ false → word_first w ws ≡ w ∷ ws
word_first-word [] ws h = ground arith
word_first-word (c ∷ w) ws h = refl

pub words-join : (ws : List Text) → AllWords ws → words (join (32 ∷ []) ws) ≡ ws
unfolding words join
words-join [] h = refl
words-join (w ∷ []) h = rw (runs-last w h.0.1) (word_first-word w [] h.0.0)
words-join (w ∷ v ∷ ws) h =
    rw (runs-word w (join (32 ∷ []) (v ∷ ws)) h.0.1, words-join (v ∷ ws) h.1)
      (word_first-word w (v ∷ ws) h.0.0)

-- No line ends in a text that joins words.
abbrev pub unbroken : ℕ → Bool
unbroken c = not (nat_beq c 10)

dark-unbroken : (c : ℕ) → dark c ≡ true → unbroken c ≡ true
unfolding is_whitespace
dark-unbroken c h = ground arith

pub every_mono :
    (p q : ℕ → Bool)
    → ((c : ℕ) → p c ≡ true → q c ≡ true)
    → (s : Text) → every p s ≡ true
    → every q s ≡ true
every_mono p q f [] h = refl
every_mono p q f (c ∷ s) h =
    let (first, more) = every-first p c s h in rw (f c first, every_mono p q f s more)

word-unbroken : (w : Text) → every dark w ≡ true → every unbroken w ≡ true
word-unbroken = every_mono dark unbroken dark-unbroken

pub join-unbroken : (ws : List Text) → AllWords ws → every unbroken (join (32 ∷ []) ws) ≡ true
unfolding join
join-unbroken [] h = refl
join-unbroken (w ∷ []) h = word-unbroken w h.0.1
join-unbroken (w ∷ v ∷ ws) h = rw (
  every-append unbroken w (32 ∷ join (32 ∷ []) (v ∷ ws)),
  word-unbroken w h.0.1,
  join-unbroken (v ∷ ws) h.1,
)

pub split-unbroken : (s : Text) → every unbroken s ≡ true → split 10 s ≡ s ∷ []
unfolding split
split-unbroken [] h = refl
split-unbroken (c ∷ s) h =
    let (first, more) = every-first unbroken c s h in
    rw (not-true (nat_beq c 10) first, split-unbroken s more)
