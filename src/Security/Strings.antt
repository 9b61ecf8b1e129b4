-- ===== src/Security/Strings.antt =====
-- What the redaction uses of Rust's strings.
use uwu_context_db.Prelude.{
  ℕ, suc, zero, ◌+◌, ◌-◌, Bool, true, false, ◌&&◌, ◌||◌, ◌==◌, nat_eq, leb, if◌then◌else◌, List, [],
  ◌∷◌, ◌++◌, length, Text, starts_with, split,
}

abbrev pub in_range : ℕ → ℕ → ℕ → Bool
in_range low high c = leb low c && leb c high

-- `char::is_whitespace`
unfoldable pub is_whitespace : ℕ → Bool
is_whitespace c =
    in_range 9 13 c
    || c == 32
    || c == 133
    || c == 160
    || c == 5760
    || in_range 8192 8202 c
    || c == 8232
    || c == 8233
    || c == 8239
    || c == 8287
    || c == 12288

-- `char::is_ascii_punctuation`
unfoldable pub is_ascii_punctuation : ℕ → Bool
is_ascii_punctuation c =
    in_range 33 47 c || in_range 58 64 c || in_range 91 96 c || in_range 123 126 c

abbrev pub is_ascii_digit : ℕ → Bool
is_ascii_digit c = in_range 48 57 c

abbrev pub to_ascii_lowercase : ℕ → ℕ
to_ascii_lowercase c = if in_range 65 90 c then c + 32 else c

abbrev pub is_ascii_alphanumeric : ℕ → Bool
is_ascii_alphanumeric c = is_ascii_digit c || in_range 97 122 (to_ascii_lowercase c)

-- `s.chars().all(p)`
abbrev pub every : (ℕ → Bool) → Text → Bool
every p [] = true
every p (c ∷ s) = p c && every p s

-- `c.len_utf8()`, and `s.len()`, which counts bytes.
abbrev len_utf8 : ℕ → ℕ
len_utf8 c = if leb c 127 then 1 else (if leb c 2047 then 2 else (if leb c 65535 then 3 else 4))

abbrev pub byte_len : Text → ℕ
byte_len [] = 0
byte_len (c ∷ s) = len_utf8 c + byte_len s

abbrev pub is_nil : Text → Bool
is_nil [] = true
is_nil _ = false

abbrev pub lowercase : Text → Text
lowercase [] = []
lowercase (c ∷ s) = to_ascii_lowercase c ∷ lowercase s

-- `s.contains(pat)`
unfoldable pub has_text : Text → Text → Bool
unfolding starts_with
has_text pat [] = is_nil pat
has_text pat (c ∷ s) = starts_with pat (c ∷ s) || has_text pat s

abbrev pub has_char : Text → ℕ → Bool
has_char [] c = false
has_char (d ∷ s) c = d == c || has_char s c

-- `s.trim_start_matches(p)` and `s.trim_end_matches(p)`
unfoldable pub trim_start : (ℕ → Bool) → Text → Text
trim_start p [] = []
trim_start p (c ∷ s) = let rest = trim_start p s in if p c then rest else c ∷ s

unfoldable pub trim_end : (ℕ → Bool) → Text → Text
trim_end p [] = []
trim_end p (c ∷ s) = let rest = trim_end p s in if p c && is_nil rest then [] else c ∷ rest

-- `s.replace(pat, new)`, with the characters that the last match still covers.
unfoldable pub replace : Text → Text → ℕ → Text → Text
unfolding starts_with
replace pat new skip [] = []
replace pat new (suc skip) (c ∷ s) = replace pat new skip s
replace pat new zero (c ∷ s) = elim (starts_with pat (c ∷ s)) [
  | true ↦ new ++ replace pat new (length pat - 1) s
  | false ↦ c ∷ replace pat new zero s
]

-- `s.split_whitespace()`: the word that the text begins with, and the words after it.
abbrev pub word_first : Text → List Text → List Text
word_first [] ws = ws
word_first (c ∷ w) ws = (c ∷ w) ∷ ws

unfoldable pub runs : Text → Text × List Text
unfolding is_whitespace
runs [] = ([], [])
runs (c ∷ s) =
    let (w, ws) = runs s in if is_whitespace c then ([], word_first w ws) else (c ∷ w, ws)

unfoldable pub words : Text → List Text
unfolding runs
words s = word_first (runs s).0 (runs s).1

-- `s.lines()`
abbrev without_return : Text → Text
without_return [] = []
without_return (c ∷ s) = let rest = without_return s in if c == 13 && is_nil s then [] else c ∷ rest

abbrev pub pieces_lines : List Text → List Text
pieces_lines [] = []
pieces_lines (p ∷ []) = if is_nil p then [] else p ∷ []
pieces_lines (p ∷ q ∷ ps) = without_return p ∷ pieces_lines (q ∷ ps)

unfoldable pub lines : Text → List Text
unfolding split
lines s = pieces_lines (split 10 s)
