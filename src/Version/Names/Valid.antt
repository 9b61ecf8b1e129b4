-- ===== src/Version/Names/Valid.antt =====
-- Which texts are names of branches and tags.
use uwu_context_db.Prelude.{
  ℕ, ◌≡◌, ◌↔◌, ◌≤◌, ◌≢◌, refl, Text, List, [], ◌∷◌, arith, nat_eq, nat_beq_iff, list_eq, Bool, true,
  ok, all_by, contains,
}
use Prim.Native.String.{String}
use uwu_context_db.Version.Names.{byte_len, is_name_char, parse_branch_name, validate_name}

-- Not empty, at most 255 bytes, and of the allowed characters.
pub record IsName (s : Text) : Type 0 where
  pub not_empty : s ≢ []
  pub short : byte_len s ≤ 255
  pub allowed : (c : ℕ) → contains s c ≡ true → is_name_char c ≡ true

all_by-contains :
    (p : ℕ → Bool) (s : List ℕ) (c : ℕ) → all_by p s ≡ true → contains s c ≡ true → p c ≡ true
unfolding contains
all_by-contains p [] c h k = absurd (ground arith)
all_by-contains p (d ∷ s) c h k = ground (arith, all_by-contains p s c, nat_beq_iff d c)

contains-all_by :
    (p : ℕ → Bool) (s : List ℕ) → ((c : ℕ) → contains s c ≡ true → p c ≡ true) → all_by p s ≡ true
unfolding contains
contains-all_by p [] h = refl
contains-all_by p (d ∷ s) h =
    ground (arith, h d, nat_beq_iff d d, contains-all_by p s (λ c k. h c (ground arith)))

validate_iff : (kind : String) (s : Text) → (validate_name kind s ≡ ok tt) ↔ IsName s
unfolding validate_name
validate_iff kind [] = (λ h. absurd (ground arith), λ v. absurd (v.not_empty refl))
validate_iff kind (c ∷ s) = (
  λ h. record {
    not_empty = λ e. absurd (ground arith);
    short = ground arith;
    allowed = λ d k. all_by-contains is_name_char (c ∷ s) d (ground arith) k;
  },
  λ v. let valid = contains-all_by is_name_char (c ∷ s) v.allowed in ground (arith, valid, v.short),
)

-- A text parses as the name of a branch exactly when it is a name, and the branch has that name.
pub parse_branch_name_iff : (s n : Text) → (parse_branch_name s ≡ ok n) ↔ ((n ≡ s) × IsName s)
unfolding parse_branch_name
parse_branch_name_iff s n = (
  λ h. (ground arith, (validate_iff "BranchName" s).0 (ground arith)),
  λ p. ground (arith, p.0, (validate_iff "BranchName" s).1 p.1),
)
