-- ===== src/Version/Names.antt =====
-- `BranchName::parse` and `TagName::parse` of crates/context-db-version/src/model.rs.
pub mod Valid
use uwu_context_db.Prelude.{
  ℕ, ◌+◌, Bool, ◌&&◌, ◌||◌, [], ◌∷◌, ◌++◌, ltb, leb, nat_beq, nat_eq, list_eq, pair_eq, option_eq,
  if◌then◌else◌, all_by, Result, ok, err, ◌>>◌, Text, text,
}
use Prim.Native.String.{String}
use uwu_context_db.Error.{VersionError}
use uwu_context_db.Uri.Ops.{show_usize}
use uwu_context_db.Version.Model.{BranchName, TagName}

-- The bytes of a code point in UTF-8: `s.len()` counts bytes.
abbrev utf8_len : ℕ → ℕ
utf8_len c = if ltb c 128 then 1 else if ltb c 2048 then 2 else if ltb c 65536 then 3 else 4

unfoldable pub byte_len : Text → ℕ
byte_len [] = 0
byte_len (c ∷ s) = utf8_len c + byte_len s

abbrev between : ℕ → ℕ → ℕ → Bool
between lo hi c = leb lo c && leb c hi

-- `c.is_ascii_alphanumeric() || matches!(c, '.' | '_' | '/' | '-')`
unfoldable pub is_name_char : ℕ → Bool
is_name_char c =
    between b'a' b'z' c
    || (between b'A' b'Z' c
        || (between b'0' b'9' c
            || (nat_beq c b'.' || (nat_beq c b'_' || (nat_beq c b'/' || nat_beq c b'-')))))

-- `validate`, with the type's name for the messages.
unfoldable pub validate_name : String → Text → Result VersionError (Unit {0})
unfolding byte_len is_name_char
validate_name kind [] = err (VersionError.storage (text kind ++ text " must not be empty"))
validate_name kind (c ∷ s) =
    if ltb 255 (byte_len (c ∷ s))
    then err (
        VersionError.storage
          (text kind ++ (text " too long (" ++ (show_usize (byte_len (c ∷ s)) ++ text " > 255)"))))
    else if all_by is_name_char (c ∷ s)
    then ok tt
    else err (
        VersionError.storage
          (text kind ++ (text " contains illegal chars (allowed: [A-Za-z0-9._/-]): " ++ (c ∷ s))))

unfoldable pub parse_branch_name : Text → Result VersionError BranchName
unfolding validate_name
parse_branch_name s = do validate_name "BranchName" s; ok s

unfoldable pub parse_tag_name : Text → Result VersionError TagName
unfolding validate_name
parse_tag_name s = do validate_name "TagName" s; ok s
