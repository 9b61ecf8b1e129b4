-- ===== src/Examples/Entries.antt =====
-- Runs of the entry store in memory and of its pages.
use uwu_context_db.Prelude.{
  ℕ, ◌+◌, ◌≡◌, refl, Option, some, List, [], ◌∷◌, list_eq, nat_eq, length, lookup, insert, list_beq,
  Result, ok, Text, text,
}
use uwu_context_db.Error.{ContextError}
use uwu_context_db.Uri.Types.{l0}
use uwu_context_db.Uri.Ops.{as_str}
use uwu_context_db.Content.Types.{ContextEntry}
use uwu_context_db.Examples.Fixture.{scope, page, entry}
use uwu_context_db.Memory.Entries.{Store, versions_of, stamped, write, rollback, read, put_l2_blob}
use uwu_context_db.Memory.Entries.Versions.{
  IsVersioned, writes, puts_blob, Reach, begins, goes_on, Reach-IsVersioned,
}
use uwu_context_db.Memory.Entries.Reads.{view, read-rollback}

-- Two addresses, the later one first in the map.
abbrev two_pages : Store
two_pages = record {
  entries = (as_str page, entry ∷ []) ∷ (as_str scope, (record entry { uri = scope }) ∷ []) ∷ [];
  l2_blobs = [];
}

-- A redaction that changes nothing, and a reader that takes each byte for a code point.
abbrev as_is : ContextEntry → Result ContextError ContextEntry
as_is e = ok e

abbrev ascii : List ℕ → Option Text
ascii bytes = some bytes

abbrev twice : Store
twice = record {
  entries = (as_str page, stamped 1 5 entry ∷ stamped 2 6 entry ∷ []) ∷ [];
  l2_blobs = (as_str page, 65 ∷ []) ∷ [];
}

twice-Reach : Reach as_is twice
unfolding write put_l2_blob insert list_beq text lookup
twice-Reach =
    let once = goes_on begins (writes 5 entry) in
    let again = goes_on once (writes 6 entry) in goes_on again (puts_blob (as_str page) (65 ∷ []))

Reach-IsVersioned_example : IsVersioned twice
Reach-IsVersioned_example = Reach-IsVersioned as_is twice twice-Reach

read-rollback_example :
    ((rollback page (1 + 0) twice).0 ≡ ok tt)
    × (length (versions_of (rollback page (1 + 0) twice).1 (as_str page))
        ≡ length (versions_of twice (as_str page)) + 1)
    × (read ascii page l0 (rollback page (1 + 0) twice).1
        ≡ ok (view ascii l0 (lookup (as_str page) twice.l2_blobs) (stamped 1 5 entry)))
unfolding lookup list_beq text
read-rollback_example =
    read-rollback ascii page 0 (stamped 1 5 entry) l0 twice Reach-IsVersioned_example refl
