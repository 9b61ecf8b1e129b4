-- ===== src/Store/Integrity/Grow.antt =====
-- The shape that the writing operations share: one new commit, and references to it or to old ones.
use uwu_context_db.Prelude.{
  ◌≡◌, ◌∙◌, true, ◌||◌, some, arith, nat_beq, nat_eq, list_eq, pair_eq, nat_beq_iff, option_eq,
  contains, Map, lookup, insert, contains_key, lookup-insert, contains_key-insert, Text,
}
use uwu_context_db.Uri.Equality.{uri_eq}
use uwu_context_db.Version.Model.{CommitId, BranchName, Commit, Branch}
use uwu_context_db.Store.State.{Snapshot, RefKey, Store}
use uwu_context_db.Store.Integrity.{HasCommit, IsIntegral}

-- The new id, or the id of a stored commit.
abbrev pub IsKnown : Store → CommitId → CommitId → Type 0
IsKnown s id h = (nat_beq id h || contains_key h s.commits) ≡ true

pub IsKnown-self : (s : Store) (id : CommitId) → IsKnown s id id
IsKnown-self s id = ground (arith, nat_beq_iff id id)

pub IsKnown-old : (s : Store) (id h : CommitId) → HasCommit s h → IsKnown s id h
IsKnown-old s id h k = ground arith

abbrev pub grown :
    Store → CommitId → Commit → Snapshot → Map RefKey Branch → Map Text CommitId → Store
grown s id c snap branches heads = record s {
  commits = insert id c s.commits;
  entry_snapshots = insert id snap s.entry_snapshots;
  branches = branches;
  heads = heads;
}

pub grown-IsIntegral :
    {s : Store} (id : CommitId) (c : Commit) (snap : Snapshot) (branches : Map RefKey Branch)
    (heads : Map Text CommitId)
    → IsIntegral s
    → ((p : CommitId) → contains c.parents p ≡ true → HasCommit s p)
    → ((key : RefKey) (b : Branch) → lookup key branches ≡ some b → IsKnown s id b.head)
    → ((scope : Text) (h : CommitId) → lookup scope heads ≡ some h → IsKnown s id h)
    → IsIntegral (grown s id c snap branches heads)
grown-IsIntegral {s} id c snap branches heads v ps bs hs = record {
  snapshots = λ j h. ground (
    arith,
    contains_key-insert id j c s.commits,
    contains_key-insert id j snap s.entry_snapshots,
    v.snapshots j,
  );
  parents = λ j p d e hp. ground (
    arith,
    contains_key-insert id p c s.commits,
    lookup-insert id j c s.commits,
    ps p,
    v.parents j p d,
  );
  heads = λ scope h e. contains_key-insert id h c s.commits ∙ hs scope h e;
  branch_heads = λ key b e. contains_key-insert id b.head c s.commits ∙ bs key b e;
}

-- An operation that only moves references.
pub refs-IsIntegral :
    {s : Store} (branches : Map RefKey Branch) (heads : Map Text CommitId)
    (attached : Map Text BranchName)
    → IsIntegral s
    → ((key : RefKey) (b : Branch) → lookup key branches ≡ some b → HasCommit s b.head)
    → ((scope : Text) (h : CommitId) → lookup scope heads ≡ some h → HasCommit s h)
    → IsIntegral (record s { branches = branches; heads = heads; attached_branches = attached })
refs-IsIntegral {s} branches heads attached v bs hs = record {
  snapshots = v.snapshots;
  parents = v.parents;
  heads = hs;
  branch_heads = bs;
}

pub insert-branch-stored :
    {s : Store} (at key : RefKey) (b b' : Branch)
    → IsIntegral s
    → HasCommit s b.head
    → lookup key (insert at b s.branches) ≡ some b'
    → HasCommit s b'.head
insert-branch-stored {s} at key b b' v known h =
    ground (arith, lookup-insert at key b s.branches, v.branch_heads key b')

pub insert-head-stored :
    {s : Store} (h h' : CommitId) (at scope : Text)
    → IsIntegral s
    → HasCommit s h
    → lookup scope (insert at h s.heads) ≡ some h'
    → HasCommit s h'
insert-head-stored {s} h h' at scope v known e =
    ground (arith, lookup-insert at scope h s.heads, v.heads scope h')

-- A branch or HEAD that moves to a known commit, or stays.
pub insert-branch-IsKnown :
    {s : Store} (id : CommitId) (at key : RefKey) (b b' : Branch)
    → IsIntegral s
    → IsKnown s id b.head
    → lookup key (insert at b s.branches) ≡ some b'
    → IsKnown s id b'.head
insert-branch-IsKnown {s} id at key b b' v known h =
    ground (arith, lookup-insert at key b s.branches, v.branch_heads key b')

pub insert-head-IsKnown :
    {s : Store} (id h h' : CommitId) (at scope : Text)
    → IsIntegral s
    → IsKnown s id h
    → lookup scope (insert at h s.heads) ≡ some h'
    → IsKnown s id h'
insert-head-IsKnown {s} id h h' at scope v known e =
    ground (arith, lookup-insert at scope h s.heads, v.heads scope h')
