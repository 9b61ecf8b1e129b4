-- ===== src/Store/State.antt =====
-- The state of `MemoryVersionStore`, and what it takes from other libraries.
use uwu_context_db.Prelude.{
  ◌++◌, ℕ, ◌≡◌, refl, Bool, true, false, ◌||◌, Option, none, some, List, [], ◌∷◌, arith, ltb,
  nat_beq, nat_eq, list_eq, pair_eq, option_eq, if◌then◌else◌, Map, unwrap_or, lookup, insert,
  Result, ok, err, Text, text,
}
use uwu_context_db.Error.{VersionError}
use uwu_context_db.Uri.Types.{TimeFormat}
use uwu_context_db.Content.Types.{ContextEntry}
use uwu_context_db.Version.Model.{
  CommitId, BranchName, Commit, CommitTrigger, Author, Branch, Tag, auto_consolidation,
}

-- uri → serialised entry
abbrev pub Snapshot : Type 0
Snapshot = Map Text Text

-- (scope, name)
abbrev pub RefKey : Type 0
RefKey = Text × Text

pub record Store : Type 0 where
  pub commits : Map CommitId Commit
  pub entry_snapshots : Map CommitId Snapshot
  pub branches : Map RefKey Branch
  pub tags : Map RefKey Tag
  pub heads : Map Text CommitId
  pub attached_branches : Map Text BranchName
  pub max_commits : ℕ

-- What other libraries supply: serde's JSON reader and printer of entries, the texts of an id and of
-- a trigger, chrono's formats.
pub record External : Type 0 where
  pub to_json : ContextEntry → Option Text
  pub from_json : Text → Option ContextEntry
  pub show_id : CommitId → Text
  pub debug_trigger : CommitTrigger → Text
  pub time : TimeFormat

-- The `Debug` of a commit's id.
abbrev pub debug_id : External → CommitId → Text
debug_id ext id = text "CommitId(" ++ (ext.show_id id ++ text ")")

-- An operation returns its result and the state that it leaves, also where it fails.
abbrev pub Outcome : Type 0 → Type 0
Outcome A = Result VersionError A × Store

-- The checks of an operation come before its writes: a failing check leaves the state.
abbrev pub on_ok : {A B : Type 0} → Store → Result VersionError A → (A → Outcome B) → Outcome B
on_ok s (err e) f = (err e, s)
on_ok s (ok a) f = f a

-- What an operation leaves, by its check.
pub on_ok-state :
    {A B : Type 0} (P : Store → Type 0) (s : Store) (r : Result VersionError A) (f : A → Outcome B)
    → P s
    → ((a : A) → r ≡ ok a → P (f a).1)
    → P (on_ok s r f).1
on_ok-state P s (err e) f h k = h
on_ok-state P s (ok a) f h k = k a refl

-- A successful operation passed its check.
pub on_ok-result :
    {A B : Type 0} (s : Store) (r : Result VersionError A) (f : A → Outcome B) {b : B} {s' : Store}
    → on_ok s r f ≡ (ok b, s')
    → (a : A) × (r ≡ ok a) × (f a ≡ (ok b, s'))
on_ok-result s (ok a) f h = (a, refl, h)
on_ok-result s (err e) f h = absurd (ground arith)

-- `MemoryVersionStore::new`; `i64::MAX` bounds the configured limit.
unfoldable pub new : ℕ → Result VersionError Store
new max_commits =
    if nat_beq max_commits 0 || ltb 9223372036854775807 max_commits
    then err
        (VersionError.invalid_config (text "version analysis max_commits must be in 1..=i64::MAX"))
    else ok (record {
      commits = [];
      entry_snapshots = [];
      branches = [];
      tags = [];
      heads = [];
      attached_branches = [];
      max_commits = max_commits;
    })

-- `head(scope)`
abbrev pub head : Store → Text → Option CommitId
head s scope = lookup scope s.heads

-- `set_head(scope, id)`
abbrev pub set_head : Text → CommitId → Store → Store
set_head scope id s = record s { heads = insert scope id s.heads }

abbrev pub option_list {ℓ} : {A : Type ℓ} → Option A → List A
option_list none = []
option_list (some a) = a ∷ []

-- `entry_snapshots.get(id).cloned().unwrap_or_default()`
abbrev pub snapshot_of : Store → CommitId → Snapshot
snapshot_of s id = unwrap_or [] (lookup id s.entry_snapshots)

abbrev pub snapshot_of_opt : Store → Option CommitId → Snapshot
snapshot_of_opt s none = []
snapshot_of_opt s (some id) = snapshot_of s id

-- A new commit and its snapshot.
abbrev pub record_commit : Commit → Snapshot → Store → Store
record_commit c snap s = record s {
  commits = insert c.id c s.commits;
  entry_snapshots = insert c.id snap s.entry_snapshots;
}

abbrev pub parents_of : Commit → List CommitId
parents_of c = c.parents

abbrev pub is_system : CommitTrigger → Bool
is_system auto_consolidation = true
is_system _ = false

abbrev pub system_author : Bool → Author
system_author b = record { agent_id = none; user_id = none; system = b }
