-- ===== src/Examples/Fixture.antt =====
-- A small store: a root commit 1, on it 2 and 3, and 4 on 2; the branches `main` at 4 and `side` at 3.
use uwu_context_db.Prelude.{ℕ, false, none, some, List, [], ◌∷◌, text, Map}
use uwu_context_db.Uri.Types.{ContextUri}
use uwu_context_db.Content.Types.{ContextEntry, ContentPayload, MediaType}
use uwu_context_db.Version.Model.{
  CommitId, Commit, CommitMeta, ChangeSet, Branch, BranchName, BranchType, active, user_explicit,
}
use uwu_context_db.Store.State.{Store, External, Snapshot}

abbrev pub scope : ContextUri
scope = record {
  tenant = text "acme";
  path = text "acme" ∷ text "kb" ∷ [];
  query = none;
  canonical = text "uwu://acme/kb";
}

abbrev pub page : ContextUri
page = record {
  tenant = text "acme";
  path = text "acme" ∷ text "kb" ∷ text "page" ∷ [];
  query = none;
  canonical = text "uwu://acme/kb/page";
}

abbrev pub entry : ContextEntry
entry = record {
  uri = page;
  tenant = 7;
  payload = ContentPayload.text (text "short") (text "longer") (text "the page");
  media_type = MediaType.text;
  metadata = record {
    content_type = none;
    state_scope = none;
    tags = [];
    epistemic_type = none;
    quality_score = none;
    validity = none;
    consolidation = none;
    custom = [];
  };
  mvcc_version = 1;
  created_at = 0;
  updated_at = 0;
  derivation = none;
}

-- Libraries that print every entry as `{}` and read that as the entry above.
abbrev pub ext : External
ext = record {
  to_json = λ e. some (text "{}");
  from_json = λ t. some entry;
  show_id = λ id. id ∷ [];
  debug_trigger = λ t. text "trigger";
  time = record { parse_time = λ t. none; show_time = λ t. t ∷ [] };
}

abbrev pub no_changes : ChangeSet
no_changes = record { adds = []; updates = []; deletes = []; renames = [] }

abbrev pub adds_entry : ChangeSet
adds_entry = record { adds = entry ∷ []; updates = []; deletes = []; renames = [] }

abbrev pub by_user : CommitMeta
by_user = record { trigger = user_explicit; changes = no_changes; provenance = [] }

abbrev pub stored : CommitId → ℕ → List CommitId → Commit
stored id at parents = record {
  id = id;
  parents = parents;
  tree_hash = text "tree";
  author = record { agent_id = none; user_id = none; system = false };
  message = text "message";
  timestamp = at;
  metadata = by_user;
}

abbrev pub commits : Map CommitId Commit
commits =
    (4, stored 4 40 (2 ∷ []))
    ∷ (3, stored 3 30 (1 ∷ []))
    ∷ (2, stored 2 20 (1 ∷ []))
    ∷ (1, stored 1 10 [])
    ∷ []

abbrev pub base_page : Snapshot
base_page = (text "uwu://acme/kb/page", text "one") ∷ []

abbrev pub main_page : Snapshot
main_page = (text "uwu://acme/kb/page", text "two") ∷ []

abbrev pub side_page : Snapshot
side_page = (text "uwu://acme/kb/page", text "three") ∷ []

abbrev pub branch : BranchName → CommitId → Branch
branch name head = record {
  name = name;
  head = head;
  created_from = 1;
  created_at = 0;
  branch_type = BranchType.main;
  lifecycle = active;
}

-- `main` is checked out.
abbrev pub store : Store
store = record {
  commits = commits;
  entry_snapshots = (4, main_page) ∷ (3, side_page) ∷ (2, base_page) ∷ (1, base_page) ∷ [];
  branches =
      ((text "uwu://acme/kb", text "main"), branch (text "main") 4)
      ∷ ((text "uwu://acme/kb", text "side"), branch (text "side") 3)
      ∷ [];
  tags = [];
  heads = (text "uwu://acme/kb", 4) ∷ [];
  attached_branches = (text "uwu://acme/kb", text "main") ∷ [];
  max_commits = 10;
}

abbrev pub empty : Store
empty = record {
  commits = [];
  entry_snapshots = [];
  branches = [];
  tags = [];
  heads = [];
  attached_branches = [];
  max_commits = 10;
}
