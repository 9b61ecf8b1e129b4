-- ===== src/Version/Model.antt =====
-- crates/context-db-version/src/model.rs and the parameter and result types of its lib.rs.
-- A `CommitId` is the number of its UUID; a `BranchName` or `TagName` is its text.
use uwu_context_db.Prelude.{ℕ, Bool, Option, List, Text}
use uwu_context_db.Uri.Types.{ContextUri}
use uwu_context_db.Content.Types.{ContextEntry}

abbrev pub CommitId : Type 0
CommitId = ℕ

abbrev pub BranchName : Type 0
BranchName = Text

abbrev pub TagName : Type 0
TagName = Text

pub record Author : Type 0 where
  pub agent_id : Option Text
  pub user_id : Option Text
  pub system : Bool

pub data CommitTrigger : Type 0 where
  auto_consolidation : CommitTrigger
  session_commit : ℕ → ℕ → CommitTrigger
  agent_write : Text → Text → CommitTrigger
  fork_promotion : Text → CommitTrigger
  merge : List BranchName → CommitTrigger
  user_explicit : CommitTrigger

pub record UriChange : Type 0 where
  pub uri : ContextUri
  pub old_hash : Option Text
  pub new_hash : Text
  pub diff_summary : Text
  pub entry : ContextEntry

pub record RenameOp : Type 0 where
  pub from : ContextUri
  pub to : ContextUri

pub record ChangeSet : Type 0 where
  pub adds : List ContextEntry
  pub updates : List UriChange
  pub deletes : List ContextUri
  pub renames : List RenameOp

pub data ProvenanceRelation : Type 0 where
  derived_from extracted_from merged_from forked_from triggered_by : ProvenanceRelation

pub record ProvenanceLink : Type 0 where
  pub source_uri : ContextUri
  pub source_commit : CommitId
  pub relation : ProvenanceRelation

pub record CommitMeta : Type 0 where
  pub trigger : CommitTrigger
  pub changes : ChangeSet
  pub provenance : List ProvenanceLink

pub record Commit : Type 0 where
  pub id : CommitId
  pub parents : List CommitId
  pub tree_hash : Text
  pub author : Author
  pub message : Text
  pub timestamp : ℕ
  pub metadata : CommitMeta

pub data BranchType : Type 0 where
  main state_fork experiment collaboration staging : BranchType

pub data BranchLifecycle : Type 0 where
  active : BranchLifecycle
  merged : BranchName → CommitId → BranchLifecycle
  abandoned archived : BranchLifecycle

pub record Branch : Type 0 where
  pub name : BranchName
  pub head : CommitId
  pub created_from : CommitId
  pub created_at : ℕ
  pub branch_type : BranchType
  pub lifecycle : BranchLifecycle

pub data TagType : Type 0 where
  immutable mutable : TagType
  semantic : Text → TagType

pub record Tag : Type 0 where
  pub name : TagName
  pub target : CommitId
  pub tag_type : TagType
  pub message : Text
  pub created_by : Author
  pub created_at : ℕ

pub data VersionRef : Type 0 where
  commit : CommitId → VersionRef
  branch : BranchName → VersionRef
  tag : TagName → VersionRef
  head : VersionRef

pub record TemporalVersion : Type 0 where
  pub commit_id : CommitId
  pub timestamp : ℕ
  pub content_hash : Text
  pub valid_from : ℕ
  pub valid_until : Option ℕ

pub data AsOfTime : Type 0 where
  timestamp : ℕ → AsOfTime
  commit : CommitId → AsOfTime

pub record LogOpts : Type 0 where
  pub max_count : Option ℕ
  pub branch : Option BranchName

pub record TreeDiff : Type 0 where
  pub adds : List ContextUri
  pub updates : List ContextUri
  pub deletes : List ContextUri

pub data MergeStrategy : Type 0 where
  fast_forward three_way ours theirs : MergeStrategy

pub data ConflictStrategy : Type 0 where
  fail ours theirs : ConflictStrategy

pub record MergeResult : Type 0 where
  pub commit : CommitId
  pub conflicts : List ContextUri

pub record SquashResult : Type 0 where
  pub new_commit : CommitId
  pub squashed_count : ℕ

-- `max_age_days` is signed in the source, and no operation of the store reads it.
pub record GcPolicy : Type 0 where
  pub keep_recent : ℕ

pub record GcReport : Type 0 where
  pub removed_commits : ℕ
  pub freed_snapshots : ℕ

pub record ProvenanceGraph : Type 0 where
  pub root_uri : ContextUri
  pub nodes : List ProvenanceLink
  pub depth : ℕ

pub record ImpactAnalysis : Type 0 where
  pub commit : CommitId
  pub downstream_uris : List ContextUri
  pub affected_branches : List BranchName
