-- ===== src/Content/Types.antt =====
-- The stored entry of model.rs: its layered payload, metadata and derivation.
use uwu_context_db.Prelude.{ℕ, Option, none, some, List, Text, text as literal}
use uwu_context_db.Uri.Types.{ContextUri}
use uwu_context_db.Content.Kinds.{ContentType, EpistemicType, StateScope}

pub data MediaType : Type 0 where
  text image audio video binary : MediaType

pub record BlobRef : Type 0 where
  pub hash : Text
  pub size : ℕ
  pub mime_type : Text

pub record SchemaRef : Type 0 where
  pub format : Text
  pub blob : Option BlobRef

-- An embedding of crates/context-db-core/src/multimodal.rs: its space, by name, and its floats.
pub record EncodedEmbedding : Type 0 where
  pub space : Text
  pub values : List ℕ

-- The parts of a composite are a list in the block.
mutual
  pub data ContentPayload : Type 0 where
    text : Text → Text → Text → ContentPayload
    image : List ℕ → EncodedEmbedding → BlobRef → ContentPayload
    audio : Text → EncodedEmbedding → BlobRef → ContentPayload
    structured : Text → Option SchemaRef → Text → ContentPayload
    composite : Text → Parts → ContentPayload

  pub data ContentPart : Type 0 where
    text_part : ContentPayload → ContentPart
    image_part : ContentPayload → ContentPart
    audio_part : ContentPayload → ContentPart
    reference : ContextUri → ContentPart

  pub data Parts : Type 0 where
    end : Parts
    part : ContentPart → Parts → Parts

-- `sparse_text()`
unfoldable pub sparse_text : ContentPayload → Text
sparse_text (ContentPayload.text sparse dense full) = sparse
sparse_text (ContentPayload.image thumbnail features raw) = literal "[image]"
sparse_text (ContentPayload.audio transcript embedding raw) = transcript
sparse_text (ContentPayload.structured summary schema body) = summary
sparse_text (ContentPayload.composite summary parts) = summary

pub record ValidityRecord : Type 0 where
  pub valid_from : ℕ
  pub valid_until : Option ℕ
  pub invalidated_by : Option ContextUri
  pub invalidation_reason : Option Text

pub data HalfLife : Type 0 where
  infinite : HalfLife
  finite : ℕ → HalfLife

pub data ConsolidationStatus : Type 0 where
  pending in_progress converged stale : ConsolidationStatus

pub record LineageEntry : Type 0 where
  pub version : ℕ
  pub timestamp : ℕ
  pub change_summary : Text

pub record ConsolidationMeta : Type 0 where
  pub source : Text
  pub generation : ℕ
  pub status : ConsolidationStatus
  pub patch_count : ℕ
  pub lineage : List LineageEntry
  pub evidence_uris : List ContextUri
  pub corroboration : ℕ
  pub half_life : Option HalfLife
  pub entangled_with : List ContextUri

pub data DerivationRule : Type 0 where
  llm : Text → Text → DerivationRule
  extractive : Text → DerivationRule
  manual : DerivationRule

pub record DerivationChain : Type 0 where
  pub full_source : Text
  pub dense_rule : DerivationRule
  pub sparse_rule : DerivationRule
  pub last_recomputed : ℕ

pub record ContextMeta : Type 0 where
  pub content_type : Option ContentType
  pub state_scope : Option StateScope
  pub tags : List Text
  pub epistemic_type : Option EpistemicType
  pub quality_score : Option ℕ
  pub validity : Option ValidityRecord
  pub consolidation : Option ConsolidationMeta
  pub custom : Text

pub record ContextEntry : Type 0 where
  pub uri : ContextUri
  pub tenant : ℕ
  pub payload : ContentPayload
  pub media_type : MediaType
  pub metadata : ContextMeta
  pub mvcc_version : ℕ
  pub created_at : ℕ
  pub updated_at : ℕ
  pub derivation : Option DerivationChain

-- `l0_text()`
abbrev pub l0_text : ContextEntry → Text
l0_text e = sparse_text e.payload

-- The type that `ContextMeta::epistemic_type()` reads off the content type.
abbrev inferred : ContentType → Option EpistemicType
inferred ContentType.fact = some EpistemicType.fact
inferred ContentType.belief = some EpistemicType.belief
inferred ContentType.hypothesis = some EpistemicType.hypothesis
inferred ContentType.heuristic = some EpistemicType.heuristic
inferred ContentType.procedure = some EpistemicType.procedure
inferred _ = none

unfoldable pub epistemic_type : ContextMeta → Option EpistemicType
epistemic_type m = elim m.epistemic_type [
  | some t ↦ some t
  | none ↦ elim m.content_type [ none ↦ none | some c ↦ inferred c ]
]
