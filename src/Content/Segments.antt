-- ===== src/Content/Segments.antt =====
-- The path segments of content types.
use uwu_context_db.Prelude.{
  list_beq, ◌≡◌, ◌↔◌, refl, ap, ◌∙◌, sym, some, Text, text_iff, text, arith, nat_eq, list_eq,
}
use uwu_context_db.Content.Kinds.{ContentType, as_path_segment, from_path_segment}

from-as_path_segment : (t : ContentType) → from_path_segment (as_path_segment t) ≡ some t
unfolding from_path_segment as_path_segment text list_beq
from-as_path_segment ContentType.fact = refl
from-as_path_segment ContentType.belief = refl
from-as_path_segment ContentType.hypothesis = refl
from-as_path_segment ContentType.heuristic = refl
from-as_path_segment ContentType.procedure = refl
from-as_path_segment ContentType.preference = refl
from-as_path_segment ContentType.profile = refl
from-as_path_segment ContentType.goal = refl
from-as_path_segment ContentType.skill = refl
from-as_path_segment ContentType.reflection = refl
from-as_path_segment ContentType.evidence = refl
from-as_path_segment ContentType.error = refl
from-as_path_segment ContentType.meta = refl

as-from_path_segment :
    (s : Text) (t : ContentType) → from_path_segment s ≡ some t → as_path_segment t ≡ s
unfolding from_path_segment as_path_segment
as-from_path_segment s t h = ground (
  arith,
  text_iff s (text "fact"),
  text_iff s (text "belief"),
  text_iff s (text "hypothesis"),
  text_iff s (text "heuristic"),
  text_iff s (text "procedure"),
  text_iff s (text "preference"),
  text_iff s (text "profile"),
  text_iff s (text "goal"),
  text_iff s (text "skill"),
  text_iff s (text "reflection"),
  text_iff s (text "evidence"),
  text_iff s (text "error"),
  text_iff s (text "meta"),
)

-- A segment reads as a content type exactly when it is the segment of that type.
pub from_path_segment_iff :
    (s : Text) (t : ContentType) → (from_path_segment s ≡ some t) ↔ (as_path_segment t ≡ s)
from_path_segment_iff s t =
    (as-from_path_segment s t, λ e. ap from_path_segment (sym e) ∙ from-as_path_segment t)
