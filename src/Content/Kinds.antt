-- ===== src/Content/Kinds.antt =====
-- `ContentType`, `EpistemicType` and `StateScope` of model.rs, and the path segments of the types.
use uwu_context_db.Prelude.{
  Bool, true, false, Option, none, some, ◌==◌, nat_eq, list_eq, if◌then◌else◌, Text, text,
}

pub data ContentType : Type 0 where
  fact belief hypothesis heuristic procedure preference profile goal : ContentType
  skill reflection evidence error meta : ContentType

pub data EpistemicType : Type 0 where
  fact belief hypothesis heuristic procedure : EpistemicType

pub data StateScope : Type 0 where
  short mid long : StateScope

unfoldable pub as_path_segment : ContentType → Text
unfolding text
as_path_segment ContentType.fact = text "fact"
as_path_segment ContentType.belief = text "belief"
as_path_segment ContentType.hypothesis = text "hypothesis"
as_path_segment ContentType.heuristic = text "heuristic"
as_path_segment ContentType.procedure = text "procedure"
as_path_segment ContentType.preference = text "preference"
as_path_segment ContentType.profile = text "profile"
as_path_segment ContentType.goal = text "goal"
as_path_segment ContentType.skill = text "skill"
as_path_segment ContentType.reflection = text "reflection"
as_path_segment ContentType.evidence = text "evidence"
as_path_segment ContentType.error = text "error"
as_path_segment ContentType.meta = text "meta"

unfoldable pub from_path_segment : Text → Option ContentType
unfolding text
from_path_segment s =
    if s == text "fact"
    then some ContentType.fact
    else if s == text "belief"
    then some ContentType.belief
    else if s == text "hypothesis"
    then some ContentType.hypothesis
    else if s == text "heuristic"
    then some ContentType.heuristic
    else if s == text "procedure"
    then some ContentType.procedure
    else if s == text "preference"
    then some ContentType.preference
    else if s == text "profile"
    then some ContentType.profile
    else if s == text "goal"
    then some ContentType.goal
    else if s == text "skill"
    then some ContentType.skill
    else if s == text "reflection"
    then some ContentType.reflection
    else if s == text "evidence"
    then some ContentType.evidence
    else if s == text "error"
    then some ContentType.error
    else if s == text "meta"
    then some ContentType.meta
    else none

unfoldable pub mergeable : ContentType → Bool
mergeable ContentType.fact = true
mergeable ContentType.belief = true
mergeable ContentType.preference = true
mergeable ContentType.profile = true
mergeable ContentType.skill = true
mergeable ContentType.procedure = true
mergeable ContentType.heuristic = true
mergeable _ = false
