-- ===== src/Watch/Event.antt =====
-- `ChangeEvent` and its parts, and arithmetic on 64-bit checkpoints.
use Prim.Native.Nat.{◌^◌}
use uwu_context_db.Prelude.{
  ℕ, ◌+◌, ◌-◌, Bool, Option, none, some, List, [], ◌∷◌, ◌==◌, nat_eq, list_eq, nat_beq,
  if◌then◌else◌, Text, text,
}
use uwu_context_db.Uri.Types.{ContextUri}
use uwu_context_db.Uri.Ops.{as_str, segments}

abbrev pub u64_max : ℕ
u64_max = 2 ^ 64 - 1

-- `fetch_add(1)`, which wraps.
unfoldable pub wrapping_succ : ℕ → ℕ
wrapping_succ n = if nat_beq n u64_max then 0 else n + 1

-- `saturating_add(1)`
unfoldable pub saturating_succ : ℕ → ℕ
saturating_succ n = if nat_beq n u64_max then n else n + 1

pub data ChangeKind : Type 0 where
  write delete rename : ChangeKind

pub record ChangeEvent : Type 0 where
  pub checkpoint : ℕ
  pub kind : ChangeKind
  pub uri : ContextUri
  pub to_uri : Option ContextUri
  pub version : Option ℕ
  pub tenant : Text
  pub agent : Option Text
  pub path : Text
  pub occurred_at : ℕ

pub record WatchOptions : Type 0 where
  pub prefix : Option Text
  pub from_checkpoint : Option ℕ
  pub include_current : Bool

-- `pair[0] == "agent"` over `windows(2)`
unfoldable pub agent_after : List Text → Option Text
agent_after [] = none
agent_after (a ∷ []) = none
agent_after (a ∷ b ∷ rest) = if a == text "agent" then some b else agent_after (b ∷ rest)

abbrev pub agent_segment : ContextUri → Option Text
agent_segment uri = agent_after (segments uri)

-- `ChangeEvent::new`, with the clock as `now`.
abbrev pub new_event : ℕ → ℕ → ChangeKind → ContextUri → Option ContextUri → Option ℕ → ChangeEvent
new_event now checkpoint kind uri to_uri version = record {
  checkpoint = checkpoint;
  kind = kind;
  uri = uri;
  to_uri = to_uri;
  version = version;
  tenant = uri.tenant;
  agent = agent_segment uri;
  path = as_str uri;
  occurred_at = now;
}
