-- ===== src/Watch/Hub.antt =====
-- `WatchHub`: `new`, `emit`, `watch` and `current_checkpoint`.
pub mod Retained
pub mod Race
use uwu_context_db.Prelude.{
  ℕ, ◌+◌, ◌-◌, Bool, ◌||◌, Option, is_some, unwrap_or, List, [], ◌∷◌, ◌++◌, ltb, nat_beq,
  if◌then◌else◌, length, filter_by,
}
use uwu_context_db.Uri.Types.{ContextUri}
use uwu_context_db.Watch.Event.{ChangeEvent, ChangeKind, WatchOptions, new_event, wrapping_succ}

-- The next checkpoint, and the retained events, the oldest first.
pub record WatchHub : Type 0 where
  pub next : ℕ
  pub history : List ChangeEvent
  pub history_capacity : ℕ

-- What a watcher starts with: see `Watch.Stream`.
pub record Subscription : Type 0 where
  pub start_backlog : List ChangeEvent
  pub start_checkpoint : ℕ

pub record WatchDelivery : Type 0 where
  pub event : ChangeEvent
  pub live_receivers : ℕ

unfoldable pub delivered_live : WatchDelivery → Bool
delivered_live d = ltb 0 d.live_receivers

-- `buffer.max(1)`
unfoldable pub new : ℕ → WatchHub
new buffer = record {
  next = 1;
  history = [];
  history_capacity = (if nat_beq buffer 0 then 1 else buffer);
}

-- `while history.len() > capacity { history.pop_front(); }`
unfoldable pub trim : ℕ → List ChangeEvent → List ChangeEvent
trim capacity [] = []
trim capacity (e ∷ es) =
    let rest = trim capacity es in if ltb capacity (length (e ∷ es)) then rest else e ∷ es

-- The write to the history.
abbrev pub retain : ChangeEvent → WatchHub → WatchHub
retain event hub = record hub { history = trim hub.history_capacity (hub.history ++ event ∷ []) }

abbrev pub take_checkpoint : WatchHub → WatchHub
take_checkpoint hub = record hub { next = wrapping_succ hub.next }

-- `now` is the clock, `receivers` what the channel answers to the send, 0 for an error.
unfoldable pub emit :
    ℕ
    → ℕ
    → ChangeKind
    → ContextUri
    → Option ContextUri
    → Option ℕ
    → WatchHub
    → WatchDelivery × WatchHub
emit now receivers kind uri to_uri version hub =
    let event = new_event now hub.next kind uri to_uri version in
    (record { event = event; live_receivers = receivers }, retain event (take_checkpoint hub))

-- The history, where the options ask for it, from the checkpoint on.
unfoldable pub watch : WatchOptions → WatchHub → Subscription
watch options hub =
    let from = unwrap_or 0 options.from_checkpoint in
    record {
      start_checkpoint = from;
      start_backlog =
          (if options.include_current || is_some options.from_checkpoint
            then filter_by (λ e. ltb from e.checkpoint) hub.history
            else []);
    }

abbrev pub current_checkpoint : WatchHub → ℕ
current_checkpoint hub = hub.next - 1
