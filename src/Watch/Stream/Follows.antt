-- ===== src/Watch/Stream/Follows.antt =====
-- What it means for a stream to follow the log of events, and what `recv` may then answer.
use uwu_context_db.Prelude.{
  ℕ, suc, ◌+◌, ◌≤◌, ◌<◌, ◌≡◌, true, false, Option, none, some, List, [], ◌∷◌, length, Text,
}
use uwu_context_db.Watch.Event.{ChangeEvent, u64_max}
use uwu_context_db.Watch.Stream.{
  WatchStream, Reply, received, lagged, closed, Received, delivered, failed, waiting, matches,
}

-- `log n` is the event that was emitted with the checkpoint `n`.
module _ (log : ℕ → ChangeEvent) where
  -- The events of the log from `n` on.
  abbrev pub Slice : ℕ → List ChangeEvent → Type 0
  Slice n [] = Unit
  Slice n (e ∷ es) = (e ≡ log n) × Slice (suc n) es

  -- What the channel answers to a receiver that has been sent the first `k` events: the next event,
  -- or a lag over the next `n` events, all of which are in the history by then.
  pub data IsFeed : ℕ → List Reply → Type 0 where
    none_yet : {k : ℕ} → IsFeed k []
    next_event :
        {k : ℕ} {e : ChangeEvent} {rs : List Reply}
        → e ≡ log (suc k)
        → IsFeed (suc k) rs
        → IsFeed k (received e ∷ rs)
    skips :
        {k n : ℕ} {history : List ChangeEvent} {rs : List Reply} (oldest : ℕ)
        → Slice oldest history
        → k + n < oldest + length history
        → oldest + length history ≤ u64_max
        → IsFeed (k + n) rs
        → IsFeed k (lagged n history ∷ rs)
    ends : {k : ℕ} {rs : List Reply} → IsFeed k (closed ∷ rs)

  -- The stream has all events up to its checkpoint behind it, its backlog continues from there, and
  -- the channel goes on inside the backlog or right after it.
  pub record IsFollowing (s : WatchStream) (rs : List Reply) : Type 0 where
    pub sent : ℕ
    pub feed : IsFeed sent rs
    pub pending : Slice (suc s.last_checkpoint) s.backlog
    pub no_gap : sent ≤ s.last_checkpoint + length s.backlog

  -- The first event after `last` that matches.
  pub record IsNext (prefix : Option Text) (last : ℕ) (e : ChangeEvent) (at : ℕ) : Type 0 where
    pub event : e ≡ log at
    pub later : last < at
    pub matching : matches prefix e ≡ true
    pub none_between : (n : ℕ) → last < n → n < at → matches prefix (log n) ≡ false

  -- No event after `last` and up to `at` matches.
  abbrev pub Misses : Option Text → ℕ → ℕ → Type 0
  Misses prefix last at = (n : ℕ) → last < n → n ≤ at → matches prefix (log n) ≡ false

  -- What a search from `last` to `at` has found.
  abbrev pub Finds : Option Text → ℕ → Option ChangeEvent → ℕ → Type 0
  Finds prefix last none at = Misses prefix last at
  Finds prefix last (some e) at = IsNext prefix last e at

  -- What `recv` may answer to a stream whose matching events up to `last` are delivered.
  abbrev pub IsAnswer : Option Text → ℕ → Received → Type 0
  IsAnswer prefix last (delivered e t rs) =
      IsNext prefix last e t.last_checkpoint × (t.prefix ≡ prefix) × IsFollowing t rs
  IsAnswer prefix last (failed e t rs) = Misses prefix last t.last_checkpoint
  IsAnswer prefix last (waiting t) = Misses prefix last t.last_checkpoint × (t.backlog ≡ [])
