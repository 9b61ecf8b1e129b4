-- ===== src/Watch/Hub/Race.antt =====
-- `emit` on several threads: the number, the history and the channel are three separate steps.
use uwu_context_db.Prelude.{
  ℕ, ◌+◌, ◌≤◌, ◌<◌, ◌≡◌, refl, ◌&&◌, Option, List, [], ◌∷◌, ◌++◌, arith, ltb, nat_beq, nat_beq_iff,
  if◌then◌else◌, length,
}
use uwu_context_db.Uri.Types.{ContextUri}
use uwu_context_db.Watch.Event.{ChangeEvent, ChangeKind, u64_max, wrapping_succ, new_event}
use uwu_context_db.Watch.Hub.{WatchHub, new, retain, take_checkpoint}
use uwu_context_db.Watch.Hub.Retained.{length-trim}

-- A call of `emit` that has its number, and one that has also written the history.
pub data Call : Type 0 where
  taken stored : ChangeEvent → Call

abbrev pub event_of : Call → ChangeEvent
event_of (taken e) = e
event_of (stored e) = e

-- The hub, the calls under way, and the events that are sent, the first one first.
pub record Emitters : Type 0 where
  pub hub : WatchHub
  pub calls : List Call
  pub sent : List ChangeEvent

-- One step of one call.
pub data Step : Emitters → Emitters → Type 0 where
  takes :
      {s : Emitters} (now : ℕ) (kind : ChangeKind) (uri : ContextUri) (to_uri : Option ContextUri)
      (version : Option ℕ)
      → Step s (record {
        hub = take_checkpoint s.hub;
        calls = taken (new_event now s.hub.next kind uri to_uri version) ∷ s.calls;
        sent = s.sent;
      })
  stores :
      (hub : WatchHub) (sent : List ChangeEvent) (before after : List Call) (e : ChangeEvent)
      → Step
          (record { hub = hub; calls = before ++ taken e ∷ after; sent = sent })
          (record { hub = retain e hub; calls = before ++ stored e ∷ after; sent = sent })
  sends :
      (hub : WatchHub) (sent : List ChangeEvent) (before after : List Call) (e : ChangeEvent)
      → Step
          (record { hub = hub; calls = before ++ stored e ∷ after; sent = sent })
          (record { hub = hub; calls = before ++ after; sent = sent ++ e ∷ [] })

-- What the steps lead to from a new hub, while fewer than 2^64 - 1 numbers are given out.
pub data Reach (buffer : ℕ) : Emitters → Type 0 where
  begins : Reach buffer (record { hub = new buffer; calls = []; sent = [] })
  goes_on : {s t : Emitters} → Reach buffer s → s.hub.next < u64_max → Step s t → Reach buffer t

-- How often an event with the number `n` occurs.
abbrev pub occurs : ℕ → List ChangeEvent → ℕ
occurs n [] = 0
occurs n (e ∷ es) = (if nat_beq e.checkpoint n then 1 else 0) + occurs n es

abbrev pub under_way : ℕ → List Call → ℕ
under_way n [] = 0
under_way n (c ∷ cs) = (if nat_beq (event_of c).checkpoint n then 1 else 0) + under_way n cs

occurs-append : (n : ℕ) (es ds : List ChangeEvent) → occurs n (es ++ ds) ≡ occurs n es + occurs n ds
occurs-append n [] ds = omega arith
occurs-append n (e ∷ es) ds = omega (arith, occurs-append n es ds)

under_way-append :
    (n : ℕ) (cs ds : List Call) → under_way n (cs ++ ds) ≡ under_way n cs + under_way n ds
under_way-append n [] ds = omega arith
under_way-append n (c ∷ cs) ds = omega (arith, under_way-append n cs ds)

-- Every number that is given out belongs to one event, sent or under way, and no other number to any.
pub record IsNumbering (buffer : ℕ) (s : Emitters) : Type 0 where
  pub once :
      (n : ℕ)
      → occurs n s.sent + under_way n s.calls ≡ (if ltb 0 n && ltb n s.hub.next then 1 else 0)
  pub kept : s.hub.history_capacity ≡ (new buffer).history_capacity
  pub bounded : length s.hub.history ≤ s.hub.history_capacity
  pub positive : 0 < s.hub.next

Step-IsNumbering :
    (buffer : ℕ) {s t : Emitters}
    → s.hub.next < u64_max
    → IsNumbering buffer s
    → Step s t
    → IsNumbering buffer t
unfolding wrapping_succ new
Step-IsNumbering buffer small v (takes {s = s} now kind uri to_uri version) = record {
  once = λ n. ground (
    arith,
    v.once n,
    v.positive,
    small,
    nat_beq_iff s.hub.next u64_max,
    nat_beq_iff s.hub.next n,
  );
  kept = v.kept;
  bounded = v.bounded;
  positive = ground (arith, v.positive, small, nat_beq_iff s.hub.next u64_max);
}
Step-IsNumbering buffer small v (stores hub sent before after e) = record {
  once = λ n. omega (
    arith,
    v.once n,
    under_way-append n before (taken e ∷ after),
    under_way-append n before (stored e ∷ after),
  );
  kept = v.kept;
  bounded = ground (arith, length-trim hub.history_capacity (hub.history ++ e ∷ []));
  positive = v.positive;
}
Step-IsNumbering buffer small v (sends hub sent before after e) = record {
  once = λ n. omega (
    arith,
    v.once n,
    under_way-append n before (stored e ∷ after),
    under_way-append n before after,
    occurs-append n sent (e ∷ []),
  );
  kept = v.kept;
  bounded = v.bounded;
  positive = v.positive;
}

-- While the numbers have not come to 2^64 - 1, so that they have not wrapped, and however the steps of
-- the calls interleave, every number given out belongs to exactly one event, sent or under way, no
-- other number to any, and the history stays within its capacity.
pub Reach-IsNumbering : (buffer : ℕ) (s : Emitters) → Reach buffer s → IsNumbering buffer s
unfolding new
Reach-IsNumbering buffer s begins = record {
  once = λ n. ground arith;
  kept = refl;
  bounded = ground arith;
  positive = omega arith;
}
Reach-IsNumbering buffer t (goes_on {s = s} before small step) =
    Step-IsNumbering buffer small (Reach-IsNumbering buffer s before) step
