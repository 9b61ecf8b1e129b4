-- ===== src/Examples/Watching.antt =====
-- Runs of the watch hub, of its streams and of a watched store.
use uwu_context_db.Prelude.{
  ℕ, suc, ◌≡◌, arith, none, some, false, List, [], ◌∷◌, nat_beq, if◌then◌else◌, ok, err, text,
}
use uwu_context_db.Error.{ContextError}
use uwu_context_db.Examples.Fixture.{scope, page, entry}
use uwu_context_db.Watch.Event.{ChangeEvent, ChangeKind, WatchOptions, new_event, wrapping_succ}
use uwu_context_db.Watch.Hub.{WatchHub, new, trim, retain, current_checkpoint}
use uwu_context_db.Watch.Hub.Retained.{Emission, IsRetained, emit_all, emit-IsRetained}
use uwu_context_db.Watch.Hub.Race.{
  Emitters, taken, takes, stores, sends, Reach, begins, goes_on, IsNumbering, Reach-IsNumbering,
}
use uwu_context_db.Watch.Stream.{WatchStream, Reply, received, lagged}
use uwu_context_db.Watch.Watched.{ContentRepo, WatchableStore, default_batch_write}
use uwu_context_db.Watch.Watched.Announces.{
  Request, writes, deletes, renames, batches, plain_run, watched_run, announced,
  watched_run-plain_run,
}

-- The second event is about another address.
abbrev log : ℕ → ChangeEvent
log n = new_event n n ChangeKind.write (if nat_beq n 2 then scope else page) none (some n)

abbrev under_page : WatchStream
under_page = record {
  backlog = log 2 ∷ [];
  last_checkpoint = 1;
  prefix = some (text "uwu://acme/notes");
}

abbrev lagging : List Reply
lagging = received (log 2) ∷ lagged 1 (log 3 ∷ log 4 ∷ []) ∷ []

abbrev from_one : WatchOptions
from_one = record { prefix = none; from_checkpoint = some 1; include_current = false }

abbrev hub : WatchHub
hub = record { next = 4; history = log 2 ∷ log 3 ∷ []; history_capacity = 2 }

abbrev write_page : ℕ → Emission
write_page n = record {
  now = n;
  receivers = 1;
  kind = ChangeKind.write;
  uri = page;
  to_uri = none;
  version = some n;
}

abbrev three_writes : List Emission
three_writes = write_page 1 ∷ write_page 2 ∷ write_page 3 ∷ []

emit-IsRetained_example :
    IsRetained 3 (emit_all three_writes (new 2))
    × (current_checkpoint (emit_all three_writes (new 2)) ≡ 3)
emit-IsRetained_example = emit-IsRetained 2 three_writes (omega arith)

-- Two calls under way, the second of which is the first to send.
abbrev one : ChangeEvent
one = new_event 0 1 ChangeKind.write page none (some 1)

abbrev two : ChangeEvent
two = new_event 0 2 ChangeKind.delete page none none

abbrev overtaken : Emitters
overtaken = record {
  hub = record { next = 3; history = two ∷ []; history_capacity = 5 };
  calls = taken one ∷ [];
  sent = two ∷ [];
}

overtaken-Reach : Reach 5 overtaken
unfolding new wrapping_succ trim
overtaken-Reach =
    let first = goes_on begins (omega arith) (takes 0 ChangeKind.write page none (some 1)) in
    let both = goes_on first (omega arith) (takes 0 ChangeKind.delete page none none) in
    let hub : WatchHub = record { next = 3; history = []; history_capacity = 5 } in
    let written = goes_on both (omega arith) (stores hub [] [] (taken one ∷ []) two) in
    goes_on written (omega arith) (sends (retain two hub) [] [] (taken one ∷ []) two)

Reach-IsNumbering_example : IsNumbering 5 overtaken
Reach-IsNumbering_example = Reach-IsNumbering 5 overtaken overtaken-Reach

-- A store that counts its writes and refuses to delete.
abbrev counter : ContentRepo ℕ
counter = record {
  write = λ e n. (ok (suc n), suc n);
  delete = λ u n. (err (ContextError.not_found (text "page")), n);
  rename = λ a b n. (ok tt, n);
  batch_write = default_batch_write (λ e n. (ok (suc n), suc n));
}

abbrev requests : List Request
requests = writes entry ∷ deletes page ∷ batches (entry ∷ entry ∷ []) ∷ renames page scope ∷ []

abbrev fresh : WatchableStore ℕ
fresh = record { inner = 0; hub = new 2 }

watched_run-plain_run_example : watched_run (λ n. n) (λ n. 1) counter requests fresh ≡ (
  (plain_run counter requests 0).0.0,
  announced
      (λ n. n)
      (λ n. 1)
      counter
      (plain_run counter requests 0).1
      (new 2)
      (plain_run counter requests 0).0.1,
)
watched_run-plain_run_example = watched_run-plain_run (λ n. n) (λ n. 1) counter requests fresh
