-- ===== src/Watch/Stream.antt =====
-- `WatchStream`: `recv`, `recover_lag` and `matches`.
pub mod Follows
pub mod Drain
pub mod Lag
pub mod Answers
use uwu_context_db.Prelude.{
  ℕ, ◌+◌, Bool, true, false, ◌||◌, Option, none, some, List, [], ◌∷◌, ◌++◌, leb, ltb, if◌then◌else◌,
  filter_by, Result, ok, err, Text, text, starts_with,
}
use uwu_context_db.Error.{ContextError}
use uwu_context_db.Uri.Ops.{as_str, show_usize}
use uwu_context_db.Watch.Event.{ChangeEvent, WatchOptions, saturating_succ}
use uwu_context_db.Watch.Hub.{WatchHub, watch}

pub record WatchStream : Type 0 where
  pub backlog : List ChangeEvent
  pub last_checkpoint : ℕ
  pub prefix : Option Text

-- What the receiver of the channel answers; with a lag, the history that the stream then reads.
pub data Reply : Type 0 where
  received : ChangeEvent → Reply
  lagged : ℕ → List ChangeEvent → Reply
  closed : Reply

-- `recv` delivers an event, fails, or waits for the channel; it leaves the answers not yet read.
pub data Received : Type 0 where
  delivered : ChangeEvent → WatchStream → List Reply → Received
  failed : ContextError → WatchStream → List Reply → Received
  waiting : WatchStream → Received

unfoldable pub matches : Option Text → ChangeEvent → Bool
matches none event = true
matches (some prefix) event =
    starts_with prefix (as_str event.uri)
    || (elim event.to_uri [ none ↦ false | some uri ↦ starts_with prefix (as_str uri) ])

-- `recover_lag`
unfoldable pub recover_lag : ℕ → List ChangeEvent → WatchStream → Result ContextError WatchStream
recover_lag skipped [] s = err (
    ContextError.storage (
      text "watch stream lagged by "
      ++ (show_usize skipped ++ text " events and retained history is empty")))
recover_lag skipped (oldest ∷ rest) s =
    let expected = saturating_succ s.last_checkpoint in
    if ltb expected oldest.checkpoint
    then err (
        ContextError.storage (
          text "watch checkpoint "
          ++ (show_usize expected
              ++ (text " is outside retained history starting at "
                  ++ show_usize oldest.checkpoint))))
    else ok (record s {
      backlog = s.backlog ++ filter_by (λ e. leb expected e.checkpoint) (oldest ∷ rest);
    })

-- The backlog, up to the first event that matches.
unfoldable pub drain : Option Text → ℕ → List ChangeEvent → Option ChangeEvent × WatchStream
unfolding matches
drain prefix last [] = (none, record { backlog = []; last_checkpoint = last; prefix = prefix })
drain prefix last (e ∷ es) =
    let rest = drain prefix e.checkpoint es in
    if matches prefix e
    then (some e, record { backlog = es; last_checkpoint = e.checkpoint; prefix = prefix })
    else rest

-- The loop of `recv`, over the answers of the channel.
unfoldable pub recv : List Reply → WatchStream → Received
unfolding drain recover_lag matches
recv [] s =
    let (hit, t) = drain s.prefix s.last_checkpoint s.backlog in
    elim hit [ some e ↦ delivered e t [] | none ↦ waiting t ]
recv (r ∷ rs) s =
    let (hit, t) = drain s.prefix s.last_checkpoint s.backlog in
    elim hit [
      | some e ↦ delivered e t (r ∷ rs)
      | none ↦ elim r [
        | received e ↦ elim (leb e.checkpoint t.last_checkpoint) [
          | true ↦ recv rs t
          | false ↦ elim (matches t.prefix e) [
            | true ↦ delivered e (record t { last_checkpoint = e.checkpoint }) rs
            | false ↦ recv rs (record t { last_checkpoint = e.checkpoint })
          ]
        ]
        | lagged skipped history ↦ elim (recover_lag skipped history t) [
          | err e ↦ failed e t rs
          | ok u ↦ recv rs u
        ]
        | closed ↦ failed (ContextError.storage (text "watch stream closed")) t rs
      ]
    ]

-- The stream that `watch` opens.
unfoldable pub open_stream : WatchOptions → WatchHub → WatchStream
unfolding watch
open_stream options hub = record {
  backlog = (watch options hub).start_backlog;
  last_checkpoint = (watch options hub).start_checkpoint;
  prefix = options.prefix;
}
