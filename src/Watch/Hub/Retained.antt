-- ===== src/Watch/Hub/Retained.antt =====
-- The history that the hub retains, over calls of `emit`.
use uwu_context_db.Prelude.{
  ℕ, suc, ◌+◌, ◌<◌, ◌≡◌, refl, inl, inr, Bool-cases, Option, List, [], ◌∷◌, ◌++◌, arith, ltb,
  nat_beq_iff, if◌then◌else◌, length, length-append,
}
use uwu_context_db.Uri.Types.{ContextUri}
use uwu_context_db.Watch.Event.{ChangeEvent, ChangeKind, u64_max, wrapping_succ, new_event}
use uwu_context_db.Watch.Hub.{
  WatchHub, new, trim, emit, retain, take_checkpoint, current_checkpoint,
}

-- The events carry the numbers from `n` on.
abbrev pub Numbered : ℕ → List ChangeEvent → Type 0
Numbered n [] = Unit
Numbered n (e ∷ es) = (e.checkpoint ≡ n) × Numbered (suc n) es

abbrev pub lesser : ℕ → ℕ → ℕ
lesser a b = if ltb a b then a else b

pub length-trim : (c : ℕ) (es : List ChangeEvent) → length (trim c es) ≡ lesser c (length es)
unfolding trim
length-trim c [] = ground arith
length-trim c (e ∷ es) = ground (arith, length-trim c es)

trim-Numbered :
    (c n : ℕ) (es : List ChangeEvent)
    → Numbered n es
    → (m : ℕ) × Numbered m (trim c es) × (m + length (trim c es) ≡ n + length es)
unfolding trim
trim-Numbered c n [] h = (n, tt, refl)
trim-Numbered c n (e ∷ es) h = elim (Bool-cases (ltb c (length (e ∷ es)))) [
  | inl over ↦
      let (m, numbered, same) = trim-Numbered c (suc n) es h.1 in
      rw over (m, numbered, omega (arith, same))
  | inr within ↦ rw within (n, h, refl)
]

Numbered-snoc :
    (n : ℕ) (es : List ChangeEvent) (e : ChangeEvent)
    → Numbered n es
    → e.checkpoint ≡ n + length es
    → Numbered n (es ++ e ∷ [])
Numbered-snoc n [] e h last = (omega (arith, last), tt)
Numbered-snoc n (d ∷ es) e h last = (h.0, Numbered-snoc (suc n) es e h.1 (omega (arith, last)))

-- The history of a hub after `count` events.
pub record IsRetained (count : ℕ) (hub : WatchHub) : Type 0 where
  pub counted : hub.next ≡ count + 1
  pub size : length hub.history ≡ lesser hub.history_capacity count
  pub oldest : ℕ
  pub numbered : Numbered oldest hub.history
  pub newest : oldest + length hub.history ≡ count + 1

pub new-IsRetained : (buffer : ℕ) → IsRetained 0 (new buffer)
unfolding new
new-IsRetained buffer = record {
  counted = refl;
  size = ground arith;
  oldest = 1;
  numbered = tt;
  newest = refl;
}

pub retain-IsRetained :
    (count : ℕ) (hub : WatchHub) (e : ChangeEvent)
    → count + 1 < u64_max
    → IsRetained count hub
    → e.checkpoint ≡ hub.next
    → IsRetained (count + 1) (retain e (take_checkpoint hub))
unfolding wrapping_succ
retain-IsRetained count hub e small v numbered =
    let all = hub.history ++ e ∷ [] in
    let (m, kept, same) = trim-Numbered hub.history_capacity v.oldest all (
      Numbered-snoc v.oldest hub.history e v.numbered
        (omega (arith, v.newest, v.counted, numbered))) in
    record {
      counted = ground (arith, small, v.counted, nat_beq_iff hub.next u64_max);
      size =
          ground (
            arith,
            v.size,
            length-trim hub.history_capacity all,
            length-append hub.history (e ∷ []),
          );
      oldest = m;
      numbered = kept;
      newest = omega (arith, same, v.newest, length-append hub.history (e ∷ []));
    }

-- What one call of `emit` is given.
pub record Emission : Type 0 where
  pub now : ℕ
  pub receivers : ℕ
  pub kind : ChangeKind
  pub uri : ContextUri
  pub to_uri : Option ContextUri
  pub version : Option ℕ

unfoldable pub emit_all : List Emission → WatchHub → WatchHub
emit_all [] hub = hub
emit_all (m ∷ ms) hub = emit_all ms (emit m.now m.receivers m.kind m.uri m.to_uri m.version hub).1

emit_all-IsRetained :
    (ms : List Emission) (count n : ℕ) (hub : WatchHub)
    → count + length ms ≡ n
    → n < u64_max
    → IsRetained count hub
    → IsRetained n (emit_all ms hub)
unfolding emit_all emit
emit_all-IsRetained [] count n hub total small v =
    let e : count ≡ n = omega (arith, total) in rw (← e) v
emit_all-IsRetained (m ∷ ms) count n hub total small v =
    let event = new_event m.now hub.next m.kind m.uri m.to_uri m.version in
    emit_all-IsRetained ms (count + 1) n (retain event (take_checkpoint hub)) (omega (arith, total))
      small (retain-IsRetained count hub event (omega (arith, total, small)) v refl)

-- After fewer than 2^64 - 1 calls of `emit`, one after another, the hub retains the latest events, as
-- many as its capacity and at most all of them, numbered without a gap up to the number of calls.
pub emit-IsRetained :
    (buffer : ℕ) (ms : List Emission)
    → length ms < u64_max
    → IsRetained (length ms) (emit_all ms (new buffer))
      × (current_checkpoint (emit_all ms (new buffer)) ≡ length ms)
emit-IsRetained buffer ms small =
    let v =
      emit_all-IsRetained ms 0 (length ms) (new buffer) (omega arith) small
        (new-IsRetained buffer) in
    (v, omega (arith, v.counted))
