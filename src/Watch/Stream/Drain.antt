-- ===== src/Watch/Stream/Drain.antt =====
-- What the search of the backlog in `recv` finds and leaves.
use uwu_context_db.Prelude.{
  ℕ, suc, ◌+◌, ◌≤◌, ◌≡◌, refl, sym, ap, ◌∙◌, inl, inr, false, Bool-cases, Option, none, some, List,
  [], ◌∷◌, arith, leb, length, Text,
}
use uwu_context_db.Watch.Event.{ChangeEvent}
use uwu_context_db.Watch.Stream.{WatchStream, matches, drain}
use uwu_context_db.Watch.Stream.Follows.{Slice, IsNext, Misses, Finds}

module _ (log : ℕ → ChangeEvent) (numbered : (n : ℕ) → (log n).checkpoint ≡ n) where
  pub Misses-one :
      (prefix : Option Text) (last : ℕ)
      → matches prefix (log (suc last)) ≡ false
      → Misses log prefix last (suc last)
  Misses-one prefix last miss n above below =
      let same : n ≡ suc last = omega (arith, above, below) in rw same miss

  pub Finds-later :
      (prefix : Option Text) (last : ℕ) (hit : Option ChangeEvent) (mid at : ℕ)
      → last ≤ mid
      → Misses log prefix last mid
      → Finds log prefix mid hit at
      → Finds log prefix last hit at
  Finds-later prefix last none mid at le gap f = λ n above below. elim (Bool-cases (leb n mid)) [
    | inl early ↦ gap n above (ground arith)
    | inr late ↦ f n (ground arith) below
  ]
  Finds-later prefix last (some e) mid at le gap f = record {
    event = f.event;
    later = omega (arith, f.later, le);
    matching = f.matching;
    none_between = λ n above below. elim (Bool-cases (leb n mid)) [
      | inl early ↦ gap n above (ground arith)
      | inr late ↦ f.none_between n (ground arith) below
    ];
  }

  -- What `drain` finds and leaves.
  pub record IsDrained (prefix : Option Text) (last : ℕ) (es : List ChangeEvent)
      (r : Option ChangeEvent × WatchStream) : Type 0 where
    pub finds : Finds log prefix last r.0 r.1.last_checkpoint
    pub rest : Slice log (suc r.1.last_checkpoint) r.1.backlog
    pub size : r.1.last_checkpoint + length r.1.backlog ≡ last + length es
    pub kept : r.1.prefix ≡ prefix
    pub emptied : r.0 ≡ none → r.1.backlog ≡ []

  pub drain-IsDrained :
      (prefix : Option Text) (last : ℕ) (es : List ChangeEvent)
      → Slice log (suc last) es
      → IsDrained prefix last es (drain prefix last es)
  unfolding drain
  drain-IsDrained prefix last [] h = record {
    finds = λ n above below. absurd (omega (arith, above, below));
    rest = tt;
    size = refl;
    kept = refl;
    emptied = λ e. refl;
  }
  drain-IsDrained prefix last (e ∷ es) h =
      let at : e.checkpoint ≡ suc last = ap (λ d. d.checkpoint) h.0 ∙ numbered (suc last) in
      elim (Bool-cases (matches prefix e)) [
        | inl hit ↦ rw hit (record {
          finds = record {
            event = h.0 ∙ ap log (sym at);
            later = omega (arith, at);
            matching = hit;
            none_between = λ n above below. absurd (omega (arith, above, below, at));
          };
          rest = rw at h.1;
          size = omega (arith, at);
          kept = refl;
          emptied = λ e. absurd (ground arith);
        })
        | inr miss ↦
            let v = drain-IsDrained prefix e.checkpoint es (rw at h.1) in
            rw miss (record {
              finds =
                  Finds-later prefix last (drain prefix e.checkpoint es).0 e.checkpoint _
                    (omega (arith, at)) (rw at (Misses-one prefix last (rw (← h.0) miss))) v.finds;
              rest = v.rest;
              size = omega (arith, v.size, at);
              kept = v.kept;
              emptied = v.emptied;
            })
      ]

  pub Finds-some :
      (prefix : Option Text) (last : ℕ) (hit : Option ChangeEvent) (e : ChangeEvent) (at : ℕ)
      → hit ≡ some e
      → Finds log prefix last hit at
      → IsNext log prefix last e at
  Finds-some prefix last none e at q f = absurd (ground (arith, q))
  Finds-some prefix last (some d) e at q f = let same : d ≡ e = ground (arith, q) in rw (← same) f

  pub Finds-none :
      (prefix : Option Text) (last : ℕ) (hit : Option ChangeEvent) (at : ℕ)
      → hit ≡ none
      → Finds log prefix last hit at
      → Misses log prefix last at
  Finds-none prefix last none at q f = f
  Finds-none prefix last (some d) at q f = absurd (ground (arith, q))
