-- ===== src/Watch/Stream/Lag.antt =====
-- The backlog that `recover_lag` reads after a lag.
use uwu_context_db.Prelude.{
  ℕ, suc, ◌+◌, ◌≤◌, ◌<◌, ◌≡◌, refl, ap, ◌∙◌, inl, inr, true, false, Bool-cases, List, [], ◌∷◌, ◌++◌,
  arith, leb, ltb, nat_beq, nat_beq_iff, length, filter_by, ok,
}
use uwu_context_db.Watch.Event.{ChangeEvent, u64_max, saturating_succ}
use uwu_context_db.Watch.Stream.{WatchStream, recover_lag}
use uwu_context_db.Watch.Stream.Follows.{Slice}

module _ (log : ℕ → ChangeEvent) (numbered : (n : ℕ) → (log n).checkpoint ≡ n) where
  filter-all :
      (n at : ℕ) (es : List ChangeEvent)
      → n ≤ at
      → Slice log at es
      → filter_by (λ e. leb n e.checkpoint) es ≡ es
  filter-all n at [] le h = refl
  filter-all n at (e ∷ es) le h =
      let same : e.checkpoint ≡ at = ap (λ d. d.checkpoint) h.0 ∙ numbered at in
      let keep : leb n e.checkpoint ≡ true = ground (arith, same, le) in
      rw keep (ap (◌∷◌ e) (filter-all n (suc at) es (omega (arith, le)) h.1))

  -- The part of a slice from `n` on.
  pub Slice-from :
      (n at : ℕ) (es : List ChangeEvent)
      → at ≤ n
      → Slice log at es
      → Slice log n (filter_by (λ e. leb n e.checkpoint) es)
        × (at + length es ≤ n + length (filter_by (λ e. leb n e.checkpoint) es))
  Slice-from n at [] le h = (tt, omega (arith, le))
  Slice-from n at (e ∷ es) le h =
      let same : e.checkpoint ≡ at = ap (λ d. d.checkpoint) h.0 ∙ numbered at in
      elim (Bool-cases (leb n e.checkpoint)) [
        | inl keep ↦
            let all = filter-all n (suc at) es (ground (arith, keep, same)) h.1 in
            let begins : at ≡ n = ground (arith, keep, same, le) in
            rw (keep, all, ← begins) (h, omega arith)
        | inr drop ↦
            let (rest, long) = Slice-from n (suc at) es (ground (arith, drop, same, le)) h.1 in
            rw drop (rest, omega (arith, long))
      ]

  filter-none :
      (n at : ℕ) (es : List ChangeEvent)
      → at + length es ≤ n
      → Slice log at es
      → filter_by (λ e. leb n e.checkpoint) es ≡ []
  filter-none n at [] le h = refl
  filter-none n at (e ∷ es) le h =
      let same : e.checkpoint ≡ at = ap (λ d. d.checkpoint) h.0 ∙ numbered at in
      let drop : leb n e.checkpoint ≡ false = ground (arith, same, le) in
      rw drop (filter-none n (suc at) es (omega (arith, le)) h.1)

  -- The events of a slice after `last`, with the saturating successor of the source.
  Slice-after :
      (last at sent : ℕ) (es : List ChangeEvent)
      → at ≤ saturating_succ last
      → Slice log at es
      → sent < at + length es
      → at + length es ≤ u64_max
      → Slice log (suc last) (filter_by (λ e. leb (saturating_succ last) e.checkpoint) es)
        × (sent ≤ last + length (filter_by (λ e. leb (saturating_succ last) e.checkpoint) es))
  unfolding saturating_succ
  Slice-after last at sent es le h top small = elim (Bool-cases (nat_beq last u64_max)) [
    | inl full ↦
        let none_left =
          filter-none last at es (ground (arith, nat_beq_iff last u64_max, full, small)) h in
        rw (full, none_left) (tt, ground (arith, nat_beq_iff last u64_max, full, small, top))
    | inr more ↦
        let (rest, long) = Slice-from (suc last) at es (ground (arith, more, le)) h in
        let same : saturating_succ last ≡ suc last = ground (arith, more) in
        rw same (rest, omega (arith, long, top))
  ]

  pub recover-IsRecovered :
      (s t : WatchStream) (skipped at sent : ℕ) (history : List ChangeEvent)
      → s.backlog ≡ []
      → Slice log at history
      → sent < at + length history
      → at + length history ≤ u64_max
      → recover_lag skipped history s ≡ ok t
      → Slice log (suc t.last_checkpoint) t.backlog
        × (t.last_checkpoint ≡ s.last_checkpoint)
        × (t.prefix ≡ s.prefix)
        × (sent ≤ t.last_checkpoint + length t.backlog)
  unfolding recover_lag
  recover-IsRecovered s t skipped at sent [] empty h top small r = absurd (ground arith)
  recover-IsRecovered s t skipped at sent (d ∷ ds) empty h top small r =
      let same : d.checkpoint ≡ at = ap (λ e. e.checkpoint) h.0 ∙ numbered at in
      elim (Bool-cases (ltb (saturating_succ s.last_checkpoint) d.checkpoint)) [
        | inl outside ↦ absurd (ground (arith, outside))
        | inr inside ↦
            let kept =
              filter_by (λ e. leb (saturating_succ s.last_checkpoint) e.checkpoint) (d ∷ ds) in
            let (rest, long) =
              Slice-after s.last_checkpoint at sent (d ∷ ds) (ground (arith, inside, same)) h top
                small in
            let made : record s { backlog = s.backlog ++ kept } ≡ t = ground (arith, inside) in
            let shorter : s.backlog ++ kept ≡ kept = rw empty refl in
            rw (← made, shorter) (rest, refl, refl, long)
      ]
