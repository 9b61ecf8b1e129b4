-- ===== src/Version/Walk/Total.antt =====
-- The fuel of a walk over a map of ids: what it is, and the edges that a round spends.
use uwu_context_db.Prelude.{
  ℕ, zero, suc, ◌+◌, ◌≤◌, ◌<◌, ◌≡◌, refl, inl, inr, Bool, false, Option, none, some, List, [], ◌∷◌,
  arith, nat_eq, list_eq, pair_eq, nat_beq_iff, Bool-cases, length, contains, Map, lookup,
}
use uwu_context_db.Version.Walk.{find, collect, neighbours, edges_left, enough}
use uwu_context_db.Version.Walk.Sound.{Enters}

module _ {ℓ} {V : Type ℓ} (edges : V → List ℕ) where
  edges_left-cons :
      (m : Map ℕ V) (visited : List ℕ) (id : ℕ)
      → edges_left m edges (id ∷ visited) ≤ edges_left m edges visited
  unfolding edges_left contains
  edges_left-cons [] visited id = omega arith
  edges_left-cons ((k, v) ∷ m) visited id = ground (arith, edges_left-cons m visited id)

  -- Visiting an id spends its edges.
  edges_left-visit :
      (m : Map ℕ V) (visited : List ℕ) (id : ℕ)
      → contains visited id ≡ false
      → edges_left m edges (id ∷ visited) + length (neighbours m edges id)
        ≤ edges_left m edges visited
  unfolding edges_left contains neighbours lookup
  edges_left-visit [] visited id h = omega arith
  edges_left-visit ((k, v) ∷ m) visited id h = ground (
    arith,
    nat_beq_iff k id,
    nat_beq_iff id k,
    edges_left-cons m visited id,
    edges_left-visit m visited id,
  )

module _ {ℓ} {V : Type ℓ} (edges : V → List ℕ) (m : Map ℕ V) (enter : List ℕ → List ℕ → List ℕ)
    (en : Enters enter) where
  pub collect_total :
      (f : ℕ) (visited todo : List ℕ)
      → length todo + edges_left m edges visited < f
      → (w : List ℕ) × (collect (neighbours m edges) enter f visited todo ≡ some w)
  unfolding collect
  collect_total zero visited todo h = absurd (omega arith)
  collect_total (suc f) visited [] h = (visited, refl)
  collect_total (suc f) visited (id ∷ rest) h = elim (Bool-cases (contains visited id)) [
    | inl old ↦ rw old (collect_total f visited rest (omega arith))
    | inr new ↦ rw new (
        collect_total f (id ∷ visited) (enter (neighbours m edges id) rest) (
          omega (
            arith,
            en.length-enter (neighbours m edges id) rest,
            edges_left-visit edges m visited id new,
          )))
  ]

  find_total :
      (hit : ℕ → Bool) (f : ℕ) (visited todo : List ℕ)
      → length todo + edges_left m edges visited < f
      → (r : Option ℕ) × (find (neighbours m edges) enter hit f visited todo ≡ some r)
  unfolding find
  find_total hit zero visited todo h = absurd (omega arith)
  find_total hit (suc f) visited [] h = (none, refl)
  find_total hit (suc f) visited (id ∷ rest) h = elim (Bool-cases (hit id)) [
    | inl yes_hit ↦ (some id, rw yes_hit)
    | inr no_hit ↦ elim (Bool-cases (contains visited id)) [
      | inl old ↦ rw (no_hit, old) (find_total hit f visited rest (omega arith))
      | inr new ↦
          rw (no_hit, new)
            (find_total hit f (id ∷ visited) (enter (neighbours m edges id) rest) (
              omega (
                arith,
                en.length-enter (neighbours m edges id) rest,
                edges_left-visit edges m visited id new,
              )))
    ]
  ]

  -- From one id, `enough` rounds end the walk.
  pub collect_ends :
      (a : ℕ)
      → (w : List ℕ) × (collect (neighbours m edges) enter (enough m edges) [] (a ∷ []) ≡ some w)
  unfolding enough
  collect_ends a = collect_total (edges_left m edges [] + 2) [] (a ∷ []) (omega arith)

  pub find_ends :
      (hit : ℕ → Bool) (a : ℕ)
      → (r : Option ℕ) × (find (neighbours m edges) enter hit (enough m edges) [] (a ∷ []) ≡ some r)
  unfolding enough
  find_ends hit a = find_total hit (edges_left m edges [] + 2) [] (a ∷ []) (omega arith)
