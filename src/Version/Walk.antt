-- ===== src/Version/Walk.antt =====
-- The worklist loops over the version graph share one shape: take the next id, stop on a hit, pass
-- over a visited one, else mark it and add its neighbours. `enter` says where these go: on top of a
-- stack or at the end of a queue. `none` means that the fuel ran out.
pub mod Sound
pub mod Collect
pub mod Total
use uwu_context_db.Prelude.{
  ℕ, zero, suc, ◌+◌, ◌-◌, ◌≡◌, Bool, true, Option, none, some, List, [], ◌∷◌, arith, nat_eq,
  list_eq, pair_eq, if◌then◌else◌, length, contains, Map, lookup,
}

module _ (next : ℕ → List ℕ) (enter : List ℕ → List ℕ → List ℕ) where
  -- The first id met that is a hit, if any.
  unfoldable pub find : (ℕ → Bool) → ℕ → List ℕ → List ℕ → Option (Option ℕ)
  find hit zero visited todo = none
  find hit (suc f) visited [] = some none
  find hit (suc f) visited (id ∷ rest) =
      let skip = find hit f visited rest in
      let visit = find hit f (id ∷ visited) (enter (next id) rest) in
      if hit id then some (some id) else if contains visited id then skip else visit

  -- Every id met, the last one first.
  unfoldable pub collect : ℕ → List ℕ → List ℕ → Option (List ℕ)
  collect zero visited todo = none
  collect (suc f) visited [] = some visited
  collect (suc f) visited (id ∷ rest) =
      let skip = collect f visited rest in
      let visit = collect f (id ∷ visited) (enter (next id) rest) in
      if contains visited id then skip else visit

module _ (next : ℕ → List ℕ) where
  -- Paths along `next`.
  pub data Reach (a : ℕ) : ℕ → Type 0 where
    here : Reach a a
    step : {b c : ℕ} → Reach a b → contains (next b) c ≡ true → Reach a c

  pub Reach-cons : {a b c : ℕ} → contains (next a) b ≡ true → Reach b c → Reach a c
  Reach-cons h here = step here h
  Reach-cons h (step r k) = step (Reach-cons h r) k

-- The neighbours that a map lists, none for a missing id.
unfoldable pub neighbours {ℓ} : {V : Type ℓ} → Map ℕ V → (V → List ℕ) → ℕ → List ℕ
neighbours m edges id = elim (lookup id m) [ none ↦ [] | some v ↦ edges v ]

-- The number of edges out of the ids that are not visited yet: what a walk may still add.
unfoldable pub edges_left {ℓ} : {V : Type ℓ} → Map ℕ V → (V → List ℕ) → List ℕ → ℕ
edges_left [] edges visited = 0
edges_left ((k, v) ∷ m) edges visited =
    (if contains visited k then 0 else length (edges v)) + edges_left m edges visited

-- Rounds that are enough for a walk from one id.
unfoldable pub enough {ℓ} : {V : Type ℓ} → Map ℕ V → (V → List ℕ) → ℕ
enough m edges = edges_left m edges [] + 2
