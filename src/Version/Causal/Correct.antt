-- ===== src/Version/Causal/Correct.antt =====
-- The walks of the index against reachability along its edges.
use uwu_context_db.Prelude.{
  ℕ, zero, suc, ◌+◌, ◌≡◌, ◌≢◌, ◌⊎◌, refl, sym, ◌∙◌, ◌↔◌, inl, inr, true, false, ◌&&◌, some, List,
  [], ◌∷◌, ◌++◌, arith, nat_beq, nat_eq, nat_beq_iff, Bool-cases, length, push_all, length-push_all,
  contains, contains-append, contains-push_all,
}
use uwu_context_db.Version.Model.{CommitId, Commit}
use uwu_context_db.Version.Walk.{collect, edges_left, enough, Reach, here, step, Reach-cons}
use uwu_context_db.Version.Walk.Sound.{Enters}
use uwu_context_db.Version.Walk.Collect.{collect_iff, collect_from_iff}
use uwu_context_db.Version.Walk.Total.{collect_total, collect_ends}
use uwu_context_db.Version.Causal.{
  CausalDag, parents_of, children_of, is_empty, root_walk, root_causes, effects, is_descendant_of,
  from_commits,
}
use uwu_context_db.Version.Causal.Mirror.{from_commits-IsMirrored}

push_Enters : Enters push_all
push_Enters = record { contains-enter = contains-push_all; length-enter = length-push_all }

effects_iff :
    (dag : CausalDag) (c d : CommitId)
    → (contains (effects dag c) d ≡ true)
      ↔ ((s : ℕ) × (contains (children_of dag c) s ≡ true) × Reach (children_of dag) s d)
unfolding effects contains
effects_iff dag c d =
    let start = children_of dag c in
    let fuel = length start + (edges_left dag.children (λ ids. ids) [] + 1) in
    let (w, ends) =
      collect_total (λ ids. ids) dag.children push_all push_Enters fuel [] (push_all start [])
        (omega (arith, length-push_all start [])) in
    let right =
      collect_from_iff (children_of dag) push_all push_Enters fuel (push_all start []) w d ends in
    let held : contains (effects dag c) d ≡ contains w d =
      rw ends (ground (arith, contains-push_all w [] d)) in
    (
      λ h.
          let (s, hs, path) = right.0 (sym held ∙ h) in
          (s, ground (arith, hs, contains-push_all start [] s), path),
      λ from.
          let (s, hs, path) = from in
          held ∙ right.1 (s, ground (arith, hs, contains-push_all start [] s), path),
    )

Reach-first :
    (next : ℕ → List ℕ) {a b : ℕ}
    → Reach next a b
    → (a ≡ b) ⊎ ((s : ℕ) × (contains (next a) s ≡ true) × Reach next s b)
Reach-first next here = inl refl
Reach-first next (step {b = b} {c = c} path h) = elim (Reach-first next path) [
  | inl same ↦ inr (c, rw (sym same) at h, here)
  | inr (s, first, rest) ↦ inr (s, first, step rest h)
]

Reach-backwards :
    (down up : ℕ → List ℕ) {a b : ℕ}
    → ((p c : ℕ) → contains (down p) c ≡ contains (up c) p)
    → Reach down a b
    → Reach up b a
Reach-backwards down up mirror here = here
Reach-backwards down up mirror (step {b = b} {c = c} path h) =
    Reach-cons up (sym (mirror b c) ∙ h) (Reach-backwards down up mirror path)

-- In an index built from any commits, which may have cycles, one commit is a descendant of another
-- exactly when they differ and the other is reached from it along the parents.
pub is_descendant_of_iff :
    (commits : List Commit) (ancestor node : CommitId)
    → (is_descendant_of (from_commits commits) ancestor node ≡ true)
      ↔ ((ancestor ≢ node) × Reach (parents_of (from_commits commits)) node ancestor)
unfolding is_descendant_of
is_descendant_of_iff commits ancestor node =
    let dag = from_commits commits in
    let mirror = from_commits-IsMirrored commits in
    let right = effects_iff dag ancestor node in
    (
      λ h.
          let differ : ancestor ≢ node =
            λ e. absurd (ground (arith, h, nat_beq_iff ancestor node)) in
          let (s, first, rest) = right.0 (ground (arith, h)) in
          (
            differ,
            Reach-backwards (children_of dag) (parents_of dag) mirror
                (Reach-cons (children_of dag) first rest),
          ),
      λ both.
          let (differ, path) = both in
          let down =
            Reach-backwards (parents_of dag) (children_of dag) (λ p c. sym (mirror c p)) path in
          elim (Reach-first (children_of dag) down) [
            | inl same ↦ absurd (differ same)
            | inr from ↦ ground (arith, right.1 from, nat_beq_iff ancestor node, differ)
          ],
    )

empty-nil : (ids : List CommitId) → is_empty ids ≡ true → ids ≡ []
empty-nil [] h = refl
empty-nil (x ∷ xs) h = absurd (ground (arith, h))

root_found :
    (dag : CausalDag) (visited roots : List CommitId) (node : CommitId)
    → is_empty (parents_of dag node) ≡ true
    → ((r : ℕ) → contains roots r ≡ (contains visited r && is_empty (parents_of dag r)))
    → (r : ℕ)
    → contains (roots ++ node ∷ []) r ≡ (contains (node ∷ visited) r && is_empty (parents_of dag r))
unfolding contains
root_found dag visited roots node root same r = elim (Bool-cases (nat_beq node r)) [
  | inl hit ↦
      let e : node ≡ r = (nat_beq_iff node r).0 hit in
      let root_r : is_empty (parents_of dag r) ≡ true = rw e at root in
      ground (arith, hit, root_r, contains-append roots (node ∷ []) r)
  | inr miss ↦ ground (arith, miss, same r, contains-append roots (node ∷ []) r)
]

not_root :
    (dag : CausalDag) (visited roots : List CommitId) (node : CommitId)
    → is_empty (parents_of dag node) ≡ false
    → ((r : ℕ) → contains roots r ≡ (contains visited r && is_empty (parents_of dag r)))
    → (r : ℕ) → contains roots r ≡ (contains (node ∷ visited) r && is_empty (parents_of dag r))
unfolding contains
not_root dag visited roots node inner same r = elim (Bool-cases (nat_beq node r)) [
  | inl hit ↦
      let e : node ≡ r = (nat_beq_iff node r).0 hit in
      let inner_r : is_empty (parents_of dag r) ≡ false = rw e at inner in
      ground (arith, hit, inner_r, same r)
  | inr miss ↦ ground (arith, miss, same r)
]

-- The loop ends where `collect` does, with the visited commits that have no parents.
root_walk-collect :
    (dag : CausalDag) (f : ℕ) (visited roots todo w : List CommitId)
    → collect (parents_of dag) push_all f visited todo ≡ some w
    → ((r : ℕ) → contains roots r ≡ (contains visited r && is_empty (parents_of dag r)))
    → (rs : List CommitId) × (root_walk dag f visited roots todo ≡ some rs)
      × ((r : ℕ) → contains rs r ≡ (contains w r && is_empty (parents_of dag r)))
unfolding root_walk collect
root_walk-collect dag zero visited roots todo w h same = absurd (ground arith)
root_walk-collect dag (suc f) visited roots [] w h same =
    let e : visited ≡ w = ground arith in (roots, refl, rw e at same)
root_walk-collect dag (suc f) visited roots (node ∷ rest) w h same =
    elim (Bool-cases (contains visited node)) [
      | inl old ↦ rw old (root_walk-collect dag f visited roots rest w (rw old at h) same)
      | inr new ↦ elim (Bool-cases (is_empty (parents_of dag node))) [
        | inl root ↦
            rw (new, root)
              (root_walk-collect dag f (node ∷ visited) (roots ++ node ∷ []) rest w
                (rw (new, empty-nil (parents_of dag node) root) at h)
                (root_found dag visited roots node root same))
        | inr inner ↦
            rw (new, inner)
              (root_walk-collect dag f (node ∷ visited) roots (push_all (parents_of dag node) rest)
                w (rw new at h) (not_root dag visited roots node inner same))
      ]
    ]

-- The root causes of a commit are exactly the commits without parents among it and those reached
-- from it along the parents, also where these have cycles.
pub root_causes_iff :
    (dag : CausalDag) (c r : CommitId)
    → (contains (root_causes dag c) r ≡ true)
      ↔ (Reach (parents_of dag) c r × (parents_of dag r ≡ []))
unfolding root_causes contains
root_causes_iff dag c r =
    let fuel = enough dag.parents (λ ids. ids) in
    let (w, ends) = collect_ends (λ ids. ids) dag.parents push_all push_Enters c in
    let (rs, made, right) = root_walk-collect dag fuel [] [] (c ∷ []) w ends (λ r. refl) in
    let reached = collect_iff (parents_of dag) push_all push_Enters fuel c w r ends in
    rw made (
      λ h. (
        reached.0 (ground (arith, h, right r)),
        empty-nil (parents_of dag r) (ground (arith, h, right r)),
      ),
      λ both.
          let (path, none_up) = both in
          let root : is_empty (parents_of dag r) ≡ true = rw none_up refl in
          ground (arith, right r, reached.1 path, root),
    )
