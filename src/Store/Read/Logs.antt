-- ===== src/Store/Read/Logs.antt =====
-- What `log` lists.
use uwu_context_db.Prelude.{
  none, ℕ, zero, suc, ◌≡◌, ◌≤◌, ◌⊎◌, refl, inl, inr, some, List, [], ◌∷◌, arith, nat_eq, list_eq,
  pair_eq, Option-cases, lookup, Map, length, unwrap_or,
}
use uwu_context_db.Uri.Types.{ContextUri}
use uwu_context_db.Uri.Ops.{as_str}
use uwu_context_db.Version.Model.{CommitId, Commit, LogOpts}
use uwu_context_db.Store.State.{Store}
use uwu_context_db.Store.Read.{log, first_parents, branch_head}

-- The commits that are stored under an id, then under its first parent, and so on, to a commit without
-- parents, an id without a commit, or `n` commits.
pub data IsHistory (commits : Map CommitId Commit) : ℕ → CommitId → List Commit → Type 0 where
  cut : {id : CommitId} → IsHistory commits 0 id []
  lost : {n : ℕ} {id : CommitId} → lookup id commits ≡ none → IsHistory commits (suc n) id []
  root :
      {n : ℕ} {id : CommitId} {c : Commit}
      → lookup id commits ≡ some c
      → c.parents ≡ []
      → IsHistory commits (suc n) id (c ∷ [])
  later :
      {n : ℕ} {id p : CommitId} {c : Commit} {ps : List CommitId} {cs : List Commit}
      → lookup id commits ≡ some c
      → c.parents ≡ p ∷ ps
      → IsHistory commits n p cs
      → IsHistory commits (suc n) id (c ∷ cs)

List-cases : (xs : List ℕ) → (xs ≡ []) ⊎ ((x : ℕ) × (ys : List ℕ) × (xs ≡ x ∷ ys))
List-cases [] = inl refl
List-cases (x ∷ xs) = inr (x, xs, refl)

first_parents-IsHistory :
    (commits : Map CommitId Commit) (n : ℕ) (id : CommitId)
    → IsHistory commits n id (first_parents commits n id)
      × (length (first_parents commits n id) ≤ n)
unfolding first_parents
first_parents-IsHistory commits zero id = (cut, ground arith)
first_parents-IsHistory commits (suc n) id = elim (Option-cases (lookup id commits)) [
  | inl missing ↦ rw (missing, first_parents) (lost missing, ground arith)
  | inr (c, stored) ↦ elim (List-cases c.parents) [
    | inl first ↦ rw (stored, first_parents, first) (root stored first, ground arith)
    | inr (p, ps, more) ↦
        let (h, l) = first_parents-IsHistory commits n p in
        rw (stored, first_parents, more) (later stored more h, ground (arith, l))
  ]
]

-- A log is the history along first parents of the head of the branch asked for, or of HEAD where none
-- is asked for, up to a commit without parents, an id without a commit, or the bound; it has at most
-- `max_count` commits, or 20 where no bound is given.
pub log-IsHistory :
    (fresh : CommitId) (scope : ContextUri) (opts : LogOpts) (s : Store)
    → IsHistory s.commits
        (unwrap_or 20 opts.max_count)
        (unwrap_or fresh (branch_head s (as_str scope) opts.branch))
        (log fresh scope opts s)
      × (length (log fresh scope opts s) ≤ unwrap_or 20 opts.max_count)
unfolding log
log-IsHistory fresh scope opts s =
    first_parents-IsHistory s.commits (unwrap_or 20 opts.max_count)
      (unwrap_or fresh (branch_head s (as_str scope) opts.branch))
