-- ===== src/Store/Read/Prefixes.antt =====
-- Which HEAD a read of HEAD takes.
use uwu_context_db.Prelude.{
  ℕ, zero, suc, ◌≡◌, ◌≤◌, ◌<◌, ◌⊎◌, ◌∙◌, ap, inl, inr, none, some, List, [], ◌∷◌, arith, nat_eq,
  list_eq, pair_eq, Option-cases, take, length, join, split, Text,
}
use uwu_context_db.Uri.Types.{ContextUri}
use uwu_context_db.Uri.Parse.{slash}
use uwu_context_db.Uri.Ops.{as_str}
use uwu_context_db.Version.Model.{CommitId}
use uwu_context_db.Store.State.{Store, head}
use uwu_context_db.Store.Read.{resolve_head, resolve_prefix}

-- The first `n` parts of an address.
abbrev pub prefix : ContextUri → ℕ → Text
prefix uri n = join (slash ∷ []) (take n (split slash (as_str uri)))

-- The longest prefix with a HEAD, of at most `n` parts and at least two.
pub record IsLongest (s : Store) (segs : List Text) (n : ℕ) (id : CommitId) : Type 0 where
  pub size : ℕ
  pub two : 2 ≤ size
  pub within : size ≤ n
  pub at_head : head s (join (slash ∷ []) (take size segs)) ≡ some id
  pub longest : (m : ℕ) → size < m → m ≤ n → head s (join (slash ∷ []) (take m segs)) ≡ none

abbrev pub NoHead : Store → List Text → ℕ → Type 0
NoHead s segs n = (m : ℕ) → 2 ≤ m → m ≤ n → head s (join (slash ∷ []) (take m segs)) ≡ none

last_or_less : (m k : ℕ) → m ≤ suc k → (m ≤ k) ⊎ (m ≡ suc k)
last_or_less m k h = ground arith

resolve-IsLongest :
    (s : Store) (segs : List Text) (n : ℕ) (id : CommitId)
    → resolve_prefix s n segs ≡ some id
    → IsLongest s segs n id
unfolding resolve_prefix
resolve-IsLongest s segs zero id h = absurd (ground arith)
resolve-IsLongest s segs (suc zero) id h = absurd (ground arith)
resolve-IsLongest s segs (suc (suc n)) id h =
    elim (Option-cases (head s (join (slash ∷ []) (take (suc (suc n)) segs)))) [
      | inl headless ↦
          let v = resolve-IsLongest s segs (suc n) id (rw (headless, resolve_prefix) at h) in
          record {
            size = v.size;
            two = v.two;
            within = omega (arith, v.within);
            at_head = v.at_head;
            longest = λ m above below. elim (last_or_less m (suc n) below) [
              | inl less ↦ v.longest m above less
              | inr last ↦ rw last headless
            ];
          }
      | inr (j, found) ↦
          let same : j ≡ id = ground (arith, found) in
          record {
            size = suc (suc n);
            two = omega arith;
            within = omega arith;
            at_head = found ∙ ap some same;
            longest = λ m above below. absurd (omega arith);
          }
    ]

resolve-none :
    (s : Store) (segs : List Text) (n : ℕ) → resolve_prefix s n segs ≡ none → NoHead s segs n
unfolding resolve_prefix
resolve-none s segs zero h m above below = absurd (omega arith)
resolve-none s segs (suc zero) h m above below = absurd (omega arith)
resolve-none s segs (suc (suc n)) h m above below =
    elim (Option-cases (head s (join (slash ∷ []) (take (suc (suc n)) segs)))) [
      | inl headless ↦ elim (last_or_less m (suc n) below) [
        | inl less ↦ resolve-none s segs (suc n) (rw (headless, resolve_prefix) at h) m above less
        | inr last ↦ rw last headless
      ]
      | inr (j, found) ↦ absurd (ground (arith, found))
    ]

-- HEAD for an address is the HEAD of the longest scope of at least two parts, cut at slashes, that is
-- a prefix of the address and has one; where no prefix has one, there is none.
pub resolve_head-IsLongest :
    (s : Store) (uri : ContextUri)
    → ((id : CommitId) × IsLongest s
          (split slash (as_str uri))
          (length (split slash (as_str uri)))
          id
        × (resolve_head s uri ≡ some id))
      ⊎ (NoHead s (split slash (as_str uri)) (length (split slash (as_str uri)))
          × (resolve_head s uri ≡ none))
unfolding resolve_head
resolve_head-IsLongest s uri =
    let segs = split slash (as_str uri) in
    elim (Option-cases (resolve_prefix s (length segs) segs)) [
      | inl nothing ↦ inr (resolve-none s segs (length segs) nothing, nothing)
      | inr (id, found) ↦ inl (id, resolve-IsLongest s segs (length segs) id found, found)
    ]
