-- ===== src/Memory/Scans.antt =====
-- `ls`, `find`, `scan_by_prefix` and `scan_by_type` of `MemoryContextStore`, with the derived order
-- of `ContextUri`, which they sort by.
pub mod Complete
use Prim.Native.Nat.{compare, Ordering}
use uwu_context_db.Prelude.{
  ℕ, ◌+◌, Bool, true, false, ◌&&◌, Option, none, some, List, [], ◌∷◌, ◌++◌, ◌==◌, nat_eq, list_eq,
  if◌then◌else◌, filter_by, contains, last?, Map, starts_with, strip_prefix, ok, err, Text,
}
use uwu_context_db.Uri.Types.{
  ContextUri, TimeFormat, QueryParams, AsOfTime, commit, timestamp, latest, ContentLevel, l0, l1,
  l2,
}
use uwu_context_db.Uri.Ops.{as_str, trim_end_slash}
use uwu_context_db.Uri.Parse.{parse, slash}
use uwu_context_db.Content.Kinds.{ContentType, as_path_segment}
use uwu_context_db.Content.Types.{ContextEntry, l0_text}
use uwu_context_db.Memory.Pages.{Page, PageRequest, keyset_page}
use uwu_context_db.Memory.Entries.{Store}

-- The second comparison, where the first finds its sides equal.
abbrev then_by : Ordering → Ordering → Ordering
then_by Ordering.eq o = o
then_by Ordering.lt o = Ordering.lt
then_by Ordering.gt o = Ordering.gt

abbrev compare_lists : {A : Type 0} → (A → A → Ordering) → List A → List A → Ordering
compare_lists cmp [] [] = Ordering.eq
compare_lists cmp [] (y ∷ ys) = Ordering.lt
compare_lists cmp (x ∷ xs) [] = Ordering.gt
compare_lists cmp (x ∷ xs) (y ∷ ys) = then_by (cmp x y) (compare_lists cmp xs ys)

abbrev compare_options : {A : Type 0} → (A → A → Ordering) → Option A → Option A → Ordering
compare_options cmp none none = Ordering.eq
compare_options cmp none (some b) = Ordering.lt
compare_options cmp (some a) none = Ordering.gt
compare_options cmp (some a) (some b) = cmp a b

abbrev compare_texts : Text → Text → Ordering
compare_texts = compare_lists compare

abbrev compare_times : AsOfTime → AsOfTime → Ordering
compare_times (commit s) (commit t) = compare_texts s t
compare_times (commit s) _ = Ordering.lt
compare_times (timestamp a) (commit t) = Ordering.gt
compare_times (timestamp a) (timestamp b) = compare a b
compare_times (timestamp a) latest = Ordering.lt
compare_times latest latest = Ordering.eq
compare_times latest _ = Ordering.gt

abbrev rank : ContentLevel → ℕ
rank l0 = 0
rank l1 = 1
rank l2 = 2

abbrev compare_queries : QueryParams → QueryParams → Ordering
compare_queries p q = then_by (compare_options compare_times p.as_of q.as_of) (
    then_by (compare_options (λ a b. compare (rank a) (rank b)) p.level q.level) (
      then_by (compare_options compare_texts p.branch q.branch)
        (compare_options compare p.limit q.limit)))

-- The derived `Ord` of `UriInner`.
unfoldable pub compare_uris : ContextUri → ContextUri → Ordering
compare_uris u v = then_by (compare_texts u.tenant v.tenant) (
    then_by (compare_lists compare_texts u.path v.path) (
      then_by (compare_options compare_queries u.query v.query)
        (compare_texts u.canonical v.canonical)))

-- A stable sort by the address.
module _ {A : Type 0} (uri_of : A → ContextUri) where
  unfoldable pub insert_sorted : A → List A → List A
  unfolding compare_uris
  insert_sorted a [] = a ∷ []
  insert_sorted a (b ∷ bs) =
      let rest = insert_sorted a bs in
      elim (compare_uris (uri_of a) (uri_of b)) [ Ordering.gt ↦ b ∷ rest | _ ↦ a ∷ b ∷ bs ]

  unfoldable pub sort : List A → List A
  unfolding insert_sorted
  sort [] = []
  sort (a ∷ items) = insert_sorted a (sort items)

pub record DirEntry : Type 0 where
  pub uri : ContextUri
  pub is_dir : Bool
  pub abstract_text : Text
  pub content_type : Option ContentType

pub record FindPattern : Type 0 where
  pub scope : Option ContextUri
  pub name_glob : Option Text
  pub content_type : Option ContentType
  pub max_depth : Option ℕ

abbrev pub entry_key : ContextEntry → Text
entry_key e = as_str e.uri

-- The latest versions of the addresses that begin with the prefix.
unfoldable pub latest_under : Text → Map Text (List ContextEntry) → List ContextEntry
latest_under prefix [] = []
latest_under prefix ((key, versions) ∷ m) =
    let rest = latest_under prefix m in
    if starts_with prefix key
    then (elim (last? versions) [ none ↦ rest | some e ↦ e ∷ rest ])
    else rest

unfoldable pub scan_by_prefix : Text → PageRequest → Store → Page ContextEntry
unfolding latest_under sort keyset_page
scan_by_prefix prefix page s =
    keyset_page entry_key (sort (λ e. e.uri) (latest_under prefix s.entries)) page

-- `entry.metadata.content_type == Some(content_type)`; types are equal where their segments are.
abbrev of_type : ContentType → Option ContentType → Bool
of_type t none = false
of_type t (some u) = as_path_segment u == as_path_segment t

unfoldable pub scan_by_type : Text → ContentType → PageRequest → Store → Page ContextEntry
unfolding latest_under sort keyset_page
scan_by_type prefix content_type page s =
    let items = latest_under prefix s.entries in
    let typed =
      filter_by (λ (e : ContextEntry). of_type content_type e.metadata.content_type) items in
    keyset_page entry_key (sort (λ e. e.uri) typed) page

module _ (time : TimeFormat) where
  -- The loop of `ls`.
  unfoldable pub entries_below : Text → Map Text (List ContextEntry) → List DirEntry
  entries_below prefix [] = []
  entries_below prefix ((key, versions) ∷ m) =
      let rest = entries_below prefix m in
      elim (strip_prefix prefix key) [
        | none ↦ rest
        | some below ↦ elim (last? versions) [
          | none ↦ rest
          | some e ↦ elim (parse time key) [
            | err _ ↦ rest
            | ok u ↦
                (record {
                  uri = u;
                  is_dir = contains below slash;
                  abstract_text = l0_text e;
                  content_type = e.metadata.content_type;
                })
                ∷ rest
          ]
        ]
      ]

  unfoldable pub ls : ContextUri → PageRequest → Store → Page DirEntry
  unfolding entries_below sort keyset_page trim_end_slash
  ls dir page s =
      let prefix = trim_end_slash (as_str dir) ++ slash ∷ [] in
      keyset_page (λ (e : DirEntry). as_str e.uri)
        (sort (λ e. e.uri) (entries_below prefix s.entries)) page

  abbrev type_of : List ContextEntry → Option ContentType
  type_of versions = elim (last? versions) [ none ↦ none | some e ↦ e.metadata.content_type ]

  abbrev fits_type : Option ContentType → List ContextEntry → Bool
  fits_type none versions = true
  fits_type (some t) versions = of_type t (type_of versions)

  -- The loop of `find`, which reads the scope and the type of the pattern.
  unfoldable pub found_uris :
      Text → Option ContentType → Map Text (List ContextEntry) → List ContextUri
  found_uris scope t [] = []
  found_uris scope t ((key, versions) ∷ m) =
      let rest = found_uris scope t m in
      if starts_with scope key && fits_type t versions
      then (elim (parse time key) [ err _ ↦ rest | ok u ↦ u ∷ rest ])
      else rest

  abbrev scope_text : Option ContextUri → Text
  scope_text none = []
  scope_text (some u) = as_str u

  unfoldable pub find : FindPattern → PageRequest → Store → Page ContextUri
  unfolding found_uris sort keyset_page
  find pattern page s =
      let uris = found_uris (scope_text pattern.scope) pattern.content_type s.entries in
      keyset_page as_str (sort (λ u. u) uris) page
