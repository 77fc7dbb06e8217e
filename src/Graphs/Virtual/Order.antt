-- ===== src/Graphs/Virtual/Order.antt =====
-- The order of a virtual file's views, and what is left of a deleted virtual file.
use mathlib.Core.List.{Permᴰ}
use mathlib.Core.List.Permᴰ
use blue_workspace_build.Graphs.Files.{is_new, is_incremental-is_new}
use blue_workspace_build.Base.{
  ℕ, ◌+◌, ◌%◌, ◌^◌, ◌≤◌, ◌≡◌, refl, sym, ◌∙◌, inl, inr, true, ◌||◌, none, some, List, [], ◌∷◌,
  arith, Bool-cases, Option-cases, Text, text_eq, text_eq_iff,
}
use blue_workspace_build.Base.Map
use blue_workspace_build.Base.Map.{Map, text_key}
use blue_workspace_build.Base.StringSet
use blue_workspace_build.Base.StringSet.{StringSet}
use blue_workspace_build.Concept.{ScalarPoint, int_lt}
use blue_workspace_build.Concept.View.{DataView}
use blue_workspace_build.Manager.{Stored, file_of, get_file_info}
use blue_workspace_build.Manager.Index.{IsManager, del_file-IsManager}
use blue_workspace_build.Graphs.{
  Graph, Server, inner_file, find_file, graph_del_file, Floats, is_incremental,
}
use blue_workspace_build.Graphs.Virtual.{
  point_before, insert_view, sort_keyed, each_tag, del_virtual_file,
}

-- A step as a number above that of every smaller one.
abbrev pub rank : ℕ → ℕ
rank step = (step + 2 ^ 63) % 2 ^ 64

module _ {fl : Floats} where
  -- The steps at the lower ends do not fall.
  abbrev pub StartsFrom : ℕ → List (ScalarPoint fl × DataView fl) → Type 0
  StartsFrom low [] = Unit {0}
  StartsFrom low (x ∷ xs) = (low ≤ rank x.0.step) × StartsFrom (rank x.0.step) xs

  StartsFrom-weaken :
      (low low' : ℕ) (xs : List (ScalarPoint fl × DataView fl))
      → low' ≤ low
      → StartsFrom low xs
      → StartsFrom low' xs
  StartsFrom-weaken low low' [] h k = tt
  StartsFrom-weaken low low' (x ∷ xs) h k = (omega arith, k.1)

  insert_view-StartsFrom :
      (low : ℕ) (x : ScalarPoint fl × DataView fl) (xs : List (ScalarPoint fl × DataView fl))
      → low ≤ rank x.0.step
      → StartsFrom low xs
      → StartsFrom low (insert_view x xs)
  unfolding insert_view point_before int_lt
  insert_view-StartsFrom low x [] h k = (h, tt)
  insert_view-StartsFrom low x (y ∷ ys) h k = elim (Bool-cases (point_before y.0 x.0)) [
    | inl e ↦
        let below : rank y.0.step ≤ rank x.0.step = ground (arith, e) in
        rw e (k.0, insert_view-StartsFrom (rank y.0.step) x ys below k.1)
    | inr e ↦
        let above : rank x.0.step ≤ rank y.0.step = ground (arith, e) in rw e (h, (above, k.1))
  ]

  pub sort_keyed-StartsFrom :
      (xs : List (ScalarPoint fl × DataView fl)) → StartsFrom 0 (sort_keyed xs)
  unfolding sort_keyed
  sort_keyed-StartsFrom [] = tt
  sort_keyed-StartsFrom (x ∷ xs) =
      insert_view-StartsFrom 0 x (sort_keyed xs) (omega arith) (sort_keyed-StartsFrom xs)

  insert_view-Perm :
      (x : ScalarPoint fl × DataView fl) (xs : List (ScalarPoint fl × DataView fl))
      → Permᴰ (insert_view x xs) (x ∷ xs)
  unfolding insert_view
  insert_view-Perm x [] = Permᴰ.refl (x ∷ [])
  insert_view-Perm x (y ∷ ys) = elim (Bool-cases (point_before y.0 x.0)) [
    | inl e ↦ rw e (Permᴰ.trans (Permᴰ.cons refl (insert_view-Perm x ys)) (Permᴰ.swap refl refl))
    | inr e ↦ rw e (Permᴰ.refl (x ∷ y ∷ ys))
  ]

  pub sort_keyed-Perm : (xs : List (ScalarPoint fl × DataView fl)) → Permᴰ (sort_keyed xs) xs
  unfolding sort_keyed
  sort_keyed-Perm [] = Permᴰ.refl []
  sort_keyed-Perm (x ∷ xs) =
      Permᴰ.trans (insert_view-Perm x (sort_keyed xs)) (Permᴰ.cons refl (sort_keyed-Perm xs))

is_new-graph_del_file :
    (path tag tag' : Text) (graphs : Map Text Graph)
    → is_new path (Map.get tag' (graph_del_file path tag graphs))
      ≡ (text_eq tag tag' || is_new path (Map.get tag' graphs))
unfolding graph_del_file inner_file
is_new-graph_del_file path tag tag' graphs = elim (Bool-cases (text_eq tag tag')) [
  | inl e ↦
      rw (e, sym ((text_eq_iff tag tag').0 e))
        (elim (Option-cases (Map.get tag graphs)) [
          | inl f ↦ rw (graph_del_file, f) (rw f refl)
          | inr (g, f) ↦
              rw (graph_del_file, f, Map.get-put, Map.same_refl tag)
                (ground
                  (arith, StringSet.contains-erase path path g.data_files, text_eq_iff path path))
        ])
  | inr e ↦ rw e (elim (Option-cases (Map.get tag graphs)) [
    | inl f ↦ rw (graph_del_file, f) refl
    | inr (g, f) ↦ rw (graph_del_file, f, Map.get-put, e) refl
  ])
]

is_new-each_tag :
    (path tag : Text) (tags : StringSet) (graphs : Map Text Graph)
    → is_new path (Map.get tag (each_tag (graph_del_file path) tags graphs))
      ≡ (StringSet.contains tag tags || is_new path (Map.get tag graphs))
unfolding each_tag StringSet.contains
is_new-each_tag path tag [] graphs = refl
is_new-each_tag path tag (t ∷ tags) graphs = ground (
  arith,
  is_new-each_tag path tag tags (graph_del_file path t graphs),
  is_new-graph_del_file path t tag graphs,
)

module _ {fl : Floats} where
  -- A virtual file that a well-formed manager finds is not found any more after it is deleted,
  -- and no graph of its tags has it.
  pub del_virtual_file_lem :
      (o : Stored fl) (found : ℕ × Stored fl) (s : Server fl)
      → IsManager s.manager
      → find_file (file_of o).file_path s ≡ some found
      → ((get_file_info (file_of o).file_path (del_virtual_file o s).manager).0 ≡ none)
        × ((tag : Text)
            → StringSet.contains tag (file_of o).tags ≡ true
            → is_incremental (file_of o).file_path tag (del_virtual_file o s) ≡ true)
  unfolding del_virtual_file
  del_virtual_file_lem o found s h e =
      let path = (file_of o).file_path in
      let gone = (del_file-IsManager path s.manager h).2 path in
      (
        rw (del_virtual_file, e) (gone ∙ (rw (Map.same_refl path) refl)),
        λ tag k. rw (is_incremental-is_new, del_virtual_file, e, is_new-each_tag, k) refl,
      )
