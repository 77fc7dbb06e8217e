-- ===== src/Graphs/Virtual/Views.antt =====
-- What a virtual file answers: GetData of Scalar/server/src/FileManager/VirtualFile.cpp.
use mathlib.Core.Path.{subst}
use mathlib.Core.List.{
  Permᴰ, Mem, mem-append_left, mem-append_right, mem-cons_self, mem-cons_of_mem,
}
use mathlib.Core.List.Permᴰ
use mathlib.Core.Option.{some-injective}
use blue_workspace_build.Base.{
  ℕ, ◌≡◌, refl, sym, ap, ◌∙◌, ◌⊎◌, inl, inr, true, some, List, [], ◌∷◌, ◌++◌, map, arith,
  Bool-cases, Option-cases, get_elem?, All, All-append, All-mono, Text, text_eq_iff,
}
use blue_workspace_build.Base.Floats.{Floats}
use blue_workspace_build.Base.StringSet
use blue_workspace_build.Base.StringSet.{StringSet}
use blue_workspace_build.Concept.{ScalarPoint, DataMode}
use blue_workspace_build.Concept.View.{DataView}
use blue_workspace_build.File.{File, FileType, get_data, contains_data}
use blue_workspace_build.Manager.{Stored, virtual, file_of}
use blue_workspace_build.Graphs.{Server, find_file}
use blue_workspace_build.Graphs.Virtual.{keyed, sort_keyed, sort_views, object_get_data, sub_views}
use blue_workspace_build.Graphs.Virtual.Order.{StartsFrom, sort_keyed-StartsFrom, sort_keyed-Perm}

perm-map : {A B : Type 0} (f : A → B) {xs ys : List A} → Permᴰ xs ys → Permᴰ (map f xs) (map f ys)
perm-map f Permᴰ.nil = Permᴰ.nil
perm-map f (Permᴰ.cons e p) = Permᴰ.cons (ap f e) (perm-map f p)
perm-map f (Permᴰ.swap e e') = Permᴰ.swap (ap f e) (ap f e')
perm-map f (Permᴰ.trans p q) = Permᴰ.trans (perm-map f p) (perm-map f q)

perm-All : {A : Type 0} (P : A → Type 0) {xs ys : List A} → Permᴰ xs ys → All P xs → All P ys
perm-All P Permᴰ.nil h = tt
perm-All P (Permᴰ.cons e p) h = (subst P e h.0, perm-All P p h.1)
perm-All P (Permᴰ.swap e e') h = (subst P e' h.1.0, (subst P e h.0, h.1.1))
perm-All P (Permᴰ.trans p q) h = perm-All P q (perm-All P p h)

FileType-cases : (t : FileType) → (t ≡ FileType.normal) ⊎ (t ≡ FileType.visual)
FileType-cases FileType.normal = inl refl
FileType-cases FileType.visual = inr refl

module _ {fl : Floats} where
  -- A view with the point at its lower end.
  abbrev HasKey : ScalarPoint fl × DataView fl → Type 0
  HasKey k = get_elem? k.1.base k.1.lower ≡ some k.0

  keyed-parts :
      (us : List (DataView fl)) (ks : List (ScalarPoint fl × DataView fl))
      → keyed us ≡ some ks
      → (map (λ k. k.1) ks ≡ us) × All HasKey ks
  unfolding keyed
  keyed-parts [] ks h =
      subst (λ (l : List (ScalarPoint fl × DataView fl)). (map (λ k. k.1) l ≡ []) × All HasKey l)
        (some-injective _ _ h) (refl, tt)
  keyed-parts (v ∷ vs) ks h = elim (Option-cases (get_elem? v.base v.lower)) [
    | inl e ↦ cc (rw (keyed, e) at h)
    | inr (p, e) ↦ elim (Option-cases (keyed vs)) [
      | inl f ↦ cc (rw (keyed, e, f) at h)
      | inr (ls, f) ↦
          let (same, all) = keyed-parts vs ls f in
          subst
            (λ (l : List (ScalarPoint fl × DataView fl)).
              (map (λ k. k.1) l ≡ v ∷ vs) × All HasKey l)
            (some-injective _ _ (rw (keyed, e, f) at h)) (ap (◌∷◌ v) same, (e, all))
    ]
  ]

  keyed-map :
      (ks : List (ScalarPoint fl × DataView fl))
      → All HasKey ks
      → keyed (map (λ k. k.1) ks) ≡ some ks
  unfolding keyed
  keyed-map [] h = refl
  keyed-map (k ∷ ks) h = rw (keyed, h.0, keyed-map ks h.1) refl

  module _ (tag : Text) (left right : ℕ) (mode : DataMode) (s : Server fl) where
    -- The server has the file under the path, no virtual one and with data of the tag, and `GetData`
    -- of the file gives these views.
    abbrev pub Reads : Text → List (DataView fl) → Type 0
    Reads file ws =
        (i : ℕ) × (o : Stored fl) × (find_file file s ≡ some (i, o))
        × ((file_of o).type ≡ FileType.normal)
        × (contains_data tag (file_of o) ≡ true)
        × (get_data tag left right mode (file_of o) ≡ some ws)

    -- The view is one of a sub-file.
    abbrev pub Shows : StringSet → DataView fl → Type 0
    Shows subs v =
        (file : Text) × (ws : List (DataView fl)) × (StringSet.contains file subs ≡ true)
        × Reads file ws
        × Mem v ws

    -- The views have all those of a file.
    abbrev pub Covers : List (DataView fl) → Text → Type 0
    Covers vs file =
        (ws : List (DataView fl)) → Reads file ws → (v : DataView fl) → Mem v ws → Mem v vs

    sub_views-cons :
        (file : Text) (files : StringSet) (us : List (DataView fl))
        → sub_views (file ∷ files) tag left right mode s ≡ some us
        → (rest : List (DataView fl)) × (sub_views files tag left right mode s ≡ some rest)
          × (((us ≡ rest) × ((ws : List (DataView fl)) → ¬ (Reads file ws)))
              ⊎ ((ws : List (DataView fl)) × Reads file ws × (us ≡ ws ++ rest)))
    unfolding sub_views
    sub_views-cons file files us h = elim (Option-cases (find_file file s)) [
      | inl e ↦
          (us, rw (sub_views, e) at h, inl (refl, λ ws (i, o, found, _, _, _). cc (sym e ∙ found)))
      | inr ((i, o), e) ↦
          let same : (ws : List (DataView fl)) (r : Reads file ws) → r.1 ≡ o =
            λ ws r. ap (λ p. p.1) (some-injective _ _ (sym r.2 ∙ e)) in
          elim (FileType-cases (file_of o).type) [
            | inr f ↦ (
              us,
              rw (sub_views, e, f) at h,
              inl (refl, λ ws r. cc (sym f ∙ (ap (λ p. (file_of p).type) (sym (same ws r)) ∙ r.3))),
            )
            | inl f ↦ elim (Bool-cases (contains_data tag (file_of o))) [
              | inr g ↦ (
                us,
                rw (sub_views, e, f, g) at h,
                inl (
                  refl,
                  λ ws r.
                      cc
                        (sym g ∙ (ap (λ p. contains_data tag (file_of p)) (sym (same ws r)) ∙ r.4)),
                ),
              )
              | inl g ↦ elim (Option-cases (get_data tag left right mode (file_of o))) [
                | inl k ↦ cc (rw (sub_views, e, f, g, k) at h)
                | inr (ws, k) ↦ elim (Option-cases (sub_views files tag left right mode s)) [
                  | inl l ↦ cc (rw (sub_views, e, f, g, k, l) at h)
                  | inr (rest, l) ↦ (
                    rest,
                    l,
                    inr (
                      ws,
                      (i, o, e, f, g, k),
                      sym (some-injective _ _ (rw (sub_views, e, f, g, k, l) at h)),
                    ),
                  )
                ]
              ]
            ]
          ]
    ]

    Reads-same :
        (file : Text) (ws us : List (DataView fl)) → Reads file ws → Reads file us → ws ≡ us
    Reads-same file ws us (i, o, e, _, _, g) (k, p, f, _, _, h) =
        let same : o ≡ p = ap (λ r. r.1) (some-injective _ _ (sym e ∙ f)) in
        some-injective _ _ (sym g ∙ (ap (λ x. get_data tag left right mode (file_of x)) same ∙ h))

    entries_of_self : (vs : List (DataView fl)) → All (λ v. Mem v vs) vs
    entries_of_self [] = tt
    entries_of_self (v ∷ vs) =
        (mem-cons_self, All-mono (λ u m. mem-cons_of_mem v m) vs (entries_of_self vs))

    sub_views-parts :
        (subs : StringSet) (us : List (DataView fl))
        → sub_views subs tag left right mode s ≡ some us
        → All (Shows subs) us × All (Covers us) subs
    unfolding sub_views StringSet.contains
    sub_views-parts [] us h = (subst (All (Shows [])) (some-injective _ _ h) tt, tt)
    sub_views-parts (file ∷ files) us h =
        let (rest, below, how) = sub_views-cons file files us h in
        let (shown, covered) = sub_views-parts files rest below in
        let weaken : (v : DataView fl) → Shows files v → Shows (file ∷ files) v =
          λ v (f, ws, there, r, m). (f, ws, ground (arith, there), r, m) in
        let later = All-mono weaken rest shown in
        elim how [
          | inl (same, none_) ↦ (
            subst (All (Shows (file ∷ files))) (sym same) later,
            (
              λ ws r v m. absurd (none_ ws r),
              All-mono (λ f c. subst (λ l. Covers l f) (sym same) c) files covered,
            ),
          )
          | inr (ws, r, same) ↦
              let here : All (Shows (file ∷ files)) ws =
                All-mono (λ v m. (file, ws, ground (arith, text_eq_iff file file), r, m)) ws
                  (entries_of_self ws) in
              let whole : Covers (ws ++ rest) file = λ us' r' v m.
                mem-append_left rest (subst (Mem v) (Reads-same file us' ws r' r) m) in
              let others =
                All-mono (λ f c. λ us' r' v m. mem-append_right ws (c us' r' v m)) files covered in
              (
                subst (All (Shows (file ∷ files))) (sym same)
                    (All-append (Shows (file ∷ files)) ws rest here later),
                subst (λ l. All (Covers l) (file ∷ files)) (sym same) (whole, others),
              )
        ]

    -- If a virtual file answers, each view of the answer is one that `GetData` gives of a sub-file that
    -- the server has, which is no virtual file and has data of the tag; the answer has all views of
    -- all these sub-files; and the steps at the lower ends of its views do not fall.
    pub object_get_data-Shows :
        (f : File fl) (subs : StringSet) (vs : List (DataView fl))
        → object_get_data tag left right mode (virtual f subs) s ≡ some vs
        → All (Shows subs) vs
          × All (Covers vs) subs
          × (ls : List (ScalarPoint fl × DataView fl)) × (keyed vs ≡ some ls)
          × StartsFrom 0 ls
    unfolding object_get_data sort_views
    object_get_data-Shows f subs vs h = elim (Option-cases (sub_views subs tag left right mode s)) [
      | inl e ↦ cc (rw (object_get_data, e) at h)
      | inr (us, e) ↦ elim (Option-cases (keyed us)) [
        | inl k ↦ cc (rw (object_get_data, e, sort_views, k) at h)
        | inr (ks, k) ↦
            let ls = sort_keyed ks in
            let answer : map (λ k. k.1) ls ≡ vs =
              some-injective _ _ (rw (object_get_data, e, sort_views, k) at h) in
            let (same, all) = keyed-parts us ks k in
            let sorted = sort_keyed-Perm ks in
            let moved : Permᴰ us vs =
              subst (λ l. Permᴰ l vs) same
                (subst (Permᴰ (map (λ k. k.1) ks)) answer
                  (perm-map (λ (k : ScalarPoint fl × DataView fl). k.1) (Permᴰ.symm sorted))) in
            let (shown, covered) = sub_views-parts subs us e in
            (
              perm-All (Shows subs) moved shown,
              All-mono (λ file c. λ ws r v m. Permᴰ.mem moved (c ws r v m)) subs covered,
              ls,
              subst (λ l. keyed l ≡ some ls) answer
                  (keyed-map ls (perm-All HasKey (Permᴰ.symm sorted) all)),
              sort_keyed-StartsFrom ks,
            )
      ]
    ]
