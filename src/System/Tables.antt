-- ===== src/System/Tables.antt =====
-- The changes of the tables that the steps are made of.
use mathlib.Core.Path.{subst}
use mathlib.Core.Option.{some-injective}
use blue_workspace_build.Base.{
  ℕ, ◌+◌, ◌<◌, ◌≡◌, refl, sym, ap, ◌∙◌, inl, inr, true, false, some, arith, Bool-cases, Text,
  text_eq,
}
use blue_workspace_build.Base.Floats.{Floats}
use blue_workspace_build.Base.Map
use blue_workspace_build.Base.Map.{Map, text_key, nat_key}
use blue_workspace_build.Base.StringSet
use blue_workspace_build.Base.StringSet.{StringSet}
use blue_workspace_build.Manager.{Manager, Stored, file_of}
use blue_workspace_build.Manager.Index.{IsManager, erased, erased-IsManager}
use blue_workspace_build.Graphs.{Graph, Server, store_file}
use blue_workspace_build.System.{IsServer, IsObject, AreNamed}

module _ {fl : Floats} where
  -- A server with another manager.
  abbrev pub managed : Manager fl → Server fl → Server fl
  managed m s = record s { manager = m }

  pub graphs-IsServer :
      (graphs : Map Text Graph) (s : Server fl)
      → IsServer s
      → AreNamed graphs
      → IsServer (record s { graphs = graphs })
  graphs-IsServer graphs s h named = record {
    manager = h.manager;
    named = named;
    objects = h.objects;
    filed = h.filed;
  }

  pub incremental-IsServer :
      (tags : Map Text StringSet) (s : Server fl)
      → IsServer s
      → IsServer (record s { incremental = tags })
  incremental-IsServer tags s h = record {
    manager = h.manager;
    named = h.named;
    objects = h.objects;
    filed = h.filed;
  }

  pub created-IsServer :
      (created : Map Text StringSet) (s : Server fl)
      → IsServer s
      → IsServer (managed (record s.manager { created = created }) s)
  created-IsServer created s h = record {
    manager = record { known = h.manager.known; missing = h.manager.missing };
    named = h.named;
    objects = h.objects;
    filed = h.filed;
  }

  -- A pointer of the map stands under a path of the set and points below `next`.
  pub pointer-known :
      (path : Text) (i : ℕ) (m : Manager fl)
      → IsManager m
      → Map.get path m.files ≡ some (some i)
      → (StringSet.contains path m.paths ≡ true) × (i < m.next)
  pointer-known path i m h e = elim (Bool-cases (StringSet.contains path m.paths)) [
    | inl known ↦
        let (k, o, found, below, there) = h.known path known in
        let same : k ≡ i = some-injective _ _ (some-injective _ _ (sym found ∙ e)) in
        (known, rw⁻¹ (same) below)
    | inr unknown ↦ cc (h.missing path unknown, e)
  ]

  -- An object is replaced by another one of the same path.
  pub store_file-IsServer :
      (i : ℕ) (o p : Stored fl) (s : Server fl)
      → IsServer s
      → Map.get i s.manager.heap ≡ some o
      → IsObject p
      → (file_of p).file_path ≡ (file_of o).file_path
      → IsServer (store_file i p s)
  unfolding store_file
  store_file-IsServer i o p s h there good same = record {
    manager = record {
      known = λ path e.
          let (k, q, found, below, here) = h.manager.known path e in
          let (r, now) = Map.put-there i k p q s.manager.heap here in (k, r, found, below, now);
      missing = h.manager.missing;
    };
    named = h.named;
    objects = λ k q e. elim (Map.put-inv i k p q s.manager.heap e) [
      | inl (_, new) ↦ subst IsObject new good
      | inr old ↦ h.objects k q old
    ];
    filed = λ path k q e f. elim (Map.put-inv i k p q s.manager.heap f) [
      | inl (at, new) ↦
          ap (λ x. (file_of x).file_path) (sym new)
          ∙ same
          ∙ h.filed path k o e (ap (λ x. Map.get x s.manager.heap) (sym at) ∙ there)
      | inr old ↦ h.filed path k q e old
    ];
  }

  -- A new object that no path points to yet.
  abbrev pub grown : Stored fl → Server fl → Server fl
  grown o s =
      managed
        (record s.manager {
          heap = Map.put s.manager.next o s.manager.heap;
          next = s.manager.next + 1;
        })
        s

  pub grown-IsServer :
      (o : Stored fl) (s : Server fl) → IsServer s → IsObject o → IsServer (grown o s)
  grown-IsServer o s h good = record {
    manager = record {
      known = λ path e.
          let (k, q, found, below, here) = h.manager.known path e in
          let (r, now) = Map.put-there s.manager.next k o q s.manager.heap here in
          (k, r, found, omega arith, now);
      missing = h.manager.missing;
    };
    named = h.named;
    objects = λ k q e. elim (Map.put-inv s.manager.next k o q s.manager.heap e) [
      | inl (_, new) ↦ subst IsObject new good
      | inr old ↦ h.objects k q old
    ];
    filed = λ path k q e f. elim (Map.put-inv s.manager.next k o q s.manager.heap f) [
      | inl (at, _) ↦
          let below = (pointer-known path k s.manager h.manager e).1 in absurd (omega arith)
      | inr old ↦ h.filed path k q e old
    ];
  }

  -- A path that points to an object.
  pub linked-IsServer :
      (path : Text) (i : ℕ) (o : Stored fl) (s : Server fl)
      → IsServer s
      → Map.get i s.manager.heap ≡ some o
      → i < s.manager.next
      → (file_of o).file_path ≡ path
      → IsServer (
          managed
            (record s.manager {
              paths = StringSet.insert path s.manager.paths;
              files = Map.put path (some i) s.manager.files;
            })
            s)
  linked-IsServer path i o s h there below same = record {
    manager = record {
      known = λ other e. elim (Bool-cases (text_eq path other)) [
        | inl at ↦ (i, o, rw (Map.get-put, at) refl, below, there)
        | inr off ↦
            let (k, q, found, under, here) =
              h.manager.known other
                (ground (arith, off, e, StringSet.contains-insert path other s.manager.paths)) in
            (k, q, rw (Map.get-put, off) found, under, here)
      ];
      missing = λ other e.
          let out = StringSet.contains-insert path other s.manager.paths in
          let off : text_eq path other ≡ false = ground (arith, e, out) in
          rw (Map.get-put, off) (h.manager.missing other (ground (arith, e, out)));
    };
    named = h.named;
    objects = h.objects;
    filed = λ other k q e f. elim (Map.put-inv path other (some i) (some k) s.manager.files e) [
      | inl (at, new) ↦
          let this : i ≡ k = some-injective _ _ new in
          let object : o ≡ q =
            some-injective _ _ (sym there ∙ ap (λ x. Map.get x s.manager.heap) this ∙ f) in
          ap (λ x. (file_of x).file_path) (sym object) ∙ same ∙ at
      | inr old ↦ h.filed other k q old f
    ];
  }

  -- A path that points to nothing any more.
  pub erased-IsServer :
      (path : Text) (s : Server fl) → IsServer s → IsServer (managed (erased path s.manager) s)
  erased-IsServer path s h = record {
    manager = erased-IsManager path s.manager h.manager;
    named = h.named;
    objects = h.objects;
    filed = λ other k q e f. elim (Bool-cases (text_eq path other)) [
      | inl at ↦ cc (rw (Map.get-erase, at) at e)
      | inr off ↦ h.filed other k q (rw (Map.get-erase, off) at e) f
    ];
  }
