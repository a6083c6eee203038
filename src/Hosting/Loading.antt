-- ===== src/Hosting/Loading.antt =====
-- src/obsidian_git_sync/extension_hosting.py: which instances a loading gives.
use obsidian_git_sync_mcp.Common.{
  ◌≡◌, refl, true, not, ◌||◌, some, List, [], ◌∷◌, Run, returned, raised, value_error, import_error,
  os_error, other_error, timeout_expired, ◌>>=◌, pure, Bool-cases, Option-cases, inl, inr,
}
use obsidian_git_sync_mcp.Text.{Text, nonempty, strip, partition}
use obsidian_git_sync_mcp.Host.{Answer, got, refused, answer}
use obsidian_git_sync_mcp.Hosting.{
  Importer, not_importable, refuse_spec, import_named, find_class, resolve_extension, load_specs,
}

module _ (imp : Importer) where
  -- The class that a spec names: `module.path:ClassName`, each half stripped, and the class is a
  -- subclass of the server's.
  abbrev pub Names : Text → imp.Target → Type 0
  Names spec target =
      (m : imp.Module) × ((imp.import_module (strip (partition b':' spec).before) ≡ got m)
        × ((imp.get_attr m (strip (partition b':' spec).after) ≡ some target)
            × (imp.is_extension target ≡ true)))

  -- One instance for each spec, in order, each made of the class that its spec names.
  abbrev pub Loads : List Text → List imp.Instance → Type 0
  Loads [] [] = Unit
  Loads [] (x ∷ xs) = ⊥
  Loads (spec ∷ specs) [] = ⊥
  Loads (spec ∷ specs) (x ∷ xs) =
      ((target : imp.Target) × (Names spec target × (imp.construct target ≡ got x)))
      × Loads specs xs

  abbrev Resolved : Text → Run (List Text) imp.Target → Type 0
  Resolved spec (returned target l) = Names spec target
  Resolved spec (raised e l) = Unit

  abbrev pub Loaded : List Text → Run (List Text) (List imp.Instance) → Type 0
  Loaded specs (returned xs l) = Loads specs xs
  Loaded specs (raised e l) = Unit

  module _ (spec : Text) where
    path : Text
    path = strip (partition b':' spec).before

    cls : Text
    cls = strip (partition b':' spec).after

    found :
        (m : imp.Module) (l : List Text)
        → imp.import_module path ≡ got m
        → Resolved spec (find_class imp spec path cls m l)
    unfolding find_class path cls refuse_spec
    found m l e = elim (Option-cases (imp.get_attr m cls)) [
      | inl n ↦ rw (n, find_class) tt
      | inr (target, n) ↦
          rw (n, find_class)
            (elim (Bool-cases (imp.is_extension target)) [
              | inl x ↦ rw x (m, (e, (n, x)))
              | inr x ↦ rw x tt
            ])
    ]

    imported :
        (a : Answer imp.Module) (l : List Text)
        → imp.import_module path ≡ a
        → Resolved spec
            (elim (elim a as (λ x. Run (List Text) imp.Module) [
              | got m ↦ returned m (path ∷ l)
              | refused e ↦ elim e [
                | import_error why ↦ refuse_spec imp spec (not_importable why) (path ∷ l)
                | other ↦ raised other (path ∷ l)
              ]
            ])
              as (λ x. Run (List Text) imp.Target) [
                | returned m u ↦ find_class imp spec path cls m u
                | raised e u ↦ raised e u
              ])
    unfolding refuse_spec
    imported (got m) l e = found m (path ∷ l) e
    imported (refused (import_error why)) l e = tt
    imported (refused (value_error why)) l e = tt
    imported (refused (os_error why detail)) l e = tt
    imported (refused (other_error why detail)) l e = tt
    imported (refused timeout_expired) l e = tt

    resolve_extension-Resolved : (l : List Text) → Resolved spec (resolve_extension imp spec l)
    unfolding resolve_extension import_named path cls refuse_spec
    resolve_extension-Resolved l =
        elim (Bool-cases
          (not (partition b':' spec).found || (not (nonempty path) || not (nonempty cls)))) [
            | inl e ↦ rw (e, resolve_extension) tt
            | inr e ↦ rw (e, resolve_extension) (imported (imp.import_module path) l refl)
          ]

  one :
      (spec : Text) (specs : List Text) (target : imp.Target) (x : imp.Instance)
      → Names spec target
      → imp.construct target ≡ got x
      → (r : Run (List Text) (List imp.Instance)) → Loaded specs r
      → Loaded
          (spec ∷ specs)
          (elim r [ returned xs l ↦ returned (x ∷ xs) l | raised e l ↦ raised e l ])
  one spec specs target x n c (returned xs l) h = ((target, (n, c)), h)
  one spec specs target x n c (raised e l) h = tt

  -- The instances are those of the specs, if the loading returns.
  pub load_specs-Loaded :
      (specs : List Text) (l : List Text) → Loaded specs (load_specs imp specs l)
  unfolding load_specs
  load_specs-Loaded [] l = tt
  load_specs-Loaded (spec ∷ specs) l =
      go (load_specs-Loaded specs) (resolve_extension imp spec l)
        (resolve_extension-Resolved spec l)
    where
      built :
          ((u : List Text) → Loaded specs (load_specs imp specs u))
          → (target : imp.Target) (l : List Text) (a : Answer imp.Instance) → Names spec target
          → imp.construct target ≡ a
          → Loaded (spec ∷ specs) (elim (answer {S = List Text} a l) [
            | returned x u ↦ elim (load_specs imp specs u) [
              | returned xs v ↦ returned (x ∷ xs) v
              | raised e v ↦ raised e v
            ]
            | raised e u ↦ raised e u
          ])
      built ih target l (got x) n c = one spec specs target x n c (load_specs imp specs l) (ih l)
      built ih target l (refused e) n c = tt

      go :
          ((u : List Text) → Loaded specs (load_specs imp specs u))
          → (r : Run (List Text) imp.Target) → Resolved spec r
          → Loaded (spec ∷ specs) (elim r [
            | returned target u ↦
                (do
                  x ← (λ loaded. answer (imp.construct target) loaded)
                  xs ← load_specs imp specs
                  pure (x ∷ xs))
                  u
            | raised e u ↦ raised e u
          ])
      go ih (returned target u) n = built ih target u (imp.construct target) n refl
      go ih (raised e u) n = tt
