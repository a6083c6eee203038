-- ===== src/Hosting.antt =====
-- src/obsidian_git_sync/extension_hosting.py: the extensions that the operator declares.
pub mod Loading
use obsidian_git_sync_mcp.Common.{
  Bool, true, false, not, ◌&&◌, ◌||◌, Option, none, some, List, [], ◌∷◌, ◌++◌, map, keep,
  if◌then◌else◌, Exn, value_error, import_error, Run, returned, raised, Exec, throw, pure, ◌>>=◌,
  ◌>>◌,
}
use obsidian_git_sync_mcp.Text.{Text, codes, nonempty, strip, partition, split, Partition}
use obsidian_git_sync_mcp.Host.{Answer, got, refused, answer}

-- Python's modules and classes, and what the operator's packages hold.
pub record Importer : Type 1 where
  pub Module : Type 0
  pub Target : Type 0
  pub Instance : Type 0
  pub import_module : Text → Answer Module
  -- `none` is `AttributeError`.
  pub get_attr : Module → Text → Option Target
  pub is_extension : Target → Bool
  pub construct : Target → Answer Instance
  -- `repr` of a text and of a target, and the name that is logged for an instance
  pub repr : Text → Text
  pub repr_target : Target → Text
  pub describe : Instance → Text

-- What `_resolve_extension` refuses.
pub data SpecError : Type 0 where
  malformed : SpecError
  not_importable : Text → SpecError
  undefined : Text → Text → SpecError
  not_subclass : Text → SpecError

-- The message, behind the prefix that names the entry.
unfoldable pub spec_message : SpecError → Text
spec_message malformed = codes " is malformed: expected 'module.path:ClassName'"
spec_message (not_importable e) = codes " names a module that could not be imported: " ++ e
spec_message (undefined cls mod_path) =
    codes " names " ++ (cls ++ (codes ", which module " ++ (mod_path ++ codes " does not define")))
spec_message (not_subclass target) =
    codes " resolved to "
    ++ (target ++ codes ", which is not a subclass of obsidian_vault_mcp.extensions.Extension")

-- The state is the list of the modules that were asked for, the newest first.
abbrev pub Loading : Type 0 → Type 0
Loading A = Exec (List Text) A

module _ (imp : Importer) where
  unfoldable pub refuse_spec : {A : Type 0} → Text → SpecError → Loading A
  refuse_spec spec e =
      throw (value_error (codes "VAULT_MCP_EXTENSIONS entry " ++ (imp.repr spec ++ spec_message e)))

  -- `importlib.import_module`, with its `ImportError` named.
  unfoldable pub import_named : Text → Text → Loading imp.Module
  import_named spec path loaded = elim (imp.import_module path) [
    | got m ↦ returned m (path ∷ loaded)
    | refused e ↦ elim e [
      | import_error why ↦ refuse_spec spec (not_importable why) (path ∷ loaded)
      | other ↦ raised other (path ∷ loaded)
    ]
  ]

  unfoldable pub find_class : Text → Text → Text → imp.Module → Loading imp.Target
  find_class spec path cls m = elim (imp.get_attr m cls) [
    | none ↦ refuse_spec spec (undefined (imp.repr cls) (imp.repr path))
    | some target ↦
        if imp.is_extension target
        then pure target
        else refuse_spec spec (not_subclass (imp.repr_target target))
  ]

  unfoldable pub resolve_extension : Text → Loading imp.Target
  unfolding import_named find_class nonempty partition
  resolve_extension spec =
      let p = partition b':' spec in
      let path = strip p.before in
      let cls = strip p.after in
      if not p.found || (not (nonempty path) || not (nonempty cls))
      then refuse_spec spec malformed
      else (do m ← import_named spec path; find_class spec path cls m)

  -- The comprehension over the declared specs.
  unfoldable pub load_specs : List Text → Loading (List imp.Instance)
  unfolding resolve_extension
  load_specs [] = pure []
  load_specs (spec ∷ specs) = do
    target ← resolve_extension spec
    x ← (λ loaded. answer (imp.construct target) loaded)
    xs ← load_specs specs
    pure (x ∷ xs)

  -- The declared specs of the variable's value.
  unfoldable pub declared : Text → List Text
  unfolding split strip keep nonempty
  declared raw = keep nonempty (map strip (split b',' raw))

  unfoldable pub load_extra_extensions : Text → Loading (List imp.Instance)
  unfolding load_specs declared
  load_extra_extensions raw = load_specs (declared raw)
