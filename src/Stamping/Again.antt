-- ===== src/Stamping/Again.antt =====
-- src/obsidian_git_sync/stamping.py: a note that has just been stamped, judged again.
use obsidian_git_sync_mcp.Common.{
  ℕ, ◌≡◌, Bool, false, Option, some, ◌∷◌, if◌then◌else◌, Run, returned, ◌/◌, ◌≤◌, ◌>>=◌, ◌>>◌, pure,
}
use obsidian_git_sync_mcp.Text.{Text, codes}
use obsidian_git_sync_mcp.Numeral.{pos, second}
use obsidian_git_sync_mcp.FilePath.{FilePath}
use obsidian_git_sync_mcp.Host.{Env, Trace, looked, got, answer, Io}
use obsidian_git_sync_mcp.Stamping.{
  split_frontmatter, unquote, gate_closed, write_stamp, load_frontmatter, modified_epoch,
  stamp_note, is_note,
}
use obsidian_git_sync_mcp.Stamping.Writes.{writes}

-- What ruamel printed for a document stamped with `ts`, unquoted, it reads as a mapping whose
-- `modified` is the epoch of `ts`.
abbrev pub ReadsBack : Env → Text → ℕ → Type 0
ReadsBack env ts epoch =
    (before after : env.Doc) (out : Text)
    → env.yaml_set before (codes "modified") ts ≡ got after
    → env.yaml_dump after ≡ got out
    → (doc : env.Doc) × ((raw : Text) × ((env.yaml_load (unquote out) ≡ got (some doc))
          × ((env.yaml_get doc (codes "modified") ≡ got (some raw))
              × (env.strptime raw ≡ some (pos epoch)))))

module _ (env : Env) (path : FilePath) (v : Trace) where
  module _ (doc : env.Doc) (fm body raw new : Text) (m e : ℕ)
      (split : split_frontmatter new ≡ (some fm, body)) (load : env.yaml_load fm ≡ got (some doc))
      (get : env.yaml_get doc (codes "modified") ≡ got (some raw))
      (parse : env.strptime raw ≡ some (pos e))
      (read : env.read_text (looked path ∷ v) path ≡ got new)
      (mtime : env.mtime (looked path ∷ looked path ∷ v) path ≡ got m) (le : m / second ≤ e) where
    -- The note's two parts, judged.
    judge : Option Text × Text → Io Bool
    judge (f, rest) = do
      d ← load_frontmatter env f
      at ← (λ t. answer (env.mtime t path) (looked path ∷ t))
      modified ← modified_epoch env d
      if gate_closed env at modified then pure false else write_stamp env path new d rest

    judged : Io Bool
    judged = do note ← is_note env path; if note then stamp_note env path else pure false

    Left : Run Trace Bool → Type 0
    Left r = (w : Trace) × ((r ≡ returned false w) × (writes w ≡ writes v))

-- The text's frontmatter is the print of a document that was stamped with `ts`.
abbrev pub HasStamp : (env : Env) → Text → Text → Text → Type 0
HasStamp env ts body new =
    (before after : env.Doc) × ((out : Text) × ((env.yaml_set before (codes "modified") ts
          ≡ got after)
        × ((env.yaml_dump after ≡ got out) × (split_frontmatter new ≡ (some (unquote out), body)))))
