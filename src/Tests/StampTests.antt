-- ===== src/Tests/StampTests.antt =====
-- Theorems on the stamping of notes at concrete inputs.
use obsidian_git_sync_mcp.Common.{◌≡◌, refl, true, some, [], ◌∷◌, ◌++◌, All}
use obsidian_git_sync_mcp.Common.Ends.{Ends}
use obsidian_git_sync_mcp.Text.{Text, codes}
use obsidian_git_sync_mcp.Text.Parts.{any-Lacks}
use obsidian_git_sync_mcp.FilePath.{FilePath}
use obsidian_git_sync_mcp.Host.{Env, exited, got}
use obsidian_git_sync_mcp.Stamping.{fm_delim, split_frontmatter, restamp}
use obsidian_git_sync_mcp.Stamping.Lines.{IsPlain, unlines, split_frontmatter-unlines}
use obsidian_git_sync_mcp.Stamping.Restamped.{DumpsLines, IsStamped, restamp-IsStamped}
use obsidian_git_sync_mcp.Tests.World.{world, success}

abbrev note : FilePath
note = record { absolute = true; parts = codes "vault" ∷ codes "a.md" ∷ [] }

title_line : All IsPlain (codes "title: a" ∷ [])
title_line = ((any-Lacks b'\n' (codes "title: a") refl, (λ e. cc)), tt)

split_frontmatter-unlines_example :
    split_frontmatter (fm_delim ++ (unlines (codes "title: a" ∷ []) ++ (fm_delim ++ codes "body")))
    ≡ (some (unlines (codes "title: a" ∷ [])), codes "body")
split_frontmatter-unlines_example =
    split_frontmatter-unlines (codes "title: a" ∷ []) (codes "body") title_line

-- A world in which ruamel prints one line.
abbrev stamped_line : Text
stamped_line = codes "modified: '2026-06-22T12:00:00Z'"

abbrev scribe : Env
scribe = record (world (exited success)) {
  is_file = λ t p. true;
  read_text = λ t p. got (codes "---\nmodified: 2026-06-22T12:00:00Z\n---\nbody");
  yaml_get = λ d key. got (some (codes "2026-06-22T12:00:00Z"));
  yaml_dump = λ d. got (stamped_line ++ b'\n' ∷ []);
}

scribe-DumpsLines : DumpsLines scribe
scribe-DumpsLines doc out e =
    (stamped_line ∷ [], (((any-Lacks b'\n' stamped_line refl, (λ x. cc)), tt), same e))
  where
    same : got (stamped_line ++ b'\n' ∷ []) ≡ got out → out ≡ unlines (stamped_line ∷ [])
    same h = cc

restamp-IsStamped_example :
    Ends
      (λ new u.
        IsStamped scribe (codes "2026-06-22T12:00:00Z") (codes "body") (codes "title: a\n") new)
      (λ u. Unit)
      (restamp scribe (codes "title: a\n") (codes "body") (codes "2026-06-22T12:00:00Z") [])
restamp-IsStamped_example =
    restamp-IsStamped scribe (codes "2026-06-22T12:00:00Z") (codes "body") (codes "title: a\n") []
      scribe-DumpsLines
