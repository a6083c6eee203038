-- ===== src/Stamping/Restamped.antt =====
-- src/obsidian_git_sync/stamping.py: the text that `restamp` makes.
use obsidian_git_sync_mcp.Common.{
  ◌⊎◌, inl, inr, ◌≡◌, refl, Option, none, some, List, [], ◌∷◌, ◌++◌, map, All, pure,
}
use obsidian_git_sync_mcp.Common.Ends
use obsidian_git_sync_mcp.Common.Ends.{Ends}
use obsidian_git_sync_mcp.Text.{Text, codes}
use obsidian_git_sync_mcp.Text.Parts.{Lacks}
use obsidian_git_sync_mcp.Host.{Env, Trace, Answer, got, refused, answer, Io}
use obsidian_git_sync_mcp.Stamping.{fm_delim, split_frontmatter, unquote_line, unquote, restamp}
use obsidian_git_sync_mcp.Stamping.Lines.{unlines, IsPlain, split_frontmatter-unlines}
use obsidian_git_sync_mcp.Stamping.Unquote.{unquote-unlines, unquote_lines-IsPlain}

-- ruamel prints a mapping as lines, of which none is the mark of a document.
abbrev pub DumpsLines : Env → Type 0
DumpsLines env =
    (doc : env.Doc) (out : Text)
    → env.yaml_dump doc ≡ got out
    → (lines : List Text) × (All IsPlain lines × (out ≡ unlines lines))

All-fst : (lines : List Text) → All IsPlain lines → All (λ l. Lacks b'\n' l) lines
All-fst [] h = tt
All-fst (l ∷ ls) ((a, b), h) = (a, All-fst ls h)

-- The frontmatter of a note that is put together from a printed document.
split_frontmatter-unquote :
    (lines : List Text) (body : Text)
    → All IsPlain lines
    → split_frontmatter (fm_delim ++ (unquote (unlines lines) ++ (fm_delim ++ body)))
      ≡ (some (unquote (unlines lines)), body)
split_frontmatter-unquote lines body h =
    rw (unquote-unlines lines (All-fst lines h))
      (split_frontmatter-unlines (map unquote_line lines) body (unquote_lines-IsPlain lines h))

answer-got :
    {A : Type 0} (x : Answer A) (t : Trace) → Ends (λ a u. x ≡ got a) (λ u. Unit {0}) (answer x t)
answer-got (got a) t = refl
answer-got (refused e) t = tt

module _ (env : Env) (ts body : Text) where
  -- The document with `created`: its own, or a new one where it has none.
  abbrev pub IsCreated : env.Doc → env.Doc → Type 0
  IsCreated doc before =
      ((env.yaml_get doc (codes "created") ≡ got none)
        × (env.yaml_set doc (codes "created") ts ≡ got before))
      ⊎ ((c : Text) × ((env.yaml_get doc (codes "created") ≡ got (some c)) × (before ≡ doc)))

  -- The text's frontmatter is the print of this document, stamped with `ts`.
  abbrev pub IsStamped : env.Doc → Text → Type 0
  IsStamped doc new =
      (before after : env.Doc) × ((out : Text) × (IsCreated doc before
          × ((env.yaml_set before (codes "modified") ts ≡ got after)
              × ((env.yaml_dump after ≡ got out)
                  × (split_frontmatter new ≡ (some (unquote out), body))))))

  abbrev with_created : env.Doc → Option Text → Io env.Doc
  with_created doc created = elim created [
    | none ↦ answer (env.yaml_set doc (codes "created") ts)
    | some c ↦ pure doc
  ]

  with_created-IsCreated :
      (doc : env.Doc) (created : Option Text) (t : Trace)
      → env.yaml_get doc (codes "created") ≡ got created
      → Ends (λ before u. IsCreated doc before) (λ u. Unit) (with_created doc created t)
  with_created-IsCreated doc none t e =
      Ends.weaken (λ u. Unit {0}) (λ before u. env.yaml_set doc (codes "created") ts ≡ got before)
        (λ before u. IsCreated doc before) (answer (env.yaml_set doc (codes "created") ts) t)
        (λ before u f. inl (e, f)) (answer-got (env.yaml_set doc (codes "created") ts) t)
  with_created-IsCreated doc (some c) t e = inr (c, (e, refl))

  split_stamped :
      (out : Text)
      → ((lines : List Text) × (All IsPlain lines × (out ≡ unlines lines)))
      → split_frontmatter (fm_delim ++ (unquote out ++ (fm_delim ++ body)))
        ≡ (some (unquote out), body)
  split_stamped out (lines, (plain, e)) = rw e (split_frontmatter-unquote lines body plain)

  -- Where ruamel prints a mapping as lines of which none is the mark of a document: the text that a
  -- stamp makes is split again into the print of the stamped document, unquoted, and the body that
  -- it was made with; and the stamped document is the given one with the new `modified`, and with
  -- the new `created` where its own is missing or empty.
  pub restamp-IsStamped :
      (doc : env.Doc) (t : Trace)
      → DumpsLines env
      → Ends (λ new u. IsStamped doc new) (λ u. Unit) (restamp env doc body ts t)
  unfolding restamp
  restamp-IsStamped doc t laws =
      let Stamped : Text → Trace → Type 0 = λ new u. IsStamped doc new in
      Ends.bind (λ u. Unit) (λ c u. env.yaml_get doc (codes "created") ≡ got c) Stamped t
        (answer (env.yaml_get doc (codes "created"))) _
        (answer-got (env.yaml_get doc (codes "created")) t)
        (λ created u x.
          Ends.bind (λ u. Unit) (λ before u. IsCreated doc before) Stamped u
            (with_created doc created) _ (with_created-IsCreated doc created u x)
            (λ before v y.
              Ends.bind (λ u. Unit)
                (λ after w. env.yaml_set before (codes "modified") ts ≡ got after) Stamped v
                (answer (env.yaml_set before (codes "modified") ts)) _
                (answer-got (env.yaml_set before (codes "modified") ts) v)
                (λ after w set.
                  Ends.bind (λ u. Unit) (λ out w. env.yaml_dump after ≡ got out) Stamped w
                    (answer (env.yaml_dump after))
                    (λ dumped. pure (fm_delim ++ (unquote dumped ++ (fm_delim ++ body))))
                    (answer-got (env.yaml_dump after) w)
                    (λ out z dump. (
                      before,
                      after,
                      (out, (y, (set, (dump, split_stamped out (laws after out dump))))),
                    )))))
