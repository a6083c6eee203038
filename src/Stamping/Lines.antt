-- ===== src/Stamping/Lines.antt =====
-- src/obsidian_git_sync/stamping.py: `split_frontmatter` on a note that is put together from lines.
use obsidian_git_sync_mcp.Common.{
  ℕ, suc, ◌+◌, ◌≡◌, ◌≢◌, refl, sym, ap, ◌∙◌, true, false, some, List, [], ◌∷◌, ◌++◌, append_assoc,
  length-append, arith, All, length, take, drop, Bool-cases, inl, inr,
}
use obsidian_git_sync_mcp.Text.{Text, codes, starts_with}
use obsidian_git_sync_mcp.Text.Parts.{Lacks, any-Lacks}
use obsidian_git_sync_mcp.Stamping.Frontmatter.{drop_four}
use obsidian_git_sync_mcp.Stamping.{fm_delim, find, split_frontmatter}

-- Each line with its newline.
abbrev pub unlines : List Text → Text
unlines [] = []
unlines (l ∷ ls) = l ++ b'\n' ∷ unlines ls

-- A line, and not the one that ends a frontmatter.
abbrev pub IsPlain : Text → Type 0
IsPlain l = Lacks b'\n' l × (l ≢ codes "---")

-- A text that starts with a line: it is that text's own first line.
same_line :
    (l p r : Text)
    → Lacks b'\n' l
    → Lacks b'\n' p
    → starts_with (l ++ b'\n' ∷ r) (p ++ b'\n' ∷ []) ≡ true
    → l ≡ p
unfolding starts_with
same_line [] [] r hl hp h = refl
same_line [] (d ∷ p) r hl hp h = ground (arith, hp.0)
same_line (c ∷ l) [] r hl hp h = ground (arith, hl.0)
same_line (c ∷ l) (d ∷ p) r (c0, hl) (d0, hp) h = ground (arith, same_line l p r hl hp)

-- The search goes through a line.
find-line :
    (l r d : Text) (k : ℕ)
    → Lacks b'\n' l
    → find r (b'\n' ∷ d) ≡ some k
    → find (l ++ r) (b'\n' ∷ d) ≡ some (length l + k)
unfolding find starts_with
find-line [] r d k h e = e ∙ ap (λ n. some n) (omega arith)
find-line (x ∷ l) r d k (x0, h) e = ground (arith, find-line l r d k h e)

find-newline :
    (s d : Text) (k : ℕ)
    → starts_with s d ≡ false
    → find s (b'\n' ∷ d) ≡ some k
    → find (b'\n' ∷ s) (b'\n' ∷ d) ≡ some (suc k)
unfolding find starts_with
find-newline s d k h e = rw (h, e) refl

-- Behind the lines stands the first delimiter.
find-lines :
    (lines : List Text) (body : Text)
    → All IsPlain lines
    → find (b'\n' ∷ (unlines lines ++ (fm_delim ++ body))) (b'\n' ∷ fm_delim)
      ≡ some (length (unlines lines))
unfolding find starts_with
find-lines [] body h = refl
find-lines (l ∷ ls) body ((lacks, other), h) =
    rw (append_assoc, length-append)
      (let rest = b'\n' ∷ (unlines ls ++ (fm_delim ++ body)) in
        elim (Bool-cases (starts_with (l ++ rest) fm_delim)) [
          | inl e ↦
              absurd
                (other (same_line l (codes "---") _ lacks (any-Lacks b'\n' (codes "---") refl) e))
          | inr e ↦
              find-newline (l ++ rest) fm_delim _ e
                (find-line l rest fm_delim _ lacks (find-lines ls body h))
              ∙ ap (λ n. some n) (omega arith)
        ])

take-append : (xs ys : Text) → take (length xs) (xs ++ ys) ≡ xs
take-append [] ys = refl
take-append (x ∷ xs) ys = ap (λ t. x ∷ t) (take-append xs ys)

drop-append : (xs ys : Text) → drop (length xs) (xs ++ ys) ≡ ys
drop-append [] ys = refl
drop-append (x ∷ xs) ys = drop-append xs ys

-- A note of lines that are not the delimiter, between two delimiters, and a body: it is split into
-- exactly these lines and this body.
pub split_frontmatter-unlines :
    (lines : List Text) (body : Text)
    → All IsPlain lines
    → split_frontmatter (fm_delim ++ (unlines lines ++ (fm_delim ++ body)))
      ≡ (some (unlines lines), body)
unfolding split_frontmatter
split_frontmatter-unlines lines body h =
    rw (find-lines lines body h) (λ i. (some (take-append lines' (fm_delim ++ body) i), tail i))
  where
    lines' : Text
    lines' = unlines lines

    tail : drop (suc (suc (suc (suc (length lines'))))) (lines' ++ (fm_delim ++ body)) ≡ body
    tail =
        sym (drop_four (length lines') (lines' ++ (fm_delim ++ body)))
        ∙ ap (drop 4) (drop-append lines' (fm_delim ++ body))
