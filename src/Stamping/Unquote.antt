-- ===== src/Stamping/Unquote.antt =====
-- src/obsidian_git_sync/stamping.py: `TS_PATTERN.sub` line by line.
use obsidian_git_sync_mcp.Common.{
  ℕ, ◌≡◌, ◌≢◌, refl, ap, ◌∙◌, Bool, true, false, ◌&&◌, none, some, List, [], ◌∷◌, ◌++◌, map, zero,
  suc, arith, All, All-append, length, take, drop, Option-cases, subst, inl, inr, if◌then◌else◌,
}
use obsidian_git_sync_mcp.Text.{Text, codes, starts_with, split, split_from, join}
use obsidian_git_sync_mcp.Text.Parts.{Lacks, any-Lacks}
use obsidian_git_sync_mcp.Stamping.{unquote_key, unquote_line, unquote, has_form, ts_form}
use obsidian_git_sync_mcp.Stamping.Lines.{unlines, IsPlain}

-- A line and its newline in front of a text are a part of their own.
split_from-line :
    (sep : ℕ) (l r : Text) → Lacks sep l → split_from sep (l ++ sep ∷ r) ≡ (l, split sep r)
unfolding split_from split
split_from-line sep [] r h = ground arith
split_from-line sep (c ∷ l) r (c0, h) = ground (arith, split_from-line sep l r h)

split-line : (sep : ℕ) (l r : Text) → Lacks sep l → split sep (l ++ sep ∷ r) ≡ l ∷ split sep r
unfolding split
split-line sep l r h = ap (λ (p : Text × List Text). p.0 ∷ p.1) (split_from-line sep l r h)

-- The pattern is applied to each line by itself.
pub unquote-unlines :
    (ls : List Text) → All (Lacks b'\n') ls → unquote (unlines ls) ≡ unlines (map unquote_line ls)
unfolding unquote split join unquote_line unquote_key starts_with
unquote-unlines [] h = refl
unquote-unlines (l ∷ ls) (lacks, h) =
    ap (λ parts. join (b'\n' ∷ []) (map unquote_line parts)) (split-line b'\n' l (unlines ls) lacks)
    ∙ ap (λ t. unquote_line l ++ b'\n' ∷ t) (unquote-unlines ls h)

take-Lacks : (sep n : ℕ) (s : Text) → Lacks sep s → Lacks sep (take n s)
take-Lacks sep zero s h = tt
take-Lacks sep (suc n) [] h = tt
take-Lacks sep (suc n) (c ∷ s) (c0, h) = (c0, take-Lacks sep n s h)

drop-Lacks : (sep n : ℕ) (s : Text) → Lacks sep s → Lacks sep (drop n s)
drop-Lacks sep zero s h = h
drop-Lacks sep (suc n) [] h = tt
drop-Lacks sep (suc n) (c ∷ s) (c0, h) = drop-Lacks sep n s h

guarded : (b : Bool) (x new : Text) → (if b then some x else none) ≡ some new → x ≡ new
guarded true x new h = cc
guarded false x new h = cc

unquote_key-IsPlain :
    (k : ℕ) (key line new : Text)
    → k ≢ b'-'
    → Lacks b'\n' (k ∷ key)
    → Lacks b'\n' line
    → unquote_key (k ∷ key) line ≡ some new
    → IsPlain new
unfolding unquote_key
unquote_key-IsPlain k key line new k0 hk h e =
    let lead = (k ∷ key) ++ codes ": '" in
    let rest = drop (length lead) line in
    let value = take 20 rest in
    let lacks : Lacks b'\n' value =
      take-Lacks b'\n' 20 rest (drop-Lacks b'\n' (length lead) line h) in
    subst IsPlain
      (guarded (starts_with line lead && has_form (ts_form ++ b'\'' ∷ []) rest)
        ((k ∷ key) ++ (codes ": " ++ value)) new e)
      (
        All-append (λ c. c ≢ b'\n') (k ∷ key) (codes ": " ++ value) hk
            ((λ c. omega arith), ((λ c. omega arith), lacks)),
        (λ c. k0 (cc)),
      )

unquote_line-IsPlain : (line : Text) → IsPlain line → IsPlain (unquote_line line)
unfolding unquote_line
unquote_line-IsPlain line h = elim (Option-cases (unquote_key (codes "created") line)) [
  | inr (new, e) ↦ rw e (
      unquote_key-IsPlain b'c' (codes "reated") line new (λ c. omega arith)
        (any-Lacks b'\n' (codes "created") refl) h.0 e)
  | inl e ↦ rw e (elim (Option-cases (unquote_key (codes "modified") line)) [
    | inr (new, e') ↦ rw e' (
        unquote_key-IsPlain b'm' (codes "odified") line new (λ c. omega arith)
          (any-Lacks b'\n' (codes "modified") refl) h.0 e')
    | inl e' ↦ rw e' h
  ])
]

-- No line becomes the delimiter.
pub unquote_lines-IsPlain : (ls : List Text) → All IsPlain ls → All IsPlain (map unquote_line ls)
unquote_lines-IsPlain [] h = tt
unquote_lines-IsPlain (l ∷ ls) (hl, h) = (unquote_line-IsPlain l hl, unquote_lines-IsPlain ls h)
