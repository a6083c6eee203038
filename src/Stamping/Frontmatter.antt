-- ===== src/Stamping/Frontmatter.antt =====
-- src/obsidian_git_sync/stamping.py: `split_frontmatter` and the parts of a note.
use mathlib.Core.Option
use mathlib.Core.Option.{some-injective, some-ne-none, none-ne-some}
use mathlib.Core.Path.{ap₂, subst}
use obsidian_git_sync_mcp.Common.{
  ℕ, zero, suc, ◌≡◌, refl, ◌∙◌, ap, true, Option, none, some, [], ◌∷◌, ◌++◌, arith, take, drop,
  length, Bool-cases, inl, inr,
}
use obsidian_git_sync_mcp.Text.{Text, starts_with}
use obsidian_git_sync_mcp.Stamping.{fm_delim, find, split_frontmatter}

pub drop_four : (n : ℕ) (s : Text) → drop 4 (drop n s) ≡ drop (suc (suc (suc (suc n)))) s
drop_four zero s = refl
drop_four (suc n) [] = refl
drop_four (suc n) (x ∷ s) = drop_four n s

starts_with-append : (s p : Text) → starts_with s p ≡ true → s ≡ p ++ drop (length p) s
unfolding starts_with
starts_with-append s [] h = refl
starts_with-append [] (d ∷ p) h = cc
starts_with-append (c ∷ s) (d ∷ p) h = ground (arith, starts_with-append s p)

-- The text sought, where a text starts with it.
starts_with_parts :
    (x c : ℕ) (s d : Text)
    → starts_with (x ∷ s) (c ∷ d) ≡ true
    → x ∷ s ≡ c ∷ (d ++ drop (length d) s)
starts_with_parts x c s d h = starts_with-append (x ∷ s) (c ∷ d) h

find_later :
    (x c : ℕ) (s d : Text) (later : Option ℕ) (k : ℕ)
    → ((j : ℕ) → later ≡ some j → s ≡ take j s ++ c ∷ (d ++ drop (length d) (drop (suc j) s)))
    → Option.map suc later ≡ some k
    → x ∷ s ≡ take k (x ∷ s) ++ c ∷ (d ++ drop (length d) (drop (suc k) (x ∷ s)))
find_later x c s d none k ih h = cc
find_later x c s d (some j) zero ih h = cc
find_later x c s d (some j) (suc k) ih h = ap (λ t. x ∷ t) (ih k (cc))

find_here :
    (x c : ℕ) (s d : Text) (k : ℕ)
    → x ∷ s ≡ c ∷ (d ++ drop (length d) s)
    → ◌≡◌ {A = Option ℕ} (some 0) (some k)
    → x ∷ s ≡ take k (x ∷ s) ++ c ∷ (d ++ drop (length d) (drop (suc k) (x ∷ s)))
find_here x c s d zero e h = e
find_here x c s d (suc k) e h = absurd (ground arith)

-- What stands before the place that `find` gives, the text sought, and what stands behind it.
find-take :
    (s : Text) (c : ℕ) (d : Text) (k : ℕ)
    → find s (c ∷ d) ≡ some k
    → s ≡ take k s ++ c ∷ (d ++ drop (length d) (drop (suc k) s))
unfolding find
find-take [] c d k h = cc
find-take (x ∷ s) c d k h = elim (Bool-cases (starts_with (x ∷ s) (c ∷ d))) [
  | inl e ↦ find_here x c s d k (starts_with_parts x c s d e) (rw (e, find) at h)
  | inr e ↦ find_later x c s d (find s (c ∷ d)) k (λ j. find-take s c d j) (rw (e, find) at h)
]

-- The character found, moved from behind the part before it to the front.
shift : (k x c : ℕ) (s r : Text) → x ∷ s ≡ take k (x ∷ s) ++ c ∷ r → s ≡ take k s ++ r
shift zero x c s r h = cc
shift (suc zero) x c [] r h = cc
shift (suc (suc k)) x c [] r h = cc
shift (suc k) x c (y ∷ s) r h = ap (λ t. y ∷ t) (shift k y c s r (cc))

frontmatter_parts :
    (s : Text) (o : Option ℕ) (fm body : Text)
    → find (b'\n' ∷ s) (b'\n' ∷ fm_delim) ≡ o
    → ◌≡◌ {A = Option Text × Text}
        (elim o [
          | none ↦ (none, fm_delim ++ s)
          | some end ↦ (
            some (drop 4 (take (suc (suc (suc (suc end)))) (fm_delim ++ s))),
            drop (suc (suc (suc (suc (suc (suc (suc (suc end)))))))) (fm_delim ++ s),
          )
        ])
        (some fm, body)
    → fm_delim ++ s ≡ fm_delim ++ (fm ++ (fm_delim ++ body))
frontmatter_parts s none fm body e h = absurd (cc)
frontmatter_parts s (some end) fm body e h =
    let front : take end s ≡ fm = some-injective _ _ (ap (λ (p : Option Text × Text). p.0) h) in
    let back : drop (suc (suc (suc (suc end)))) s ≡ body = ap (λ (p : Option Text × Text). p.1) h in
    let found = shift end b'\n' b'\n' s _ (find-take (b'\n' ∷ s) b'\n' fm_delim end e) in
    ap (λ t. fm_delim ++ t)
      (found ∙ ap₂ (λ (a b : Text). a ++ (fm_delim ++ b)) front (drop_four end s ∙ back))

no_frontmatter :
    (text body : Text) (o : Option ℕ) (f g : ℕ → Text)
    → ◌≡◌ {A = Option Text × Text}
        (elim o [ none ↦ (none, text) | some end ↦ (some (f end), g end) ])
        (none, body)
    → text ≡ body
no_frontmatter text body none f g h = ap (λ (p : Option Text × Text). p.1) h
no_frontmatter text body (some end) f g h =
    absurd (some-ne-none _ (ap (λ (p : Option Text × Text). p.0) h))

delimited_parts :
    (text body : Text) (fm : Option Text)
    → starts_with text fm_delim ≡ true
    → split_frontmatter text ≡ (fm, body)
    → text ≡ elim fm [ none ↦ body | some f ↦ fm_delim ++ (f ++ (fm_delim ++ body)) ]
unfolding split_frontmatter
delimited_parts text body none e h =
    no_frontmatter text body (find (drop 3 text) (b'\n' ∷ fm_delim)) _ _
      (rw (e, split_frontmatter) at h)
delimited_parts text body (some f) e h =
    let parts = starts_with-append text fm_delim e in
    parts
    ∙ frontmatter_parts (drop 4 text) (find (b'\n' ∷ drop 4 text) (b'\n' ∷ fm_delim)) f body refl
        (subst (λ t. split_frontmatter t ≡ (some f, body)) parts h)

-- Whenever a note has a frontmatter, the note is the delimiter, the frontmatter, the delimiter and
-- the body, one behind the other; otherwise the body is the whole note.
pub split_frontmatter_parts :
    (text body : Text) (fm : Option Text)
    → split_frontmatter text ≡ (fm, body)
    → text ≡ elim fm [ none ↦ body | some f ↦ fm_delim ++ (f ++ (fm_delim ++ body)) ]
unfolding split_frontmatter
split_frontmatter_parts text body fm h = elim (Bool-cases (starts_with text fm_delim)) [
  | inl e ↦ delimited_parts text body fm e h
  | inr e ↦ plain fm (rw (e, split_frontmatter) at h)
]
  where
    plain :
        (fm : Option Text)
        → ◌≡◌ {A = Option Text × Text} (none, text) (fm, body)
        → text ≡ elim fm [ none ↦ body | some f ↦ fm_delim ++ (f ++ (fm_delim ++ body)) ]
    plain none p = ap (λ (p : Option Text × Text). p.1) p
    plain (some f) p = absurd (none-ne-some f (ap (λ (p : Option Text × Text). p.0) p))
