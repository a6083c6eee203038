-- ===== src/Locks/Below.antt =====
-- src/obsidian_git_sync/locks.py: where the locks lie that the sweep may unlink.
use obsidian_git_sync_mcp.Common.{
  ◌≡◌, refl, sym, ◌∙◌, ap, subst, Bool, true, false, List, [], ◌∷◌, ◌++◌, map, keep, append_assoc,
  arith, All, Bool-cases, inl, inr,
}
use obsidian_git_sync_mcp.Text.{
  Text, codes, ends_with, starts_with, split, split_from, nonempty, text_eq,
}
use obsidian_git_sync_mcp.Text.Parts.{Lacks}
use obsidian_git_sync_mcp.FilePath.{FilePath, path_of, child, child_text, last, is_part, parts_lt}
use obsidian_git_sync_mcp.Host.{Env, Trace}
use obsidian_git_sync_mcp.Locks.{is_lock_name, insert_path, sort_paths}

-- A directory's entries are names without a slash, and a walk gives paths below where it starts.
abbrev pub ListsNames : Env → Type 0
ListsNames env =
    ((t : Trace) (d : FilePath) → All (Lacks b'/') (env.list_dir t d))
    × ((t : Trace) (d : FilePath) → All (λ p. p.absolute ≡ false) (env.walk t d))

-- A file below the git directory whose name ends in `.lock`.
abbrev pub IsLock : FilePath → FilePath → Type 0
IsLock gitdir p =
    (rest : List Text) × ((p.parts ≡ gitdir.parts ++ rest)
      × (ends_with (last rest) (codes ".lock") ≡ true))

-- What passes a test has what all have, and passes.
pub All-keep :
    {A : Type 0} (P Q : A → Type 0) (test : A → Bool) (xs : List A)
    → ((x : A) → P x → test x ≡ true → Q x)
    → All P xs
    → All Q (keep test xs)
unfolding keep
All-keep P Q test [] f h = tt
All-keep P Q test (x ∷ xs) f (p, h) = elim (Bool-cases (test x)) [
  | inl e ↦ rw (e, keep) (f x p e, All-keep P Q test xs f h)
  | inr e ↦ rw (e, keep) (All-keep P Q test xs f h)
]

pub All-map :
    {A B : Type 0} (P : B → Type 0) (f : A → B) (xs : List A)
    → All (λ x. P (f x)) xs
    → All P (map f xs)
All-map P f [] h = tt
All-map P f (x ∷ xs) (p, h) = (p, All-map P f xs h)

split_from-Lacks : (s : Text) → Lacks b'/' s → split_from b'/' s ≡ (s, [])
unfolding split_from
split_from-Lacks [] h = refl
split_from-Lacks (c ∷ s) h = ground (arith, split_from-Lacks s h.1)

starts_with-Lacks : (s : Text) → Lacks b'/' s → starts_with s (codes "/") ≡ false
unfolding starts_with
starts_with-Lacks [] h = refl
starts_with-Lacks (c ∷ s) (h, hs) = ground (arith, h)

part-of_lock : (name : Text) → is_lock_name name ≡ true → is_part name ≡ true
unfolding is_lock_name is_part text_eq nonempty ends_with
part-of_lock name e = elim (Bool-cases (is_part name)) [
  | inl h ↦ h
  | inr h ↦ absurd (neither name h e)
]
  where
    neither : (s : Text) → is_part s ≡ false → is_lock_name s ≡ true → ⊥
    neither [] h e = cc
    neither (c ∷ []) h e = ground arith
    neither (c ∷ d ∷ s) h e = ground arith

-- A name without a slash is a path of one part.
path_of-name :
    (name : Text)
    → Lacks b'/' name
    → is_lock_name name ≡ true
    → path_of name ≡ record { absolute = false; parts = name ∷ [] }
unfolding path_of split
path_of-name name h e = λ i. record { absolute = starts_with-Lacks name h i; parts = parts i }
  where
    parts : keep is_part (split b'/' name) ≡ name ∷ []
    parts =
        ap (λ (q : Text × List Text). keep is_part (q.0 ∷ q.1)) (split_from-Lacks name h)
        ∙ rw (part-of_lock name e, keep) refl

last-cons :
    (x : Text) (parts : List Text)
    → is_lock_name (last parts) ≡ true
    → last (x ∷ parts) ≡ last parts
unfolding last is_lock_name
last-cons x [] e = cc
last-cons x (p ∷ parts) e = refl

module _ (gitdir : FilePath) where
  pub entry-IsLock :
      (name : Text)
      → Lacks b'/' name
      → is_lock_name name ≡ true
      → IsLock gitdir (child_text gitdir name)
  unfolding is_lock_name child_text child path_of split last
  entry-IsLock name h e =
      subst (λ q. IsLock gitdir (child gitdir q)) (sym (path_of-name name h e))
        (name ∷ [], (refl, e))

  pub walked-IsLock :
      (p : FilePath)
      → p.absolute ≡ false
      → is_lock_name (last p.parts) ≡ true
      → IsLock gitdir (child (child_text gitdir (codes "refs")) p)
  unfolding is_lock_name child_text child path_of split last
  walked-IsLock p h e =
      rw (h, child)
        (
          codes "refs" ∷ p.parts,
          (
            append_assoc gitdir.parts (codes "refs" ∷ []) p.parts,
            ap (λ x. ends_with x (codes ".lock")) (last-cons (codes "refs") p.parts e) ∙ e,
          ),
        )

  insert-All :
      (P : FilePath → Type 0) (p : FilePath) (qs : List FilePath)
      → P p
      → All P qs
      → All P (insert_path p qs)
  unfolding insert_path
  insert-All P p [] h hs = (h, tt)
  insert-All P p (q ∷ qs) h (k, hs) = elim (Bool-cases (parts_lt q.parts p.parts)) [
    | inl e ↦ rw (e, insert_path) (k, insert-All P p qs h hs)
    | inr e ↦ rw (e, insert_path) (h, (k, hs))
  ]

  pub sort-All : (P : FilePath → Type 0) (ps : List FilePath) → All P ps → All P (sort_paths ps)
  unfolding sort_paths
  sort-All P [] h = tt
  sort-All P (p ∷ ps) (h, hs) = insert-All P p (sort_paths ps) h (sort-All P ps hs)
