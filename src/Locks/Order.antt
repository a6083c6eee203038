-- ===== src/Locks/Order.antt =====
-- src/obsidian_git_sync/locks.py: the order in which the locks are looked at.
use mathlib.Core.List.{Perm}
use mathlib.Core.List.Perm
use obsidian_git_sync_mcp.Common.{
  ◌≡◌, refl, sym, subst, ◌∙◌, true, false, List, [], ◌∷◌, arith, Bool-cases, inl, inr,
}
use obsidian_git_sync_mcp.Text.{Text, text_eq}
use obsidian_git_sync_mcp.Text.Equality.{text_eq_refl, text_eq_iff}
use obsidian_git_sync_mcp.FilePath.{FilePath, text_lt, parts_lt}
use obsidian_git_sync_mcp.Locks.{insert_path, sort_paths}

-- No path stands directly behind one that is greater.
abbrev IsSorted : List FilePath → Type 0
IsSorted [] = Unit
IsSorted (p ∷ []) = Unit
IsSorted (p ∷ q ∷ ps) = (parts_lt q.parts p.parts ≡ false) × IsSorted (q ∷ ps)

text_lt_irrefl : (s : Text) → text_lt s s ≡ false
unfolding text_lt
text_lt_irrefl [] = refl
text_lt_irrefl (c ∷ s) = ground (arith, text_lt_irrefl s)

text_lt_asymm : (s t : Text) → text_lt s t ≡ true → text_lt t s ≡ false
unfolding text_lt
text_lt_asymm [] [] h = refl
text_lt_asymm [] (d ∷ t) h = refl
text_lt_asymm (c ∷ s) [] h = cc
text_lt_asymm (c ∷ s) (d ∷ t) h = ground (arith, text_lt_asymm s t)

parts_lt_same : (c : Text) (s t : List Text) → parts_lt (c ∷ s) (c ∷ t) ≡ parts_lt s t
unfolding parts_lt
parts_lt_same c s t = rw (text_lt_irrefl, text_eq_refl) refl

text_eq_swap : (c d : Text) → text_eq c d ≡ false → text_eq d c ≡ false
text_eq_swap c d h = elim (Bool-cases (text_eq d c)) [
  | inl e ↦ absurd (clash (sym h ∙ (text_eq_iff c d).1 (sym ((text_eq_iff d c).0 e))))
  | inr e ↦ e
]
  where
    clash : false ≡ true → ⊥
    clash e = cc

parts_lt_other :
    (c d : Text) (s t : List Text) → text_eq c d ≡ false → parts_lt (c ∷ s) (d ∷ t) ≡ text_lt c d
unfolding parts_lt
parts_lt_other c d s t h = ground (arith, h)

parts_lt_asymm : (s t : List Text) → parts_lt s t ≡ true → parts_lt t s ≡ false
unfolding parts_lt
parts_lt_asymm [] [] h = refl
parts_lt_asymm [] (d ∷ t) h = refl
parts_lt_asymm (c ∷ s) [] h = cc
parts_lt_asymm (c ∷ s) (d ∷ t) h = elim (Bool-cases (text_eq c d)) [
  | inl e ↦
      let same = (text_eq_iff c d).0 e in
      subst (λ x. parts_lt (c ∷ s) (x ∷ t) ≡ true → parts_lt (x ∷ t) (c ∷ s) ≡ false) same
        (λ k. parts_lt_same c t s ∙ parts_lt_asymm s t (sym (parts_lt_same c s t) ∙ k)) h
  | inr e ↦
      parts_lt_other d c t s (text_eq_swap c d e)
      ∙ text_lt_asymm c d (sym (parts_lt_other c d s t e) ∙ h)
]

-- What stands in front of a sorted list may stand in front of an insertion of something greater.
before-insert :
    (p q : FilePath) (qs : List FilePath)
    → parts_lt q.parts p.parts ≡ true
    → IsSorted (q ∷ qs)
    → IsSorted (insert_path p qs)
    → IsSorted (q ∷ insert_path p qs)
unfolding insert_path
before-insert p q [] e h k = (parts_lt_asymm q.parts p.parts e, tt)
before-insert p q (r ∷ rs) e h k = elim (Bool-cases (parts_lt r.parts p.parts)) [
  | inl f ↦
      subst (λ l. IsSorted (q ∷ l)) (sym (insert-later f)) (h.0, subst IsSorted (insert-later f) k)
  | inr f ↦
      subst (λ l. IsSorted (q ∷ l)) (sym (insert-here f))
        (parts_lt_asymm q.parts p.parts e, subst IsSorted (insert-here f) k)
]
  where
    insert-later : parts_lt r.parts p.parts ≡ true → insert_path p (r ∷ rs) ≡ r ∷ insert_path p rs
    insert-later f = rw (f, insert_path) refl

    insert-here : parts_lt r.parts p.parts ≡ false → insert_path p (r ∷ rs) ≡ p ∷ r ∷ rs
    insert-here f = rw (f, insert_path) refl

IsSorted-tail : (q : FilePath) (qs : List FilePath) → IsSorted (q ∷ qs) → IsSorted qs
IsSorted-tail q [] h = tt
IsSorted-tail q (r ∷ rs) h = h.1

insert-IsSorted : (p : FilePath) (qs : List FilePath) → IsSorted qs → IsSorted (insert_path p qs)
unfolding insert_path
insert-IsSorted p [] h = tt
insert-IsSorted p (q ∷ qs) h = elim (Bool-cases (parts_lt q.parts p.parts)) [
  | inl e ↦
      rw (e, insert_path) (before-insert p q qs e h (insert-IsSorted p qs (IsSorted-tail q qs h)))
  | inr e ↦ rw (e, insert_path) (e, h)
]

insert-Perm : (p : FilePath) (qs : List FilePath) → Perm (insert_path p qs) (p ∷ qs)
unfolding insert_path
insert-Perm p [] = Perm.refl (p ∷ [])
insert-Perm p (q ∷ qs) = elim (Bool-cases (parts_lt q.parts p.parts)) [
  | inl e ↦ rw (e, insert_path) (Perm.trans (Perm.cons q (insert-Perm p qs)) (Perm.swap p q qs))
  | inr e ↦ rw (e, insert_path) (Perm.refl (p ∷ q ∷ qs))
]

-- The paths of the candidates are sorted: each stands there as often as before, and none directly
-- behind a greater one.
sort_paths-IsSorted : (ps : List FilePath) → IsSorted (sort_paths ps) × Perm (sort_paths ps) ps
unfolding sort_paths
sort_paths-IsSorted [] = (tt, Perm.refl [])
sort_paths-IsSorted (p ∷ ps) =
    let (sorted, perm) = sort_paths-IsSorted ps in
    (
      insert-IsSorted p (sort_paths ps) sorted,
      Perm.trans (insert-Perm p (sort_paths ps)) (Perm.cons p perm),
    )
