-- ===== src/FilePath.antt =====
-- The paths of `pathlib`: the parts between slashes, without empty ones and single dots. The root
-- `//`, which POSIX sets apart, is read as `/`.
use obsidian_git_sync_mcp.Common.{
  Bool, true, false, ◌&&◌, ◌||◌, not, List, [], ◌∷◌, ◌++◌, keep, ltb, ◌==◌, if◌then◌else◌,
}
use obsidian_git_sync_mcp.Text.{Text, codes, text_eq, nonempty, starts_with, split, join}

pub record FilePath : Type 0 where
  pub absolute : Bool
  pub parts : List Text

unfoldable pub is_part : Text → Bool
is_part p = nonempty p && not (text_eq p (codes "."))

-- `Path(s)`
unfoldable pub path_of : Text → FilePath
unfolding is_part nonempty text_eq starts_with split keep
path_of s = record { absolute = starts_with s (codes "/"); parts = keep is_part (split b'/' s) }

-- `p / q`
unfoldable pub child : FilePath → FilePath → FilePath
child p q = if q.absolute then q else record { absolute = p.absolute; parts = p.parts ++ q.parts }

-- `p / s`, for a text
unfoldable pub child_text : FilePath → Text → FilePath
unfolding child path_of
child_text p s = child p (path_of s)

-- `str(p)` and `p.as_posix()`
unfoldable pub path_text : FilePath → Text
unfolding join
path_text p =
    if p.absolute
    then b'/' ∷ join (codes "/") p.parts
    else elim p.parts [ [] ↦ codes "." | x ∷ xs ↦ join (codes "/") p.parts ]

-- `s < t`, by code points
unfoldable pub text_lt : Text → Text → Bool
text_lt [] [] = false
text_lt [] (d ∷ t) = true
text_lt (c ∷ s) [] = false
text_lt (c ∷ s) (d ∷ t) = ltb c d || (c == d) && text_lt s t

-- `p < q`, by parts
unfoldable pub parts_lt : List Text → List Text → Bool
unfolding text_lt text_eq
parts_lt [] [] = false
parts_lt [] (d ∷ t) = true
parts_lt (c ∷ s) [] = false
parts_lt (c ∷ s) (d ∷ t) = text_lt c d || text_eq c d && parts_lt s t

-- The text from the last dot on, if something stands before it and behind it; `true` says that a
-- character stands before.
extension : Text → Bool → Text
extension [] inner = []
extension (c ∷ s) inner =
    let later = extension s true in
    if nonempty later then later else if (c == b'.') && (inner && nonempty s) then c ∷ s else []

unfoldable pub last : List Text → Text
last [] = []
last (p ∷ []) = p
last (p ∷ q ∷ ps) = last (q ∷ ps)

-- `p.suffix`
unfoldable pub suffix : FilePath → Text
unfolding extension last nonempty
suffix p = extension (last p.parts) false
