-- ===== src/Text.antt =====
-- Python's `str` as the list of its code points, with the methods that the program calls.
pub mod Strip
pub mod Parts
pub mod Equality
use Prim.Native.Char.{code}
use Prim.Native.String.{String}
use obsidian_git_sync_mcp.Common.{
  ℕ, ◌+◌, Bool, true, false, ◌&&◌, ◌||◌, List, [], ◌∷◌, ◌++◌, map, leb, ◌==◌, if◌then◌else◌, any,
}

abbrev pub Text : Type 0
Text = List ℕ

-- The code points of a literal.
abbrev pub codes : String → Text
codes String.[] = []
codes (String.◌∷◌ c s) = code c ∷ codes s

-- `s == t`
unfoldable pub text_eq : Text → Text → Bool
text_eq [] [] = true
text_eq [] (d ∷ t) = false
text_eq (c ∷ s) [] = false
text_eq (c ∷ s) (d ∷ t) = (c == d) && text_eq s t

-- `s in words`
unfoldable pub member : Text → List Text → Bool
unfolding text_eq
member s words = any (text_eq s) words

-- `bool(s)`
unfoldable pub nonempty : Text → Bool
nonempty [] = false
nonempty (c ∷ s) = true

-- `str.isspace` of one character, by Unicode's tables.
unfoldable pub is_space : ℕ → Bool
is_space c =
    leb 0x9 c && leb c 0xd
    || (leb 0x1c c && leb c 0x20
        || (c == 0x85
            || (c == 0xa0
                || (c == 0x1680
                    || (leb 0x2000 c && leb c 0x200a
                        || (c == 0x2028
                            || (c == 0x2029 || (c == 0x202f || (c == 0x205f || c == 0x3000)))))))))

unfoldable pub lstrip : Text → Text
lstrip [] = []
lstrip (c ∷ s) = elim (is_space c) [ true ↦ lstrip s | false ↦ c ∷ s ]

-- A character stays if it is no space or if something stays behind it.
unfoldable pub rstrip : Text → Text
rstrip [] = []
rstrip (c ∷ s) =
    let rest = rstrip s in
    elim rest [ [] ↦ elim (is_space c) [ true ↦ [] | false ↦ c ∷ [] ] | d ∷ more ↦ c ∷ d ∷ more ]

-- `s.strip()`
unfoldable pub strip : Text → Text
unfolding lstrip rstrip
strip s = rstrip (lstrip s)

-- `str.lower` of one character, for the letters that it takes to a letter of ASCII, but for U+212A
-- and U+0130, whose lower cases are in no word that the program compares with.
unfoldable pub to_lower : ℕ → ℕ
to_lower c = if leb b'A' c && leb c b'Z' then c + 32 else c

unfoldable pub lower : Text → Text
unfolding to_lower
lower = map to_lower

-- `s.startswith(p)`
unfoldable pub starts_with : Text → Text → Bool
starts_with s [] = true
starts_with [] (d ∷ p) = false
starts_with (c ∷ s) (d ∷ p) = (c == d) && starts_with s p

-- `s.endswith(p)`
unfoldable pub ends_with : Text → Text → Bool
unfolding text_eq
ends_with [] p = text_eq [] p
ends_with (c ∷ s) p = text_eq (c ∷ s) p || ends_with s p

-- `sep.join(parts)`
unfoldable pub join : Text → List Text → Text
join sep [] = []
join sep (p ∷ []) = p
join sep (p ∷ q ∷ ps) = p ++ (sep ++ join sep (q ∷ ps))

-- `s.partition(c)`
pub record Partition : Type 0 where
  pub before : Text
  pub found : Bool
  pub after : Text

unfoldable pub partition : ℕ → Text → Partition
partition sep [] = record { before = []; found = false; after = [] }
partition sep (c ∷ s) =
    let rest = partition sep s in
    elim (c == sep) [
      | true ↦ record { before = []; found = true; after = s }
      | false ↦ record { before = c ∷ rest.before; found = rest.found; after = rest.after }
    ]

-- The text before the first separator, and the parts behind it.
unfoldable pub split_from : ℕ → Text → Text × List Text
split_from sep [] = ([], [])
split_from sep (c ∷ s) =
    let (p, ps) = split_from sep s in elim (c == sep) [ true ↦ ([], p ∷ ps) | false ↦ (c ∷ p, ps) ]

-- `s.split(c)`
unfoldable pub split : ℕ → Text → List Text
unfolding split_from
split sep s = let (p, ps) = split_from sep s in p ∷ ps
