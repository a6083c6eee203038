-- ===== src/Config/Padded.antt =====
-- src/obsidian_git_sync/config.py: an interval with spaces around it, as an env file may have it.
use obsidian_git_sync_mcp.Common.{◌≡◌, refl, ap, [], ◌∷◌, ◌++◌, Bool-cases, inl, inr}
use obsidian_git_sync_mcp.Text.{Text, is_space, lstrip, rstrip, strip}
use obsidian_git_sync_mcp.Text.Strip.{IsBlank}

lstrip_blank : (a s : Text) → IsBlank a → lstrip (a ++ s) ≡ lstrip s
unfolding lstrip
lstrip_blank [] s h = refl
lstrip_blank (c ∷ a) s (c0, h) = rw (c0, lstrip) (lstrip_blank a s h)

rstrip_nothing : (b : Text) → IsBlank b → rstrip b ≡ []
unfolding rstrip
rstrip_nothing [] h = refl
rstrip_nothing (c ∷ b) (c0, h) = rw (rstrip_nothing b h, c0) refl

rstrip_blank : (s b : Text) → IsBlank b → rstrip (s ++ b) ≡ rstrip s
unfolding rstrip
rstrip_blank [] b h = rstrip_nothing b h
rstrip_blank (c ∷ s) b h = rw (rstrip_blank s b h) refl

lstrip_nothing : (b : Text) → IsBlank b → lstrip b ≡ []
unfolding lstrip
lstrip_nothing [] h = refl
lstrip_nothing (c ∷ b) (c0, h) = rw (c0, lstrip) (lstrip_nothing b h)

lstrip_front : (s b : Text) → IsBlank b → rstrip (lstrip (s ++ b)) ≡ rstrip (lstrip s)
unfolding lstrip
lstrip_front [] b h = ap rstrip (lstrip_nothing b h)
lstrip_front (c ∷ s) b h = elim (Bool-cases (is_space c)) [
  | inl e ↦ rw (e, lstrip) (lstrip_front s b h)
  | inr e ↦ rw (e, lstrip) (rstrip_blank (c ∷ s) b h)
]

-- Spaces at both ends are nothing to `strip`.
pub strip_padded : (a s b : Text) → IsBlank a → IsBlank b → strip (a ++ (s ++ b)) ≡ strip s
unfolding strip
strip_padded a s b ha hb = rw (lstrip_blank a (s ++ b) ha) (lstrip_front s b hb)
