-- ===== src/CredentialHelper/Protocol.antt =====
-- src/obsidian_git_sync/credential_helper.py: what git reads from the helper.
use obsidian_git_sync_mcp.Common.{
  ◌≡◌, ◌↔◌, refl, true, Option, none, some, List, [], ◌∷◌, ◌++◌, arith, map,
}
use obsidian_git_sync_mcp.Text.{Text, codes, nonempty, strip, split, partition, split_from}
use obsidian_git_sync_mcp.Text.Equality.{text_eq_iff}
use obsidian_git_sync_mcp.Text.Parts.{Lacks}
use obsidian_git_sync_mcp.CredentialHelper.{action_of, helper_output, username}

-- The lines `key=value` of a reply, read as git reads them; the last line is behind the last newline.
abbrev Pair : Type 0
Pair = Text × Text

pair_of : Text → Pair
unfolding partition
pair_of line = let p = partition b'=' line in (p.before, p.after)

unfoldable pub credential_of : Text → List Pair
unfolding pair_of split
credential_of reply = map pair_of (split b'\n' reply)

split_from-Lacks :
    (s rest : Text)
    → Lacks b'\n' s
    → split_from b'\n' (s ++ b'\n' ∷ rest)
      ≡ (s, (split_from b'\n' rest).0 ∷ (split_from b'\n' rest).1)
unfolding split_from
split_from-Lacks [] rest h = refl
split_from-Lacks (c ∷ s) rest (hc, h) = ground (arith, split_from-Lacks s rest h)

-- When git asks for a credential and the token is set, git reads the fixed user name and exactly the
-- stripped token, provided that no newline stands inside the token.
pub helper_output-get :
    (args : List Text) (raw : Text)
    → nonempty (strip raw) ≡ true
    → Lacks b'\n' (strip raw)
    → credential_of (helper_output (codes "get" ∷ args) (some raw))
      ≡ (codes "username", username) ∷ (codes "password", strip raw) ∷ ([], []) ∷ []
unfolding helper_output credential_of action_of
helper_output-get args raw h l = rw h (rw split_from-Lacks refl)

nothing_printed : nonempty [] ≡ true → ⊥
unfolding nonempty
nothing_printed h = cc

-- The value of the variable, empty where it is not set.
abbrev pub value_of : Option Text → Text
value_of none = []
value_of (some raw) = raw

-- The helper prints something exactly for the action `get` with a token that is not blank: for
-- `store`, `erase`, an unknown action or none it prints nothing.
pub helper_output_iff :
    (args : List Text) (variable : Option Text)
    → (nonempty (helper_output args variable) ≡ true)
      ↔ ((action_of args ≡ codes "get") × (nonempty (strip (value_of variable)) ≡ true))
unfolding helper_output
helper_output_iff args variable =
    ground (arith, text_eq_iff (action_of args) (codes "get"), nothing_printed)
