-- ===== src/CredentialHelper.antt =====
-- src/obsidian_git_sync/credential_helper.py: what the helper prints for one action of git.
pub mod Protocol
use obsidian_git_sync_mcp.Common.{Option, none, some, not, List, [], ◌∷◌, ◌++◌, if◌then◌else◌}
use obsidian_git_sync_mcp.Text.{Text, codes, text_eq, nonempty, strip}

-- `HELPER_NAME` and `USERNAME`
abbrev pub helper_name : Text
helper_name = codes "obsidian-env"

abbrev pub username : Text
username = codes "x-access-token"

unfoldable pub action_of : List Text → Text
action_of [] = []
action_of (action ∷ args) = action

-- The standard output of `main`, which always returns 0: by its arguments and `VAULT_GIT_TOKEN`.
unfoldable pub helper_output : List Text → Option Text → Text
unfolding text_eq nonempty
helper_output args variable =
    let token = strip (elim variable [ none ↦ [] | some raw ↦ raw ]) in
    if not (text_eq (action_of args) (codes "get"))
    then []
    else if not (nonempty token)
    then []
    else (codes "username=" ++ (username ++ codes "\n"))
      ++ (codes "password=" ++ (token ++ codes "\n"))
