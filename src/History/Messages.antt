-- ===== src/History/Messages.antt =====
-- The messages of the commits of a history, as git reads them from the arguments.
use obsidian_git_sync_mcp.Common.{◌≡◌, ◌≢◌, refl, ap, ◌∙◌, List, [], ◌∷◌, ◌++◌}
use obsidian_git_sync_mcp.Text.{Text, codes}
use obsidian_git_sync_mcp.GitOps.{GitOps, argv, identity_args}
use obsidian_git_sync_mcp.History.{
  operands, verb, Verb, staging, inspecting, committing, fetching, rebasing, aborting, pushing,
  other,
}
use obsidian_git_sync_mcp.History.Verbs.{operands-argv, operands-identity_args, verb-commit}

-- A commit says its message behind `commit -m`; no other command says one.
abbrev said : Verb → List Text → List Text
said committing (name ∷ option ∷ message ∷ []) = message ∷ []
said v line = []

abbrev pub messages : List (List Text) → List Text
messages [] = []
messages (line ∷ rest) = said (verb line) (operands line) ++ messages rest

said-silent : (v : Verb) (line : List Text) → v ≢ committing → said v line ≡ []
said-silent committing line h = absurd (h refl)
said-silent staging line h = refl
said-silent inspecting line h = refl
said-silent fetching line h = refl
said-silent rebasing line h = refl
said-silent aborting line h = refl
said-silent pushing line h = refl
said-silent other line h = refl

pub messages-silent :
    (line : List Text) (rest : List (List Text))
    → verb line ≢ committing
    → messages (line ∷ rest) ≡ messages rest
messages-silent line rest h =
    ap (λ m. m ++ messages rest) (said-silent (verb line) (operands line) h)

pub messages-commit :
    (g : GitOps) (message : Text) (rest : List (List Text))
    → messages (argv g (identity_args g ++ (codes "commit" ∷ codes "-m" ∷ message ∷ [])) ∷ rest)
      ≡ message ∷ messages rest
unfolding operands
messages-commit g message rest =
    ap (λ v. said v (operands line) ++ messages rest) (verb-commit g message)
    ∙ ap (λ ops. said committing ops ++ messages rest) words
  where
    line : List Text
    line = argv g (identity_args g ++ (codes "commit" ∷ codes "-m" ∷ message ∷ []))

    words : operands line ≡ codes "commit" ∷ codes "-m" ∷ message ∷ []
    words = operands-argv g _ ∙ operands-identity_args g _
