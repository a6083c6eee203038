-- ===== src/History/Verbs.antt =====
-- What git takes each method's arguments for: the options before the command's name hide nothing.
use obsidian_git_sync_mcp.Common.{
  ◌≡◌, ◌≢◌, refl, ◌∙◌, Option, none, some, List, [], ◌∷◌, ◌++◌, arith, append_assoc, Bool-cases,
  inl, inr,
}
use obsidian_git_sync_mcp.Text.{Text, codes, nonempty}
use obsidian_git_sync_mcp.GitOps.{GitOps, argv, setting, identity_args, credential_args}
use obsidian_git_sync_mcp.History.{
  operands, verb, staging, inspecting, committing, fetching, rebasing, aborting, pushing, other,
}

pub operands-argv : (g : GitOps) (args : List Text) → operands (argv g args) ≡ operands args
unfolding operands argv
operands-argv g args = refl

pub operands-setting :
    (key : Text) (v : Option Text) (rest : List Text)
    → operands (setting key v ++ rest) ≡ operands rest
unfolding operands setting
operands-setting key none rest = refl
operands-setting key (some v) rest = elim (Bool-cases (nonempty v)) [
  | inl e ↦ rw (e, setting)
  | inr e ↦ rw (e, setting)
]

pub operands-identity_args :
    (g : GitOps) (rest : List Text) → operands (identity_args g ++ rest) ≡ operands rest
unfolding identity_args
operands-identity_args g rest = rw append_assoc (
    operands-setting (codes "user.name") g.author_name _
    ∙ operands-setting (codes "user.email") g.author_email rest)

operands-credential_args :
    (g : GitOps) (rest : List Text) → operands (credential_args g ++ rest) ≡ operands rest
unfolding operands credential_args
operands-credential_args g rest = ground arith

module _ (g : GitOps) where
  pub verb-add :
      (paths : List Text) → verb (argv g (codes "add" ∷ codes "-A" ∷ codes "--" ∷ paths)) ≡ staging
  unfolding verb argv
  verb-add paths = refl

  pub verb-add_all : verb (argv g (codes "add" ∷ codes "-A" ∷ [])) ≡ staging
  unfolding verb argv
  verb-add_all = refl

  pub verb-diff :
      verb (argv g (codes "diff" ∷ codes "--cached" ∷ codes "--quiet" ∷ [])) ≡ inspecting
  unfolding verb argv
  verb-diff = refl

  pub verb-commit :
      (message : Text)
      → verb (argv g (identity_args g ++ (codes "commit" ∷ codes "-m" ∷ message ∷ []))) ≡ committing
  unfolding verb
  verb-commit message = rw (operands-argv, operands-identity_args) (unfold operands in refl)

  pub verb-fetch :
      (remote : Text)
      → verb (argv g (credential_args g ++ (codes "fetch" ∷ remote ∷ []))) ≡ fetching
  unfolding verb
  verb-fetch remote = rw (operands-argv, operands-credential_args) (unfold operands in refl)

  pub verb-rebase :
      (upstream : Text)
      → verb (argv g (codes "rebase" ∷ codes "-X" ∷ codes "theirs" ∷ upstream ∷ [])) ≡ rebasing
  unfolding verb argv
  verb-rebase upstream = refl

  pub verb-rebase_abort : verb (argv g (codes "rebase" ∷ codes "--abort" ∷ [])) ≡ aborting
  unfolding verb argv
  verb-rebase_abort = refl

  pub verb-push :
      (remote branch : Text)
      → verb (argv g (credential_args g ++ (codes "push" ∷ remote ∷ branch ∷ []))) ≡ pushing
  unfolding verb
  verb-push remote branch = rw (operands-argv, operands-credential_args) (unfold operands in refl)

  pub verb-rev_parse : verb (argv g (codes "rev-parse" ∷ codes "--absolute-git-dir" ∷ [])) ≡ other
  unfolding verb argv
  verb-rev_parse = refl

  pub verb-current_branch :
      verb (argv g (codes "rev-parse" ∷ codes "--abbrev-ref" ∷ codes "HEAD" ∷ [])) ≡ other
  unfolding verb argv
  verb-current_branch = refl

pub staging_ne : staging ≢ committing
staging_ne e = cc

pub inspecting_ne : inspecting ≢ committing
inspecting_ne e = cc

pub fetching_ne : fetching ≢ committing
fetching_ne e = cc

pub rebasing_ne : rebasing ≢ committing
rebasing_ne e = cc

pub aborting_ne : aborting ≢ committing
aborting_ne e = cc

pub pushing_ne : pushing ≢ committing
pushing_ne e = cc

pub other_ne : other ≢ committing
other_ne e = cc
