-- ===== src/Config/Checks.antt =====
-- src/obsidian_git_sync/config.py: what the checks of the vault, of the timings and of the credential decide.
use obsidian_git_sync_mcp.Common.{
  zero, suc, ◌≡◌, ◌⊎◌, refl, sym, subst, true, not, ◌&&◌, Option, none, some, List, ◌∷◌, arith, Run,
  returned, raised, final, Bool-cases, inl, inr, ◌>>=◌,
}
use obsidian_git_sync_mcp.Text.{Text, codes, nonempty, strip}
use obsidian_git_sync_mcp.Numeral.{ℤ, pos, negsuc, int_of, int_le_zero, Float, float_le_zero}
use obsidian_git_sync_mcp.FilePath.{FilePath, child_text, path_text}
use obsidian_git_sync_mcp.Host.{
  Env, Io, Trace, looked, ran, exited, failed, Answer, got, refused, GitResult, is_ok, SplitUrl,
}
use obsidian_git_sync_mcp.GitOps.{truthy}
use obsidian_git_sync_mcp.Config.{
  Settings, is_http, token, check_interval, check_seconds, check_vault, check_credential,
  run_untimed, refuse, refuse_if, interval_not_integer, interval_not_positive, not_a_number,
  not_positive, no_credential,
}
use obsidian_git_sync_mcp.Config.Validated.{IsAccepted, IsPositive, check_seconds_iff}
use obsidian_git_sync_mcp.Config.Decides.{
  Decides, unmoved, refuse_if-Decides, restate, needs_false, needs_true, got_inj,
}

module _ (env : Env) (c : Settings) (vault : FilePath) where
  abbrev pub dot_git : FilePath
  dot_git = child_text vault (codes ".git")

  -- The vault is a directory and has an entry `.git`.
  abbrev pub HasVault : Trace → Type 0
  HasVault t = (env.is_dir t vault ≡ true) × (env.exists (looked vault ∷ t) dot_git ≡ true)

  pub vault-Decides :
      (t : Trace)
      → Decides (check_vault env vault) t (HasVault t) (looked dot_git ∷ looked vault ∷ t)
  unfolding check_vault refuse_if
  vault-Decides t = (λ (d, g). rw (d, g) refl, λ h. ground (arith, h))

  pub interval-Decides :
      (t : Trace) → Decides (check_interval c) t (IsPositive (int_of c.sweep_interval)) t
  unfolding check_interval refuse_if int_le_zero
  interval-Decides t = go (int_of c.sweep_interval)
    where
      go :
          (o : Option ℤ)
          → Decides
              (elim o as (λ x. Io (Unit {0})) [
                | none ↦ refuse interval_not_integer
                | some interval ↦ refuse_if (int_le_zero interval) interval_not_positive
              ])
              t
              (IsPositive o)
              t
      go none = (λ h. absurd h, λ h. h)
      go (some (pos zero)) = (λ h. absurd h, λ h. h)
      go (some (pos (suc n))) = (λ h. refl, λ h. tt)
      go (some (negsuc n)) = (λ h. absurd h, λ h. h)

  pub seconds-Decides :
      (name raw : Text) (t : Trace)
      → Decides (check_seconds env name raw) t (IsAccepted (env.float_of raw)) t
  unfolding check_seconds refuse_if float_le_zero
  seconds-Decides name raw t =
      unmoved (check_seconds env name raw) t _ (same (env.float_of raw))
        (check_seconds_iff env name raw t)
    where
      same :
          (o : Option Float)
          → final {A = Unit {0}} (
              (elim o as (λ x. Io (Unit {0})) [
                | none ↦ refuse (not_a_number name)
                | some value ↦ refuse_if (float_le_zero value) (not_positive name)
              ])
                t)
            ≡ t
      same none = refl
      same (some x) = elim (Bool-cases (float_le_zero x)) [ inl e ↦ rw e refl | inr e ↦ rw e refl ]

  -- git answers the question, and its answer is good.
  abbrev pub Answers : List Text → (GitResult → Type 0) → Trace → Type 0
  Answers args P t =
      (r : GitResult) × ((env.git_untimed t (codes "-C" ∷ path_text vault ∷ args) ≡ got r)
        × ((is_ok r ≡ true) × P r))

  -- The trace behind the question.
  abbrev pub questioned : List Text → Trace → Trace
  questioned args t =
      let line = codes "-C" ∷ path_text vault ∷ args in
      elim (env.git_untimed t line) [
        | got r ↦ ran line (exited r) ∷ t
        | refused e ↦ ran line (failed e) ∷ t
      ]

  -- The remote's URL can be used with what there is: it is not over HTTP, or it names a user, or the
  -- token is set.
  abbrev pub HasCredential : GitResult → Type 0
  HasCredential r =
      (parsed : SplitUrl) × ((env.urlsplit (strip r.stdout) ≡ got parsed)
        × (is_http parsed.scheme ≡ true
            → (truthy parsed.username ≡ true) ⊎ (nonempty (token c) ≡ true)))

  pub credential-Decides :
      (r : GitResult) (t : Trace)
      → Decides (check_credential env c (strip r.stdout)) t (HasCredential r) t
  unfolding check_credential refuse_if
  credential-Decides r t = go (env.urlsplit (strip r.stdout))
    where
      Usable : SplitUrl → Type 0
      Usable parsed =
          is_http parsed.scheme ≡ true
          → (truthy parsed.username ≡ true) ⊎ (nonempty (token c) ≡ true)

      go :
          (a : Answer SplitUrl)
          → Decides
              (λ t. elim a [
                | refused e ↦ raised e t
                | got parsed ↦
                    refuse_if
                      (is_http parsed.scheme
                        && (not (truthy parsed.username) && not (nonempty (token c))))
                      no_credential
                      t
              ])
              t
              ((parsed : SplitUrl) × ((a ≡ got parsed) × Usable parsed))
              t
      go (refused e) = (λ (q, (h, f)). cc, λ h. absurd h)
      go (got parsed) =
          let http = is_http parsed.scheme in
          let user = truthy parsed.username in
          let tok = nonempty (token c) in
          restate (refuse_if (http && (not user && not tok)) no_credential) t t
            (λ h. (parsed, (refl, needs_true http user tok h)))
            (λ (q, (e, f)). needs_false http user tok (subst Usable (got_inj (sym e)) f))
            (refuse_if-Decides (http && (not user && not tok)) no_credential t)

  pub question-Decides :
      (args : List Text) (P : GitResult → Type 0) (k : GitResult → Io (Unit {0})) (t : Trace)
      → ((r : GitResult) (u : Trace) → Decides (k r) u ((is_ok r ≡ true) × P r) u)
      → Decides (run_untimed env vault args >>= k) t (Answers args P t) (questioned args t)
  unfolding run_untimed
  question-Decides args P k t h = go (env.git_untimed t line)
    where
      line : List Text
      line = codes "-C" ∷ path_text vault ∷ args

      go :
          (a : Answer GitResult)
          → Decides
              (λ t.
                elim (elim a as (λ x. Run Trace GitResult) [
                  | got r ↦ returned r (ran line (exited r) ∷ t)
                  | refused e ↦ raised e (ran line (failed e) ∷ t)
                ]) [ returned r u ↦ k r u | raised e u ↦ raised e u ])
              t
              ((r : GitResult) × ((a ≡ got r) × ((is_ok r ≡ true) × P r)))
              (elim a [ got r ↦ ran line (exited r) ∷ t | refused e ↦ ran line (failed e) ∷ t ])
      go (refused e) = (λ (q, (x, f)). cc, λ x. absurd x)
      go (got r) =
          let (there, back) = h r (ran line (exited r) ∷ t) in
          (
            λ (q, (e, f)). there (subst (λ q. (is_ok q ≡ true) × P q) (got_inj (sym e)) f),
            λ x. (r, (refl, back x)),
          )
