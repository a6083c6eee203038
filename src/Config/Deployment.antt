-- ===== src/Config/Deployment.antt =====
-- src/obsidian_git_sync/config.py: what the checks of the remote, of the identity and of the heartbeat decide.
use obsidian_git_sync_mcp.Common.{
  ℕ, ◌≡◌, refl, sym, subst, Bool, true, false, not, ◌||◌, Option, none, some, List, [], ◌∷◌, ◌++◌,
  returned, raised, Exn, value_error, Returns, if◌then◌else◌, ◌>>=◌, ◌>>◌, pure,
}
use obsidian_git_sync_mcp.Text.{Text, codes, nonempty, strip}
use obsidian_git_sync_mcp.FilePath.{FilePath}
use obsidian_git_sync_mcp.Host.{Env, Io, Trace, Answer, got, refused, GitResult, is_ok, SplitUrl}
use obsidian_git_sync_mcp.GitOps.{truthy}
use obsidian_git_sync_mcp.Config.{
  Settings, is_http, remote, heartbeat_url, identity_overrides, check_remote, check_credential,
  check_identity, check_heartbeat, run_untimed, refuse, refuse_if, no_identity, unknown_remote,
  malformed_port, not_http_url, Problem,
}
use obsidian_git_sync_mcp.Config.Decides.{Decides, both, refuse_if-Decides, restate, got_inj}
use obsidian_git_sync_mcp.Config.Checks.{
  Answers, questioned, HasCredential, credential-Decides, question-Decides,
}

module _ (env : Env) (c : Settings) (vault : FilePath) where
  abbrev pub remote_args : List Text
  remote_args = codes "remote" ∷ codes "get-url" ∷ remote c ∷ []

  -- A configured remote exists, and there is a credential for it.
  abbrev pub HasRemote : Trace → Type 0
  HasRemote t =
      nonempty (remote c) ≡ true → Answers env c vault remote_args (HasCredential env c vault) t

  abbrev pub behind_remote : Trace → Trace
  behind_remote t = if nonempty (remote c) then questioned env c vault remote_args t else t

  both_true : (a b : Bool) → (not a || not b) ≡ false → (a ≡ true) × (b ≡ true)
  both_true true true h = (refl, refl)
  both_true true false h = (refl, cc)
  both_true false b h = (cc, cc)

  not-true : (b : Bool) → not b ≡ false → b ≡ true
  not-true true h = refl
  not-true false h = cc

  ok-Decides :
      (r : GitResult) (p : Problem) (t : Trace)
      → Decides (refuse_if (not (is_ok r)) p) t (is_ok r ≡ true) t
  ok-Decides r p t =
      restate (refuse_if (not (is_ok r)) p) t t (not-true (is_ok r)) (λ h. rw h refl)
        (refuse_if-Decides (not (is_ok r)) p t)

  pub remote-Decides :
      (t : Trace) → Decides (check_remote env c vault) t (HasRemote t) (behind_remote t)
  unfolding check_remote
  remote-Decides t = go (nonempty (remote c))
    where
      asked : Io (Unit {0})
      asked = do
        r ← run_untimed env vault remote_args
        refuse_if (not (is_ok r)) (unknown_remote (remote c))
        check_credential env c (strip r.stdout)

      asked-Decides :
          Decides asked t
            (Answers env c vault remote_args (HasCredential env c vault) t)
            (questioned env c vault remote_args t)
      asked-Decides =
          question-Decides env c vault remote_args (HasCredential env c vault) _ t λ r u.
            both (refuse_if (not (is_ok r)) (unknown_remote (remote c)))
              (check_credential env c (strip r.stdout)) (ok-Decides r (unknown_remote (remote c)) u)
              (credential-Decides env c vault r u)

      go :
          (b : Bool)
          → Decides
              (if b then asked else pure tt)
              t
              (b ≡ true → Answers env c vault remote_args (HasCredential env c vault) t)
              (if b then questioned env c vault remote_args t else t)
      go true =
          restate asked t (questioned env c vault remote_args t) (λ h e. h) (λ f. f refl)
            asked-Decides
      go false = (λ f. refl, λ h e. absurd (cc))

  abbrev pub identity_question : List Text
  identity_question = identity_overrides c ++ (codes "var" ∷ codes "GIT_AUTHOR_IDENT" ∷ [])

  -- git resolves an identity, with the overrides that the worker's commits carry.
  abbrev pub HasIdentity : Trace → Type 0
  HasIdentity t = Answers env c vault identity_question (λ r. Unit) t

  pub identity-Decides :
      (t : Trace)
      → Decides
          (check_identity env c vault)
          t
          (HasIdentity t)
          (questioned env c vault identity_question t)
  unfolding check_identity
  identity-Decides t =
      question-Decides env c vault identity_question (λ r. Unit) _ t
        λ r u.
          restate (refuse_if (not (is_ok r)) no_identity) u u (λ h. (h, tt)) (λ (h, x). h)
            (ok-Decides r no_identity u)

  -- It is over HTTP and has a host and no malformed port.
  abbrev pub CanPing : SplitUrl → Type 0
  CanPing parsed =
      (port : Option ℕ) × ((parsed.port ≡ some port)
        × ((is_http parsed.scheme ≡ true) × (truthy parsed.hostname ≡ true)))

  -- A configured heartbeat URL is such a one.
  abbrev pub HasHeartbeat : Type 0
  HasHeartbeat =
      nonempty (heartbeat_url c) ≡ true
      → (parsed : SplitUrl) × ((env.urlsplit (heartbeat_url c) ≡ got parsed) × CanPing parsed)

  ported :
      (parsed : SplitUrl) (o : Option (Option ℕ)) (t : Trace)
      → parsed.port ≡ o
      → Decides
          (λ t. elim o [
            | none ↦ refuse malformed_port t
            | some port ↦
                refuse_if
                  (not (is_http parsed.scheme) || not (truthy parsed.hostname))
                  not_http_url
                  t
          ])
          t
          (CanPing parsed)
          t
  unfolding refuse
  ported parsed none t e = (λ (port, (k, l)). absurd (cc), λ h. absurd h)
  ported parsed (some port) t e =
      let http = is_http parsed.scheme in
      let host = truthy parsed.hostname in
      restate (refuse_if (not http || not host) not_http_url) t t
        (λ h. (port, (e, both_true http host h))) (λ (q, (k, (l, m))). rw (l, m) refl)
        (refuse_if-Decides (not http || not host) not_http_url t)

  unparsed :
      (x : Exn) (t : Trace)
      → Returns {A = Unit {0}}
          (elim x [ value_error m ↦ refuse malformed_port t | other ↦ raised other t ])
      → ⊥
  unfolding refuse
  unparsed (value_error m) t h = h
  unparsed _ t h = h

  pub heartbeat-Decides : (t : Trace) → Decides (check_heartbeat env c) t HasHeartbeat t
  unfolding check_heartbeat
  heartbeat-Decides t = go (nonempty (heartbeat_url c)) (env.urlsplit (heartbeat_url c))
    where
      neither : {x : Exn} → ((parsed : SplitUrl) × ((refused x ≡ got parsed) × CanPing parsed)) → ⊥
      neither (q, (e, h)) = cc

      mine :
          {p : SplitUrl}
          → ((parsed : SplitUrl) × ((got p ≡ got parsed) × CanPing parsed))
          → CanPing p
      mine (q, (e, h)) = subst CanPing (got_inj (sym e)) h

      go :
          (b : Bool) (a : Answer SplitUrl)
          → Decides
              (λ t.
                if b
                then elim a [
                  | refused e ↦ elim e [
                    | value_error m ↦ refuse malformed_port t
                    | other ↦ raised other t
                  ]
                  | got parsed ↦ elim parsed.port [
                    | none ↦ refuse malformed_port t
                    | some port ↦
                        refuse_if
                          (not (is_http parsed.scheme) || not (truthy parsed.hostname))
                          not_http_url
                          t
                  ]
                ]
                else returned tt t)
              t
              (b ≡ true → (parsed : SplitUrl) × ((a ≡ got parsed) × CanPing parsed))
              t
      go false a = (λ f. refl, λ h e. absurd (cc))
      go true (refused x) = (λ f. absurd (neither (f refl)), λ h. absurd (unparsed x t h))
      go true (got parsed) =
          let (there, back) = ported parsed parsed.port t refl in
          (λ f. there (mine (f refl)), λ h e. (parsed, (refl, back h)))
