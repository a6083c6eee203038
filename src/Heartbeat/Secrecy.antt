-- ===== src/Heartbeat/Secrecy.antt =====
-- src/obsidian_git_sync/heartbeat.py: what the log tells of the URL, which is a secret.
use obsidian_git_sync_mcp.Common.{
  refl, ap, Exn, timeout_expired, value_error, import_error, os_error, other_error, ◌≡◌, true,
  arith, List, [], ◌∷◌, final, sym, ◌∙◌,
}
use obsidian_git_sync_mcp.Text.{Text, nonempty}
use obsidian_git_sync_mcp.Host.{
  Env, Trace, Log, Answer, got, refused, exn_name, heartbeat_failed, SplitUrl, ran, logged, looked,
  read_clock, wrote, unlinked, pinged,
}
use obsidian_git_sync_mcp.Heartbeat.{host_of, fetch_url, ping}

-- The log lines of a trace.
unfoldable pub logs : Trace → List Log
logs [] = []
logs (logged l ∷ t) = l ∷ logs t
logs (ran line r ∷ t) = logs t
logs (looked p ∷ t) = logs t
logs (read_clock ∷ t) = logs t
logs (wrote p s ∷ t) = logs t
logs (unlinked p done ∷ t) = logs t
logs (pinged s ∷ t) = logs t

-- Two exceptions of the same type, whatever their messages.
abbrev SameType : Exn → Exn → Type 0
SameType timeout_expired timeout_expired = Unit
SameType (value_error m) (value_error n) = Unit
SameType (import_error m) (import_error n) = Unit
SameType (os_error a m) (os_error b n) = a ≡ b
SameType (other_error a m) (other_error b n) = a ≡ b
SameType _ _ = ⊥

-- Two requests that both succeed, or fail with the same type of exception.
abbrev pub Alike : Answer Text → Answer Text → Type 0
Alike (got a) (got b) = Unit
Alike (refused e) (refused x) = SameType e x
Alike _ _ = ⊥

SameType-name : (e x : Exn) → SameType e x → exn_name e ≡ exn_name x
unfolding exn_name
SameType-name timeout_expired timeout_expired k = refl
SameType-name (value_error m) (value_error n) k = refl
SameType-name (import_error m) (import_error n) k = refl
SameType-name (os_error a m) (os_error b n) k = k
SameType-name (other_error a m) (other_error b n) k = k
SameType-name _ _ k = absurd k

-- The lines of a ping: none, or its host and the type of the exception.
lines_of : Text → Answer Text → List Log → List Log
lines_of host (got body) ls = ls
lines_of host (refused e) ls = heartbeat_failed host (exn_name e) ∷ ls

module _ (env : Env) (t : Trace) where
  logs-ping :
      (url : Text) (parsed : SplitUrl)
      → nonempty url ≡ true
      → env.urlsplit url ≡ got parsed
      → logs (final (ping env url t)) ≡ lines_of (host_of parsed) (fetch_url env t url) (logs t)
  unfolding ping logs lines_of
  logs-ping url parsed n e = ground (arith, n, e)

  lines_of-Alike :
      (h : Text) (a b : Answer Text) (ls : List Log) → Alike a b → lines_of h a ls ≡ lines_of h b ls
  unfolding lines_of exn_name
  lines_of-Alike h (got a) (got b) ls k = refl
  lines_of-Alike h (got a) (refused e) ls k = absurd k
  lines_of-Alike h (refused e) (got b) ls k = absurd k
  lines_of-Alike h (refused e) (refused x) ls k =
      ap (λ name. heartbeat_failed h name ∷ ls) (SameType-name e x k)

  -- Of the URL a ping logs nothing but the host: two URLs with the same host, whose requests both
  -- succeed or both end with an exception of the same type, whatever the messages of the two
  -- exceptions say, leave the same log.
  pub ping_host :
      (url other : Text) (parsed parsed' : SplitUrl)
      → nonempty url ≡ true
      → nonempty other ≡ true
      → env.urlsplit url ≡ got parsed
      → env.urlsplit other ≡ got parsed'
      → host_of parsed ≡ host_of parsed'
      → Alike (fetch_url env t url) (fetch_url env t other)
      → logs (final (ping env url t)) ≡ logs (final (ping env other t))
  ping_host url other parsed parsed' n n' e e' host alike =
      logs-ping url parsed n e
      ∙ (ap (λ h. lines_of h (fetch_url env t url) (logs t)) host
          ∙ (lines_of-Alike (host_of parsed') _ _ (logs t) alike
              ∙ sym (logs-ping other parsed' n' e')))
