-- ===== src/Config/Validated.antt =====
-- src/obsidian_git_sync/config.py: what the check says of the accessors and the heartbeat.
use obsidian_git_sync_mcp.Common.{
  zero, suc, ◌↔◌, ◌≡◌, true, Option, none, some, arith, Run, returned, raised, Exec, Returns, final,
}
use obsidian_git_sync_mcp.Text.{Text}
use obsidian_git_sync_mcp.Numeral.{
  ℤ, pos, negsuc, int_of, int_le_zero, Float, finite, nan, inf, neg_inf, float_le_zero,
}
use obsidian_git_sync_mcp.FilePath.{FilePath}
use obsidian_git_sync_mcp.Host.{Env, Io, Trace}
use obsidian_git_sync_mcp.Heartbeat.{ping}
use obsidian_git_sync_mcp.Config.{
  Settings, is_enabled, heartbeat_url, check_interval, check_seconds, check_vault, check_heartbeat,
  validate_gitsync, sweep_interval, push_debounce, push_max_interval, refuse, refuse_if,
  not_a_number, not_positive, interval_not_integer, interval_not_positive,
}

-- If the first part of a chain raises, the chain does.
Returns-left :
    {S A B : Type 0} (r : Run S A) (f : A → Exec S B)
    → Returns {A = B} (elim r [ returned a t ↦ f a t | raised e t ↦ raised e t ])
    → Returns r
Returns-left (returned a t) f h = tt
Returns-left (raised e t) f h = h

-- The second part runs, and returns too.
Returns-right :
    {S A B : Type 0} (r : Run S A) (k : Exec S B)
    → Returns {A = B} (elim r [ returned a t ↦ k t | raised e t ↦ raised e t ])
    → Returns (k (final r))
Returns-right (returned a t) k h = h
Returns-right (raised e t) k h = absurd h

-- A number of seconds that `value <= 0` does not refuse.
abbrev pub IsAccepted : Option Float → Type 0
IsAccepted none = ⊥
IsAccepted (some nan) = Unit
IsAccepted (some inf) = Unit
IsAccepted (some neg_inf) = ⊥
IsAccepted (some (finite (pos zero))) = ⊥
IsAccepted (some (finite (pos (suc n)))) = Unit
IsAccepted (some (finite (negsuc n))) = ⊥

seconds_iff :
    (name : Text) (t : Trace) (o : Option Float)
    → Returns (
        (elim o as (λ x. Io (Unit {0})) [
          | none ↦ refuse (not_a_number name)
          | some value ↦ refuse_if (float_le_zero value) (not_positive name)
        ])
          t)
      ↔ IsAccepted o
unfolding refuse_if float_le_zero
seconds_iff name t none = (λ h. h, λ h. h)
seconds_iff name t (some nan) = (λ h. h, λ h. h)
seconds_iff name t (some inf) = (λ h. h, λ h. h)
seconds_iff name t (some neg_inf) = (λ h. h, λ h. h)
seconds_iff name t (some (finite (pos zero))) = (λ h. h, λ h. h)
seconds_iff name t (some (finite (pos (suc n)))) = (λ h. tt, λ h. tt)
seconds_iff name t (some (finite (negsuc n))) = (λ h. h, λ h. h)

-- The check of a push timing accepts exactly the texts that `float` reads as a positive number, as
-- inf or as nan.
pub check_seconds_iff :
    (env : Env) (name raw : Text) (t : Trace)
    → Returns (check_seconds env name raw t) ↔ IsAccepted (env.float_of raw)
unfolding check_seconds
check_seconds_iff env name raw t = seconds_iff name t (env.float_of raw)

abbrev pub IsPositive : Option ℤ → Type 0
IsPositive none = ⊥
IsPositive (some (pos zero)) = ⊥
IsPositive (some (pos (suc n))) = Unit
IsPositive (some (negsuc n)) = ⊥

interval_iff :
    (t : Trace) (o : Option ℤ)
    → Returns (
        (elim o as (λ x. Io (Unit {0})) [
          | none ↦ refuse interval_not_integer
          | some interval ↦ refuse_if (int_le_zero interval) interval_not_positive
        ])
          t)
    → IsPositive o
unfolding refuse_if int_le_zero
interval_iff t none h = h
interval_iff t (some (pos zero)) h = h
interval_iff t (some (pos (suc n))) h = tt
interval_iff t (some (negsuc n)) h = h

interval-IsPositive :
    (c : Settings) (t : Trace) → Returns (check_interval c t) → IsPositive (sweep_interval c)
unfolding check_interval sweep_interval
interval-IsPositive c t h = interval_iff t (int_of c.sweep_interval) h

module _ (env : Env) (c : Settings) (vault : FilePath) where
  -- If the check returns for an enabled extension, then the accessors that the start relies on have
  -- values: a positive whole interval for the timer, and push timings that are positive, inf or nan.
  pub validate_gitsync-accessors :
      (t : Trace)
      → is_enabled c ≡ true
      → Returns (validate_gitsync env c vault t)
      → IsPositive (sweep_interval c)
        × IsAccepted (push_debounce env c)
        × IsAccepted (push_max_interval env c)
  unfolding validate_gitsync push_debounce push_max_interval
  validate_gitsync-accessors t on h =
      let h0 = rw (on, validate_gitsync) at h in
      let h1 = Returns-right (check_vault env vault t) _ h0 in
      let h2 = Returns-right (check_interval c _) _ h1 in
      let h3 = Returns-right (check_seconds env _ c.push_debounce _) _ h2 in
      (
        interval-IsPositive c _ (Returns-left (check_interval c _) _ h1),
        (check_seconds_iff env _ c.push_debounce _).0 (Returns-left (check_seconds env _ _ _) _ h2),
        (check_seconds_iff env _ c.push_max_interval _).0
            (Returns-left (check_seconds env _ _ _) _ h3),
      )

-- A heartbeat URL that the check has accepted cannot make `ping` raise.
pub check_heartbeat-ping :
    (env : Env) (c : Settings) (t u : Trace)
    → Returns (check_heartbeat env c t)
    → Returns (ping env (heartbeat_url c) u)
unfolding check_heartbeat ping
check_heartbeat-ping env c t u h = ground arith
