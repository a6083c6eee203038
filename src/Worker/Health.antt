-- ===== src/Worker/Health.antt =====
-- src/obsidian_git_sync/worker.py: what the worker reports of a streak of failures.
use obsidian_git_sync_mcp.Common.{
  ◌≡◌, refl, sym, ap, ◌∙◌, ◌>>◌, true, none, some, ◌∷◌, arith, Run, returned, raised,
}
use obsidian_git_sync_mcp.Common.Steps.{seq-returned}
use obsidian_git_sync_mcp.Text.{Text}
use obsidian_git_sync_mcp.Numeral.{ℤ, pos, negsuc, int_eq}
use obsidian_git_sync_mcp.Host
use obsidian_git_sync_mcp.Host.{Env, Code, timeout, logged}
use obsidian_git_sync_mcp.Worker.{
  State, M, modify, code_eq, degraded, report_failure, record_failure, record_clean,
}

int_eq_refl : (n : ℤ) → int_eq n n ≡ true
unfolding int_eq
int_eq_refl (pos n) = ground arith
int_eq_refl (negsuc n) = ground arith

code_eq_refl : (c : Code) → code_eq c c ≡ true
unfolding code_eq
code_eq_refl (Host.rc n) = int_eq_refl n
code_eq_refl timeout = refl

module _ (env : Env) where
  report_failure_same :
      (what : Text) (code : Code) (s : State)
      → report_failure env (some code) what code s
        ≡ returned tt (record s { trace = logged (Host.still_degraded what code) ∷ s.trace })
  unfolding report_failure
  report_failure_same what code s = rw code_eq_refl refl

  code_recorded :
      (code : Code) (r : Run State Unit) (s : State)
      → elim r as (λ x. Run State Unit) [
        | returned a t ↦
            returned tt (record t { worker = record t.worker { degraded_rc = some code } })
        | raised e t ↦ raised e t
      ]
        ≡ returned tt s
      → s.worker.degraded_rc ≡ some code
  code_recorded code (returned a t) s e = cc
  code_recorded code (raised x t) s e = cc

  recorded :
      (what : Text) (code : Code) (s t : State)
      → record_failure env what code s ≡ returned tt t
      → t.worker.degraded_rc ≡ some code
  unfolding record_failure
  recorded what code s t e =
      code_recorded code (report_failure env s.worker.degraded_rc what code s) t e

  recording : Code → M (Unit {0})
  recording code = modify (λ w. record w { degraded_rc = some code })

  -- Recording the code that is there already changes nothing.
  same_worker :
      (code : Code) (t : State)
      → t.worker.degraded_rc ≡ some code
      → record t { worker = record t.worker { degraded_rc = some code } } ≡ t
  same_worker code t e = ap (λ d. record t { worker = record t.worker { degraded_rc = d } }) (sym e)

  repeats :
      (again : Text) (code : Code) (t : State)
      → t.worker.degraded_rc ≡ some code
      → record_failure env again code t
        ≡ returned tt (record t { trace = logged (Host.still_degraded again code) ∷ t.trace })
  unfolding record_failure recording
  repeats again code t e =
      ap (λ d. (report_failure env d again code >> recording code) t) e
      ∙ (seq-returned (report_failure env (some code) again code) (recording code)
            (report_failure_same again code t)
          ∙ ap (returned tt) (
              same_worker code
                (record t { trace = logged (Host.still_degraded again code) ∷ t.trace }) e))

  recovers :
      (code : Code) (t : State)
      → t.worker.degraded_rc ≡ some code
      → record_clean env t
        ≡ returned tt (record {
          worker = record t.worker { degraded_rc = none };
          trace = logged (Host.recovered code) ∷ t.trace;
        })
  unfolding record_clean
  recovers code t e = rw (e, record_clean) refl

  is_degraded :
      (code : Code) (t : State) → t.worker.degraded_rc ≡ some code → degraded t.worker ≡ true
  unfolding degraded
  is_degraded code t e = rw (e, degraded) refl

  -- Once a failure is recorded, the worker is degraded; the next failure with the same code only
  -- repeats that in one log line, and the next success announces the recovery in one log line and
  -- leaves a clean worker. Neither runs a command.
  record_failure-streak :
      (what again : Text) (code : Code) (s t : State)
      → record_failure env what code s ≡ returned tt t
      → (degraded t.worker ≡ true)
        × ((record_failure env again code t
              ≡ returned tt
                  (record t { trace = logged (Host.still_degraded again code) ∷ t.trace }))
            × (record_clean env t
                ≡ returned tt (record {
                  worker = record t.worker { degraded_rc = none };
                  trace = logged (Host.recovered code) ∷ t.trace;
                })))
  record_failure-streak what again code s t e =
      let d = recorded what code s t e in
      (is_degraded code t d, (repeats again code t d, recovers code t d))
