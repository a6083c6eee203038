-- ===== src/Config/Decides.antt =====
-- src/obsidian_git_sync/config.py: what a check decides, and the chain of two checks.
use obsidian_git_sync_mcp.Common.{
  ◌≡◌, ◌↔◌, ◌⊎◌, refl, subst, ap, ◌∙◌, Bool, true, false, not, ◌&&◌, Run, returned, raised, Returns,
  final, inl, inr, ◌>>◌,
}
use obsidian_git_sync_mcp.Common.Steps.{Returns-seq_iff, seq-returned}
use obsidian_git_sync_mcp.Host.{Io, Trace, got}
use obsidian_git_sync_mcp.Config.{refuse_if, Problem}

-- From this trace the code returns exactly if the condition holds, and then it leads to that trace.
abbrev pub Decides : Io (Unit {0}) → Trace → Type 0 → Trace → Type 0
Decides m t P u = (P → m t ≡ returned tt u) × (Returns (m t) → P)

pub both :
    {t u v : Trace} {P Q : Type 0} (m k : Io (Unit {0}))
    → Decides m t P u
    → Decides k u Q v
    → Decides (m >> k) t (P × Q) v
both {t} {u} m k (p, p') (q, q') = (
  λ (a, b). seq-returned m k (p a) ∙ q b,
  λ h.
      let (hm, hk) = (Returns-seq_iff m k t).0 h in
      let a = p' hm in (a, q' (subst (λ r. Returns (k (final r))) (p a) hk)),
)

-- A check that leaves the trace alone.
pub unmoved :
    (m : Io (Unit {0})) (t : Trace) (P : Type 0)
    → final (m t) ≡ t
    → Returns (m t) ↔ P
    → Decides m t P t
unmoved m t P same (there, back) = (λ p. go (m t) same (back p), there)
  where
    go : (r : Run Trace (Unit {0})) → final r ≡ t → Returns r → r ≡ returned tt t
    go (returned a u) e h = ap (λ x. returned tt x) e
    go (raised x u) e h = absurd h

pub refuse_if-Decides :
    (b : Bool) (p : Problem) (t : Trace) → Decides (refuse_if b p) t (b ≡ false) t
unfolding refuse_if
refuse_if-Decides true p t = (λ h. cc, λ h. absurd h)
refuse_if-Decides false p t = (λ h. refl, λ h. refl)

pub got_inj : {A : Type 0} {a b : A} → got a ≡ got b → a ≡ b
got_inj e = cc

-- The same decision, for an equivalent condition.
pub restate :
    {P Q : Type 0} (m : Io (Unit {0})) (t u : Trace)
    → (P → Q)
    → (Q → P)
    → Decides m t P u
    → Decides m t Q u
restate m t u f g (p, p') = (λ q. p (g q), λ h. f (p' h))

-- The test of the credential.
pub needs_false :
    (http user tok : Bool)
    → (http ≡ true → (user ≡ true) ⊎ (tok ≡ true))
    → (http && (not user && not tok)) ≡ false
needs_false false user tok h = refl
needs_false true true tok h = refl
needs_false true false true h = refl
needs_false true false false h = elim (h refl) [ inl e ↦ cc | inr e ↦ cc ]

pub needs_true :
    (http user tok : Bool)
    → (http && (not user && not tok)) ≡ false
    → http ≡ true
    → (user ≡ true) ⊎ (tok ≡ true)
needs_true false user tok h e = absurd (cc)
needs_true true true tok h e = inl refl
needs_true true false true h e = inr refl
needs_true true false false h e = absurd (cc)
