-- ===== src/Common/Steps.antt =====
-- What chained code does, by the outcome of its first part.
use mathlib.Core.Path.{◌≡◌, refl, ap}
use mathlib.Core.Logic.{◌↔◌}
use obsidian_git_sync_mcp.Common.Effect.{
  Exn, Run, returned, raised, Exec, ◌>>=◌, ◌>>◌, catch, Returns, final,
}

module _ {S A B : Type 0} {s t : S} where
  pub bind-returned :
      {a : A} (m : Exec S A) (f : A → Exec S B) → m s ≡ returned a t → (m >>= f) s ≡ f a t
  bind-returned m f =
      ap (λ r. elim r as (λ x. Run S B) [ returned a u ↦ f a u | raised e u ↦ raised e u ])

  pub bind-raised :
      {e : Exn} (m : Exec S A) (f : A → Exec S B) → m s ≡ raised e t → (m >>= f) s ≡ raised e t
  bind-raised m f =
      ap (λ r. elim r as (λ x. Run S B) [ returned a u ↦ f a u | raised e u ↦ raised e u ])

  pub seq-returned : {a : A} (m : Exec S A) (k : Exec S B) → m s ≡ returned a t → (m >> k) s ≡ k t
  seq-returned m k = bind-returned m (λ a. k)

  pub seq-raised :
      {e : Exn} (m : Exec S A) (k : Exec S B) → m s ≡ raised e t → (m >> k) s ≡ raised e t
  seq-raised m k = bind-raised m (λ a. k)

module _ {S A : Type 0} {s t : S} where
  pub catch-returned :
      {a : A} (m : Exec S A) (h : Exn → Exec S A) → m s ≡ returned a t → catch m h s ≡ returned a t
  catch-returned m h =
      ap (λ r. elim r as (λ x. Run S A) [ returned a u ↦ returned a u | raised e u ↦ h e u ])

  pub catch-raised :
      {e : Exn} (m : Exec S A) (h : Exn → Exec S A) → m s ≡ raised e t → catch m h s ≡ h e t
  catch-raised m h =
      ap (λ r. elim r as (λ x. Run S A) [ returned a u ↦ returned a u | raised e u ↦ h e u ])

-- Code that returns ends as its first part's value and state go on.
pub seq-eq-returned :
    {S A B : Type 0} {b : B} {t : S} (m : Exec S A) (k : Exec S B) (s : S)
    → (m >> k) s ≡ returned b t
    → (a : A) × ((u : S) × ((m s ≡ returned a u) × (k u ≡ returned b t)))
seq-eq-returned {S} {A} {B} {b} {t} m k s h = go (m s) refl h
  where
    go :
        (r : Run S A)
        → m s ≡ r
        → ◌≡◌ {A = Run S B} (elim r [ returned a u ↦ k u | raised e u ↦ raised e u ]) (returned b t)
        → (a : A) × ((u : S) × ((m s ≡ returned a u) × (k u ≡ returned b t)))
    go (returned a u) e h = (a, (u, (e, h)))
    go (raised x u) e h = cc

pub eq-returned-final : {S : Type 0} (r : Run S (Unit {0})) → Returns r → r ≡ returned tt (final r)
eq-returned-final (returned a u) h = refl
eq-returned-final (raised e u) h = absurd h

-- Chained code returns exactly if its first part does, and its second part where that ends.
pub Returns-seq_iff :
    {S A B : Type 0} (m : Exec S A) (k : Exec S B) (s : S)
    → Returns ((m >> k) s) ↔ (Returns (m s) × Returns (k (final (m s))))
Returns-seq_iff {S} {A} {B} m k s = go (m s)
  where
    go :
        (r : Run S A)
        → Returns {A = B} (elim r [ returned a u ↦ k u | raised e u ↦ raised e u ])
          ↔ (Returns r × Returns (k (final r)))
    go (returned a u) = (λ h. (tt, h), λ h. h.1)
    go (raised e u) = (λ h. absurd h, λ h. h.0)

-- Where the first part returns, the end is that of the second.
pub final-seq :
    {S A B : Type 0} (m : Exec S A) (k : Exec S B) (s : S)
    → Returns (m s)
    → final ((m >> k) s) ≡ final (k (final (m s)))
final-seq {S} {A} {B} m k s = go (m s)
  where
    go :
        (r : Run S A)
        → Returns r
        → final (elim r as (λ x. Run S B) [ returned a u ↦ k u | raised x u ↦ raised x u ])
          ≡ final (k (final r))
    go (returned a u) h = refl
    go (raised x u) h = absurd h
