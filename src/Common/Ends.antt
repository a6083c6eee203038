-- ===== src/Common/Ends.antt =====
-- What holds of a program's value and state where it returns, and of its state where it raises.
use mathlib.Core.List.{List}
use Prim.Native.Nat.{ℕ}
use obsidian_git_sync_mcp.Common.Effect.{
  Exn, timeout_expired, value_error, os_error, import_error, other_error, Run, returned, raised,
  Exec, ◌>>=◌, ◌>>◌, catch, on_timeout, on_os_error, final,
}

abbrev pub Ends : {S A : Type 0} → (A → S → Type 0) → (S → Type 0) → Run S A → Type 0
Ends R E (returned a t) = R a t
Ends R E (raised e t) = E t

module _ {S : Type 0} (E : S → Type 0) where
  after_bind :
      {A B : Type 0} (R : A → S → Type 0) (R' : B → S → Type 0) (r : Run S A) (f : A → Exec S B)
      → Ends R E r
      → ((a : A) (u : S) → R a u → Ends R' E (f a u))
      → Ends {A = B} R' E (elim r [ returned a t ↦ f a t | raised e t ↦ raised e t ])
  after_bind R R' (returned a t) f h l = l a t h
  after_bind R R' (raised e t) f h l = h

  pub bind :
      {A B : Type 0} (R : A → S → Type 0) (R' : B → S → Type 0) (s : S) (m : Exec S A)
      (f : A → Exec S B)
      → Ends R E (m s)
      → ((a : A) (u : S) → R a u → Ends R' E (f a u))
      → Ends R' E ((m >>= f) s)
  bind R R' s m f = after_bind R R' (m s) f

  after_catch :
      {A : Type 0} (R : A → S → Type 0) (E' : S → Type 0) (r : Run S A) (h : Exn → Exec S A)
      → Ends R E r
      → ((e : Exn) (u : S) → E u → Ends R E' (h e u))
      → Ends {A = A} R E' (elim r [ returned a t ↦ returned a t | raised e t ↦ h e t ])
  after_catch R E' (returned a t) h i k = i
  after_catch R E' (raised e t) h i k = k e t i

  pub handle :
      {A : Type 0} (R : A → S → Type 0) (E' : S → Type 0) (s : S) (m : Exec S A)
      (h : Exn → Exec S A)
      → Ends R E (m s)
      → ((e : Exn) (u : S) → E u → Ends R E' (h e u))
      → Ends R E' (catch m h s)
  handle R E' s m h = after_catch R E' (m s) h

  after_timeout :
      {A : Type 0} (R : A → S → Type 0) (r : Run S A) (h : Exec S A)
      → Ends R E r
      → ((u : S) → E u → Ends R E (h u))
      → Ends {A = A} R E (elim r [
        | returned a t ↦ returned a t
        | raised e t ↦ elim e [ timeout_expired ↦ h t | other ↦ raised other t ]
      ])
  after_timeout R (returned a t) h i k = i
  after_timeout R (raised timeout_expired t) h i k = k t i
  after_timeout R (raised (value_error m) t) h i k = i
  after_timeout R (raised (os_error m detail) t) h i k = i
  after_timeout R (raised (import_error m) t) h i k = i
  after_timeout R (raised (other_error m detail) t) h i k = i

  pub handle_timeout :
      {A : Type 0} (R : A → S → Type 0) (s : S) (m h : Exec S A)
      → Ends R E (m s)
      → ((u : S) → E u → Ends R E (h u))
      → Ends R E (on_timeout m h s)
  handle_timeout R s m h = after_timeout R (m s) h

  after_os_error :
      {A : Type 0} (R : A → S → Type 0) (r : Run S A) (h : List ℕ → Exec S A)
      → Ends R E r
      → ((name : List ℕ) (u : S) → E u → Ends R E (h name u))
      → Ends {A = A} R E (elim r [
        | returned a t ↦ returned a t
        | raised e t ↦ elim e [ os_error name detail ↦ h name t | other ↦ raised other t ]
      ])
  after_os_error R (returned a t) h i k = i
  after_os_error R (raised timeout_expired t) h i k = i
  after_os_error R (raised (value_error m) t) h i k = i
  after_os_error R (raised (os_error m detail) t) h i k = k m t i
  after_os_error R (raised (import_error m) t) h i k = i
  after_os_error R (raised (other_error m detail) t) h i k = i

  pub handle_os_error :
      {A : Type 0} (R : A → S → Type 0) (s : S) (m : Exec S A) (h : List ℕ → Exec S A)
      → Ends R E (m s)
      → ((name : List ℕ) (u : S) → E u → Ends R E (h name u))
      → Ends R E (on_os_error m h s)
  handle_os_error R s m h = after_os_error R (m s) h

  pub seq :
      {A B : Type 0} (R : A → S → Type 0) (R' : B → S → Type 0) (s : S) (m : Exec S A)
      (k : Exec S B)
      → Ends R E (m s)
      → ((a : A) (u : S) → R a u → Ends R' E (k u))
      → Ends R' E ((m >> k) s)
  seq R R' s m k = after_bind R R' (m s) (λ a. k)

  -- A predicate of the state alone.
  pub of_final : {A : Type 0} (r : Run S A) → E (final r) → Ends (λ a u. E u) E r
  of_final (returned a t) h = h
  of_final (raised e t) h = h

  pub weaken :
      {A : Type 0} (R R' : A → S → Type 0) (r : Run S A)
      → ((a : A) (u : S) → R a u → R' a u)
      → Ends R E r
      → Ends R' E r
  weaken R R' (returned a t) k h = k a t h
  weaken R R' (raised e t) k h = h
