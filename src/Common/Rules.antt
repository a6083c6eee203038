-- ===== src/Common/Rules.antt =====
-- What a program keeps, whether it returns or raises: rules that follow its build.
use mathlib.Core.List.{List}
use Prim.Native.Nat.{ℕ}
use mathlib.Core.Bool.{Bool, true, false}
use obsidian_git_sync_mcp.Common.Tests.{if◌then◌else◌}
use obsidian_git_sync_mcp.Common.Effect.{
  Exn, timeout_expired, value_error, os_error, import_error, other_error, Run, returned, raised,
  Exec, ◌>>=◌, ◌>>◌, catch, on_timeout, on_os_error, final, Returns,
}

abbrev pub Keeps : {S A : Type 0} → (S → Type 0) → Exec S A → Type 0
Keeps {S} I m = (s : S) → I s → I (final (m s))

module _ {S : Type 0} (I : S → Type 0) where
  after_bind :
      {A B : Type 0} (r : Run S A) (f : A → Exec S B)
      → I (final r)
      → ((a : A) → Keeps I (f a))
      → I (final {A = B} (elim r [ returned a t ↦ f a t | raised e t ↦ raised e t ]))
  after_bind (returned a t) f h k = k a t h
  after_bind (raised e t) f h k = h

  pub bind :
      {A B : Type 0} (m : Exec S A) (f : A → Exec S B)
      → Keeps I m
      → ((a : A) → Keeps I (f a))
      → Keeps I (m >>= f)
  bind m f h k s i = after_bind (m s) f (h s i) k

  pub seq : {A B : Type 0} (m : Exec S A) (k : Exec S B) → Keeps I m → Keeps I k → Keeps I (m >> k)
  seq m k h i s j = after_bind (m s) (λ a. k) (h s j) (λ a. i)

  -- Whichever branch is taken.
  pub pick :
      {A : Type 0} (b : Bool) (m k : Exec S A)
      → Keeps I m
      → Keeps I k
      → Keeps I (if b then m else k)
  pick true m k h i = h
  pick false m k h i = i

  after_catch :
      {A : Type 0} (r : Run S A) (h : Exn → Exec S A)
      → I (final r)
      → ((e : Exn) → Keeps I (h e))
      → I (final {A = A} (elim r [ returned a t ↦ returned a t | raised e t ↦ h e t ]))
  after_catch (returned a t) h i k = i
  after_catch (raised e t) h i k = k e t i

  pub handle :
      {A : Type 0} (m : Exec S A) (h : Exn → Exec S A)
      → Keeps I m
      → ((e : Exn) → Keeps I (h e))
      → Keeps I (catch m h)
  handle m h k l s i = after_catch (m s) h (k s i) l

  after_timeout :
      {A : Type 0} (r : Run S A) (h : Exec S A)
      → I (final r)
      → Keeps I h
      → I (
          final {A = A} (elim r [
            | returned a t ↦ returned a t
            | raised e t ↦ elim e [ timeout_expired ↦ h t | other ↦ raised other t ]
          ]))
  after_timeout (returned a t) h i k = i
  after_timeout (raised timeout_expired t) h i k = k t i
  after_timeout (raised (value_error m) t) h i k = i
  after_timeout (raised (os_error m detail) t) h i k = i
  after_timeout (raised (import_error m) t) h i k = i
  after_timeout (raised (other_error m detail) t) h i k = i

  pub handle_timeout :
      {A : Type 0} (m : Exec S A) (h : Exec S A) → Keeps I m → Keeps I h → Keeps I (on_timeout m h)
  handle_timeout m h k l s i = after_timeout (m s) h (k s i) l

  after_os_error :
      {A : Type 0} (r : Run S A) (h : List ℕ → Exec S A)
      → I (final r)
      → ((name : List ℕ) → Keeps I (h name))
      → I (
          final {A = A} (elim r [
            | returned a t ↦ returned a t
            | raised e t ↦ elim e [ os_error name detail ↦ h name t | other ↦ raised other t ]
          ]))
  after_os_error (returned a t) h i k = i
  after_os_error (raised timeout_expired t) h i k = i
  after_os_error (raised (value_error m) t) h i k = i
  after_os_error (raised (os_error m detail) t) h i k = k m t i
  after_os_error (raised (import_error m) t) h i k = i
  after_os_error (raised (other_error m detail) t) h i k = i

  pub handle_os_error :
      {A : Type 0} (m : Exec S A) (h : List ℕ → Exec S A)
      → Keeps I m
      → ((name : List ℕ) → Keeps I (h name))
      → Keeps I (on_os_error m h)
  handle_os_error m h k l s i = after_os_error (m s) h (k s i) l

-- Code whose exceptions are all caught by code that returns.
Returns-catch_result :
    {S A : Type 0} (r : Run S A) (h : Exn → Exec S A)
    → ((e : Exn) (s : S) → Returns (h e s))
    → Returns {A = A} (elim r [ returned a t ↦ returned a t | raised e t ↦ h e t ])
Returns-catch_result (returned a t) h k = tt
Returns-catch_result (raised e t) h k = k e t

pub Returns-catch :
    {S A : Type 0} (m : Exec S A) (h : Exn → Exec S A) (s : S)
    → ((e : Exn) (t : S) → Returns (h e t))
    → Returns (catch m h s)
Returns-catch m h s k = Returns-catch_result (m s) h k

Returns-seq_result :
    {S A B : Type 0} (r : Run S A) (f : A → Exec S B)
    → Returns r
    → ((a : A) (s : S) → Returns (f a s))
    → Returns {A = B} (elim r [ returned a t ↦ f a t | raised e t ↦ raised e t ])
Returns-seq_result (returned a t) f h k = k a t
Returns-seq_result (raised e t) f h k = h

pub Returns-bind :
    {S A B : Type 0} (m : Exec S A) (f : A → Exec S B) (s : S)
    → Returns (m s)
    → ((a : A) (t : S) → Returns (f a t))
    → Returns ((m >>= f) s)
Returns-bind m f s h k = Returns-seq_result (m s) f h k

pub Returns-seq :
    {S A B : Type 0} (m : Exec S A) (k : Exec S B) (s : S)
    → Returns (m s)
    → ((t : S) → Returns (k t))
    → Returns ((m >> k) s)
Returns-seq m k s h i = Returns-seq_result (m s) (λ a. k) h (λ a. i)
