-- ===== src/Common/Costs.antt =====
-- What a program costs at most, by a measure of its state: rules that follow its build.
use mathlib.Core.Bool.{Bool, true, false}
use Prim.Native.Nat.{ℕ, ◌+◌, ◌≤◌}
use native.Mathlib.Omega.{arith}
use obsidian_git_sync_mcp.Common.Effect.{
  Exn, timeout_expired, value_error, os_error, import_error, other_error, Run, returned, raised,
  Exec, ◌>>=◌, ◌>>◌, catch, on_timeout, final,
}
use obsidian_git_sync_mcp.Common.Tests.{if◌then◌else◌}

-- The measure grows by `n` at most, whether the code returns or raises.
abbrev pub Costs : {S A : Type 0} → (S → ℕ) → ℕ → Exec S A → Type 0
Costs {S} f n m = (s : S) → f (final (m s)) ≤ n + f s

module _ {S : Type 0} (f : S → ℕ) where
  pub weaken : {A : Type 0} (a b : ℕ) (m : Exec S A) → a ≤ b → Costs f a m → Costs f b m
  weaken a b m le h s = omega (arith, h s, le)

  after_bind :
      {A B : Type 0} (n b : ℕ) (r : Run S A) (k : A → Exec S B)
      → f (final r) ≤ n
      → ((a : A) → Costs f b (k a))
      → f (final {A = B} (elim r [ returned a t ↦ k a t | raised e t ↦ raised e t ])) ≤ b + n
  after_bind n b (returned a t) k h i = omega (arith, i a t, h)
  after_bind n b (raised e t) k h i = omega (arith, h)

  pub bind :
      {A B : Type 0} (a b : ℕ) (m : Exec S A) (k : A → Exec S B)
      → Costs f a m
      → ((x : A) → Costs f b (k x))
      → Costs f (a + b) (m >>= k)
  bind a b m k h i s = omega (arith, after_bind (a + f s) b (m s) k (h s) i)

  pub seq :
      {A B : Type 0} (a b : ℕ) (m : Exec S A) (k : Exec S B)
      → Costs f a m
      → Costs f b k
      → Costs f (a + b) (m >> k)
  seq a b m k h i s = omega (arith, after_bind (a + f s) b (m s) (λ x. k) (h s) (λ x. i))

  after_catch :
      {A : Type 0} (n b : ℕ) (r : Run S A) (h : Exn → Exec S A)
      → f (final r) ≤ n
      → ((e : Exn) → Costs f b (h e))
      → f (final {A = A} (elim r [ returned a t ↦ returned a t | raised e t ↦ h e t ])) ≤ b + n
  after_catch n b (returned a t) h i k = omega (arith, i)
  after_catch n b (raised e t) h i k = omega (arith, k e t, i)

  pub handle :
      {A : Type 0} (a b : ℕ) (m : Exec S A) (h : Exn → Exec S A)
      → Costs f a m
      → ((e : Exn) → Costs f b (h e))
      → Costs f (a + b) (catch m h)
  handle a b m h i k s = omega (arith, after_catch (a + f s) b (m s) h (i s) k)

  after_timeout :
      {A : Type 0} (n b : ℕ) (r : Run S A) (h : Exec S A)
      → f (final r) ≤ n
      → Costs f b h
      → f (
          final {A = A} (elim r [
            | returned a t ↦ returned a t
            | raised e t ↦ elim e [ timeout_expired ↦ h t | other ↦ raised other t ]
          ]))
        ≤ b + n
  after_timeout n b (returned a t) h i k = omega (arith, i)
  after_timeout n b (raised timeout_expired t) h i k = omega (arith, k t, i)
  after_timeout n b (raised (value_error m) t) h i k = omega (arith, i)
  after_timeout n b (raised (os_error m detail) t) h i k = omega (arith, i)
  after_timeout n b (raised (import_error m) t) h i k = omega (arith, i)
  after_timeout n b (raised (other_error m detail) t) h i k = omega (arith, i)

  pub handle_timeout :
      {A : Type 0} (a b : ℕ) (m h : Exec S A)
      → Costs f a m
      → Costs f b h
      → Costs f (a + b) (on_timeout m h)
  handle_timeout a b m h i k s = omega (arith, after_timeout (a + f s) b (m s) h (i s) k)

  -- Either branch costs as much at most.
  pub branch :
      {A : Type 0} (n : ℕ) (b : Bool) (m k : Exec S A)
      → Costs f n m
      → Costs f n k
      → Costs f n (if b then m else k)
  branch n true m k h i = h
  branch n false m k h i = i
