-- ===== src/Common/Effect.antt =====
-- Python's exceptions, and code that changes a state and may raise. A handler sees the state as the
-- raising code left it.
use mathlib.Core.List.{List}
use Prim.Native.Nat.{ℕ}

-- `subprocess.TimeoutExpired`, `ValueError` and `ImportError` with their messages, and any other with its
-- type's name and its message.
pub data Exn : Type 0 where
  timeout_expired : Exn
  value_error import_error : List ℕ → Exn
  os_error other_error : List ℕ → List ℕ → Exn

pub data Run (S A : Type 0) : Type 0 where
  returned : A → S → Run S A
  raised : Exn → S → Run S A

abbrev pub Exec : Type 0 → Type 0 → Type 0
Exec S A = S → Run S A

infixl 5 ◌>>=◌ ◌>>◌
abbrev pub ◌>>=◌ : {S A B : Type 0} → Exec S A → (A → Exec S B) → Exec S B
◌>>=◌ m f s = elim (m s) [ returned a t ↦ f a t | raised e t ↦ raised e t ]

abbrev pub ◌>>◌ : {S A B : Type 0} → Exec S A → Exec S B → Exec S B
◌>>◌ m k s = elim (m s) [ returned a t ↦ k t | raised e t ↦ raised e t ]

abbrev pub pure : {S A : Type 0} → A → Exec S A
pure a s = returned a s

abbrev pub throw : {S A : Type 0} → Exn → Exec S A
throw e s = raised e s

-- `try: m except Exception as e: h`
abbrev pub catch : {S A : Type 0} → Exec S A → (Exn → Exec S A) → Exec S A
catch m h s = elim (m s) [ returned a t ↦ returned a t | raised e t ↦ h e t ]

-- `try: m except subprocess.TimeoutExpired: h`
abbrev pub on_timeout : {S A : Type 0} → Exec S A → Exec S A → Exec S A
on_timeout m h s = elim (m s) [
  | returned a t ↦ returned a t
  | raised e t ↦ elim e [ timeout_expired ↦ h t | other ↦ raised other t ]
]

-- The code returns, and so raises nothing.
abbrev pub Returns : {S A : Type 0} → Run S A → Type 0
Returns (returned a s) = Unit
Returns (raised e s) = ⊥

-- The state at the end.
abbrev pub final : {S A : Type 0} → Run S A → S
final (returned a s) = s
final (raised e s) = s

-- `try: m except OSError as e: h`, where `h` gets the name of the exception's type.
abbrev pub on_os_error : {S A : Type 0} → Exec S A → (List ℕ → Exec S A) → Exec S A
on_os_error m h s = elim (m s) [
  | returned a t ↦ returned a t
  | raised e t ↦ elim e [ os_error name detail ↦ h name t | other ↦ raised other t ]
]
