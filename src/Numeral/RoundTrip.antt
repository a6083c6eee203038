-- ===== src/Numeral/RoundTrip.antt =====
-- Decimal numerals, printed and read again by `int`.
use obsidian_git_sync_mcp.Common.{
  ℕ, zero, suc, ◌+◌, ◌*◌, ◌/◌, ◌%◌, ◌≤◌, ◌<◌, ◌≡◌, refl, ◌∙◌, Bool, true, false, some, [], ◌∷◌,
  ◌++◌, arith, ltb, All, All-append, length, keep, not, ◌==◌, Bool-cases, inl, inr, append_assoc,
  append-nil, ap,
}
use mathlib.Core.Path.{subst}
use obsidian_git_sync_mcp.Text.{Text, is_space, strip}
use obsidian_git_sync_mcp.Text.Strip.{IsTrimmedRight, strip_of_trimmed}
use obsidian_git_sync_mcp.Numeral.{pos, digits, decimal, digit_value, read_digits}
use obsidian_git_sync_mcp.Numeral.{read_signed, int_of, max_str_digits}

abbrev IsDigit : ℕ → Type 0
IsDigit c = (48 ≤ c) × (c ≤ 57)

digit_value_ascii : (d : ℕ) → d < 10 → digit_value (48 + d) ≡ some d
unfolding digit_value
digit_value_ascii d h = ground arith

read_digits_step :
    (d n : ℕ) (s : Text) (b : Bool)
    → d < 10
    → read_digits ((48 + d) ∷ s) n b ≡ read_digits s (n * 10 + d) true
unfolding read_digits
read_digits_step d n s b h = ground (arith, digit_value_ascii d h)

-- The digits leave the reader at the number, whatever comes behind them.
read_digits-digits :
    (f n : ℕ) (s : Text) (b : Bool)
    → n < f
    → read_digits (digits f n ++ s) 0 b ≡ read_digits s n true
unfolding digits
read_digits-digits zero n s b h = elim h [ ]
read_digits-digits (suc f) n s b h = elim (Bool-cases (ltb n 10)) [
  | inl e ↦
      rw e (read_digits_step n 0 s b (ground arith) ∙ ap (λ k. read_digits s k true) (omega arith))
  | inr e ↦
      rw (e, append_assoc)
        (read_digits-digits f (n / 10) _ b (ground arith)
          ∙ read_digits_step (n % 10) (n / 10) s true (omega arith)
          ∙ ap (λ k. read_digits s k true) (omega arith))
]

digits-IsDigit : (f n : ℕ) → All IsDigit (digits f n)
unfolding digits
digits-IsDigit zero n = tt
digits-IsDigit (suc f) n = elim (Bool-cases (ltb n 10)) [
  | inl e ↦ rw e ((omega arith, ground arith), tt)
  | inr e ↦
      rw e (All-append IsDigit _ _ (digits-IsDigit f (n / 10)) ((omega arith, omega arith), tt))
]

keep-digits : (s : Text) → All IsDigit s → keep (λ c. not (c == b'_')) s ≡ s
unfolding keep
keep-digits [] h = refl
keep-digits (c ∷ s) h = ground (arith, keep-digits s)

not-space : (c : ℕ) → IsDigit c → is_space c ≡ false
unfolding is_space
not-space c h = ground arith

IsTrimmedRight-of_digits : (s : Text) → All IsDigit s → IsTrimmedRight s
IsTrimmedRight-of_digits [] h = tt
IsTrimmedRight-of_digits (c ∷ []) h = not-space c h.0
IsTrimmedRight-of_digits (c ∷ d ∷ s) h = IsTrimmedRight-of_digits (d ∷ s) h.1

strip_of_digits : (s : Text) → All IsDigit s → strip s ≡ s
strip_of_digits [] h = strip_of_trimmed [] tt tt
strip_of_digits (c ∷ s) h =
    strip_of_trimmed (c ∷ s) (not-space c h.0) (IsTrimmedRight-of_digits (c ∷ s) h)

read_signed_of_digits :
    (s : Text) {n : ℕ}
    → All IsDigit s
    → length s ≤ max_str_digits
    → read_digits s 0 false ≡ some n
    → read_signed s ≡ some (pos n)
unfolding read_signed
read_signed_of_digits [] h k e = ground arith
read_signed_of_digits (c ∷ s) h k e = ground (arith, keep-digits (c ∷ s) h)

-- The decimal text of a number of up to 4300 digits is read back as the number.
pub int_of-decimal :
    (n : ℕ) → length (decimal n) ≤ max_str_digits → int_of (decimal n) ≡ some (pos n)
unfolding int_of decimal read_digits
int_of-decimal n h =
    let all_digits = digits-IsDigit (suc n) n in
    rw (strip_of_digits _ all_digits) (
      read_signed_of_digits _ all_digits h (
        subst (λ t. read_digits t 0 false ≡ some n) (append-nil (digits (suc n) n))
          (read_digits-digits (suc n) n [] false (omega arith))))
