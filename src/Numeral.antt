-- ===== src/Numeral.antt =====
-- Python's numbers: `int` as ℤ, `float` by what the program asks of it, their text, and `int(s)`.
pub mod RoundTrip
use obsidian_git_sync_mcp.Common.{
  ℕ, zero, suc, ◌+◌, ◌-◌, ◌*◌, ◌/◌, ◌%◌, Bool, true, false, ◌&&◌, ◌||◌, not, Option, none, some,
  List, [], ◌∷◌, ◌++◌, ltb, leb, ◌==◌, if◌then◌else◌, length, keep,
}
use obsidian_git_sync_mcp.Text.{Text, strip}
use obsidian_git_sync_mcp.Common.{◌^◌}
use mathlib.Core.Option

-- `negsuc n` is -(n + 1).
pub data ℤ : Type 0 where
  pos : ℕ → ℤ
  negsuc : ℕ → ℤ

-- a - b
unfoldable pub sub_ℕ : ℕ → ℕ → ℤ
sub_ℕ a b = if leb b a then pos (a - b) else negsuc (b - a - 1)

-- `z < n`
unfoldable pub int_lt : ℤ → ℕ → Bool
int_lt (pos m) n = ltb m n
int_lt (negsuc m) n = true

unfoldable pub int_eq : ℤ → ℤ → Bool
int_eq (pos m) (pos n) = m == n
int_eq (negsuc m) (negsuc n) = m == n
int_eq _ _ = false

-- `z <= 0`
unfoldable pub int_le_zero : ℤ → Bool
int_le_zero (pos zero) = true
int_le_zero (pos (suc n)) = false
int_le_zero (negsuc n) = true

-- A float is a whole number of ticks of 2^-1074 seconds, of which every finite double is a multiple.
pub data Float : Type 0 where
  finite : ℤ → Float
  inf neg_inf nan : Float

-- The ticks of a second.
unfoldable pub second : ℕ
second = 2 ^ 1074

-- `x <= 0`; every comparison with nan is false.
unfoldable pub float_le_zero : Float → Bool
unfolding int_le_zero
float_le_zero (finite z) = int_le_zero z
float_le_zero inf = false
float_le_zero neg_inf = true
float_le_zero nan = false

-- `z >= x`, for the difference `z` of two readings of a clock.
unfoldable pub ge_float : ℤ → Float → Bool
ge_float (pos m) (finite (pos n)) = leb n m
ge_float (pos m) (finite (negsuc n)) = true
ge_float (negsuc m) (finite (pos n)) = false
ge_float (negsuc m) (finite (negsuc n)) = leb m n
ge_float z inf = false
ge_float z neg_inf = true
ge_float z nan = false

-- The decimal digits of `n`, with fuel above `n`.
unfoldable pub digits : ℕ → ℕ → Text
digits zero n = []
digits (suc f) n =
    let front = digits f (n / 10) in if ltb n 10 then (48 + n) ∷ [] else front ++ (48 + n % 10) ∷ []

-- `str(n)`
unfoldable pub decimal : ℕ → Text
unfolding digits
decimal n = digits (suc n) n

-- `str(z)`
unfoldable pub show_int : ℤ → Text
unfolding decimal
show_int (pos n) = decimal n
show_int (negsuc n) = b'-' ∷ decimal (suc n)

-- The characters of Unicode 15 that stand for zero in a decimal script.
abbrev zeros : List ℕ
zeros =
    0x30 ∷ 0x660 ∷ 0x6f0 ∷ 0x7c0 ∷ 0x966 ∷ 0x9e6 ∷ 0xa66 ∷ 0xae6 ∷ 0xb66 ∷ 0xbe6 ∷ 0xc66 ∷ 0xce6
    ∷ 0xd66 ∷ 0xde6 ∷ 0xe50 ∷ 0xed0 ∷ 0xf20 ∷ 0x1040 ∷ 0x1090 ∷ 0x17e0 ∷ 0x1810 ∷ 0x1946 ∷ 0x19d0
    ∷ 0x1a80 ∷ 0x1a90 ∷ 0x1b50 ∷ 0x1bb0 ∷ 0x1c40 ∷ 0x1c50 ∷ 0xa620 ∷ 0xa8d0 ∷ 0xa900 ∷ 0xa9d0
    ∷ 0xa9f0 ∷ 0xaa50 ∷ 0xabf0 ∷ 0xff10 ∷ 0x104a0 ∷ 0x10d30 ∷ 0x11066 ∷ 0x110f0 ∷ 0x11136 ∷ 0x111d0
    ∷ 0x112f0 ∷ 0x11450 ∷ 0x114d0 ∷ 0x11650 ∷ 0x116c0 ∷ 0x11730 ∷ 0x118e0 ∷ 0x11950 ∷ 0x11c50
    ∷ 0x11d50 ∷ 0x11da0 ∷ 0x11f50 ∷ 0x16a60 ∷ 0x16ac0 ∷ 0x16b50 ∷ 0x1d7ce ∷ 0x1d7d8 ∷ 0x1d7e2
    ∷ 0x1d7ec ∷ 0x1d7f6 ∷ 0x1e140 ∷ 0x1e2f0 ∷ 0x1e4f0 ∷ 0x1e950 ∷ 0x1fbf0 ∷ []

digit_from : List ℕ → ℕ → Option ℕ
digit_from [] c = none
digit_from (z ∷ zs) c = if leb z c && leb c (z + 9) then some (c - z) else digit_from zs c

-- `unicodedata.decimal(c)`, which `\d` and `int` go by.
unfoldable pub digit_value : ℕ → Option ℕ
unfolding digit_from
digit_value = digit_from zeros

-- Digits with single underscores between them; `true` says that a digit stands in front.
unfoldable pub read_digits : Text → ℕ → Bool → Option ℕ
read_digits [] n true = some n
read_digits [] n false = none
read_digits (c ∷ s) n after_digit = elim (c == b'_') [
  | true ↦ elim after_digit [ true ↦ read_digits s n false | false ↦ none ]
  | false ↦ elim (digit_value c) [ none ↦ none | some d ↦ read_digits s (n * 10 + d) true ]
]

-- The most digits that `int` reads.
abbrev pub max_str_digits : ℕ
max_str_digits = 4300

unfoldable pub read_unsigned : Text → Option ℕ
unfolding read_digits
read_unsigned s =
    if ltb max_str_digits (length (keep (λ c. not (c == b'_')) s))
    then none
    else read_digits s 0 false

minus : ℕ → ℤ
minus zero = pos zero
minus (suc n) = negsuc n

unfoldable pub read_signed : Text → Option ℤ
unfolding read_unsigned minus
read_signed [] = none
read_signed (c ∷ s) =
    if c == b'-'
    then Option.map minus (read_unsigned s)
    else Option.map pos (read_unsigned (if c == b'+' then s else c ∷ s))

-- `int(s)`, where `none` is its `ValueError`.
unfoldable pub int_of : Text → Option ℤ
unfolding read_signed
int_of s = read_signed (strip s)
