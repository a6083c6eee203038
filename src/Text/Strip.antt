-- ===== src/Text/Strip.antt =====
-- What `strip` removes.
use obsidian_git_sync_mcp.Common.{
  ◌≡◌, refl, ◌∙◌, true, false, [], ◌∷◌, ◌++◌, All, inl, inr, Bool-cases, ap,
}
use obsidian_git_sync_mcp.Text.{Text, is_space, lstrip, rstrip, strip}

abbrev pub IsBlank : Text → Type 0
IsBlank = All (λ c. is_space c ≡ true)

-- No space at the front.
abbrev pub IsTrimmedLeft : Text → Type 0
IsTrimmedLeft [] = Unit
IsTrimmedLeft (c ∷ s) = is_space c ≡ false

-- No space at the end.
abbrev pub IsTrimmedRight : Text → Type 0
IsTrimmedRight [] = Unit
IsTrimmedRight (c ∷ []) = is_space c ≡ false
IsTrimmedRight (c ∷ d ∷ s) = IsTrimmedRight (d ∷ s)

lstrip_parts : (s : Text) → (a : Text) × IsBlank a × (s ≡ a ++ lstrip s)
unfolding lstrip
lstrip_parts [] = ([], tt, refl)
lstrip_parts (c ∷ s) = elim (Bool-cases (is_space c)) [
  | inl h ↦
      let (a, blank, e) = lstrip_parts s in (c ∷ a, (h, blank), rw (h, lstrip) (ap (λ t. c ∷ t) e))
  | inr h ↦ ([], tt, rw (h, lstrip))
]

lstrip-IsTrimmedLeft : (s : Text) → IsTrimmedLeft (lstrip s)
unfolding lstrip
lstrip-IsTrimmedLeft [] = tt
lstrip-IsTrimmedLeft (c ∷ s) = elim (Bool-cases (is_space c)) [
  | inl h ↦ rw (h, IsTrimmedLeft, lstrip) (lstrip-IsTrimmedLeft s)
  | inr h ↦ rw (h, IsTrimmedLeft, lstrip) h
]

rstrip_parts : (s : Text) → (b : Text) × IsBlank b × (s ≡ rstrip s ++ b)
unfolding rstrip
rstrip_parts [] = ([], tt, refl)
rstrip_parts (c ∷ s) = go (rstrip s) (rstrip_parts s)
  where
    go :
        (r : Text)
        → ((b : Text) × IsBlank b × (s ≡ r ++ b))
        → (b : Text) × IsBlank b
          × (c ∷ s
              ≡ (elim r [
                | [] ↦ elim (is_space c) [ true ↦ [] | false ↦ c ∷ [] ]
                | d ∷ m ↦ c ∷ d ∷ m
              ])
                ++ b)
    go [] (b, blank, e) = elim (Bool-cases (is_space c)) [
      | inl h ↦ (c ∷ b, (h, blank), rw h (ap (λ t. c ∷ t) e))
      | inr h ↦ (b, blank, rw h (ap (λ t. c ∷ t) e))
    ]
    go (d ∷ m) (b, blank, e) = (b, blank, ap (λ t. c ∷ t) e)

rstrip-IsTrimmedRight : (s : Text) → IsTrimmedRight (rstrip s)
unfolding rstrip
rstrip-IsTrimmedRight [] = tt
rstrip-IsTrimmedRight (c ∷ s) = go (rstrip s) (rstrip-IsTrimmedRight s)
  where
    go :
        (r : Text)
        → IsTrimmedRight r
        → IsTrimmedRight
            (elim r [ [] ↦ elim (is_space c) [ true ↦ [] | false ↦ c ∷ [] ] | d ∷ m ↦ c ∷ d ∷ m ])
    go [] h = elim (Bool-cases (is_space c)) [ inl e ↦ rw e tt | inr e ↦ rw e e ]
    go (d ∷ m) h = h

-- What is at the front of a text that starts with no space stays there.
rstrip-IsTrimmedLeft : (s : Text) → IsTrimmedLeft s → IsTrimmedLeft (rstrip s)
unfolding rstrip
rstrip-IsTrimmedLeft [] h = tt
rstrip-IsTrimmedLeft (c ∷ s) h = go (rstrip s)
  where
    go :
        (r : Text)
        → IsTrimmedLeft
            (elim r [ [] ↦ elim (is_space c) [ true ↦ [] | false ↦ c ∷ [] ] | d ∷ m ↦ c ∷ d ∷ m ])
    go [] = rw h h
    go (d ∷ m) = h

lstrip_of_trimmed : (s : Text) → IsTrimmedLeft s → lstrip s ≡ s
unfolding lstrip
lstrip_of_trimmed [] h = refl
lstrip_of_trimmed (c ∷ s) h = rw (h, lstrip)

rstrip_of_trimmed : (s : Text) → IsTrimmedRight s → rstrip s ≡ s
unfolding rstrip
rstrip_of_trimmed [] h = refl
rstrip_of_trimmed (c ∷ []) h = rw (h, rstrip)
rstrip_of_trimmed (c ∷ d ∷ s) h = rw (rstrip_of_trimmed (d ∷ s) h)

pub strip-IsTrimmed : (s : Text) → IsTrimmedLeft (strip s) × IsTrimmedRight (strip s)
unfolding strip
strip-IsTrimmed s =
    (rstrip-IsTrimmedLeft (lstrip s) (lstrip-IsTrimmedLeft s), rstrip-IsTrimmedRight (lstrip s))

pub strip_of_trimmed : (s : Text) → IsTrimmedLeft s → IsTrimmedRight s → strip s ≡ s
unfolding strip
strip_of_trimmed s l r = rw (lstrip_of_trimmed s l) (rstrip_of_trimmed s r)

-- A stripped text has nothing more to strip.
pub strip-strip : (s : Text) → strip (strip s) ≡ strip s
strip-strip s = let (l, r) = strip-IsTrimmed s in strip_of_trimmed (strip s) l r

-- `strip` takes spaces off both ends and nothing else.
pub strip_parts : (s : Text) → (a b : Text) × IsBlank a × IsBlank b × (s ≡ a ++ (strip s ++ b))
unfolding strip
strip_parts s =
    let (a, ha, ea) = lstrip_parts s in
    let (b, hb, eb) = rstrip_parts (lstrip s) in (a, b, ha, hb, ea ∙ ap (λ t. a ++ t) eb)
