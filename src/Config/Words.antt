-- ===== src/Config/Words.antt =====
-- src/obsidian_git_sync/config.py: the words that switch the extension on and the stamping off.
use obsidian_git_sync_mcp.Common.{
  ℕ, ◌≡◌, ◌↔◌, refl, sym, ◌∙◌, ap, subst, Bool, true, false, List, [], ◌∷◌, ◌++◌, arith, All,
  if◌then◌else◌, Bool-cases, inl, inr,
}
use obsidian_git_sync_mcp.Text.{Text, text_eq, member, is_space, to_lower, lower, strip}
use obsidian_git_sync_mcp.Text.Equality.{text_eq_iff}
use obsidian_git_sync_mcp.Text.Strip.{
  IsBlank, IsTrimmedLeft, IsTrimmedRight, strip_of_trimmed, strip_parts,
}
use obsidian_git_sync_mcp.Config.{
  Settings, truthy_words, falsey_words, is_truthy, is_enabled, stamp_enabled,
}
use obsidian_git_sync_mcp.Config.Padded.{strip_padded}

-- One of the words, in letters of either case, with spaces around it.
abbrev pub IsWritten : List Text → Text → Type 0
IsWritten words raw =
    (a v b : Text) × (raw ≡ a ++ (v ++ b)) × IsBlank a × IsBlank b × (member (lower v) words ≡ true)

to_lower-space : (c : ℕ) → is_space (to_lower c) ≡ false → is_space c ≡ false
unfolding is_space to_lower
to_lower-space c h = ground arith

lower-IsTrimmedLeft : (v : Text) → IsTrimmedLeft (lower v) → IsTrimmedLeft v
unfolding lower
lower-IsTrimmedLeft [] h = tt
lower-IsTrimmedLeft (c ∷ v) h = to_lower-space c h

lower-IsTrimmedRight : (v : Text) → IsTrimmedRight (lower v) → IsTrimmedRight v
unfolding lower
lower-IsTrimmedRight [] h = tt
lower-IsTrimmedRight (c ∷ []) h = to_lower-space c h
lower-IsTrimmedRight (c ∷ d ∷ v) h = lower-IsTrimmedRight (d ∷ v) h

-- The texts have no spaces at their ends.
abbrev AreTrimmed : List Text → Type 0
AreTrimmed = All (λ w. IsTrimmedLeft w × IsTrimmedRight w)

-- What holds of each of the words holds of a text that is one of them.
member-All :
    (P : Text → Type 0) (v : Text) (words : List Text) → All P words → member v words ≡ true → P v
unfolding member
member-All P v [] h e = absurd (cc)
member-All P v (w ∷ words) (p, h) e = elim (Bool-cases (text_eq v w)) [
  | inl f ↦ subst P (sym ((text_eq_iff v w).0 f)) p
  | inr f ↦ member-All P v words h (rw f at e)
]

-- The comparison of the stripped text tells whether one of the words is written.
IsWritten-iff :
    (words : List Text) (raw : Text)
    → AreTrimmed words
    → (member (lower (strip raw)) words ≡ true) ↔ IsWritten words raw
IsWritten-iff words raw t = (there, back)
  where
    there : member (lower (strip raw)) words ≡ true → IsWritten words raw
    there h = let (a, b, ha, hb, e) = strip_parts raw in (a, strip raw, b, e, ha, hb, h)

    back : IsWritten words raw → member (lower (strip raw)) words ≡ true
    back (a, v, b, e, ha, hb, h) =
        let (l, r) = member-All (λ w. IsTrimmedLeft w × IsTrimmedRight w) (lower v) words t h in
        let whole : strip raw ≡ v =
          ap strip e
          ∙ (strip_padded a v b ha hb
              ∙ strip_of_trimmed v (lower-IsTrimmedLeft v l) (lower-IsTrimmedRight v r)) in
        ap (λ x. member (lower x) words) whole ∙ h

truthy-AreTrimmed : AreTrimmed truthy_words
unfolding is_space
truthy-AreTrimmed = ((refl, refl), ((refl, refl), ((refl, refl), ((refl, refl), tt))))

falsey-AreTrimmed : AreTrimmed falsey_words
unfolding is_space
falsey-AreTrimmed = ((refl, refl), ((refl, refl), ((refl, refl), ((refl, refl), tt))))

-- A word for no is no word for yes.
falsey-truthy : (v : Text) → member v falsey_words ≡ true → member v truthy_words ≡ false
unfolding member text_eq
falsey-truthy v =
    member-All (λ w. member w truthy_words ≡ false) v falsey_words
      (refl, (refl, (refl, (refl, tt))))

on_iff : (y n : Bool) → ((if y then true else if n then false else false) ≡ true) ↔ (y ≡ true)
on_iff true n = (λ h. refl, λ h. refl)
on_iff false true = (λ h. h, λ h. h)
on_iff false false = (λ h. h, λ h. h)

off_iff :
    (y n : Bool)
    → (n ≡ true → y ≡ false)
    → ((if y then true else if n then false else true) ≡ false) ↔ (n ≡ true)
off_iff true true h = (λ e. refl, λ e. h refl)
off_iff true false h = (λ e. cc, λ e. cc)
off_iff false true h = (λ e. refl, λ e. refl)
off_iff false false h = (λ e. cc, λ e. cc)

truthy_result :
    (v : Text) → (is_truthy v false ≡ true) ↔ (member (lower (strip v)) truthy_words ≡ true)
unfolding is_truthy
truthy_result v =
    on_iff (member (lower (strip v)) truthy_words) (member (lower (strip v)) falsey_words)

falsey_result :
    (v : Text) → (is_truthy v true ≡ false) ↔ (member (lower (strip v)) falsey_words ≡ true)
unfolding is_truthy
falsey_result v =
    off_iff (member (lower (strip v)) truthy_words) (member (lower (strip v)) falsey_words)
      (falsey-truthy (lower (strip v)))

-- The extension is on exactly if the setting is one of the words for yes, and the stamping is off
-- exactly if its setting is one of the words for no: each in letters of either case, with any spaces
-- around it.
pub switches_iff :
    (c : Settings)
    → ((is_enabled c ≡ true) ↔ IsWritten truthy_words c.enabled)
      × ((stamp_enabled c ≡ false) ↔ IsWritten falsey_words c.stamp)
unfolding is_enabled stamp_enabled
switches_iff c =
    let (up, up') = truthy_result c.enabled in
    let (on, on') = IsWritten-iff truthy_words c.enabled truthy-AreTrimmed in
    let (down, down') = falsey_result c.stamp in
    let (off, off') = IsWritten-iff falsey_words c.stamp falsey-AreTrimmed in
    ((λ h. on (up h), λ w. up' (on' w)), (λ h. off (down h), λ w. down' (off' w)))
