-- ===== src/Text/Parts.antt =====
-- `split` and `partition` at a separator, and the parts that they give.
use obsidian_git_sync_mcp.Common.{
  ℕ, ◌≡◌, ◌≢◌, refl, false, List, [], ◌∷◌, ◌++◌, arith, All, any, ◌==◌, if◌then◌else◌,
}
use obsidian_git_sync_mcp.Text.{Text, join, partition, split, split_from}

abbrev pub Lacks : ℕ → Text → Type 0
Lacks sep = All (λ c. c ≢ sep)

module _ (sep : ℕ) where
  -- A literal is seen to lack the separator by a test.
  pub any-Lacks : (s : Text) → any (λ c. c == sep) s ≡ false → Lacks sep s
  any-Lacks [] h = tt
  any-Lacks (c ∷ s) h = ground (arith, any-Lacks s)

  -- The text is the part before the separator, and behind it the rest, if there is one.
  pub partition_parts :
      (s : Text)
      → s ≡ (let p = partition sep s in if p.found then p.before ++ sep ∷ p.after else p.before)
  unfolding partition
  partition_parts [] = refl
  partition_parts (c ∷ s) = ground (arith, partition_parts s)

  pub partition-Lacks : (s : Text) → Lacks sep (partition sep s).before
  unfolding partition
  partition-Lacks [] = tt
  partition-Lacks (c ∷ s) = ground (arith, partition-Lacks s)

  pub partition-after : (s : Text) → (partition sep s).found ≡ false → (partition sep s).after ≡ []
  unfolding partition
  partition-after [] h = refl
  partition-after (c ∷ s) h = ground (arith, partition-after s)

  join-split_from :
      (c : ℕ) (s : Text)
      → join (sep ∷ []) ((c ∷ (split_from sep s).0) ∷ (split_from sep s).1)
        ≡ c ∷ join (sep ∷ []) ((split_from sep s).0 ∷ (split_from sep s).1)
  unfolding join
  join-split_from c s = go (split_from sep s).1
    where
      go :
          (ps : List Text)
          → join (sep ∷ []) ((c ∷ (split_from sep s).0) ∷ ps)
            ≡ c ∷ join (sep ∷ []) ((split_from sep s).0 ∷ ps)
      go [] = refl
      go (q ∷ ps) = refl

  -- Joining the parts of a split gives the text back.
  pub join-split : (s : Text) → join (sep ∷ []) (split sep s) ≡ s
  unfolding split join
  join-split [] = refl
  join-split (c ∷ s) = ground (arith, join-split s, join-split_from c s)

  pub split-Lacks : (s : Text) → All (Lacks sep) (split sep s)
  unfolding split
  split-Lacks [] = (tt, tt)
  split-Lacks (c ∷ s) = ground (arith, split-Lacks s)
