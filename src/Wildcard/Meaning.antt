-- ===== src/Wildcard/Meaning.antt =====
-- What a pattern means, with no search in it: '*' stands for any run of characters, the empty one
-- included, and every other character for itself.
use cert_manager_approver_po.Common.{ℕ, String, ◌≡◌, ◌≢◌, List, [], ◌∷◌, ◌++◌, codes, All, Any}

-- `Matches pattern str`: the runes of `str` are one reading of the pattern.
pub data Matches : List ℕ → List ℕ → Type 0 where
  end : Matches [] []
  same :
      {c : ℕ} {pattern str : List ℕ}
      → c ≢ b'*'
      → Matches pattern str
      → Matches (c ∷ pattern) (c ∷ str)
  run :
      {star : ℕ} {pattern rest : List ℕ} (skipped : List ℕ) {str : List ℕ}
      → star ≡ b'*'
      → Matches pattern rest
      → str ≡ skipped ++ rest
      → Matches (star ∷ pattern) str

-- The text is one that the pattern stands for.
abbrev pub TextMatches : String → String → Type 0
TextMatches pattern str = Matches (codes pattern) (codes str)

-- Every member is one of the texts that some pattern stands for.
abbrev pub Subset : List String → List String → Type 0
Subset patterns members =
    All (λ member. Any (λ pattern. TextMatches pattern member) patterns) members
