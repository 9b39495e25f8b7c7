-- ===== src/Wildcard.antt =====
-- pkg/internal/util/wildcard.go: matching of texts against patterns with '*'.
pub mod Meaning
pub mod Decides
pub mod Laws
use cert_manager_approver_po.Common.{
  ℕ, String, Bool, true, false, ◌&&◌, ◌||◌, List, [], ◌∷◌, ◌==◌, if◌then◌else◌, codes, is_empty,
  str_eq, is_nil,
}

-- `matchRunes`, both slices as lists of runes. What `let` binds is run only where it is read.
unfoldable pub match_runes : List ℕ → List ℕ → Bool
match_runes [] str = is_nil str
match_runes (p ∷ pattern) [] =
    let without = match_runes pattern [] in if p == b'*' then without else false
match_runes (p ∷ pattern) (c ∷ str) =
    let without = match_runes pattern (c ∷ str) in
    let longer = match_runes (p ∷ pattern) str in
    let next = match_runes pattern str in
    if p == b'*' then without || longer else if c == p then next else false

unfoldable pub wildcard_matches : String → String → Bool
wildcard_matches pattern str =
    if is_empty pattern
    then is_empty str
    else if str_eq pattern "*"
    then true
    else match_runes (codes pattern) (codes str)

unfoldable pub wildcard_contains : List String → String → Bool
wildcard_contains [] member = false
wildcard_contains (pattern ∷ patterns) member =
    if wildcard_matches pattern member then true else wildcard_contains patterns member

unfoldable pub wildcard_subset : List String → List String → Bool
wildcard_subset patterns [] = true
wildcard_subset patterns (member ∷ members) =
    if wildcard_contains patterns member then wildcard_subset patterns members else false
