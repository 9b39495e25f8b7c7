-- ===== src/Wildcard/Decides.antt =====
-- pkg/internal/util/wildcard.go: the matcher against what a pattern means.
use mathlib.Core.List.{append-nil}
use cert_manager_approver_po.Common.{
  ℕ, String, ◌≡◌, refl, sym, ap, ◌⊎◌, inl, inr, ◌↔◌, true, List, [], ◌∷◌, ◌++◌, arith, codes, Any,
  str_eq, str_eq_iff, Bool-cases, ==_iff, ◌==◌,
}
use cert_manager_approver_po.Wildcard.{
  match_runes, wildcard_matches, wildcard_contains, wildcard_subset,
}
use cert_manager_approver_po.Wildcard.Meaning.{Matches, end, same, run, TextMatches, Subset}

-- A run of the star may be one character longer.
run-longer :
    {p c : ℕ} {pattern str : List ℕ}
    → p ≡ b'*'
    → Matches (p ∷ pattern) str
    → Matches (p ∷ pattern) (c ∷ str)
run-longer e (same n m) = absurd (n e)
run-longer {c} _ (run skipped e m split) = run (c ∷ skipped) e m (ap (◌∷◌ c) split)

-- The two ways in which a star can match a text that is not empty.
run-cases :
    {p c : ℕ} {pattern str : List ℕ}
    → p ≡ b'*'
    → Matches (p ∷ pattern) (c ∷ str)
    → Matches pattern (c ∷ str) ⊎ Matches (p ∷ pattern) str
run-cases e (same n m) = absurd (n e)
run-cases {pattern} e (run [] _ m split) = inl (rw split m)
run-cases e (run (d ∷ skipped) f m split) = inr (run skipped f m (cc))

match_runes_sound : (pattern str : List ℕ) → match_runes pattern str ≡ true → Matches pattern str
unfolding match_runes
match_runes_sound [] [] h = end
match_runes_sound [] (c ∷ str) h = cc
match_runes_sound (p ∷ pattern) [] h = elim (Bool-cases (p == b'*')) [
  | inl star ↦ run [] ((==_iff _ _).0 star) (match_runes_sound pattern [] (rw star at h)) refl
  | inr other ↦ cc
]
match_runes_sound (p ∷ pattern) (c ∷ str) h = elim (Bool-cases (p == b'*')) [
  | inl star ↦
      let is_star = (==_iff _ _).0 star in
      elim (Bool-cases (match_runes pattern (c ∷ str))) [
        | inl without ↦ run [] is_star (match_runes_sound pattern (c ∷ str) without) refl
        | inr unmatched ↦ run-longer is_star (match_runes_sound (p ∷ pattern) str (ground arith))
      ]
  | inr other ↦
      let equal : c ≡ p = ground arith in
      rw equal (same (ground arith) (match_runes_sound pattern str (ground arith)))
]

match_runes-skip :
    (p : ℕ) (pattern str : List ℕ)
    → p ≡ b'*'
    → match_runes pattern str ≡ true
    → match_runes (p ∷ pattern) str ≡ true
unfolding match_runes
match_runes-skip p pattern [] e h = ground arith
match_runes-skip p pattern (c ∷ str) e h = ground arith

match_runes-run :
    (p : ℕ) (pattern rest skipped : List ℕ)
    → p ≡ b'*'
    → match_runes pattern rest ≡ true
    → match_runes (p ∷ pattern) (skipped ++ rest) ≡ true
unfolding match_runes
match_runes-run p pattern rest [] e h = match_runes-skip p pattern rest e h
match_runes-run p pattern rest (c ∷ skipped) e h =
    ground (arith, match_runes-run p pattern rest skipped e h)

match_runes_complete : {pattern str : List ℕ} → Matches pattern str → match_runes pattern str ≡ true
unfolding match_runes
match_runes_complete end = refl
match_runes_complete (same {pattern} {str} other m) = ground (arith, match_runes_complete m)
match_runes_complete (run skipped star m split) =
    rw split (match_runes-run _ _ _ skipped star (match_runes_complete m))

-- `matchRunes` decides `Matches`.
pub match_runes_iff :
    (pattern str : List ℕ) → (match_runes pattern str ≡ true) ↔ Matches pattern str
match_runes_iff pattern str = (match_runes_sound pattern str, match_runes_complete)

Matches-nil_left : {str : List ℕ} → Matches [] str → str ≡ []
Matches-nil_left end = refl

-- The pattern "*" needs no search.
Matches-star : (str : List ℕ) → Matches (b'*' ∷ []) str
Matches-star str = run str refl end (sym (append-nil str))

-- The shortcuts of `WildcardMatches` change no answer.
pub wildcard_matches-eq-match_runes :
    (pattern str : String) → wildcard_matches pattern str ≡ match_runes (codes pattern) (codes str)
unfolding wildcard_matches match_runes
wildcard_matches-eq-match_runes String.[] String.[] = refl
wildcard_matches-eq-match_runes String.[] (String.◌∷◌ c str) = refl
wildcard_matches-eq-match_runes (String.◌∷◌ p pattern) str =
    elim (Bool-cases (str_eq (String.◌∷◌ p pattern) "*")) [
      | inl any ↦
          let star = ap codes ((str_eq_iff _ _).0 any) in
          rw (any, star) (sym (match_runes_complete (Matches-star (codes str))))
      | inr other ↦ rw other
    ]

-- `WildcardMatches` is true exactly when the text is one that the pattern stands for: '*' for any
-- run of characters, the empty one included, and each other character for itself.
pub wildcard_matches_iff :
    (pattern str : String) → (wildcard_matches pattern str ≡ true) ↔ TextMatches pattern str
wildcard_matches_iff pattern str =
    rw (wildcard_matches-eq-match_runes pattern str) (match_runes_iff (codes pattern) (codes str))

wildcard_contains_iff :
    (patterns : List String) (member : String)
    → (wildcard_contains patterns member ≡ true) ↔ Any (λ p. TextMatches p member) patterns
unfolding wildcard_contains
wildcard_contains_iff [] member = (λ h. cc, λ h. absurd h)
wildcard_contains_iff (p ∷ patterns) member =
    grind (arith, wildcard_matches_iff p member, wildcard_contains_iff patterns member)

-- `WildcardSubset` is true exactly when every member is a text that some pattern stands for.
pub wildcard_subset_iff :
    (patterns members : List String)
    → (wildcard_subset patterns members ≡ true) ↔ Subset patterns members
unfolding wildcard_subset
wildcard_subset_iff patterns [] = (λ h. tt, λ h. refl)
wildcard_subset_iff patterns (m ∷ members) =
    grind (arith, wildcard_contains_iff patterns m, wildcard_subset_iff patterns members)
