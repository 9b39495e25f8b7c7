-- ===== src/Wildcard/Laws.antt =====
-- Patterns with no star, and patterns that begin with one.
use Prim.Native.Char.{code}
use text.Mathlib.TextLemmas.{nil-append, cons-append}
use cert_manager_approver_po.Common.{
  ℕ, String, ◌≡◌, refl, sym, ◌∙◌, ap, ◌≢◌, ◌↔◌, true, List, [], ◌∷◌, ◌++◌, codes, codes_injective,
  ◌+++◌, All,
}
use cert_manager_approver_po.Wildcard.{wildcard_matches}
use cert_manager_approver_po.Wildcard.Meaning.{Matches, end, same, run}
use cert_manager_approver_po.Wildcard.Decides.{wildcard_matches_iff}

-- A text in which no character is a star.
abbrev pub IsLiteral : String → Type 0
IsLiteral text = All (λ c. c ≢ b'*') (codes text)

codes-append : (s t : String) → codes (s +++ t) ≡ codes s ++ codes t
codes-append String.[] t = rw nil-append
codes-append (String.◌∷◌ c s) t = rw cons-append (ap (◌∷◌ (code c)) (codes-append s t))

-- A split of the runes is a split of the text.
split_text :
    (before : List ℕ) (s t : String) → codes s ≡ before ++ codes t → (u : String) × (s ≡ u +++ t)
split_text [] s t e = (String.[], codes_injective s t e ∙ sym (nil-append t))
split_text (b ∷ before) String.[] t e = cc
split_text (b ∷ before) (String.◌∷◌ c s) t e =
    let (u, same_text) = split_text before s t (cc) in
    (String.◌∷◌ c u, ap (String.◌∷◌ c) same_text ∙ sym (cons-append c u t))

Matches-literal :
    {pattern str : List ℕ} → All (λ c. c ≢ b'*') pattern → Matches pattern str → pattern ≡ str
Matches-literal h end = refl
Matches-literal h (same {c} _ m) = ap (◌∷◌ c) (Matches-literal h.1 m)
Matches-literal h (run _ star _ _) = absurd (h.0 star)

Matches-literal_self : (pattern : List ℕ) → All (λ c. c ≢ b'*') pattern → Matches pattern pattern
Matches-literal_self [] h = end
Matches-literal_self (c ∷ pattern) h = same h.0 (Matches-literal_self pattern h.1)

-- A pattern with no star matches its own text and no other.
pub wildcard_matches_literal :
    (pattern str : String)
    → IsLiteral pattern
    → (wildcard_matches pattern str ≡ true) ↔ (pattern ≡ str)
wildcard_matches_literal pattern str h = (
  λ m. codes_injective pattern str (Matches-literal h ((wildcard_matches_iff pattern str).0 m)),
  λ e. rw (← e) ((wildcard_matches_iff pattern pattern).1 (Matches-literal_self (codes pattern) h)),
)

Matches-star_split :
    {p : ℕ} {pattern str : List ℕ}
    → p ≡ b'*'
    → Matches (p ∷ pattern) str
    → (before rest : List ℕ) × (str ≡ before ++ rest) × Matches pattern rest
Matches-star_split e (same n _) = absurd (n e)
Matches-star_split e (run {rest} skipped _ m split) = (skipped, rest, split, m)

-- A pattern of a star and a text with no star matches the texts that end in that text.
pub wildcard_matches_suffix :
    (ending str : String)
    → IsLiteral ending
    → (wildcard_matches ("*" +++ ending) str ≡ true) ↔ ((u : String) × (str ≡ u +++ ending))
wildcard_matches_suffix ending str h = (to, from)
  where
    to : wildcard_matches ("*" +++ ending) str ≡ true → (u : String) × (str ≡ u +++ ending)
    to m =
        let found = rw codes-append at ((wildcard_matches_iff ("*" +++ ending) str).0 m) in
        let (before, rest, split, tail) = Matches-star_split refl found in
        split_text before str ending (rw (← Matches-literal h tail) at split)

    from : (u : String) × (str ≡ u +++ ending) → wildcard_matches ("*" +++ ending) str ≡ true
    from (u, e) = (wildcard_matches_iff ("*" +++ ending) str).1 (
        rw (e, codes-append, codes-append)
          (run (codes u) refl (Matches-literal_self (codes ending) h) refl))
