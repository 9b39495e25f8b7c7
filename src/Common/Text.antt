-- ===== src/Common/Text.antt =====
-- Go strings as texts of Unicode characters. `codes` is the conversion `[]rune(s)`.
use Prim.Native.Nat.{ℕ}
use Prim.Native.Char.{code}
use Prim.Native.String
use Prim.Native.String.{String}
use mathlib.Core.Path.{◌≡◌, refl, ap₂}
use mathlib.Core.Logic.{◌↔◌}
use mathlib.Core.Bool.{Bool, true, false}
use mathlib.Core.List.{List, [], ◌∷◌}
use text.Mathlib.Text.{◌==◌ as text_eq}
use cert_manager_approver_po.Common.Tests.{ltb, ◌==◌, if◌then◌else◌}
use text.Mathlib.TextEquality.{eq_iff, Char-path}

abbrev pub str_eq : String → String → Bool
str_eq s t = text_eq s t

pub str_eq_iff : (s t : String) → (str_eq s t ≡ true) ↔ (s ≡ t)
str_eq_iff = eq_iff

abbrev pub codes : String → List ℕ
codes String.[] = []
codes (String.◌∷◌ c s) = code c ∷ codes s

-- `len(s) == 0`
abbrev pub is_empty : String → Bool
is_empty String.[] = true
is_empty (String.◌∷◌ _ _) = false

infixr 66 ◌+++◌
abbrev pub ◌+++◌ : String → String → String
s +++ t = String.◌++◌ s t

-- `strings.Join(texts, separator)`
abbrev pub join : List String → String → String
join [] separator = ""
join (s ∷ []) separator = s
join (s ∷ t ∷ rest) separator = s +++ separator +++ join (t ∷ rest) separator

-- `strconv.FormatBool`
abbrev pub format_bool : Bool → String
format_bool true = "true"
format_bool false = "false"

pub codes_injective : (s t : String) → codes s ≡ codes t → s ≡ t
codes_injective String.[] String.[] h = refl
codes_injective String.[] (String.◌∷◌ d t) h = cc
codes_injective (String.◌∷◌ c s) String.[] h = cc
codes_injective (String.◌∷◌ c s) (String.◌∷◌ d t) h =
    ap₂ String.◌∷◌ (Char-path c d (cc)) (codes_injective s t (cc))

-- The test `s < t` of Go's strings, which compares bytes; in valid UTF-8 that is the order of the
-- code points.
abbrev pub before_codes : List ℕ → List ℕ → Bool
before_codes s [] = false
before_codes [] (d ∷ t) = true
before_codes (c ∷ s) (d ∷ t) =
    let rest = before_codes s t in if ltb c d then true else if c == d then rest else false

abbrev pub str_lt : String → String → Bool
str_lt s t = before_codes (codes s) (codes t)
