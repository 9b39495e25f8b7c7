-- ===== src/Allowed/Checks.antt =====
-- Each check of the evaluator against what it means.
use mathlib.Core.Bool.{false≢true}
use mathlib.Core.Option.{some-injective, some-ne-none}
use cert_manager_approver_po.Common.{
  String, Bool, true, false, ◌≡◌, refl, sym, ◌∙◌, Bool-cases, Option-cases, ◌↔◌, ◌⊎◌, inl, inr,
  Option, none, some, List, [], ◌∷◌, Outcome, ok, err, panic, append-eq-nil, if◌then◌else◌,
}
use cert_manager_approver_po.Field.{FieldPath, FieldError, ErrorList}
use cert_manager_approver_po.Policy.{AllowedStringSlice, AllowedString}
use cert_manager_approver_po.Wildcard.{wildcard_subset, wildcard_matches}
use cert_manager_approver_po.Wildcard.Meaning.{TextMatches, Subset}
use cert_manager_approver_po.Wildcard.Decides.{wildcard_matches_iff, wildcard_subset_iff}
use cert_manager_approver_po.Allowed.Evaluate.{
  ◌▸◌, common_name_path, serial_number_path, missing, compare_values, compare_value, check_values,
  is_required, is_required_string, values_of, value_of, check_values_unguarded, check_common_name,
  check_serial_number, check_is_ca, check_usages,
}
use cert_manager_approver_po.Allowed.Permits.{
  PermitsValues, PermitsText, PermitsCa, PermitsUsages, Dangling, DanglingText,
}

-- A check answers `P`: no errors exactly if `P` holds, and a panic exactly if `D` does.
abbrev pub Judges : Type 0 → Type 0 → Outcome ErrorList → Type 0
Judges P D (ok el) = ((el ≡ []) ↔ P) × ¬ D
Judges P D (err e) = ⊥
Judges P D panic = D

-- Checks in a row answer the conjunction.
Judges-row :
    (P D Q E : Type 0) (first second : Outcome ErrorList)
    → Judges P D first
    → Judges Q E second
    → Judges (P × Q) (D ⊎ E) (first ▸ second)
Judges-row P D Q E (ok el) (ok more) (h, n) (k, m) =
    let (to, from) = append-eq-nil el more in
    (
      (λ e. (h.0 (to e).0, k.0 (to e).1), λ (p, q). from (h.1 p, k.1 q)),
      λ d. elim d [ inl x ↦ n x | inr y ↦ m y ],
    )
Judges-row P D Q E (ok el) panic h k = inr k
Judges-row P D Q E (ok el) (err e) h k = absurd k
Judges-row P D Q E panic second h k = inl h
Judges-row P D Q E (err e) second h k = absurd h

Judges-map :
    (P Q D E : Type 0) (m : Outcome ErrorList) → P ↔ Q → D ↔ E → Judges P D m → Judges Q E m
Judges-map P Q D E (ok el) p d (h, n) = ((λ e. p.0 (h.0 e), λ x. h.1 (p.1 x)), λ x. n (d.1 x))
Judges-map P Q D E (err e) p d h = h
Judges-map P Q D E panic p d h = d.0 h

-- `Judges` under a name that keeps its arguments.
pub record Answers (P D : Type 0) (m : Outcome ErrorList) : Type 0 where
  pub judged : Judges P D m

-- Checks in a row answer the conjunction.
pub ▸-Answers :
    {P D Q E : Type 0} {first second : Outcome ErrorList}
    → Answers P D first
    → Answers Q E second
    → Answers (P × Q) (D ⊎ E) (first ▸ second)
▸-Answers h k = record { judged = Judges-row _ _ _ _ _ _ h.judged k.judged }

pub Answers-map :
    {P Q D E : Type 0} {m : Outcome ErrorList} → P ↔ Q → D ↔ E → Answers P D m → Answers Q E m
Answers-map p d h = record { judged = Judges-map _ _ _ _ _ p d h.judged }

-- A check that cannot panic.
pub ok-Answers : {P : Type 0} {el : ErrorList} → (el ≡ []) ↔ P → Answers P ⊥ (ok el)
ok-Answers h = record { judged = (h, λ d. d) }

missing_iff :
    (path : FieldPath) (required : Bool) → (missing path required ≡ []) ↔ (required ≡ false)
unfolding missing
missing_iff path true = (λ h. cc, λ h. cc)
missing_iff path false = (λ h. refl, λ h. refl)

-- A test of the policy's value that leaves one error where it fails.
test_iff :
    {V : Type 0} (fits : V → Bool) (Fits : V → Type 0)
    → ((v : V) → (fits v ≡ true) ↔ Fits v)
    → (v : V) (e : FieldError)
    → ((if fits v then [] else e ∷ []) ≡ []) ↔ ((w : V) × (some v ≡ some w) × Fits w)
test_iff fits Fits fits_iff v e = elim (Bool-cases (fits v)) [
  | inl passed ↦ rw passed (λ h. (v, refl, (fits_iff v).0 passed), λ h. refl)
  | inr failed ↦ rw failed (
    λ h. cc,
    λ (w, same, h).
        let passed = rw (← some-injective v w same) at ((fits_iff w).1 h) in
        absurd (false≢true (sym failed ∙ passed)),
  )
]

compare_values_iff :
    (path : FieldPath) (allowed : Option (List String)) (given : List String)
    → (compare_values path allowed given ≡ [])
      ↔ ((values : List String) × (allowed ≡ some values) × Subset values given)
unfolding compare_values
compare_values_iff path none given = (λ h. cc, λ (_, h, _). cc)
compare_values_iff path (some values) given =
    test_iff (λ v. wildcard_subset v given) (λ v. Subset v given) (λ v. wildcard_subset_iff v given)
      values _

compare_value_iff :
    (path : FieldPath) (allowed : Option String) (given : String)
    → (compare_value path allowed given ≡ [])
      ↔ ((value : String) × (allowed ≡ some value) × TextMatches value given)
unfolding compare_value
compare_value_iff path none given = (λ h. cc, λ (_, h, _). cc)
compare_value_iff path (some value) given =
    test_iff (λ v. wildcard_matches v given) (λ v. TextMatches v given)
      (λ v. wildcard_matches_iff v given) value _

pub check_values_iff :
    (path : FieldPath) (allowed : Option AllowedStringSlice) (given : List String)
    → (check_values path allowed given ≡ []) ↔ PermitsValues allowed given
unfolding check_values
check_values_iff path allowed [] = missing_iff path (is_required allowed)
check_values_iff path allowed (g ∷ given) = compare_values_iff path (values_of allowed) (g ∷ given)

pub check_values_unguarded-Answers :
    (path : FieldPath) (allowed : Option AllowedStringSlice) (given : List String)
    → Answers
        (PermitsValues allowed given)
        (Dangling allowed given)
        (check_values_unguarded path allowed given)
unfolding check_values_unguarded
check_values_unguarded-Answers path allowed [] = ok-Answers (missing_iff path (is_required allowed))
check_values_unguarded-Answers path none (g ∷ given) =
    ok-Answers (compare_values_iff path none (g ∷ given))
check_values_unguarded-Answers path (some a) (g ∷ given) = elim (Option-cases a.values) [
  | inl absent ↦ record { judged = rw absent refl }
  | inr (values, present) ↦ record {
    judged =
        rw present (compare_values_iff path (some values) (g ∷ given), λ h. some-ne-none values h);
  }
]

pub check_common_name_iff :
    (allowed : Option AllowedString) (given : String)
    → (check_common_name allowed given ≡ []) ↔ PermitsText allowed given
unfolding check_common_name
check_common_name_iff allowed String.[] = missing_iff common_name_path (is_required_string allowed)
check_common_name_iff allowed (String.◌∷◌ c given) =
    compare_value_iff common_name_path (value_of allowed) (String.◌∷◌ c given)

pub check_serial_number-Answers :
    (allowed : Option AllowedString) (given : String)
    → Answers
        (PermitsText allowed given)
        (DanglingText allowed given)
        (check_serial_number allowed given)
unfolding check_serial_number
check_serial_number-Answers allowed String.[] =
    ok-Answers (missing_iff serial_number_path (is_required_string allowed))
check_serial_number-Answers none (String.◌∷◌ c given) =
    ok-Answers (compare_value_iff serial_number_path none (String.◌∷◌ c given))
check_serial_number-Answers (some a) (String.◌∷◌ c given) = elim (Option-cases a.value) [
  | inl absent ↦ record { judged = rw absent refl }
  | inr (value, present) ↦ record {
    judged = rw present (
      compare_value_iff serial_number_path (some value) (String.◌∷◌ c given),
      λ h. some-ne-none value h,
    );
  }
]

pub check_is_ca_iff :
    (allowed : Option Bool) (given : Bool)
    → (check_is_ca allowed given ≡ []) ↔ PermitsCa allowed given
unfolding check_is_ca
check_is_ca_iff allowed false = (λ h. tt, λ h. refl)
check_is_ca_iff none true = (λ h. cc, λ h. cc)
check_is_ca_iff (some true) true = (λ h. refl, λ h. refl)
check_is_ca_iff (some false) true = (λ h. cc, λ h. cc)

pub check_usages_iff :
    (allowed : Option (List String)) (given : List String)
    → (check_usages allowed given ≡ []) ↔ PermitsUsages allowed given
unfolding check_usages compare_values
check_usages_iff allowed [] = (λ h. tt, λ h. refl)
check_usages_iff none (u ∷ usages) = (λ h. cc, λ (_, h, _). cc)
check_usages_iff (some values) (u ∷ usages) =
    test_iff (λ v. wildcard_subset v (u ∷ usages)) (λ v. Subset v (u ∷ usages))
      (λ v. wildcard_subset_iff v (u ∷ usages)) values _
