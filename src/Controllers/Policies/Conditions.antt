-- ===== src/Controllers/Policies/Conditions.antt =====
-- pkg/internal/controllers/certificaterequestpolicies.go: a list of conditions as a map from their types,
-- and the setting of a condition as a write to that map.
use mathlib.Core.Bool.{false≢true}
use mathlib.Core.Path.{fun_ext, subst}
use cert_manager_approver_po.Common.{
  ◌≡◌, refl, sym, ◌∙◌, ap, ◌⊎◌, inl, inr, String, ℤ, true, false, Bool-cases, Option, none, some,
  List, [], ◌∷◌, Any, if◌then◌else◌, str_eq, str_eq_iff,
}
use cert_manager_approver_po.Policy.{Condition}
use cert_manager_approver_po.Controllers.Policies.{replacement, put_condition, set_condition}

-- The abstract view: at most one condition for each type.
abbrev pub ConditionMap : Type 0
ConditionMap = String → Option Condition

-- The first condition of the type.
abbrev pub find_condition : List Condition → ConditionMap
find_condition [] type = none
find_condition (c ∷ conditions) type =
    let rest = find_condition conditions type in if str_eq c.type type then some c else rest

-- What is written: the new condition, with the time of an existing one where the status is the same.
abbrev pub written : Condition → Option Condition → Condition
written condition none = condition
written condition (some existing) = record {
  type = condition.type;
  status = condition.status;
  last_transition_time =
      if str_eq existing.status condition.status
      then existing.last_transition_time
      else condition.last_transition_time;
  reason = condition.reason;
  message = condition.message;
  observed_generation = condition.observed_generation;
}

abbrev pub write_condition : Condition → ConditionMap → ConditionMap
write_condition condition m type =
    if str_eq condition.type type then some (written condition (m condition.type)) else m type

str_eq_refl : (s : String) → str_eq s s ≡ true
str_eq_refl s = (str_eq_iff s s).1 refl

str_eq_sym : (s t : String) → str_eq s t ≡ str_eq t s
str_eq_sym s t = elim (Bool-cases (str_eq s t)) [
  | inl same ↦ let e = (str_eq_iff s t).0 same in same ∙ sym ((str_eq_iff t s).1 (sym e))
  | inr other ↦ elim (Bool-cases (str_eq t s)) [
    | inl same ↦
        absurd (false≢true (sym other ∙ (str_eq_iff s t).1 (sym ((str_eq_iff t s).0 same))))
    | inr other' ↦ other ∙ sym other'
  ]
]

replacement-type : (existing c : Condition) → (replacement existing c).type ≡ c.type
replacement-type existing c = elim (Bool-cases (str_eq existing.status c.status)) [
  | inl same ↦ rw same refl
  | inr other ↦ rw other refl
]

replacement-written : (existing c : Condition) → replacement existing c ≡ written c (some existing)
replacement-written existing c = elim (Bool-cases (str_eq existing.status c.status)) [
  | inl same ↦ rw same refl
  | inr other ↦ rw other refl
]

find_here :
    (c : Condition) (conditions : List Condition) (type : String)
    → str_eq c.type type ≡ true
    → find_condition (c ∷ conditions) type ≡ some c
find_here c conditions type h = rw h refl

find_later :
    (c : Condition) (conditions : List Condition) (type : String)
    → str_eq c.type type ≡ false
    → find_condition (c ∷ conditions) type ≡ find_condition conditions type
find_later c conditions type h = rw h refl

write_here :
    (c : Condition) (m : ConditionMap) (type : String)
    → str_eq c.type type ≡ true
    → write_condition c m type ≡ some (written c (m c.type))
write_here c m type h = rw h refl

write_later :
    (c : Condition) (m : ConditionMap) (type : String)
    → str_eq c.type type ≡ false
    → write_condition c m type ≡ m type
write_later c m type h = rw h refl

put_same :
    (c e : Condition) (conditions : List Condition)
    → str_eq e.type c.type ≡ true
    → put_condition c (e ∷ conditions) ≡ replacement e c ∷ conditions
unfolding put_condition
put_same c e conditions h = rw h refl

put_other :
    (c e : Condition) (conditions : List Condition)
    → str_eq e.type c.type ≡ false
    → put_condition c (e ∷ conditions) ≡ e ∷ put_condition c conditions
unfolding put_condition
put_other c e conditions h = rw h refl

put_nil : (c : Condition) → put_condition c [] ≡ c ∷ []
unfolding put_condition
put_nil c = refl

find-put_nil :
    (c : Condition) (type : String)
    → find_condition (c ∷ []) type ≡ write_condition c (find_condition []) type
find-put_nil c type = elim (Bool-cases (str_eq c.type type)) [
  | inl same ↦ find_here c [] type same ∙ sym (write_here c (find_condition []) type same)
  | inr other ↦ find_later c [] type other ∙ sym (write_later c (find_condition []) type other)
]

find-put_same :
    (c e : Condition) (conditions : List Condition) (type : String)
    → str_eq e.type c.type ≡ true
    → find_condition (replacement e c ∷ conditions) type
      ≡ write_condition c (find_condition (e ∷ conditions)) type
find-put_same c e conditions type h = elim (Bool-cases (str_eq c.type type)) [
  | inl same ↦
      find_here (replacement e c) conditions type
        (ap (λ t. str_eq t type) (replacement-type e c) ∙ same)
      ∙ ap some (replacement-written e c)
      ∙ ap (λ o. some (written c o)) (sym (find_here e conditions c.type h))
      ∙ sym (write_here c (find_condition (e ∷ conditions)) type same)
  | inr other ↦
      find_later (replacement e c) conditions type
        (ap (λ t. str_eq t type) (replacement-type e c) ∙ other)
      ∙ sym (
          find_later e conditions type
            (ap (λ t. str_eq t type) ((str_eq_iff e.type c.type).0 h) ∙ other))
      ∙ sym (write_later c (find_condition (e ∷ conditions)) type other)
]

find-put_other :
    (c e : Condition) (conditions : List Condition) (type : String)
    → find_condition (put_condition c conditions) type
      ≡ write_condition c (find_condition conditions) type
    → str_eq e.type c.type ≡ false
    → (str_eq e.type type ≡ true) ⊎ (str_eq e.type type ≡ false)
    → (str_eq c.type type ≡ true) ⊎ (str_eq c.type type ≡ false)
    → find_condition (e ∷ put_condition c conditions) type
      ≡ write_condition c (find_condition (e ∷ conditions)) type
find-put_other c e conditions type rest other (inl here) (inl here') =
    let joined = (str_eq_iff e.type type).0 here ∙ sym ((str_eq_iff c.type type).0 here') in
    absurd (false≢true (sym other ∙ (str_eq_iff e.type c.type).1 joined))
find-put_other c e conditions type rest other (inl here) (inr later) =
    find_here e (put_condition c conditions) type here
    ∙ sym (find_here e conditions type here)
    ∙ sym (write_later c (find_condition (e ∷ conditions)) type later)
find-put_other c e conditions type rest other (inr past) (inl here) =
    find_later e (put_condition c conditions) type past
    ∙ rest
    ∙ write_here c (find_condition conditions) type here
    ∙ ap (λ o. some (written c o)) (sym (find_later e conditions c.type other))
    ∙ sym (write_here c (find_condition (e ∷ conditions)) type here)
find-put_other c e conditions type rest other (inr past) (inr later) =
    find_later e (put_condition c conditions) type past
    ∙ rest
    ∙ write_later c (find_condition conditions) type later
    ∙ sym (find_later e conditions type past)
    ∙ sym (write_later c (find_condition (e ∷ conditions)) type later)

find-put :
    (c : Condition) (conditions : List Condition) (type : String)
    → find_condition (put_condition c conditions) type
      ≡ write_condition c (find_condition conditions) type
find-put c [] type = ap (λ l. find_condition l type) (put_nil c) ∙ find-put_nil c type
find-put c (e ∷ conditions) type = elim (Bool-cases (str_eq e.type c.type)) [
  | inl same ↦
      ap (λ l. find_condition l type) (put_same c e conditions same)
      ∙ find-put_same c e conditions type same
  | inr other ↦
      ap (λ l. find_condition l type) (put_other c e conditions other)
      ∙ find-put_other c e conditions type (find-put c conditions type) other
          (Bool-cases (str_eq e.type type)) (Bool-cases (str_eq c.type type))
]

-- Setting a condition on the list is a write to the map that the list stands for: the condition of
-- that type becomes the new one, with the given generation and the time of the clock, or with the
-- time of the existing condition where the status is the same; the other types keep theirs.
pub find-set_condition :
    (now generation : ℤ) (c : Condition) (conditions : List Condition)
    → find_condition (set_condition now generation c conditions)
      ≡ write_condition
          (record c { last_transition_time = some now; observed_generation = generation })
          (find_condition conditions)
unfolding set_condition
find-set_condition now generation c conditions = fun_ext (λ type.
    find-put (record c { last_transition_time = some now; observed_generation = generation })
      conditions type)

-- No two conditions have the same type.
abbrev pub HasType : String → List Condition → Type 0
HasType type conditions = Any (λ c. type ≡ c.type) conditions

abbrev pub IsDistinct : List Condition → Type 0
IsDistinct [] = Unit
IsDistinct (c ∷ conditions) = ¬ HasType c.type conditions × IsDistinct conditions

HasType-put :
    (c : Condition) (type : String) (conditions : List Condition)
    → HasType type (put_condition c conditions)
    → (type ≡ c.type) ⊎ HasType type conditions
HasType-put c type [] h = elim (rw put_nil at h) [ inl e ↦ inl e | inr m ↦ absurd m ]
HasType-put c type (e ∷ conditions) h = elim (Bool-cases (str_eq e.type c.type)) [
  | inl same ↦ elim (subst (HasType type) (put_same c e conditions same) h) [
    | inl here ↦ inl (here ∙ replacement-type e c)
    | inr m ↦ inr (inr m)
  ]
  | inr other ↦ elim (subst (HasType type) (put_other c e conditions other) h) [
    | inl here ↦ inr (inl here)
    | inr m ↦ elim (HasType-put c type conditions m) [ inl k ↦ inl k | inr k ↦ inr (inr k) ]
  ]
]

put-IsDistinct :
    (c : Condition) (conditions : List Condition)
    → IsDistinct conditions
    → IsDistinct (put_condition c conditions)
put-IsDistinct c [] d = rw put_nil ((λ h. h), tt)
put-IsDistinct c (e ∷ conditions) (fresh, d) = elim (Bool-cases (str_eq e.type c.type)) [
  | inl same ↦
      let kept : (replacement e c).type ≡ e.type =
        replacement-type e c ∙ sym ((str_eq_iff e.type c.type).0 same) in
      subst IsDistinct (sym (put_same c e conditions same))
        ((λ h. fresh (subst (λ t. HasType t conditions) kept h)), d)
  | inr other ↦ subst IsDistinct (sym (put_other c e conditions other)) (
    λ h. elim (HasType-put c e.type conditions h) [
      | inl k ↦ false≢true (sym other ∙ (str_eq_iff e.type c.type).1 k)
      | inr m ↦ fresh m
    ],
    put-IsDistinct c conditions d,
  )
]

-- If no two conditions of a list have the same type, none have after a condition is set.
pub set_condition-IsDistinct :
    (now generation : ℤ) (c : Condition) (conditions : List Condition)
    → IsDistinct conditions
    → IsDistinct (set_condition now generation c conditions)
unfolding set_condition
set_condition-IsDistinct now generation c conditions d = put-IsDistinct _ conditions d
