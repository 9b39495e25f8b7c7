-- ===== src/Webhook/Errors.antt =====
-- pkg/internal/webhook/validator.go: when each part of the validation finds nothing.
use mathlib.Core.Bool.{false≢true}
use cert_manager_approver_po.Common.{
  ◌≡◌, refl, sym, ◌∙◌, ap, ◌↔◌, ◌⊎◌, inl, inr, String, Bool, true, false, not, Bool-cases, Option,
  none, some, List, [], ◌∷◌, ◌++◌, map, Outcome, ok, err, panic, ◌>>=◌, All, append-eq-nil,
  iff_trans, if◌then◌else◌, str_eq_iff, str_lt, arith,
}
use cert_manager_approver_po.Common.Sort.{insert, sort_stable}
use cert_manager_approver_po.Field.{ErrorList}
use cert_manager_approver_po.Policy.{
  PluginData, SelectorIssuerRef, SelectorNamespace, CertificateRequestPolicy,
}
use cert_manager_approver_po.Approver.{Webhook, WebhookValidationResponse}
use cert_manager_approver_po.Predicate.Filter.{In}
use cert_manager_approver_po.Webhook.{
  is_known, unrecognised, plugin_errors, selector_errors, webhook_errors,
}

-- The webhook returns a response that allows the policy, or that gives no errors.
abbrev pub Agrees : CertificateRequestPolicy → Webhook → Type 0
Agrees policy webhook =
    (r : WebhookValidationResponse) × (webhook.validate policy ≡ ok r)
    × ((r.allowed ≡ true) ⊎ (r.errors ≡ []))

-- A selector on the issuer or on the namespace is given.
abbrev pub IsSelected : Option SelectorIssuerRef → Option SelectorNamespace → Type 0
IsSelected none none = ⊥
IsSelected none (some n) = Unit
IsSelected (some i) namespace = Unit

is_known_iff : (known : List String) (name : String) → (is_known known name ≡ true) ↔ In name known
unfolding is_known
is_known_iff [] name = (λ h. cc, λ h. absurd h)
is_known_iff (k ∷ known) name = grind (arith, str_eq_iff name k, is_known_iff known name)

unrecognised_iff :
    (known : List String) (plugins : List (String × PluginData))
    → (unrecognised known plugins ≡ []) ↔ All (λ p. In p.0 known) plugins
unfolding unrecognised
unrecognised_iff known [] = (λ _. tt, λ _. refl)
unrecognised_iff known ((name, d) ∷ plugins) =
    let (sound, complete) = is_known_iff known name in
    let (to, from) = unrecognised_iff known plugins in
    elim (Bool-cases (is_known known name)) [
      | inl found ↦ rw found (λ h. (sound found, to h), λ (_, h). from h)
      | inr absent ↦ rw absent (λ h. cc, λ (m, _). absurd (false≢true (sym absent ∙ complete m)))
    ]

insert-nonempty :
    {A : Type 0} (before : A → A → Bool) (a : A) (xs : List A) → ¬ (insert before a xs ≡ [])
unfolding insert
insert-nonempty before a [] h = cc
insert-nonempty before a (x ∷ xs) h = elim (Bool-cases (before x a)) [
  | inl first ↦ let wrong = rw first at h in cc
  | inr later ↦ let wrong = rw later at h in cc
]

sort_stable_nil :
    {A : Type 0} (before : A → A → Bool) (xs : List A) → (sort_stable before xs ≡ []) ↔ (xs ≡ [])
unfolding sort_stable
sort_stable_nil before [] = (λ _. refl, λ _. refl)
sort_stable_nil before (x ∷ xs) =
    (λ h. absurd (insert-nonempty before x (sort_stable before xs) h), λ h. cc)

map_nil : {A B : Type 0} (f : A → B) (xs : List A) → (map f xs ≡ []) ↔ (xs ≡ [])
map_nil f [] = (λ _. refl, λ _. refl)
map_nil f (x ∷ xs) = (λ h. cc, λ h. cc)

pub plugin_errors_iff :
    (known : List String) (plugins : List (String × PluginData))
    → (plugin_errors known plugins ≡ []) ↔ All (λ p. In p.0 known) plugins
unfolding plugin_errors
plugin_errors_iff known plugins =
    iff_trans (map_nil _ (sort_stable str_lt (unrecognised known plugins))) (
      iff_trans (sort_stable_nil str_lt (unrecognised known plugins))
        (unrecognised_iff known plugins))

pub selector_errors_iff :
    (issuer : Option SelectorIssuerRef) (namespace : Option SelectorNamespace)
    → (selector_errors issuer namespace ≡ []) ↔ IsSelected issuer namespace
unfolding selector_errors
selector_errors_iff none none = (λ h. cc, λ h. absurd h)
selector_errors_iff none (some n) = (λ _. tt, λ _. refl)
selector_errors_iff (some i) namespace = (λ _. tt, λ _. refl)

-- The errors after one response are none exactly if there were none and the webhook agrees.
extend_iff :
    (allowed : Bool) (el errors : ErrorList) (next : ErrorList → Outcome ErrorList) (Rest : Type 0)
    → ((more : ErrorList) → (next more ≡ ok []) ↔ ((more ≡ []) × Rest))
    → (next (if not allowed then el ++ errors else el) ≡ ok [])
      ↔ ((el ≡ []) × ((allowed ≡ true) ⊎ (errors ≡ [])) × Rest)
extend_iff true el errors next Rest rest =
    let (to, from) = rest el in
    (λ h. let (e, others) = to h in (e, inl refl, others), λ (e, _, others). from (e, others))
extend_iff false el errors next Rest rest =
    let (to, from) = rest (el ++ errors) in
    let (split, joined) = append-eq-nil el errors in
    (
      λ h. let (e, others) = to h in ((split e).0, inr (split e).1, others),
      λ (e, agreed, others). elim agreed [
        | inl wrong ↦ cc
        | inr clean ↦ from (joined (e, clean), others)
      ],
    )

-- One round of the loop, at what the webhook returned.
round_iff :
    (m : Outcome WebhookValidationResponse) (el : ErrorList) (next : ErrorList → Outcome ErrorList)
    (Rest : Type 0)
    → ((more : ErrorList) → (next more ≡ ok []) ↔ ((more ≡ []) × Rest))
    → ((m >>= λ r. next (if not r.allowed then el ++ r.errors else el)) ≡ ok []) ↔ (
        (el ≡ [])
        × ((r : WebhookValidationResponse) × (m ≡ ok r) × ((r.allowed ≡ true) ⊎ (r.errors ≡ [])))
        × Rest)
round_iff panic el next Rest rest = (λ h. cc, λ (_, (r, h, _), _). cc)
round_iff (err e) el next Rest rest = (λ h. cc, λ (_, (r, h, _), _). cc)
round_iff (ok r) el next Rest rest =
    let (to, from) = extend_iff r.allowed el r.errors next Rest rest in
    (
      λ h. let (empty, agreed, others) = to h in (empty, (r, refl, agreed), others),
      λ (empty, (s, same, agreed), others).
          let same' : s ≡ r = cc in from (empty, rw same' at agreed, others),
    )

pub ok_nil_iff : (el : ErrorList) → (◌≡◌ {A = Outcome ErrorList} (ok el) (ok [])) ↔ (el ≡ [])
ok_nil_iff el = (λ h. cc, λ h. ap ok h)

pub webhook_errors_iff :
    (webhooks : List Webhook) (policy : CertificateRequestPolicy) (el : ErrorList)
    → (webhook_errors webhooks policy el ≡ ok []) ↔ ((el ≡ []) × All (Agrees policy) webhooks)
unfolding webhook_errors
webhook_errors_iff [] policy el = iff_trans (ok_nil_iff el) (λ h. (h, tt), λ (h, _). h)
webhook_errors_iff (w ∷ webhooks) policy el =
    iff_trans
      (round_iff (w.validate policy) el (webhook_errors webhooks policy)
        (All (Agrees policy) webhooks) (webhook_errors_iff webhooks policy))
      (λ (e, a, r). (e, (a, r)), λ (e, (a, r)). (e, a, r))
