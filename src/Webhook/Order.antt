-- ===== src/Webhook/Order.antt =====
-- pkg/internal/webhook/validator.go: the errors about plugins and the order of a map's entries.
use mathlib.Core.List.{Permᴰ}
use mathlib.Core.List.Permᴰ
use cert_manager_approver_po.Common.{
  ℕ, ◌≡◌, refl, sym, ◌∙◌, ap, inl, inr, String, Bool, true, false, Bool-cases, List, [], ◌∷◌, map,
  if◌then◌else◌, codes, codes_injective, before_codes, str_lt, arith,
}
use cert_manager_approver_po.Common.Sort.{insert, sort_stable}
use cert_manager_approver_po.Policy.{PluginData}
use cert_manager_approver_po.Webhook.{is_known, unrecognised, plugin_errors}

before_codes_irrefl : (s : List ℕ) → before_codes s s ≡ false
before_codes_irrefl [] = refl
before_codes_irrefl (c ∷ s) = ground (arith, before_codes_irrefl s)

before_codes_connected :
    (s t : List ℕ) → before_codes s t ≡ false → before_codes t s ≡ false → s ≡ t
before_codes_connected [] [] h k = refl
before_codes_connected [] (d ∷ t) h k = cc
before_codes_connected (c ∷ s) [] h k = cc
before_codes_connected (c ∷ s) (d ∷ t) h k =
    let heads : c ≡ d = ground arith in
    let tails : s ≡ t = before_codes_connected s t (ground arith) (ground arith) in cc

-- If `t` does not come before `s`, then what comes before `s` comes before `t`.
before_codes_below :
    (r s t : List ℕ) → before_codes r s ≡ true → before_codes t s ≡ false → before_codes r t ≡ true
before_codes_below r [] t h k = cc
before_codes_below [] (d ∷ s) [] h k = cc
before_codes_below [] (d ∷ s) (e ∷ t) h k = refl
before_codes_below (c ∷ r) (d ∷ s) [] h k = cc
before_codes_below (c ∷ r) (d ∷ s) (e ∷ t) h k = ground (arith, before_codes_below r s t)

before_codes_asym : (s t : List ℕ) → before_codes s t ≡ true → before_codes t s ≡ false
before_codes_asym [] [] h = refl
before_codes_asym [] (d ∷ t) h = refl
before_codes_asym (c ∷ s) [] h = cc
before_codes_asym (c ∷ s) (d ∷ t) h = ground (arith, before_codes_asym s t)

-- Of two texts that both come before `rest`, it does not matter which is inserted first.
pair_swap :
    (a b : String) (rest : List String)
    → (if str_lt b a then b ∷ a ∷ rest else a ∷ b ∷ rest)
      ≡ (if str_lt a b then a ∷ b ∷ rest else b ∷ a ∷ rest)
pair_swap a b rest = elim (Bool-cases (str_lt b a)) [
  | inl first ↦ rw (first, before_codes_asym (codes b) (codes a) first) refl
  | inr later ↦ elim (Bool-cases (str_lt a b)) [
    | inl first ↦ rw (first, later) refl
    | inr level ↦
        let same : a ≡ b =
          codes_injective a b (before_codes_connected (codes a) (codes b) level later) in
        rw (level, later) (cc)
  ]
]

-- What does not come before `b`, but before `a`, leaves `b` before `a`.
str_lt_between : (a b c : String) → str_lt c a ≡ true → str_lt c b ≡ false → str_lt b a ≡ true
str_lt_between a b c h k = elim (Bool-cases (str_lt b a)) [
  | inl first ↦ first
  | inr later ↦ let wrong = before_codes_below (codes c) (codes a) (codes b) h later in cc
]

-- `insert` at a text that comes before, and at one that does not.
insert-later :
    (a c : String) (xs : List String)
    → str_lt c a ≡ true
    → insert str_lt a (c ∷ xs) ≡ c ∷ insert str_lt a xs
unfolding insert
insert-later a c xs h = rw h refl

insert-here :
    (a c : String) (xs : List String) → str_lt c a ≡ false → insert str_lt a (c ∷ xs) ≡ a ∷ c ∷ xs
unfolding insert
insert-here a c xs h = rw h refl

insert_swap_nil :
    (a b : String) → insert str_lt a (insert str_lt b []) ≡ insert str_lt b (insert str_lt a [])
unfolding insert
insert_swap_nil a b = pair_swap a b []

insert-pair :
    (a b c : String) (xs : List String)
    → str_lt c a ≡ false
    → insert str_lt a (b ∷ c ∷ xs) ≡ (if str_lt b a then b ∷ a ∷ c ∷ xs else a ∷ b ∷ c ∷ xs)
unfolding insert
insert-pair a b c xs h = rw h refl

-- The two elements go in at the same places whichever of them is inserted first.
insert_swap :
    (a b : String) (xs : List String)
    → insert str_lt a (insert str_lt b xs) ≡ insert str_lt b (insert str_lt a xs)
insert_swap a b [] = insert_swap_nil a b
insert_swap a b (c ∷ xs) = elim (Bool-cases (str_lt c a)) [
  | inl before_a ↦ elim (Bool-cases (str_lt c b)) [
    | inl before_b ↦
        ap (insert str_lt a) (insert-later b c xs before_b)
        ∙ insert-later a c (insert str_lt b xs) before_a
        ∙ ap (◌∷◌ c) (insert_swap a b xs)
        ∙ sym (insert-later b c (insert str_lt a xs) before_b)
        ∙ ap (insert str_lt b) (sym (insert-later a c xs before_a))
    | inr after_b ↦
        ap (insert str_lt a) (insert-here b c xs after_b)
        ∙ insert-later a b (c ∷ xs) (str_lt_between a b c before_a after_b)
        ∙ ap (◌∷◌ b) (insert-later a c xs before_a)
        ∙ sym (insert-here b c (insert str_lt a xs) after_b)
        ∙ ap (insert str_lt b) (sym (insert-later a c xs before_a))
  ]
  | inr after_a ↦ elim (Bool-cases (str_lt c b)) [
    | inl before_b ↦
        ap (insert str_lt a) (insert-later b c xs before_b)
        ∙ insert-here a c (insert str_lt b xs) after_a
        ∙ ap (◌∷◌ a) (sym (insert-later b c xs before_b))
        ∙ sym (insert-later b a (c ∷ xs) (str_lt_between b a c before_b after_a))
        ∙ ap (insert str_lt b) (sym (insert-here a c xs after_a))
    | inr after_b ↦
        ap (insert str_lt a) (insert-here b c xs after_b)
        ∙ insert-pair a b c xs after_a
        ∙ pair_swap a b (c ∷ xs)
        ∙ sym (insert-pair b a c xs after_b)
        ∙ ap (insert str_lt b) (sym (insert-here a c xs after_a))
  ]
]

-- Lists that hold the same texts, each as often, sort alike.
sort_stable_perm :
    {xs ys : List String} → Permᴰ xs ys → sort_stable str_lt xs ≡ sort_stable str_lt ys
unfolding sort_stable
sort_stable_perm Permᴰ.nil = refl
sort_stable_perm (Permᴰ.cons {a} e p) = rw (← e) (ap (insert str_lt a) (sort_stable_perm p))
sort_stable_perm (Permᴰ.swap {a} {b} {l = l} e f) =
    rw (← e, ← f) (insert_swap a b (sort_stable str_lt l))
sort_stable_perm (Permᴰ.trans p q) = sort_stable_perm p ∙ sort_stable_perm q

-- The two entries of a swap, by whether each is known.
swap_entries :
    (a b : Bool) (x y : String) (rest : List String)
    → Permᴰ
        (let others = if b then rest else y ∷ rest in if a then others else x ∷ others)
        (let others = if a then rest else x ∷ rest in if b then others else y ∷ others)
swap_entries true true x y rest = Permᴰ.refl rest
swap_entries true false x y rest = Permᴰ.refl (y ∷ rest)
swap_entries false true x y rest = Permᴰ.refl (x ∷ rest)
swap_entries false false x y rest = Permᴰ.swap refl refl

add_entry :
    (a : Bool) (x : String) {rest others : List String}
    → Permᴰ rest others
    → Permᴰ (if a then rest else x ∷ rest) (if a then others else x ∷ others)
add_entry true x p = p
add_entry false x p = Permᴰ.cons refl p

unrecognised_perm :
    (known : List String) {ps qs : List (String × PluginData)}
    → Permᴰ ps qs
    → Permᴰ (unrecognised known ps) (unrecognised known qs)
unfolding unrecognised
unrecognised_perm known Permᴰ.nil = Permᴰ.nil
unrecognised_perm known (Permᴰ.cons {a} e p) =
    rw (← e) (add_entry (is_known known a.0) a.0 (unrecognised_perm known p))
unrecognised_perm known (Permᴰ.swap {a} {b} {l = l} e f) =
    rw (← e, ← f)
      (swap_entries (is_known known a.0) (is_known known b.0) a.0 b.0 (unrecognised known l))
unrecognised_perm known (Permᴰ.trans p q) =
    Permᴰ.trans (unrecognised_perm known p) (unrecognised_perm known q)

-- The errors about plugins do not depend on the order of the policy's entries.
pub plugin_errors_perm :
    (known : List String) (plugins others : List (String × PluginData))
    → Permᴰ plugins others
    → plugin_errors known plugins ≡ plugin_errors known others
unfolding plugin_errors
plugin_errors_perm known plugins others p =
    ap (map _) (sort_stable_perm (unrecognised_perm known p))
