-- ===== src/Constraints/KeySize.antt =====
-- pkg/internal/approver/constraints/evaluator.go: the size of an RSA key.
use native.Mathlib.Nat.{two-pow-succ, pow-le-pow_right}
use cert_manager_approver_po.Common.{
  ℕ, zero, suc, ◌*◌, ◌/◌, ◌^◌, ◌≤◌, ◌<◌, ◌==◌, ==_iff, arith, ◌≡◌, refl, ◌↔◌, ◌⊎◌, inl, inr,
  Bool-cases, false, pos, ok,
}
use cert_manager_approver_po.Request.{PublicKey}
use cert_manager_approver_po.Constraints.Evaluate.{rsa, bit_length, bit_len, decode_public_key}

zero_length : (fuel : ℕ) → bit_length fuel 0 ≡ 0
unfolding bit_length
zero_length zero = refl
zero_length (suc fuel) = refl

half_positive : (n : ℕ) → (n == 0) ≡ false → 0 < n
half_positive n h = ground arith

-- Fuel that is at least the number is enough: the digits reach the number, and no further.
bit_length-bounds :
    (fuel n : ℕ) → n ≤ fuel → (n < 2 ^ bit_length fuel n) × (0 < n → 2 ^ bit_length fuel n ≤ 2 * n)
unfolding bit_length
bit_length-bounds zero n h = (omega arith, λ k. absurd (omega arith))
bit_length-bounds (suc fuel) n h =
    let (upper, lower) = bit_length-bounds fuel (n / 2) (omega arith) in
    let doubled = two-pow-succ (bit_length fuel (n / 2)) in
    elim (Bool-cases (n == 0)) [
      | inl none_left ↦
          let e = (==_iff n 0).0 none_left in
          rw none_left (omega (arith, e), λ k. absurd (omega (arith, e)))
      | inr some_left ↦ rw some_left (
        omega (arith, upper, doubled),
        λ k. elim (Bool-cases (n / 2 == 0)) [
          | inl one ↦
              let half = (==_iff (n / 2) 0).0 one in rw (half, zero_length fuel) (omega arith)
          | inr more ↦ omega (arith, lower (half_positive (n / 2) more), doubled)
        ],
      )
    ]

le_or_lt : (a b : ℕ) → (a ≤ b) ⊎ (b < a)
le_or_lt a b = ground arith

bit_len-le_iff : (n b : ℕ) → (bit_len n ≤ b) ↔ (n < 2 ^ b)
unfolding bit_len
bit_len-le_iff n b =
    let (upper, lower) = bit_length-bounds n n (omega arith) in
    (
      λ h. omega (arith, upper, pow-le-pow_right {n = 2} (omega arith) h),
      λ h. elim (le_or_lt (bit_length n n) b) [
        | inl within ↦ within
        | inr beyond ↦
            let longer = pow-le-pow_right {n = 2} (omega arith) beyond in
            let doubled = two-pow-succ b in
            elim (Bool-cases (n == 0)) [
              | inl none_left ↦
                  let e = (==_iff n 0).0 none_left in rw (e, zero_length 0) (omega arith)
              | inr some_left ↦
                  absurd (omega (arith, lower (half_positive n some_left), longer, doubled))
            ]
      ],
    )

-- The size that is decoded for an RSA key is the number of binary digits of its modulus: it is at most
-- b exactly if the modulus is less than the b-th power of 2.
pub decode_public_key-le_iff :
    (n : ℕ)
    → (size : ℕ) × (decode_public_key (PublicKey.rsa_pointer n) ≡ ok (rsa, pos size))
      × ((b : ℕ) → (size ≤ b) ↔ (n < 2 ^ b))
unfolding decode_public_key
decode_public_key-le_iff n = (bit_len n, refl, bit_len-le_iff n)
