-- ===== src/Tls/Renewal.antt =====
-- pkg/internal/webhook/tls/tls.go: when a certificate is renewed.
use cert_manager_approver_po.Common.{
  ◌/◌, ℤ, pos, negsuc, pos_part, neg_part, ◌≤ℤ◌, ◌+ℤ◌, ◌-ℤ◌, ◌≡◌, arith, -ℤ_parts, +ℤ_parts,
  same_parts,
}
use cert_manager_approver_po.Tls.{max_duration, time_sub, divide_by_minus_three, renew_moment}

-- Within the range the difference is exact.
time_sub_exact : (a b : ℤ) → b ≤ℤ a → (a -ℤ b) ≤ℤ max_duration → time_sub a b ≡ a -ℤ b
unfolding time_sub
time_sub_exact a b h fits = ground (arith, -ℤ_parts a b)

divide_parts :
    (d : ℤ)
    → pos 0 ≤ℤ d
    → (pos_part (divide_by_minus_three d) ≡ 0)
      × (neg_part (divide_by_minus_three d) ≡ pos_part d / 3)
      × (neg_part d ≡ 0)
unfolding divide_by_minus_three
divide_parts (pos n) h = ground arith
divide_parts (negsuc n) h = absurd (omega arith)

-- For a certificate that is valid for a time of at least 0 and at most the greatest duration, the
-- moment of renewal lies between the start and the end of its validity, and what then is left is a
-- third of the validity, rounded down.
pub renew_moment-third :
    (not_before not_after : ℤ)
    → not_before ≤ℤ not_after
    → (not_after -ℤ not_before) ≤ℤ max_duration
    → (not_before ≤ℤ renew_moment not_before not_after)
      × (renew_moment not_before not_after ≤ℤ not_after)
      × (not_after -ℤ renew_moment not_before not_after
          ≡ pos (pos_part (not_after -ℤ not_before) / 3))
unfolding renew_moment
renew_moment-third b a h fits =
    let q = divide_by_minus_three (a -ℤ b) in
    let (no_pos, third, not_negative) = divide_parts (a -ℤ b) (omega (arith, -ℤ_parts a b)) in
    rw (time_sub_exact a b h fits) (
      omega (arith, -ℤ_parts a b, +ℤ_parts a q),
      omega (arith, +ℤ_parts a q),
      same_parts _ _ (omega (arith, +ℤ_parts a q, -ℤ_parts a (a +ℤ q))),
    )
