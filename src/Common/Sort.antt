-- ===== src/Common/Sort.antt =====
-- `sort.Strings` and `sort.SliceStable`: a stable sort by insertion, over any Boolean order.
use cert_manager_approver_po.Common.Tests.{if◌then◌else◌}
use mathlib.Core.Bool.{Bool}
use mathlib.Core.List.{List, [], ◌∷◌}

module _ {ℓ} {A : Type ℓ} (before : A → A → Bool) where
  -- Goes in front of the first element that must not come before it.
  unfoldable pub insert : A → List A → List A
  insert a [] = a ∷ []
  insert a (b ∷ bs) = let later = b ∷ insert a bs in if before b a then later else a ∷ b ∷ bs

  unfoldable pub sort_stable : List A → List A
  unfolding insert
  sort_stable [] = []
  sort_stable (a ∷ rest) = insert a (sort_stable rest)
