-- ===== src/Tests/Wildcard.antt =====
-- pkg/internal/util/wildcard.go at small inputs.
use cert_manager_approver_po.Common.{◌≡◌, refl, ◌↔◌, true, false}
use cert_manager_approver_po.Wildcard.{match_runes, wildcard_matches}
use cert_manager_approver_po.Wildcard.Meaning.{TextMatches}
use cert_manager_approver_po.Wildcard.Decides.{wildcard_matches_iff}

star_inside : wildcard_matches "a*c" "abbc" ≡ true
unfolding wildcard_matches match_runes
star_inside = refl

too_short : wildcard_matches "a*c" "ab" ≡ false
unfolding wildcard_matches match_runes
too_short = refl

wildcard_matches_iff_example : (wildcard_matches "a*c" "abbc" ≡ true) ↔ TextMatches "a*c" "abbc"
wildcard_matches_iff_example = wildcard_matches_iff "a*c" "abbc"
