-- ===== src/Controllers/Requests/Undecided.antt =====
-- pkg/internal/controllers/certificaterequests.go: the requests that an event enqueues.
use cert_manager_approver_po.Common.{
  ◌≡◌, refl, ◌∙◌, Bool, true, false, not, ◌&&◌, ◌||◌, List, [], ◌∷◌, map, if◌then◌else◌,
}
use cert_manager_approver_po.Controllers.Patch.{NamespacedName}
use cert_manager_approver_po.Controllers.Requests.{needs_review, undecided}

module _ {Listed : Type 0} (is_approved is_denied : Listed → Bool)
    (name_of : Listed → NamespacedName) where
  -- The requests that pass the event filter, in order.
  abbrev pub passing : List Listed → List Listed
  passing [] = []
  passing (cr ∷ requests) =
      let rest = passing requests in
      if needs_review is_approved is_denied name_of cr then cr ∷ rest else rest

  either_decided :
      {A : Type 0} (a d : Bool) (x y : A)
      → (if a || d then x else y) ≡ (if not a && not d then y else x)
  either_decided true d x y = refl
  either_decided false true x y = refl
  either_decided false false x y = refl

  name_branch :
      (b : Bool) (cr : Listed) (requests : List Listed)
      → (if b then name_of cr ∷ map name_of requests else map name_of requests)
        ≡ map name_of (if b then cr ∷ requests else requests)
  name_branch true cr requests = refl
  name_branch false cr requests = refl

  -- An event of a policy, of access rules or of a namespace enqueues exactly the names of the listed
  -- requests that pass the filter on events of requests, in the order of the list.
  pub undecided-eq-map :
      (requests : List Listed)
      → undecided is_approved is_denied name_of requests ≡ map name_of (passing requests)
  unfolding undecided needs_review
  undecided-eq-map [] = refl
  undecided-eq-map (cr ∷ requests) = rw (undecided-eq-map requests) (
      either_decided (is_approved cr) (is_denied cr) (map name_of (passing requests))
        (name_of cr ∷ map name_of (passing requests))
      ∙ name_branch (not (is_approved cr) && not (is_denied cr)) cr (passing requests))
