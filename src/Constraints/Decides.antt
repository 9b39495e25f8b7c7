-- ===== src/Constraints/Decides.antt =====
-- pkg/internal/approver/constraints/evaluator.go: the evaluator against what it is to satisfy a
-- policy's constraints.
use cert_manager_approver_po.Common.{
  ℤ, String, ◌≡◌, refl, ◌↔◌, Option, none, some, [], ◌∷◌, ◌++◌, Outcome, ok, err, panic, ◌>>=◌,
  append-eq-nil,
}
use cert_manager_approver_po.Field.{ErrorList}
use cert_manager_approver_po.Policy.{ConstraintsPrivateKey, Constraints, CertificateRequestPolicy}
use cert_manager_approver_po.Request.{CertificateRequest}
use cert_manager_approver_po.Approver.{EvaluationResponse, not_denied}
use cert_manager_approver_po.Library.{Library}
use cert_manager_approver_po.Constraints.Evaluate.{
  check_duration, check_algorithm, check_size, check_private_key, is_less, is_greater, read_key,
  respond, evaluate_constraints, evaluate,
}
use cert_manager_approver_po.Constraints.Satisfies.{
  HasAtMost, HasAtLeast, KeyFits, ReadFits, IsRead, SatisfiesKey, Satisfies, KeyIsRead, NeedsRead,
  check_max_iff, check_min_iff, check_algorithm_iff, check_max_size_iff, check_min_size_iff,
}

-- The outcome is a list of errors exactly if `R` holds, and the list is empty exactly if `P` does.
record Answers (R P : Type 0) (m : Outcome ErrorList) : Type 0 where
  finds : R → (el : ErrorList) × (m ≡ ok el)
  reads : (el : ErrorList) → m ≡ ok el → R
  empty_iff : (el : ErrorList) → m ≡ ok el → (el ≡ []) ↔ P

module _ (library : Library) where
  abbrev key_errors : ConstraintsPrivateKey → String × ℤ → ErrorList
  key_errors key (alg, size) =
      check_algorithm library key.algorithm alg
      ++ (check_size library "maxSize" is_less key.max_size size
          ++ check_size library "minSize" is_greater key.min_size size)

  key_errors_iff :
      (key : ConstraintsPrivateKey) (alg : String) (size : ℤ)
      → (key_errors key (alg, size) ≡ []) ↔ KeyFits key alg size
  key_errors_iff key alg size =
      let (a_to, a_from) = check_algorithm_iff library key.algorithm alg in
      let (max_to, max_from) = check_max_size_iff library key.max_size size in
      let (min_to, min_from) = check_min_size_iff library key.min_size size in
      let (outer, outer_from) = append-eq-nil (check_algorithm library key.algorithm alg) _ in
      let (inner, inner_from) =
        append-eq-nil (check_size library "maxSize" is_less key.max_size size)
          (check_size library "minSize" is_greater key.min_size size) in
      (
        λ h. record {
          algorithm = a_to (outer h).0;
          max_size = max_to (inner (outer h).1).0;
          min_size = min_to (inner (outer h).1).1;
        },
        λ k. outer_from (a_from k.algorithm, inner_from (max_from k.max_size, min_from k.min_size)),
      )

  ok-Answers : {P : Type 0} {el : ErrorList} → (el ≡ []) ↔ P → Answers Unit P (ok el)
  ok-Answers {el} h = record {
    finds = λ _. (el, refl);
    reads = λ _ _. tt;
    empty_iff = λ other same. (λ e. h.0 (cc), λ q. let empty = h.1 q in cc);
  }

  IsRead-Answers :
      (key : ConstraintsPrivateKey) (o : Outcome (String × ℤ))
      → Answers (IsRead o) (ReadFits key o) (o >>= λ k. ok (key_errors key k))
  IsRead-Answers key (ok (alg, size)) = ok-Answers (key_errors_iff key alg size)
  IsRead-Answers key (err e) = record {
    finds = λ h. absurd h;
    reads = λ el h. cc;
    empty_iff = λ el h. cc;
  }
  IsRead-Answers key panic = record {
    finds = λ h. absurd h;
    reads = λ el h. cc;
    empty_iff = λ el h. cc;
  }

  check_private_key-Answers :
      (key : Option ConstraintsPrivateKey) (request : CertificateRequest)
      → Answers
          (KeyIsRead library key request)
          (SatisfiesKey library key request)
          (check_private_key library key request)
  unfolding check_private_key
  check_private_key-Answers none request = ok-Answers (λ _. tt, λ _. refl)
  check_private_key-Answers (some key) request = IsRead-Answers key (read_key library request)

  respond-not_denied_iff : (el : ErrorList) → ((respond library el).result ≡ not_denied) ↔ (el ≡ [])
  respond-not_denied_iff [] = (λ h. refl, λ h. refl)
  respond-not_denied_iff (e ∷ el) = (λ h. cc, λ h. cc)

  -- A response comes out exactly if `R` holds, and it is not a denial exactly if `P` does.
  record Decides (R P : Type 0) (m : Outcome EvaluationResponse) : Type 0 where
    returns_iff : ((r : EvaluationResponse) × (m ≡ ok r)) ↔ R
    not_denied_iff : (r : EvaluationResponse) → m ≡ ok r → (r.result ≡ not_denied) ↔ P

  -- `all` adds the errors of the durations to those of the key.
  Answers-Decides :
      {R P Q : Type 0} (all : ErrorList → ErrorList) (m : Outcome ErrorList)
      → ((el : ErrorList) → ((all el ≡ []) ↔ ((el ≡ []) × Q)))
      → Answers R P m
      → Decides R (P × Q) (m >>= λ el. ok (respond library (all el)))
  Answers-Decides all (ok el) split a = record {
    returns_iff = (λ h. a.reads el refl, λ h. (respond library (all el), refl));
    not_denied_iff = λ r h.
        let (to, from) = respond-not_denied_iff (all el) in
        let (p_to, p_from) = a.empty_iff el refl in
        let same : respond library (all el) ≡ r = cc in
        rw (← same) (
          λ e. let (empty, q) = (split el).0 (to e) in (p_to empty, q),
          λ (p, q). from ((split el).1 (p_from p, q)),
        );
  }
  Answers-Decides all (err e) split a = record {
    returns_iff = (λ (r, h). cc, λ h. let (el, same) = a.finds h in cc);
    not_denied_iff = λ r h. cc;
  }
  Answers-Decides all panic split a = record {
    returns_iff = (λ (r, h). cc, λ h. let (el, same) = a.finds h in cc);
    not_denied_iff = λ r h. cc;
  }

  evaluate_constraints-Decides :
      (c : Option Constraints) (request : CertificateRequest)
      → Decides
          (NeedsRead library c request)
          (Satisfies library c request)
          (evaluate_constraints library c request)
  unfolding evaluate_constraints
  evaluate_constraints-Decides none request = record {
    returns_iff = (λ _. tt, λ _. (_, refl));
    not_denied_iff = λ r h. (λ _. tt, λ _. cc);
  }
  evaluate_constraints-Decides (some c) request =
      let d =
        Answers-Decides all (check_private_key library c.private_key request) split
          (check_private_key-Answers c.private_key request) in
      record {
        returns_iff = d.returns_iff;
        not_denied_iff = λ r h.
            let (to, from) = d.not_denied_iff r h in
            (
              λ e.
                  let (key, (max, min)) = to e in
                  record { max_duration = max; min_duration = min; private_key = key },
              λ s. from (s.private_key, (s.max_duration, s.min_duration)),
            );
      }
    where
      all : ErrorList → ErrorList
      all el =
          check_duration library "maxDuration" is_less c.max_duration request.duration
          ++ (check_duration library "minDuration" is_greater c.min_duration request.duration ++ el)

      split :
          (el : ErrorList)
          → (all el ≡ []) ↔ (
              (el ≡ [])
              × (HasAtMost request.duration c.max_duration
                  × HasAtLeast request.duration c.min_duration))
      split el =
          let (max_to, max_from) =
            check_max_iff library "maxDuration" c.max_duration request.duration in
          let (min_to, min_from) =
            check_min_iff library "minDuration" c.min_duration request.duration in
          let (outer, outer_from) =
            append-eq-nil
              (check_duration library "maxDuration" is_less c.max_duration request.duration) _ in
          let (inner, inner_from) =
            append-eq-nil
              (check_duration library "minDuration" is_greater c.min_duration request.duration)
              el in
          (
            λ h. ((inner (outer h).1).1, (max_to (outer h).0, min_to (inner (outer h).1).0)),
            λ (e, (max, min)). outer_from (max_from max, inner_from (min_from min, e)),
          )

  -- When the evaluator returns.
  pub evaluate-ok_iff :
      (policy : CertificateRequestPolicy) (request : CertificateRequest)
      → ((r : EvaluationResponse) × (evaluate library policy request ≡ ok r))
        ↔ NeedsRead library policy.spec.constraints request
  unfolding evaluate
  evaluate-ok_iff policy request =
      (evaluate_constraints-Decides policy.spec.constraints request).returns_iff

  -- A response of the evaluator is `not_denied` exactly when the request satisfies every constraint
  -- of the policy: duration bounds want a duration within them, and a constraint on the private key
  -- wants the key's algorithm and a size within the bounds, all bounds inclusive.
  pub evaluate-Satisfies_iff :
      (policy : CertificateRequestPolicy) (request : CertificateRequest) (r : EvaluationResponse)
      → evaluate library policy request ≡ ok r
      → (r.result ≡ not_denied) ↔ Satisfies library policy.spec.constraints request
  unfolding evaluate
  evaluate-Satisfies_iff policy request =
      (evaluate_constraints-Decides policy.spec.constraints request).not_denied_iff
