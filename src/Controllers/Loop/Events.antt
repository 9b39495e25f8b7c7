-- ===== src/Controllers/Loop/Events.antt =====
-- pkg/internal/controllers/certificaterequests.go: an event that is handled leaves an undecided request
-- in the queue.
use mathlib.Core.Path.{subst}
use cert_manager_approver_po.Common.{
  ℕ, Bool-cases, List, [], ◌∷◌, ◌≡◌, sym, ◌∙◌, ap, ◌⊎◌, inl, inr, Outcome, ok, err, panic, Error,
}
use cert_manager_approver_po.Predicate.Filter.{In}
use cert_manager_approver_po.Controllers.Patch.{NamespacedName}
use cert_manager_approver_po.Controllers.Requests.{enqueue_requests}
use cert_manager_approver_po.Controllers.Parties.{Stored, name_of, IsQueue}
use cert_manager_approver_po.Controllers.Loop.{
  Setting, is_undecided, add_all, arrive, after_listing, handle_change,
}
use cert_manager_approver_po.Controllers.Loop.Store.{In-undecided}
use cert_manager_approver_po.Controllers.Loop.Waiting.{
  State, IsOpen, to_arrive, to_be_told, queued, in_work, settled, Inv,
}

module _ (setting : Setting) (lawful : IsQueue setting.queue) where
  open setting use {conditions, queue}

  add_all-kept :
      (n : NamespacedName) (names : List NamespacedName) (q : queue.State)
      → queue.Waits n q
      → queue.Waits n (add_all setting names q)
  unfolding add_all
  add_all-kept n [] q h = h
  add_all-kept n (m ∷ names) q h = add_all-kept n names (queue.add m q) (lawful.kept n m q h)

  In-add_all :
      (n : NamespacedName) (names : List NamespacedName) (q : queue.State)
      → In n names
      → queue.Waits n (add_all setting names q)
  unfolding add_all
  In-add_all n [] q h = absurd h
  In-add_all n (m ∷ names) q (inl e) =
      add_all-kept n names (queue.add m q) (rw e (lawful.added m q))
  In-add_all n (m ∷ names) q (inr h) = In-add_all n names (queue.add m q) h

  arrive-kept :
      (n : NamespacedName) (a : Stored) (q : queue.State)
      → queue.Waits n q
      → queue.Waits n (arrive setting a q)
  unfolding arrive
  arrive-kept n a q h = elim (Bool-cases (is_undecided setting a)) [
    | inl is_open ↦ rw is_open (lawful.kept n (name_of a) q h)
    | inr decided ↦ rw decided h
  ]

  -- An open request's event goes to the queue.
  arrive-first :
      (a b : Stored) (rest : List Stored) (n : NamespacedName) (q : queue.State)
      → In b (a ∷ rest)
      → name_of b ≡ n
      → IsOpen setting b
      → In b rest ⊎ queue.Waits n (arrive setting a q)
  unfolding arrive
  arrive-first a b rest n q (inr m) e is_open = inl m
  arrive-first a b rest n q (inl same) e is_open =
      let a_open = subst (IsOpen setting) same is_open in
      let names : name_of a ≡ n = ap name_of (sym same) ∙ e in
      inr (
        rw a_open
          (subst (λ m. queue.Waits m (queue.add (name_of a) q)) names (lawful.added (name_of a) q)))

  pub arrive-Inv :
      (a : Stored) (rest : List Stored) (s : State setting)
      → s.arrivals ≡ a ∷ rest
      → Inv setting s
      → Inv setting (record s { arrivals = rest; waiting = arrive setting a s.waiting })
  arrive-Inv a rest s h inv = record {
    waits = λ running n r found is_open. elim (inv.waits running n r found is_open) [
      | to_arrive b m e o ↦ elim (arrive-first a b rest n s.waiting (subst (In b) h m) e o) [
        | inl later ↦ to_arrive b later e o
        | inr q ↦ queued q
      ]
      | to_be_told k c ↦ to_be_told k c
      | queued q ↦ queued (arrive-kept n a s.waiting q)
      | in_work w at e acts ↦ in_work w at e acts
      | settled x ↦ settled x
    ];
    aggregates = inv.aggregates;
  }

  pub told-Inv :
      (k : ℕ) (listed : Outcome (List Stored)) (s : State setting)
      → (listed ≡ ok s.stored) ⊎ ((e : Error) × (listed ≡ err e))
      → Inv setting s
      → Inv setting (handle_change setting listed (record s { changes = k }))
  unfolding handle_change after_listing enqueue_requests
  told-Inv k (ok stored) s (inl e) inv =
      let same : stored ≡ s.stored = cc in
      record {
        waits = λ running n r found is_open. queued (
            In-add_all n _ s.waiting (
              In-undecided (λ (x : Stored). conditions.is_approved x.conditions)
                (λ (x : Stored). conditions.is_denied x.conditions) n stored r (rw same found)
                is_open));
        aggregates = inv.aggregates;
      }
  told-Inv k (ok stored) s (inr (f, e)) inv = cc
  told-Inv k (err f) s listed inv = record { waits = λ running. cc; aggregates = inv.aggregates }
  told-Inv k panic s listed inv = record { waits = λ running. cc; aggregates = inv.aggregates }
