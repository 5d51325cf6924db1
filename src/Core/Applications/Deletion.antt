-- ===== src/Core/Applications/Deletion.antt =====
-- Deleting applications: SoftDelete and HardDelete.
use newrr.Common.{
  arith, ℕ, ◌≤◌, ◌≡◌, refl, sym, subst, true, ◌&&◌, ltb, if◌then◌else◌, Text, text_eq, Result, ok,
  err, count-ext,
}
use newrr.Core.Queries.{answer, read, reject, after}
use newrr.Core.Queries.Effects.{
  Ends, after-Ends, ok-Ends, reject-Keeps, bind-Keeps, untouched-Ends, rejected-Ends,
}
use newrr.Core.Applications.Models.{Application}
use newrr.Core.Applications.Store.{Store, named_rows, NamedUpdated, Counted}
use newrr.Core.Applications.Updates.{
  is_application_deleted, fetch_full, check_update, update, ApplicationUpdateResult,
}
use newrr.Core.Applications.Lifecycle.{soft_delete, targets, nonempty_list}
use newrr.Core.Applications.Groups.{IsNamedStore}

module _ {D : Type 0} (s : Store D) (l : IsNamedStore s) where
  -- The application is in the database, and marked as deleted.
  abbrev Gone : Text → D → Type 0
  Gone id d = 1 ≤ named_rows s.applications (λ x. text_eq x.id id && x.is_deleted) d

  mark-Gone :
      (id : Text) (d : D) (z : D × Result (Unit {0}))
      → 1 ≤ named_rows s.applications (λ x. text_eq x.id id) d
      → NamedUpdated s.applications id (λ a. record a { is_deleted = true }) d z
      → Ends (λ _ e. Gone id e) z
  mark-Gone id d (e, err c) n h = tt
  mark-Gone id d (e, ok u) n h = omega (
    arith,
    h (λ x. text_eq x.id id && x.is_deleted),
    n,
    count-ext
        (λ x.
          text_eq
            (if text_eq (s.applications.id_of x) id then record x { is_deleted = true } else x).id
            id
          && (if text_eq (s.applications.id_of x) id
              then record x { is_deleted = true }
              else x).is_deleted)
        (λ x. text_eq x.id id) (s.applications.rows d) (λ x. ground (arith, l.application_id x)),
  )

  soft_delete-Gone :
      (x : Application) (d : D)
      → 1 ≤ named_rows s.applications (λ z. text_eq z.id x.id) d
      → Ends (λ _ e. Gone x.id e) (soft_delete s x d)
  unfolding soft_delete is_application_deleted
  soft_delete-Gone x d n =
      let P = λ (u : Unit {0}) (e : D). Gone x.id e in
      untouched-Ends P (is_application_deleted s x.id) _ d
        (λ e.
          bind-Keeps (λ q. q) (read (s.applications.count (λ z. text_eq z.id x.id && z.is_deleted)))
            (λ k. answer (ltb 0 k)) (λ b. refl) (λ k b. refl) e)
        (λ b.
          untouched-Ends P (reject b "application is deleted") _ d
            (reject-Keeps (λ q. q) b "application is deleted")
            (λ _.
              untouched-Ends P (read (s.rules.find (targets x.id))) _ d (λ e. refl)
                (λ rules.
                  untouched-Ends P
                    (reject (nonempty_list rules)
                      "application has ingress rules associated with it")
                    _ d
                    (reject-Keeps (λ q. q) (nonempty_list rules)
                      "application has ingress rules associated with it")
                    (λ _.
                      mark-Gone x.id d
                        (s.applications.update x.id (λ a. record a { is_deleted = true }) d) n
                        (l.applications-IsNamedTable.update-NamedUpdated x.id
                          (λ a. record a { is_deleted = true }) d)))))

  told_deleted :
      (id : Text) (e : D) → Gone id e → Ends (λ b _. b ≡ true) (is_application_deleted s id e)
  unfolding is_application_deleted
  told_deleted id e g =
      go (s.applications.count (λ x. text_eq x.id id && x.is_deleted) e)
        (l.applications-IsNamedTable.count-Counted (λ x. text_eq x.id id && x.is_deleted) e)
    where
      go :
          (r : Result ℕ)
          → Counted s.applications (λ x. text_eq x.id id && x.is_deleted) e r
          → Ends (λ b _. b ≡ true) (after (e, r) (λ n. answer (ltb 0 n)))
      go (err c) h = tt
      go (ok n) h = ground (arith, g, h)

  check_update-refused :
      (y : Application) (e : D) → Gone y.id e → Ends (λ _ _. ⊥) (check_update s y e)
  unfolding check_update
  check_update-refused y e g =
      after-Ends (λ b _. b ≡ true) (λ _ _. ⊥) (is_application_deleted s y.id e) _
        (told_deleted y.id e g) (λ b c q. rejected-Ends (λ _ _. ⊥) b "application is deleted" c _ q)

  update-refused :
      (uuid : Text) (y : Application) (e : D) → Gone y.id e → Ends (λ _ _. ⊥) (update s uuid y e)
  unfolding update
  update-refused uuid y e g =
      after-Ends (λ _ _. ⊥) (λ _ _. ⊥) (after (check_update s y e) (λ _. fetch_full s y.id)) _
        (after-Ends (λ _ _. ⊥) (λ _ _. ⊥) (check_update s y e) (λ _. fetch_full s y.id)
          (check_update-refused y e g) (λ _ c b. absurd b))
        (λ _ c b. absurd b)

  -- Once an application of the database has been soft-deleted, no Update of it succeeds in the state
  -- that the deletion leaves.
  pub soft_delete-update :
      (x y : Application) (uuid : Text) (d e f : D) (u : Unit {0}) (r : ApplicationUpdateResult)
      → 1 ≤ named_rows s.applications (λ z. text_eq z.id x.id) d
      → soft_delete s x d ≡ (e, ok u)
      → y.id ≡ x.id
      → ¬ (update s uuid y e ≡ (f, ok r))
  soft_delete-update x y uuid d e f u r n h i k =
      let g = ok-Ends (λ _ b. Gone x.id b) (soft_delete s x d) e u (soft_delete-Gone x d n) h in
      ok-Ends (λ _ _. ⊥) (update s uuid y e) f r
        (update-refused uuid y e (subst (λ i. Gone i e) (sym i) g)) k
