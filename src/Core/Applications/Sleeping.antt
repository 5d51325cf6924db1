-- ===== src/Core/Applications/Sleeping.antt =====
-- MarkAsSleeping and MarkAsWake.
use newrr.Common.{
  String, arith, ◌≡◌, refl, ◌∙◌, ap, Bool, true, false, ◌&&◌, if◌then◌else◌, List, [], ◌∷◌, Text,
  text_eq, text_eq_iff, Result, ok, err, count,
}
use mathlib.Core.Path.{fun_ext}
use newrr.Core.Queries.{◌>>◌, answer, read, reject, after}
use newrr.Core.Queries.Effects.{Ends, ok-Ends}
use newrr.Core.Applications.Models.{Application, global, same_mode}
use newrr.Core.Applications.Store.{Store, named_rows, NamedUpdated, FirstOf}
use newrr.Core.Applications.Lifecycle.{mark, mark_as_sleeping, mark_as_wake}
use newrr.Core.Applications.Groups.{IsNamedStore}

-- Two tests that agree but where a third one passes, which it does nowhere in the list.
pub count-agree :
    {R : Type 0} (p r q : R → Bool) (xs : List R)
    → count q xs ≡ 0
    → ((x : R) → q x ≡ false → p x ≡ r x)
    → count p xs ≡ count r xs
count-agree p r q [] h k = refl
count-agree p r q (x ∷ xs) h k = ground (arith, k x, count-agree p r q xs)

abbrev pub asleep : Bool → Text → Application → Application
asleep sleeping id a = if text_eq a.id id then record a { is_sleeping = sleeping } else a

module _ {D : Type 0} (s : Store D) (l : IsNamedStore s) where
  -- What a mark does to the table, and to the application of the call.
  abbrev Marked : Bool → Text → D → Application → D → Type 0
  Marked sleeping id d y e =
      (y.is_sleeping ≡ sleeping)
      × (text_eq y.id id ≡ true)
      × ((p : Application → Bool)
          → named_rows s.applications p e
            ≡ named_rows s.applications (λ a. p (asleep sleeping id a)) d)

  mark-Ends :
      (sleeping : Bool) (id : Text) (x : Application) (d : D)
      → text_eq x.id id ≡ true
      → Ends (Marked sleeping id d) (mark s sleeping x d)
  mark-Ends sleeping id x d h =
      go (s.applications.update x.id (λ a. record a { is_sleeping = sleeping }) d) (
        l.applications-IsNamedTable.update-NamedUpdated x.id
          (λ a. record a { is_sleeping = sleeping }) d)
    where
      agrees :
          (a : Application)
          → (if text_eq (s.applications.id_of a) x.id
              then record a { is_sleeping = sleeping }
              else a)
            ≡ asleep sleeping id a
      agrees a = rw (l.application_id a, (text_eq_iff x.id id).0 h)

      go :
          (z : D × Result (Unit {0}))
          → NamedUpdated s.applications x.id (λ a. record a { is_sleeping = sleeping }) d z
          → Ends
              (Marked sleeping id d)
              (after z (λ _. answer (record x { is_sleeping = sleeping })))
      go (e, err c) k = tt
      go (e, ok u) k = (
        refl,
        h,
        λ p. k p ∙ ap (λ f. count (λ a. p (f a)) (s.applications.rows d)) (fun_ext agrees),
      )

  put_to-Ends :
      (sleeping : Bool) (id : Text) (d : D) (text : String)
      → Ends (Marked sleeping id d) (
          after
            (read (s.applications.first (λ a. text_eq a.id id)) d)
            (λ x. reject (same_mode x.deployment_mode global) text >> mark s sleeping x))
  put_to-Ends sleeping id d text =
      go (s.applications.first (λ a. text_eq a.id id) d)
        (l.applications-IsNamedTable.first-FirstOf (λ a. text_eq a.id id) d)
    where
      allowed :
          (b : Bool) (x : Application)
          → text_eq x.id id ≡ true
          → Ends (Marked sleeping id d) (after (reject b text d) (λ _. mark s sleeping x))
      allowed true x h = tt
      allowed false x h = mark-Ends sleeping id x d h

      go :
          (r : Result Application)
          → FirstOf s.applications (λ a. text_eq a.id id) r
          → Ends (Marked sleeping id d) (
              after
                (d, r)
                (λ x. reject (same_mode x.deployment_mode global) text >> mark s sleeping x))
      go (err c) h = tt
      go (ok x) h = allowed (same_mode x.deployment_mode global) x h

  -- Waking an application that was put to sleep while it was awake gives the same applications.
  pub mark_as_wake-mark_as_sleeping :
      (id : Text) (d b e : D) (x y : Application)
      → mark_as_sleeping s id d ≡ (b, ok x)
      → mark_as_wake s id b ≡ (e, ok y)
      → named_rows s.applications (λ a. text_eq a.id id && a.is_sleeping) d ≡ 0
      → (p : Application → Bool) → named_rows s.applications p e ≡ named_rows s.applications p d
  unfolding mark_as_sleeping mark_as_wake
  mark_as_wake-mark_as_sleeping id d b e x y h k n p =
      let m =
        ok-Ends (Marked true id d) (mark_as_sleeping s id d) b x
          (put_to-Ends true id d "global deployment cannot be marked as sleeping") h in
      let w =
        ok-Ends (Marked false id b) (mark_as_wake s id b) e y
          (put_to-Ends false id b "global deployment cannot be marked as wake") k in
      w.2 p
      ∙ m.2 (λ a. p (asleep false id a))
      ∙ count-agree (λ a. p (asleep false id (asleep true id a))) p
          (λ a. text_eq a.id id && a.is_sleeping) (s.applications.rows d) n
          (λ a q. ap p (awake a q))
    where
      awake :
          (a : Application)
          → (text_eq a.id id && a.is_sleeping) ≡ false
          → asleep false id (asleep true id a) ≡ a
      awake a q = ground arith
