-- ===== src/Core/Routing/Protection.antt =====
-- ProtectUsingBasicAuth and DisableAuthentication leave no more rules of any kind.
use newrr.Common.{
  arith, ℕ, Bool, true, ◌&&◌, not, ◌==◌, ◌+◌, ◌≤◌, ◌≡◌, refl, subst, sym, ◌∙◌, some, none, Result,
  ok, err, count, List, [], ◌∷◌, if◌then◌else◌, count-implies, count-covered, inl, inr, Bool-cases,
  Result-cases,
}
use newrr.Core.Database.{Table, how_many, Saved, First}
use newrr.Core.Models.{
  IngressRule, IngressRuleAuthentication, no_authentication, basic_authentication,
}
use newrr.Core.IngressRules
use newrr.Core.Routing.Invariant.{Store, Fewer, ingress}
use newrr.Core.Routing.Changes.{Tame, Fewer-ingress, Fewer-refl}

count-split :
    {R : Type 0} (a p : R → Bool) (xs : List R)
    → count (λ z. a z && p z) xs + count (λ z. not (a z) && p z) xs ≤ count p xs
count-split a p [] = omega arith
count-split a p (x ∷ xs) = ground (arith, count-split a p xs)

-- A row that is in the table, and a new version of it that passes the test only if it did.
Saved-how_many :
    {D R : Type 0} (t : Table D R) (old new : R) (d : D) (p : R → Bool) (z : D × Result R)
    → Saved t new d z
    → t.id_of new ≡ t.id_of old
    → how_many t (λ x. t.id_of x == t.id_of old) d ≤ 1
    → ((q : R → Bool) → q old ≡ true → 1 ≤ how_many t q d)
    → (p new ≡ true → p old ≡ true)
    → how_many t p z.0 ≤ how_many t p d
Saved-how_many t old new d p (e, err _) s i u m h = omega (arith, s p)
Saved-how_many t old new d p (e, ok _) s i u m h = elim (Bool-cases (p new)) [
  | inl y ↦ omega (
    arith,
    s p,
    u,
    m (λ x. t.id_of x == t.id_of old && p x) (ground (arith, h)),
    count-split (λ x. t.id_of x == t.id_of old) p (t.rows d),
    count-covered (λ x. p (if t.id_of x == t.id_of new then new else x))
        (λ x. t.id_of x == t.id_of old) (λ x. not (t.id_of x == t.id_of old) && p x) (t.rows d)
        (λ x k. ground (arith, i)),
  )
  | inr y ↦ omega (
    arith,
    s p,
    count-implies (λ x. p (if t.id_of x == t.id_of new then new else x)) p (t.rows d)
        (λ x k. ground (arith, y)),
  )
]

module _ {D A : Type 0} (s : Store D A) where
  abbrev authenticated : IngressRuleAuthentication → IngressRule → IngressRule
  authenticated a x = record x { authentication = a }

  authenticated-Tame : (a : IngressRuleAuthentication) → Tame (authenticated a)
  authenticated-Tame a = record {
    same_protocol_of = λ x. refl;
    same_domain_of = λ x. refl;
    same_port_of = λ x. refl;
    redirect_of_before = λ x h. h;
  }

  -- Saving a rule that was read in this state, with another authentication.
  save-Fewer :
      (r : IngressRule) (a : IngressRuleAuthentication) (q : IngressRule → Bool) (d : D)
      → s.rules.first q d ≡ ok r
      → ((i : ℕ) → ingress s (λ x. s.rules.id_of x == i) d ≤ 1)
      → Fewer s d (s.rules.save (authenticated a r) d).0
  save-Fewer r a q d f u =
      let (_, present) = subst (First s.rules q d) f (s.rules-IsTable.first-First q d) in
      let same_id : s.rules.id_of (authenticated a r) ≡ s.rules.id_of r =
        s.rules_id (authenticated a r) ∙ sym (s.rules_id r) in
      let itself : (s.rules.id_of r == s.rules.id_of (authenticated a r)) ≡ true =
        ground (arith, same_id) in
      Fewer-ingress s d (s.rules.save (authenticated a r) d).0 (authenticated a)
        (s.rules-redirects.save-apart (authenticated a r) d) (authenticated-Tame a)
        (λ p h.
          Saved-how_many s.rules r (authenticated a r) d p (s.rules.save (authenticated a r) d)
            (s.rules-IsTable.save-Saved (authenticated a r) d
              (present (λ z. s.rules.id_of z == s.rules.id_of (authenticated a r)) itself))
            same_id (u (s.rules.id_of r)) present (h r))

  -- DisableAuthentication, which reads the rule again.
  pub disable_authentication-Fewer :
      (r : IngressRule) (d : D)
      → ((i : ℕ) → ingress s (λ x. s.rules.id_of x == i) d ≤ 1)
      → Fewer s d (IngressRules.disable_authentication s.rules r d).0
  unfolding IngressRules.disable_authentication
  disable_authentication-Fewer r d u = elim (Result-cases (s.rules.first (λ x. x.id == r.id) d)) [
    | inl (x, k) ↦ rw k (
        save-Fewer x
          (record { auth_type = no_authentication; app_basic_auth_access_control_list_id = none })
          (λ x. x.id == r.id) d k u)
    | inr (e, k) ↦ rw k (Fewer-refl s d)
  ]

  -- ProtectUsingBasicAuth of a rule that was read in this state.
  pub protect-Fewer :
      (r : IngressRule) (i access_list : ℕ) (d : D)
      → s.rules.first (λ x. x.id == i) d ≡ ok r
      → ((i : ℕ) → ingress s (λ x. s.rules.id_of x == i) d ≤ 1)
      → Fewer s d
          (IngressRules.protect_using_basic_auth s.rules s.find_access_list
            (λ l. l)
            r
            access_list
            d).0
  unfolding IngressRules.protect_using_basic_auth
  protect-Fewer r i access_list d f u =
      elim (Result-cases
        (IngressRules.check_protection s.rules s.find_access_list (λ l. l) r access_list d)) [
          | inl (l, k) ↦ rw k (
              save-Fewer r
                (record {
                  auth_type = basic_authentication;
                  app_basic_auth_access_control_list_id = some l;
                })
                (λ x. x.id == i) d f u)
          | inr (e, k) ↦ rw k (Fewer-refl s d)
        ]

  -- Neither touches the domains.
  pub disable_authentication-domains :
      (r : IngressRule) (d : D)
      → s.domains.rows (IngressRules.disable_authentication s.rules r d).0 ≡ s.domains.rows d
  unfolding IngressRules.disable_authentication
  disable_authentication-domains r d = elim (Result-cases (s.rules.first (λ x. x.id == r.id) d)) [
    | inl (x, k) ↦ rw k (
        s.rules-domains.save-apart
          (authenticated
            (record { auth_type = no_authentication; app_basic_auth_access_control_list_id = none })
            x)
          d)
    | inr (e, k) ↦ rw k refl
  ]

  pub protect-domains :
      (r : IngressRule) (access_list : ℕ) (d : D)
      → s.domains.rows
          (IngressRules.protect_using_basic_auth s.rules s.find_access_list
            (λ l. l)
            r
            access_list
            d).0
        ≡ s.domains.rows d
  unfolding IngressRules.protect_using_basic_auth
  protect-domains r access_list d =
      elim (Result-cases
        (IngressRules.check_protection s.rules s.find_access_list (λ l. l) r access_list d)) [
          | inl (l, k) ↦ rw k (
              s.rules-domains.save-apart
                (authenticated
                  (record {
                    auth_type = basic_authentication;
                    app_basic_auth_access_control_list_id = some l;
                  })
                  r)
                d)
          | inr (e, k) ↦ rw k refl
        ]
