-- ===== src/Core/Routing/References.antt =====
-- The references of rules to domains.
use newrr.Common.{
  arith, ℕ, true, not, ◌&&◌, ◌==◌, ◌+◌, ◌≤◌, ◌≡◌, refl, subst, Option, none, some, Result, ok, err,
  List, Text, Result-cases, inl, inr, ◌⊎◌, Bool-cases, then-ok, refuse, refuse-ok, ◌>>=◌,
  count-implies,
}
use newrr.Core.Database.{Answers, how_many, First, is_exist, Created, Deleted}
use newrr.Core.Models.{IngressRule, RedirectRule, Domain, has_domain, is_domain}
use newrr.Core.IngressRules
use newrr.Core.RedirectRules
use newrr.Core.Domains
use newrr.Core.Routing.Invariant.{Store, Fewer, ingress, redirect, directs}
use newrr.Core.Routing.Accepted.{Accepted, valid-Accepted, is_valid, not_exist}
use newrr.Core.Routing.Creation.{one_if}
use newrr.Core.Routing.Creation
use newrr.Core.Routing.RedirectCreation

module _ {D A : Type 0} (s : Store D A) where
  abbrev pub domain_rows : ℕ → D → ℕ
  domain_rows i d = how_many s.domains (λ x. x.id == i) d

  -- Every domain that a rule refers to is there.
  abbrev pub Anchored : D → Type 0
  Anchored d =
      (i : ℕ)
      → (1 ≤ domain_rows i d) ⊎ (ingress s (has_domain (some i)) d + redirect s (directs i) d ≡ 0)

  pub Anchored-Fewer :
      (d e : D) → s.domains.rows e ≡ s.domains.rows d → Fewer s d e → Anchored d → Anchored e
  Anchored-Fewer d e same f h i = elim (h i) [
    | inl x ↦ inl (rw same x)
    | inr x ↦ inr (omega (arith, x, f.fewer_of_domain i, f.fewer_directs i))
  ]

  -- A query by key that has found a row.
  found_row :
      (i : ℕ) (d : D)
      → (s.domains.first (λ x. x.id == i) d >>= λ _. ok tt) ≡ ok (tt {0})
      → 1 ≤ domain_rows i d
  found_row i d h =
      of_first (s.domains.first (λ x. x.id == i) d)
        (s.domains-IsTable.first-First (λ x. x.id == i) d) h
    where
      of_first :
          (z : Result Domain)
          → First s.domains (λ x. x.id == i) d z
          → (z >>= λ _. ok tt) ≡ ok (tt {0})
          → 1 ≤ domain_rows i d
      of_first (ok x) f k = f.1 (λ y. y.id == i) f.0
      of_first (err c) f k = cc

  key : (j i : ℕ) → (j == i) ≡ true → j ≡ i
  key j i h = ground arith

  -- Create of an ingress rule.
  pub create_ingress-Anchored :
      (r : IngressRule) (ports : List ℕ) (d : D)
      → Anchored d
      → Anchored (IngressRules.create s.rules s.redirects s.domains s.find_application r ports d).0
  unfolding IngressRules.create
  create_ingress-Anchored r ports d h = elim (Result-cases (is_valid s r ports d)) [
    | inl (_, k) ↦ rw k (
        added (s.rules.create r d) (valid-Accepted s r ports d k)
          (s.rules-IsTable.create-Created r d) (s.rules-redirects.create-apart r d)
          (s.rules-domains.create-apart r d))
    | inr (e, k) ↦ rw k h
  ]
    where
      of_domain :
          (o : Option ℕ) (i : ℕ)
          → IngressRules.find_domain s.rules s.redirects s.domains s.find_application o d ≡ ok tt
          → is_domain i o ≡ true
          → 1 ≤ domain_rows i d
      of_domain none i f k = cc
      of_domain (some j) i f k = subst (λ m. 1 ≤ domain_rows m d) (key j i k) (found_row j d f)

      added :
          (z : D × Result IngressRule)
          → Accepted s r d
          → Created s.rules r d z
          → s.redirects.rows z.0 ≡ s.redirects.rows d
          → s.domains.rows z.0 ≡ s.domains.rows d
          → Anchored z.0
      added (e, err _) v c k l i = elim (h i) [
        | inl x ↦ inl (rw l x)
        | inr x ↦ inr (rw k (omega (arith, x, c (has_domain (some i)))))
      ]
      added (e, ok y) v c k l i = elim (Bool-cases (is_domain i r.domain_id)) [
        | inl t ↦ inl (rw l (of_domain r.domain_id i v.found_domain t))
        | inr t ↦ elim (h i) [
          | inl x ↦ inl (rw l x)
          | inr x ↦ inr (
              rw k (
                omega (
                  arith,
                  x,
                  Creation.none_if (is_domain i r.domain_id) t,
                  Creation.new_rule_counted s r d e y (has_domain (some i)) c (λ j. refl),
                )))
        ]
      ]

  pub create_redirect-Anchored :
      (r : RedirectRule) (d : D)
      → Anchored d
      → Anchored (RedirectRules.create s.rules s.redirects s.domains r d).0
  unfolding RedirectRules.create
  create_redirect-Anchored r d h =
      elim (Result-cases (RedirectRules.check s.rules s.redirects s.domains r d)) [
        | inl (_, k) ↦ rw k (
            added (s.redirects.create r d) (RedirectCreation.check-Accepted s r d k)
              (s.redirects-IsTable.create-Created r d) (s.redirects-rules.create-apart r d)
              (s.redirects-domains.create-apart r d))
        | inr (e, k) ↦ rw k h
      ]
    where
      added :
          (z : D × Result RedirectRule)
          → RedirectCreation.Accepted s r d
          → Created s.redirects r d z
          → s.rules.rows z.0 ≡ s.rules.rows d
          → s.domains.rows z.0 ≡ s.domains.rows d
          → Anchored z.0
      added (e, err _) v c k l i = elim (h i) [
        | inl x ↦ inl (rw l x)
        | inr x ↦ inr (rw k (omega (arith, x, c (directs i))))
      ]
      added (e, ok y) v c k l i = elim (Bool-cases (r.domain_id == i)) [
        | inl t ↦ inl (
            rw l (
              subst (λ m. 1 ≤ domain_rows m d) (key r.domain_id i t)
                (found_row r.domain_id d v.found_domain)))
        | inr t ↦ elim (h i) [
          | inl x ↦ inl (rw l x)
          | inr x ↦ inr (
              rw k (
                omega (
                  arith,
                  x,
                  Creation.none_if (r.domain_id == i) t,
                  RedirectCreation.new_redirect_counted s r d e y (directs i) c (λ j. refl),
                )))
        ]
      ]

  -- Create of a domain, which adds at most a domain.
  module _ {B : Type 0} (pem_decode : Text → Option B)
      (parse_certificate : B → Result Domains.Certificate) where
    abbrev domain_created : Domain → D → D
    domain_created x d = (Domains.create s.domains pem_decode parse_certificate x d).0

    pub create_domain-rules :
        (x : Domain) (d : D) → s.rules.rows (domain_created x d) ≡ s.rules.rows d
    unfolding Domains.create
    create_domain-rules x d =
        elim (Result-cases (Domains.fill_ssl_info s.domains pem_decode parse_certificate x)) [
          | inl (y, k) ↦ rw (k, domain_created) (s.domains-rules.create-apart y d)
          | inr (e, k) ↦ rw (k, domain_created) refl
        ]

    pub create_domain-redirects :
        (x : Domain) (d : D) → s.redirects.rows (domain_created x d) ≡ s.redirects.rows d
    unfolding Domains.create
    create_domain-redirects x d =
        elim (Result-cases (Domains.fill_ssl_info s.domains pem_decode parse_certificate x)) [
          | inl (y, k) ↦ rw (k, domain_created) (s.domains-redirects.create-apart y d)
          | inr (e, k) ↦ rw (k, domain_created) refl
        ]

    create_domain-le :
        (i : ℕ) (x : Domain) (d : D) → domain_rows i d ≤ domain_rows i (domain_created x d)
    unfolding Domains.create
    create_domain-le i x d =
        elim (Result-cases (Domains.fill_ssl_info s.domains pem_decode parse_certificate x)) [
          | inl (y, k) ↦
              rw (k, domain_created)
                (more y (s.domains.create y d) (s.domains-IsTable.create-Created y d))
          | inr (e, k) ↦ rw (k, domain_created) (omega arith)
        ]
      where
        more :
            (y : Domain) (z : D × Result Domain)
            → Created s.domains y d z
            → domain_rows i d ≤ domain_rows i z.0
        more y (e, err _) c = omega (arith, c (λ x. x.id == i))
        more y (e, ok _) c = omega (arith, c.2 (λ x. x.id == i))

    pub create_domain-Anchored : (x : Domain) (d : D) → Anchored d → Anchored (domain_created x d)
    create_domain-Anchored x d h i = elim (h i) [
      | inl k ↦ inl (omega (arith, k, create_domain-le i x d))
      | inr k ↦ inr (rw (create_domain-rules x d, create_domain-redirects x d) k)
    ]

  -- Delete of a domain.
  pub delete_domain-rules :
      (x : Domain) (d : D)
      → s.rules.rows (Domains.delete s.rules s.redirects s.domains x d).0 ≡ s.rules.rows d
  unfolding Domains.delete
  delete_domain-rules x d = elim (Result-cases (Domains.unused s.rules s.redirects s.domains x d)) [
    | inl (y, k) ↦ rw k (s.domains-rules.delete-apart x.id d)
    | inr (e, k) ↦ rw k refl
  ]

  pub delete_domain-redirects :
      (x : Domain) (d : D)
      → s.redirects.rows (Domains.delete s.rules s.redirects s.domains x d).0 ≡ s.redirects.rows d
  unfolding Domains.delete
  delete_domain-redirects x d =
      elim (Result-cases (Domains.unused s.rules s.redirects s.domains x d)) [
        | inl (y, k) ↦ rw k (s.domains-redirects.delete-apart x.id d)
        | inr (e, k) ↦ rw k refl
      ]

  unused-none :
      (x : Domain) (d : D)
      → Answers s.rules d
      → Answers s.redirects d
      → Domains.unused s.rules s.redirects s.domains x d ≡ ok tt
      → ingress s (has_domain (some x.id)) d + redirect s (directs x.id) d ≡ 0
  unused-none x d a b h =
      let first =
        refuse (is_exist s.rules (has_domain (some x.id)) d)
          "there is ingress rule associated with this domain" in
      let second =
        refuse (is_exist s.redirects (directs x.id) d)
          "there is redirect rule associated with this domain" in
      let (h1, h2) = then-ok first second tt h in
      omega (
        arith,
        not_exist s.rules (has_domain (some x.id)) d s.rules-IsTable a (refuse-ok _ _ tt h1),
        not_exist s.redirects (directs x.id) d s.redirects-IsTable b (refuse-ok _ _ tt h2),
      )

  pub delete_domain-Anchored :
      (x : Domain) (d : D)
      → Answers s.rules d
      → Answers s.redirects d
      → Anchored d
      → Anchored (Domains.delete s.rules s.redirects s.domains x d).0
  unfolding Domains.delete
  delete_domain-Anchored x d a b h =
      elim (Result-cases (Domains.unused s.rules s.redirects s.domains x d)) [
        | inl (y, k) ↦ rw k (
            deleted (s.domains.delete x.id d) (s.domains-IsTable.delete-Deleted x.id d)
              (s.domains-rules.delete-apart x.id d) (s.domains-redirects.delete-apart x.id d)
              (unused-none x d a b k))
        | inr (e, k) ↦ rw k h
      ]
    where
      deleted :
          (z : D × Result (Unit {0}))
          → Deleted s.domains x.id d z
          → s.rules.rows z.0 ≡ s.rules.rows d
          → s.redirects.rows z.0 ≡ s.redirects.rows d
          → ingress s (has_domain (some x.id)) d + redirect s (directs x.id) d ≡ 0
          → Anchored z.0
      deleted (e, err _) c k l n i = elim (h i) [
        | inl o ↦ inl (omega (arith, o, c (λ x. x.id == i)))
        | inr o ↦ inr (rw (k, l) o)
      ]
      deleted (e, ok _) c k l n i = elim (Bool-cases (x.id == i)) [
        | inl t ↦ inr (
            rw (k, l)
              (subst (λ m. ingress s (has_domain (some m)) d + redirect s (directs m) d ≡ 0)
                (key x.id i t) n))
        | inr t ↦ elim (h i) [
          | inl o ↦ inl (
              omega (
                arith,
                o,
                c (λ x. x.id == i),
                count-implies (λ y. y.id == i) (λ y. not (s.domains.id_of y == x.id) && y.id == i)
                    (s.domains.rows d) (λ y p. ground (arith, s.domains_id y)),
              ))
          | inr o ↦ inr (rw (k, l) o)
        ]
      ]
