-- ===== src/Core/Routing/RedirectCreation.antt =====
-- Create of a redirect rule keeps the invariant.
use newrr.Common.{
  String, ap, arith, ℕ, Bool, true, false, ◌&&◌, not, ◌==◌, ◌+◌, ◌≡◌, refl, Result, ok, err,
  if◌then◌else◌, inl, inr, then-ok, refuse, ◌>>◌, ◌>>=◌, refuse-ok, count-implies, count-covered,
  Result-cases,
}
use newrr.Core.Database.{Created, Answers, is_exist}
use newrr.Core.Models.{
  ProtocolType, http_protocol, https_protocol, IngressRule, RedirectRule, same_protocol,
}
use newrr.Core.RedirectRules
use newrr.Core.RedirectRules.{redirects_protocol, check_ingress, clashing, redirecting}
use newrr.Core.Routing.Invariant.{
  Store, http_80, https_redirect_of, https_of, redirect_of, misplaced, misdirected, WellFormed,
  WellFormed-Fewer, ingress, redirect,
}
use newrr.Core.Routing.Changes.{Fewer-Same}
use newrr.Core.Routing.Creation.{one_if, bounded, none_if, one_if_same}
use newrr.Core.Routing.Accepted.{not_exist, http_protocol_of, https_protocol_of}

-- What two refusals in a row, or those of a branch, have passed.
both_refused :
    (a b : Bool) (s t : String)
    → (refuse (not a && b) s >> refuse a t) ≡ ok tt
    → (a ≡ false) × (b ≡ false)
both_refused true b s t h = ground arith
both_refused false b s t h = ground arith

branch_true :
    (t : Bool) (m n : Result (Unit {0})) → (if t then m else n) ≡ ok tt → t ≡ true → m ≡ ok tt
branch_true t m n h e = ground arith

branch_false :
    (t : Bool) (m n : Result (Unit {0})) → (if t then m else n) ≡ ok tt → t ≡ false → n ≡ ok tt
branch_false t m n h e = ground arith

module _ {D A : Type 0} (s : Store D A) where
  pub record Accepted (r : RedirectRule) (d : D) : Type 0 where
    pub found_domain : (s.domains.first (λ x. x.id == r.domain_id) d >>= λ _. ok tt) ≡ ok (tt {0})
    pub directed : misdirected r ≡ false
    pub no_ingress : check_ingress s.rules s.redirects s.domains r d ≡ ok tt
    pub no_redirect :
        is_exist s.redirects
          (λ x. x.domain_id == r.domain_id && same_protocol x.protocol r.protocol)
          d
        ≡ false

  pub check-Accepted :
      (r : RedirectRule) (d : D)
      → RedirectRules.check s.rules s.redirects s.domains r d ≡ ok tt
      → Accepted r d
  unfolding RedirectRules.check
  check-Accepted r d h =
      let first = s.domains.first (λ x. x.id == r.domain_id) d >>= λ _. ok tt in
      let second =
        refuse
          (not (redirects_protocol r http_protocol) && not (redirects_protocol r https_protocol))
          "invalid protocol" in
      let third = check_ingress s.rules s.redirects s.domains r d in
      let fourth =
        is_exist s.redirects
          (λ x. x.domain_id == r.domain_id && same_protocol x.protocol r.protocol) d in
      let (h4, k4) =
        then-ok (first >> second >> third)
          (refuse fourth "there is redirect rule with same domain and port") tt h in
      let (h3, k3) = then-ok (first >> second) third tt h4 in
      let (h2, k2) = then-ok first second tt h3 in
      record {
        found_domain = h2;
        directed = refuse-ok _ _ tt k2;
        no_ingress = k3;
        no_redirect = refuse-ok _ _ tt k4;
      }

  module _ (r : RedirectRule) (d : D) (v : Accepted r d) (a : Answers s.rules d)
      (b : Answers s.redirects d) where
    no_redirects :
        (p : ProtocolType) (i : ℕ)
        → r.protocol ≡ p
        → redirect_of p i r ≡ true
        → redirect s (redirect_of p i) d ≡ 0
    no_redirects p i e h =
        let test =
          λ (x : RedirectRule). x.domain_id == r.domain_id && same_protocol x.protocol r.protocol in
        let z = not_exist s.redirects test d s.redirects-IsTable b v.no_redirect in
        omega (
          arith,
          z,
          count-implies (redirect_of p i) test (s.redirects.rows d) (λ x k. simp e (ground arith)),
        )

    absent :
        (p q : IngressRule → Bool)
        → is_exist s.rules q d ≡ false
        → ((x : IngressRule) → p x ≡ true → q x ≡ true)
        → ingress s p d ≡ 0
    absent p q h k =
        omega
          (arith, not_exist s.rules q d s.rules-IsTable a h, count-implies p q (s.rules.rows d) k)

    -- Nothing answers where the new rule is going to.
    free_on_80 :
        (i : ℕ)
        → redirect_of http_protocol i r ≡ true
        → ingress s (http_80 i) d
            + ingress s (https_redirect_of i) d
            + redirect s (redirect_of http_protocol i) d
          ≡ 0
    free_on_80 i h =
        let e = http_protocol_of r.protocol (ground arith) in
        let (c1, c2) =
          both_refused (is_exist s.rules (clashing r 80) d) (is_exist s.rules (redirecting r) d) _ _
            (branch_true (redirects_protocol r http_protocol) _ _ v.no_ingress (ground arith)) in
        omega (
          arith,
          absent (http_80 i) (clashing r 80) c1 (λ x k. simp e (ground arith)),
          absent (https_redirect_of i) (redirecting r) c2 (λ x k. ground arith),
          no_redirects http_protocol i e h,
        )

    free_on_443 :
        (i : ℕ)
        → ingress s misplaced d ≡ 0
        → redirect_of https_protocol i r ≡ true
        → ingress s (https_of i) d + redirect s (redirect_of https_protocol i) d ≡ 0
    free_on_443 i m h =
        let e = https_protocol_of r.protocol (ground arith) in
        let c = refuse-ok (is_exist s.rules (clashing r 443) d) _ tt (
          branch_false (redirects_protocol r http_protocol) _ _ v.no_ingress
            (ap (λ p. same_protocol p http_protocol) e)) in
        omega (
          arith,
          not_exist s.rules (clashing r 443) d s.rules-IsTable a c,
          m,
          count-covered (https_of i) (clashing r 443) misplaced (s.rules.rows d)
              (λ x k. simp e (ground arith)),
          no_redirects https_protocol i e h,
        )

  -- The new row is counted, whatever its key.
  pub new_redirect_counted :
      (r : RedirectRule) (d e : D) (y : RedirectRule) (p : RedirectRule → Bool)
      → Created s.redirects r d (e, ok y)
      → ((i : ℕ) → p (record r { id = i }) ≡ p r)
      → redirect s p e ≡ one_if (p r) + redirect s p d
  new_redirect_counted r d e y p (i, q, c) h =
      omega (arith, c p, one_if_same (p y) (p r) (rw (q, s.redirects_with_id i r) (h i)))

  new_redirect-WellFormed :
      (r : RedirectRule) (d e : D) (y : RedirectRule)
      → Accepted r d
      → Answers s.rules d
      → Answers s.redirects d
      → WellFormed s d
      → Created s.redirects r d (e, ok y)
      → s.rules.rows e ≡ s.rules.rows d
      → WellFormed s e
  new_redirect-WellFormed r d e y v a b w c same = record {
    one_http = λ domain port. rw same (w.one_http domain port);
    one_tcp = λ port. rw same (w.one_tcp port);
    one_udp = λ port. rw same (w.one_udp port);
    one_on_80 = λ domain. rw same (
        bounded (redirect_of http_protocol domain r)
          (ingress s (http_80 domain) d
            + ingress s (https_redirect_of domain) d
            + redirect s (redirect_of http_protocol domain) d)
          (ingress s (http_80 domain) d
            + ingress s (https_redirect_of domain) d
            + redirect s (redirect_of http_protocol domain) e)
          (w.one_on_80 domain)
          (omega
            (arith, new_redirect_counted r d e y (redirect_of http_protocol domain) c (λ i. refl)))
          (free_on_80 r d v a b domain));
    one_on_443 = λ domain. rw same (
        bounded (redirect_of https_protocol domain r)
          (ingress s (https_of domain) d + redirect s (redirect_of https_protocol domain) d)
          (ingress s (https_of domain) d + redirect s (redirect_of https_protocol domain) e)
          (w.one_on_443 domain)
          (omega
            (arith, new_redirect_counted r d e y (redirect_of https_protocol domain) c (λ i. refl)))
          (free_on_443 r d v a b domain w.none_misplaced));
    none_misplaced = rw same w.none_misplaced;
    none_misdirected = omega (
      arith,
      new_redirect_counted r d e y misdirected c (λ i. refl),
      w.none_misdirected,
      none_if (misdirected r) v.directed,
    );
  }

  -- Create of a redirect rule, whether it succeeds or fails, in a state where the database answers.
  pub create_redirect-WellFormed :
      (r : RedirectRule) (d : D)
      → Answers s.rules d
      → Answers s.redirects d
      → WellFormed s d
      → WellFormed s (RedirectRules.create s.rules s.redirects s.domains r d).0
  unfolding RedirectRules.create
  create_redirect-WellFormed r d a b w =
      elim (Result-cases (RedirectRules.check s.rules s.redirects s.domains r d)) [
        | inl (_, h) ↦ rw h (
            added (s.redirects.create r d) (check-Accepted r d h)
              (s.redirects-IsTable.create-Created r d) (s.redirects-rules.create-apart r d))
        | inr (e, h) ↦ rw h w
      ]
    where
      added :
          (z : D × Result RedirectRule)
          → Accepted r d
          → Created s.redirects r d z
          → s.rules.rows z.0 ≡ s.rules.rows d
          → WellFormed s z.0
      added (e, ok y) v c same = new_redirect-WellFormed r d e y v a b w c same
      added (e, err _) v c same = WellFormed-Fewer s d e w (Fewer-Same s d e (λ p. rw same refl) c)
