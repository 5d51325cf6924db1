-- ===== src/Core/Routing/Redirection.antt =====
-- Enabling the redirection of an HTTPS rule to which ValidateForHttpsRedirectEnableRequest has
-- agreed.
use newrr.Common.{
  arith, ℕ, Bool, true, false, ◌&&◌, not, ◌==◌, ◌+◌, ◌≤◌, ◌≡◌, refl, Option, none, some, Result, ok,
  err, if◌then◌else◌, inl, inr, Bool-cases, then-ok, refuse, ◌>>◌, refuse-ok, count-implies,
  count-covered,
}
use newrr.Core.Database.{Updated, Answers, is_exist}
use newrr.Core.Models.{
  http_protocol, IngressRule, RedirectRule, has_domain, is_domain, status_is_deleting,
  same_protocol,
}
use newrr.Core.IngressRules
use newrr.Core.IngressRules.{is_http, is_https, redirects_domain}
use newrr.Core.Routing.Invariant.{
  Store, http_at, tcp_at, udp_at, http_80, https_redirect_of, https_of, redirect_of, misplaced,
  WellFormed, ingress, redirect,
}
use newrr.Core.Routing.Changes.{changed_le}
use newrr.Core.Routing.Accepted.{not_exist, domain_of}

abbrev pub same_domain : Option ℕ → Option ℕ → Bool
same_domain none none = true
same_domain (some i) (some j) = i == j
same_domain _ _ = false

-- A row with the rule's key and another domain.
abbrev pub stale : IngressRule → IngressRule → Bool
stale r x = x.id == r.id && not (same_domain x.domain_id r.domain_id)

differ :
    (i : ℕ) (o q : Option ℕ)
    → is_domain i o ≡ true
    → is_domain i q ≡ false
    → same_domain o q ≡ false
differ i none q h k = cc
differ i (some j) none h k = refl
differ i (some j) (some l) h k = ground arith

module _ {D A : Type 0} (s : Store D A) where
  module _ (r : IngressRule) (d : D) (a : Answers s.rules d) (b : Answers s.redirects d)
      (h : IngressRules.validate_for_https_redirect_enable_request s.rules s.redirects r d
        ≡ ok tt) where
    -- Nothing else answers HTTP on port 80 for the rule's domain.
    nothing_on_80 :
        (i : ℕ)
        → is_domain i r.domain_id ≡ true
        → ingress s (http_80 i) d + redirect s (redirect_of http_protocol i) d ≡ 0
    unfolding IngressRules.validate_for_https_redirect_enable_request
    nothing_on_80 i k =
        let e = domain_of r.domain_id i k in
        let ports = λ (x : IngressRule). has_domain r.domain_id x && x.port == 80 && is_http x in
        let targets = λ (x : RedirectRule).
          redirects_domain r.domain_id x && same_protocol x.protocol http_protocol in
        let first = refuse (status_is_deleting r.status) "ingress rule is deleting" in
        let second =
          refuse (not (is_https r)) "ingress rule should be HTTPS mode to enable https redirect" in
        let third =
          refuse (is_exist s.rules ports d)
            "existing http ingress rule available with same domain at port 80" in
        let fourth =
          refuse (is_exist s.redirects targets d)
            "existing redirect rule available with same domain at port 80" in
        let (h4, k4) = then-ok (first >> second >> third) fourth tt h in
        let (h3, k3) = then-ok (first >> second) third tt h4 in
        let z = not_exist s.rules ports d s.rules-IsTable a (refuse-ok _ _ tt k3) in
        let y = not_exist s.redirects targets d s.redirects-IsTable b (refuse-ok _ _ tt k4) in
        omega (
          arith,
          z,
          y,
          count-implies (http_80 i) ports (s.rules.rows d) (λ x k. rw e k),
          count-implies (redirect_of http_protocol i) targets (s.redirects.rows d) (λ x k. rw e k),
        )

  abbrev enabled : IngressRule → IngressRule
  enabled x = record x { https_redirect = true }

  -- Counts of redirecting rules, after the update, for the rule's own domain and for others.
  redirecting_le :
      (r : IngressRule) (d : D) (z : D × Result (Unit {0})) (i : ℕ)
      → Updated s.rules r.id enabled d z
      → ingress s (https_redirect_of i) z.0 ≤ ingress s (https_of i) d
  redirecting_le r d (e, ok _) i u = omega (
    arith,
    u (https_redirect_of i),
    count-implies (λ x. https_redirect_of i (if s.rules.id_of x == r.id then enabled x else x))
        (https_of i) (s.rules.rows d) (λ x k. ground arith),
  )
  redirecting_le r d (e, err _) i u = omega (
    arith,
    u (https_redirect_of i),
    count-implies (https_redirect_of i) (https_of i) (s.rules.rows d) (λ x k. ground arith),
  )

  elsewhere_le :
      (r : IngressRule) (d : D) (z : D × Result (Unit {0})) (i : ℕ)
      → Updated s.rules r.id enabled d z
      → is_domain i r.domain_id ≡ false
      → ingress s (https_redirect_of i) z.0
        ≤ ingress s (https_redirect_of i) d + ingress s (stale r) d
  elsewhere_le r d (e, ok _) i u k = omega (
    arith,
    u (https_redirect_of i),
    count-covered (λ x. https_redirect_of i (if s.rules.id_of x == r.id then enabled x else x))
        (https_redirect_of i) (stale r) (s.rules.rows d)
        (λ x o. ground (arith, s.rules_id x, differ i x.domain_id r.domain_id)),
  )
  elsewhere_le r d (e, err _) i u k = omega (arith, u (https_redirect_of i))

  pub enable_redirect-WellFormed :
      (r : IngressRule) (d : D)
      → Answers s.rules d
      → Answers s.redirects d
      → ingress s (stale r) d ≡ 0
      → IngressRules.validate_for_https_redirect_enable_request s.rules s.redirects r d ≡ ok tt
      → WellFormed s d
      → WellFormed s (IngressRules.update_https_redirect_status s.rules r true d).0
  unfolding IngressRules.update_https_redirect_status
  enable_redirect-WellFormed r d a b n h w =
      let e = (s.rules.update r.id enabled d).0 in
      let u = s.rules-IsTable.update-Updated r.id enabled d in
      let le =
        λ (p : IngressRule → Bool) (k : (x : IngressRule) → p (enabled x) ≡ true → p x ≡ true).
          changed_le s.rules r.id enabled d p (s.rules.update r.id enabled d) u k in
      let same = s.rules-redirects.update-apart r.id enabled d in
      record {
        one_http = λ domain port.
            omega (arith, w.one_http domain port, le (http_at domain port) (λ x k. k));
        one_tcp = λ port. omega (arith, w.one_tcp port, le (tcp_at port) (λ x k. k));
        one_udp = λ port. omega (arith, w.one_udp port, le (udp_at port) (λ x k. k));
        one_on_80 = λ domain. elim (Bool-cases (is_domain domain r.domain_id)) [
          | inl y ↦ rw same (
              omega (
                arith,
                le (http_80 domain) (λ x k. k),
                nothing_on_80 r d a b h domain y,
                redirecting_le r d (s.rules.update r.id enabled d) domain u,
                w.one_on_443 domain,
              ))
          | inr y ↦ rw same (
              omega (
                arith,
                n,
                le (http_80 domain) (λ x k. k),
                elsewhere_le r d (s.rules.update r.id enabled d) domain u y,
                w.one_on_80 domain,
              ))
        ];
        one_on_443 =
            λ domain. rw same (omega (arith, w.one_on_443 domain, le (https_of domain) (λ x k. k)));
        none_misplaced = omega (arith, w.none_misplaced, le misplaced (λ x k. k));
        none_misdirected = rw same w.none_misdirected;
      }

  pub enable_redirect-of_domain :
      (r : IngressRule) (d : D) (i : ℕ)
      → ingress s
          (has_domain (some i))
          (IngressRules.update_https_redirect_status s.rules r true d).0
        ≤ ingress s (has_domain (some i)) d
  unfolding IngressRules.update_https_redirect_status
  enable_redirect-of_domain r d i =
      changed_le s.rules r.id enabled d (has_domain (some i)) (s.rules.update r.id enabled d)
        (s.rules-IsTable.update-Updated r.id enabled d) (λ x k. k)
