-- ===== src/Core/Routing/Accepted.antt =====
-- What IsValidNewIngressRule has found out about a rule that it accepts.
use newrr.Common.{
  arith, ℕ, Bool, true, false, ◌&&◌, ◌||◌, ◌==◌, ◌+◌, ◌≡◌, refl, Option, none, some, Result, ok,
  err, count-implies, count-covered, inl, inr, List, then-ok, refuse-ok, ◌>>◌, refuse, Result-cases,
  Error, record_not_found,
}
use newrr.Core.Database.{Table, IsTable, how_many, is_exist, Answers, First}
use newrr.Core.Models.{
  ProtocolType, http_protocol, https_protocol, same_protocol, IngressRule, RedirectRule, has_domain,
  is_domain, tcp_protocol, udp_protocol, other_protocol,
}
use newrr.Core.IngressRules
use newrr.Core.IngressRules.{is_http, is_https, is_tcp, is_udp, check_ports, redirects_domain}
use newrr.Core.Routing.Invariant.{
  Store, http_at, tcp_at, udp_at, http_80, https_redirect_of, https_of, redirect_of, misplaced,
  ingress, redirect,
}

-- A database that answers, and finds no row, has none.
pub not_exist :
    {D R : Type 0} (t : Table D R) (p : R → Bool) (d : D)
    → IsTable t
    → Answers t d
    → is_exist t p d ≡ false
    → how_many t p d ≡ 0
not_exist {R = R} t p d l a h = elim (Result-cases (t.first p d)) [
  | inl (x, e) ↦ cc (rw e at h)
  | inr (e, q) ↦ missing (t.first p d) (l.first-First p d) e q (a p e q)
]
  where
    missing :
        (r : Result R)
        → First t p d r
        → (e : Error) → r ≡ err e
        → e ≡ record_not_found
        → how_many t p d ≡ 0
    missing (ok x) f e q n = cc
    missing (err c) f e q n = f (ground (arith, n, q))

check_ports-ok :
    (r : IngressRule) (ports : List ℕ) → check_ports r ports ≡ ok tt → misplaced r ≡ false
unfolding check_ports
check_ports-ok r ports h = ground arith

pub http_protocol_of : (p : ProtocolType) → same_protocol p http_protocol ≡ true → p ≡ http_protocol
http_protocol_of http_protocol h = refl
http_protocol_of https_protocol h = cc
http_protocol_of tcp_protocol h = cc
http_protocol_of udp_protocol h = cc
http_protocol_of (other_protocol o) h = cc

pub https_protocol_of :
    (p : ProtocolType) → same_protocol p https_protocol ≡ true → p ≡ https_protocol
https_protocol_of https_protocol h = refl
https_protocol_of http_protocol h = cc
https_protocol_of tcp_protocol h = cc
https_protocol_of udp_protocol h = cc
https_protocol_of (other_protocol o) h = cc

pub domain_of : (o : Option ℕ) (i : ℕ) → is_domain i o ≡ true → o ≡ some i
domain_of none i h = cc
domain_of (some j) i h = ground arith

module _ {D A : Type 0} (s : Store D A) where
  -- The guards that a rule has passed, and the queries that found nothing.
  pub record Accepted (r : IngressRule) (d : D) : Type 0 where
    pub placed : misplaced r ≡ false
    pub found_domain :
        IngressRules.find_domain s.rules s.redirects s.domains s.find_application r.domain_id d
        ≡ ok tt
    pub no_clash :
        IngressRules.check_clash s.rules s.redirects s.domains s.find_application r.protocol r d
        ≡ ok tt
    pub no_redirect_rule :
        (((is_http r && r.port == 80) || is_https r)
          && is_exist s.redirects
              (λ x. redirects_domain r.domain_id x && same_protocol x.protocol r.protocol)
              d)
        ≡ false
    pub no_https_redirect :
        ((is_http r && r.port == 80)
          && is_exist s.rules (λ x. has_domain r.domain_id x && is_https x && x.https_redirect) d)
        ≡ false

  abbrev pub is_valid : IngressRule → List ℕ → D → Result (Unit {0})
  is_valid r ports d =
      IngressRules.is_valid_new_ingress_rule s.rules s.redirects s.domains s.find_application r
        ports d

  pub valid-Accepted :
      (r : IngressRule) (ports : List ℕ) (d : D) → is_valid r ports d ≡ ok tt → Accepted r d
  unfolding IngressRules.is_valid_new_ingress_rule
  valid-Accepted r ports d h =
      let first = check_ports r ports in
      let second =
        IngressRules.find_domain s.rules s.redirects s.domains s.find_application r.domain_id d in
      let third =
        IngressRules.find_target s.rules s.redirects s.domains s.find_application r.target_type
          r.application_id d in
      let fourth =
        IngressRules.check_clash s.rules s.redirects s.domains s.find_application r.protocol r d in
      let fifth =
        is_exist s.redirects
          (λ x. redirects_domain r.domain_id x && same_protocol x.protocol r.protocol) d in
      let sixth =
        is_exist s.rules (λ x. has_domain r.domain_id x && is_https x && x.https_redirect) d in
      let (h6, k6) =
        then-ok
          (first
            >> second
            >> third
            >> fourth
            >> refuse (((is_http r && r.port == 80) || is_https r) && fifth)
                "there is redirect rule with same domain and port")
          (refuse ((is_http r && r.port == 80) && sixth)
            "there is https ingress rule with http redirect enabled")
          tt h in
      let (h5, k5) =
        then-ok (first >> second >> third >> fourth)
          (refuse (((is_http r && r.port == 80) || is_https r) && fifth)
            "there is redirect rule with same domain and port")
          tt h6 in
      let (h4, k4) = then-ok (first >> second >> third) fourth tt h5 in
      let (h3, k3) = then-ok (first >> second) third tt h4 in
      let (h2, k2) = then-ok first second tt h3 in
      record {
        found_domain = k2;
        placed = check_ports-ok r ports h2;
        no_clash = k4;
        no_redirect_rule = refuse-ok _ _ tt k5;
        no_https_redirect = refuse-ok _ _ tt k6;
      }

  -- No rule that the new one would clash with, by the protocol.
  clash-http :
      (p : ProtocolType) (r : IngressRule) (d : D)
      → IngressRules.check_clash s.rules s.redirects s.domains s.find_application p r d ≡ ok tt
      → (same_protocol p http_protocol || same_protocol p https_protocol) ≡ true
      → is_exist s.rules (λ x. has_domain r.domain_id x && x.port == r.port) d ≡ false
  clash-http http_protocol r d h k = refuse-ok _ _ tt h
  clash-http https_protocol r d h k = refuse-ok _ _ tt h
  clash-http tcp_protocol r d h k = cc
  clash-http udp_protocol r d h k = cc
  clash-http (other_protocol o) r d h k = cc

  clash-tcp :
      (p : ProtocolType) (r : IngressRule) (d : D)
      → IngressRules.check_clash s.rules s.redirects s.domains s.find_application p r d ≡ ok tt
      → same_protocol p tcp_protocol ≡ true
      → is_exist s.rules (λ x. is_tcp x && x.port == r.port) d ≡ false
  clash-tcp tcp_protocol r d h k = ground (arith, refuse-ok _ _ tt h)
  clash-tcp http_protocol r d h k = cc
  clash-tcp https_protocol r d h k = cc
  clash-tcp udp_protocol r d h k = cc
  clash-tcp (other_protocol o) r d h k = cc

  clash-udp :
      (p : ProtocolType) (r : IngressRule) (d : D)
      → IngressRules.check_clash s.rules s.redirects s.domains s.find_application p r d ≡ ok tt
      → same_protocol p udp_protocol ≡ true
      → is_exist s.rules (λ x. is_udp x && x.port == r.port) d ≡ false
  clash-udp udp_protocol r d h k = refuse-ok _ _ tt h
  clash-udp http_protocol r d h k = cc
  clash-udp https_protocol r d h k = cc
  clash-udp tcp_protocol r d h k = cc
  clash-udp (other_protocol o) r d h k = cc

  module _ (r : IngressRule) (d : D) (v : Accepted r d) (a : Answers s.rules d)
      (b : Answers s.redirects d) where
    pub absent :
        (p q : IngressRule → Bool)
        → is_exist s.rules q d ≡ false
        → ((x : IngressRule) → p x ≡ true → q x ≡ true)
        → ingress s p d ≡ 0
    absent p q h k =
        omega
          (arith, not_exist s.rules q d s.rules-IsTable a h, count-implies p q (s.rules.rows d) k)

    pub free_http : (i q : ℕ) → http_at i q r ≡ true → ingress s (http_at i q) d ≡ 0
    free_http i q h =
        let e = domain_of r.domain_id i (ground arith) in
        absent (http_at i q) (λ x. has_domain r.domain_id x && x.port == r.port)
          (clash-http r.protocol r d v.no_clash (ground arith)) (λ x k. rw e (ground arith))

    pub free_tcp : (q : ℕ) → tcp_at q r ≡ true → ingress s (tcp_at q) d ≡ 0
    free_tcp q h =
        absent (tcp_at q) (λ x. is_tcp x && x.port == r.port)
          (clash-tcp r.protocol r d v.no_clash (ground arith)) (λ x k. ground arith)

    pub free_udp : (q : ℕ) → udp_at q r ≡ true → ingress s (udp_at q) d ≡ 0
    free_udp q h =
        absent (udp_at q) (λ x. is_udp x && x.port == r.port)
          (clash-udp r.protocol r d v.no_clash (ground arith)) (λ x k. ground arith)

    no_redirect :
        (i : ℕ) (p : ProtocolType)
        → ((is_http r && r.port == 80) || is_https r) ≡ true
        → r.protocol ≡ p
        → r.domain_id ≡ some i
        → redirect s (redirect_of p i) d ≡ 0
    no_redirect i p h k e =
        let n = v.no_redirect_rule in
        let test = λ (x : RedirectRule).
          redirects_domain r.domain_id x && same_protocol x.protocol r.protocol in
        let z = not_exist s.redirects test d s.redirects-IsTable b (ground (arith, n)) in
        omega
          (arith, z, count-implies (redirect_of p i) test (s.redirects.rows d) (λ x o. rw (e, k) o))

    -- A new HTTP rule on port 80 finds nothing else that answers there.
    pub free_on_80 :
        (i : ℕ)
        → http_80 i r ≡ true
        → ingress s (http_80 i) d
            + ingress s (https_redirect_of i) d
            + redirect s (redirect_of http_protocol i) d
          ≡ 0
    free_on_80 i h =
        let e = domain_of r.domain_id i (ground arith) in
        let n = v.no_https_redirect in
        omega (
          arith,
          absent (http_80 i) (λ x. has_domain r.domain_id x && x.port == r.port)
              (clash-http r.protocol r d v.no_clash (ground arith)) (λ x k. rw e (ground arith)),
          absent (https_redirect_of i)
              (λ x. has_domain r.domain_id x && is_https x && x.https_redirect) (ground (arith, n))
              (λ x k. rw e k),
          no_redirect i http_protocol (ground arith) (http_protocol_of r.protocol (ground arith)) e,
        )

    -- A new HTTPS rule finds nothing that answers HTTPS, since no rule there is misplaced.
    pub free_on_443 :
        (i : ℕ)
        → ingress s misplaced d ≡ 0
        → https_of i r ≡ true
        → ingress s (https_of i) d + redirect s (redirect_of https_protocol i) d ≡ 0
    free_on_443 i m h =
        let e = domain_of r.domain_id i (ground arith) in
        let test = λ (x : IngressRule). has_domain r.domain_id x && x.port == r.port in
        let z =
          not_exist s.rules test d s.rules-IsTable a
            (clash-http r.protocol r d v.no_clash (ground arith)) in
        let w = v.placed in
        omega (
          arith,
          z,
          m,
          count-covered (https_of i) test misplaced (s.rules.rows d)
              (λ x k. rw e (ground (arith, w))),
          no_redirect i https_protocol (ground arith) (https_protocol_of r.protocol (ground arith))
              e,
        )
