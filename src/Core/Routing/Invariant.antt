-- ===== src/Core/Routing/Invariant.antt =====
-- The database that the operations on rules share, and what the rules in it keep to.
use newrr.Common.{arith, ℕ, Bool, ◌&&◌, ◌||◌, not, ◌==◌, ◌+◌, ◌≤◌, ◌≡◌, some, Result, Text}
use newrr.Core.Database.{Table, IsTable, Apart, how_many}
use newrr.Core.Models.{
  ProtocolType, http_protocol, https_protocol, same_protocol, IngressRule, RedirectRule, Domain,
  has_domain,
}
use newrr.Core.IngressRules.{is_http, is_https, is_tcp, is_udp, lacks_domain}
use newrr.Core.RedirectRules.{redirects_protocol}

-- The tables, the query for an application, and what the database documents of them.
pub record Store (D A : Type 0) : Type 0 where
  pub rules : Table D IngressRule
  pub redirects : Table D RedirectRule
  pub domains : Table D Domain
  pub find_application : Text → D → Result A
  pub find_access_list : ℕ → D → Result ℕ
  pub rules-IsTable : IsTable rules
  pub redirects-IsTable : IsTable redirects
  pub domains-IsTable : IsTable domains
  pub rules-redirects : Apart rules redirects
  pub rules-domains : Apart rules domains
  pub redirects-rules : Apart redirects rules
  pub redirects-domains : Apart redirects domains
  pub domains-rules : Apart domains rules
  pub domains-redirects : Apart domains redirects
  pub rules_id : (x : IngressRule) → rules.id_of x ≡ x.id
  pub rules_with_id : (i : ℕ) (x : IngressRule) → rules.with_id i x ≡ record x { id = i }
  pub domains_id : (x : Domain) → domains.id_of x ≡ x.id
  pub domains_with_id : (i : ℕ) (x : Domain) → domains.with_id i x ≡ record x { id = i }
  pub redirects_id : (x : RedirectRule) → redirects.id_of x ≡ x.id
  pub redirects_with_id : (i : ℕ) (x : RedirectRule) → redirects.with_id i x ≡ record x { id = i }

-- The rules that a proxy serves on a port by the name of the domain, and those it serves by the port.
abbrev pub http_at : ℕ → ℕ → IngressRule → Bool
http_at domain port x = (is_http x || is_https x) && (has_domain (some domain) x && x.port == port)

abbrev pub tcp_at : ℕ → IngressRule → Bool
tcp_at port x = is_tcp x && x.port == port

abbrev pub udp_at : ℕ → IngressRule → Bool
udp_at port x = is_udp x && x.port == port

-- What answers a plain HTTP request for the domain on port 80, and an HTTPS request.
abbrev pub http_80 : ℕ → IngressRule → Bool
http_80 domain x = has_domain (some domain) x && x.port == 80 && is_http x

abbrev pub https_redirect_of : ℕ → IngressRule → Bool
https_redirect_of domain x = has_domain (some domain) x && is_https x && x.https_redirect

abbrev pub https_of : ℕ → IngressRule → Bool
https_of domain x = has_domain (some domain) x && is_https x

abbrev pub directs : ℕ → RedirectRule → Bool
directs domain y = y.domain_id == domain

abbrev pub redirect_of : ProtocolType → ℕ → RedirectRule → Bool
redirect_of p domain y = y.domain_id == domain && same_protocol y.protocol p

-- A rule that the guards on ports and domains refuse.
abbrev pub misplaced : IngressRule → Bool
misplaced x =
    ((is_tcp x || is_udp x) && (x.port == 80 || x.port == 443))
    || (is_https x && not (x.port == 443))
    || (is_http x && x.port == 443)
    || ((is_http x || is_https x) && lacks_domain x)

abbrev pub misdirected : RedirectRule → Bool
misdirected y =
    not (redirects_protocol y http_protocol) && not (redirects_protocol y https_protocol)

module _ {D A : Type 0} (s : Store D A) where
  abbrev pub ingress : (IngressRule → Bool) → D → ℕ
  ingress p d = how_many s.rules p d

  abbrev pub redirect : (RedirectRule → Bool) → D → ℕ
  redirect p d = how_many s.redirects p d

  -- No port of a domain, and no TCP or UDP port, has two ingress rules; one thing at most answers
  -- HTTP on port 80 for a domain (an ingress rule, a redirect rule, or the redirection of an HTTPS
  -- rule), and one at most answers HTTPS; every rule is placed as the guards ask.
  pub record WellFormed (d : D) : Type 0 where
    pub one_http : (domain port : ℕ) → ingress (http_at domain port) d ≤ 1
    pub one_tcp : (port : ℕ) → ingress (tcp_at port) d ≤ 1
    pub one_udp : (port : ℕ) → ingress (udp_at port) d ≤ 1
    pub one_on_80 :
        (domain : ℕ)
        → ingress (http_80 domain) d
            + ingress (https_redirect_of domain) d
            + redirect (redirect_of http_protocol domain) d
          ≤ 1
    pub one_on_443 :
        (domain : ℕ)
        → ingress (https_of domain) d + redirect (redirect_of https_protocol domain) d ≤ 1
    pub none_misplaced : ingress misplaced d ≡ 0
    pub none_misdirected : redirect misdirected d ≡ 0

  -- No more rules of any kind that the invariant counts.
  pub record Fewer (d e : D) : Type 0 where
    pub fewer_http :
        (domain port : ℕ) → ingress (http_at domain port) e ≤ ingress (http_at domain port) d
    pub fewer_tcp : (port : ℕ) → ingress (tcp_at port) e ≤ ingress (tcp_at port) d
    pub fewer_udp : (port : ℕ) → ingress (udp_at port) e ≤ ingress (udp_at port) d
    pub fewer_http_80 : (domain : ℕ) → ingress (http_80 domain) e ≤ ingress (http_80 domain) d
    pub fewer_https_redirect :
        (domain : ℕ) → ingress (https_redirect_of domain) e ≤ ingress (https_redirect_of domain) d
    pub fewer_https : (domain : ℕ) → ingress (https_of domain) e ≤ ingress (https_of domain) d
    pub fewer_misplaced : ingress misplaced e ≤ ingress misplaced d
    pub fewer_of_domain :
        (domain : ℕ) → ingress (has_domain (some domain)) e ≤ ingress (has_domain (some domain)) d
    pub fewer_directs : (domain : ℕ) → redirect (directs domain) e ≤ redirect (directs domain) d
    pub fewer_misdirected : redirect misdirected e ≤ redirect misdirected d
    pub fewer_redirect :
        (p : ProtocolType) (domain : ℕ)
        → redirect (redirect_of p domain) e ≤ redirect (redirect_of p domain) d

  pub WellFormed-Fewer : (d e : D) → WellFormed d → Fewer d e → WellFormed e
  WellFormed-Fewer d e w f = record {
    one_http = λ domain port. omega (arith, w.one_http domain port, f.fewer_http domain port);
    one_tcp = λ port. omega (arith, w.one_tcp port, f.fewer_tcp port);
    one_udp = λ port. omega (arith, w.one_udp port, f.fewer_udp port);
    one_on_80 = λ domain. omega (
      arith,
      w.one_on_80 domain,
      f.fewer_http_80 domain,
      f.fewer_https_redirect domain,
      f.fewer_redirect http_protocol domain,
    );
    one_on_443 = λ domain.
        omega (
          arith,
          w.one_on_443 domain,
          f.fewer_https domain,
          f.fewer_redirect https_protocol domain,
        );
    none_misplaced = omega (arith, w.none_misplaced, f.fewer_misplaced);
    none_misdirected = omega (arith, w.none_misdirected, f.fewer_misdirected);
  }
