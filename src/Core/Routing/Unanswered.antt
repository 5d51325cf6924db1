-- ===== src/Core/Routing/Unanswered.antt =====
-- IsValidNewIngressRule when the database does not answer: RowsAffected is 0 then, too.
use newrr.Common.{
  ℕ, String, Bool, true, false, ◌&&◌, ◌||◌, ◌==◌, ◌≡◌, refl, List, Result, ok, err, Error, Text,
  ◌>>◌, refuse,
}
use newrr.Core.Database.{Table, is_exist}
use newrr.Core.Models.{
  ProtocolType, http_protocol, https_protocol, tcp_protocol, udp_protocol, other_protocol,
  IngressRule, RedirectRule, Domain, same_protocol, has_domain,
}
use newrr.Core.IngressRules
use newrr.Core.IngressRules.{check_ports, is_http, is_https, redirects_domain}

-- Checks that find nothing leave the outcome of those before them.
passed :
    (m c : Result (Unit {0})) (a x b y : Bool) (s t : String)
    → c ≡ ok tt
    → x ≡ false
    → y ≡ false
    → (m >> c >> refuse (a && x) s >> refuse (b && y) t) ≡ m
passed (err e) c a x b y s t h k l = refl
passed (ok _) c true x true y s t h k l = rw (h, k, l) refl
passed (ok _) c true x false y s t h k l = rw (h, k) refl
passed (ok _) c false x true y s t h k l = rw (h, l) refl
passed (ok _) c false x false y s t h k l = rw h refl

module _ {D A : Type 0} (rules : Table D IngressRule) (redirects : Table D RedirectRule)
    (domains : Table D Domain) (find_application : Text → D → Result A) where
  clash-unanswered :
      (p : ProtocolType) (r : IngressRule) (d : D) (e : Error)
      → ((q : IngressRule → Bool) → rules.first q d ≡ err e)
      → IngressRules.check_clash rules redirects domains find_application p r d ≡ ok tt
  clash-unanswered http_protocol r d e h = rw (h _) refl
  clash-unanswered https_protocol r d e h = rw (h _) refl
  clash-unanswered tcp_protocol r d e h = rw (h _, h _, h _) refl
  clash-unanswered udp_protocol r d e h = rw (h _) refl
  clash-unanswered (other_protocol o) r d e h = refl

  -- If every query for a rule fails, IsValidNewIngressRule looks at the ports, the domain and the
  -- application only, and refuses no rule because of another.
  pub valid-unanswered :
      (r : IngressRule) (ports : List ℕ) (d : D) (e : Error)
      → ((q : IngressRule → Bool) → rules.first q d ≡ err e)
      → ((q : RedirectRule → Bool) → redirects.first q d ≡ err e)
      → IngressRules.is_valid_new_ingress_rule rules redirects domains find_application r ports d
        ≡ (check_ports r ports
            >> IngressRules.find_domain rules redirects domains find_application r.domain_id d
            >> IngressRules.find_target rules redirects domains find_application r.target_type
                r.application_id d)
  unfolding IngressRules.is_valid_new_ingress_rule
  valid-unanswered r ports d e h k =
      passed
        (check_ports r ports
          >> IngressRules.find_domain rules redirects domains find_application r.domain_id d
          >> IngressRules.find_target rules redirects domains find_application r.target_type
              r.application_id d)
        (IngressRules.check_clash rules redirects domains find_application r.protocol r d)
        ((is_http r && r.port == 80) || is_https r)
        (is_exist redirects
          (λ x. redirects_domain r.domain_id x && same_protocol x.protocol r.protocol) d)
        (is_http r && r.port == 80)
        (is_exist rules (λ x. has_domain r.domain_id x && is_https x && x.https_redirect) d)
        "there is redirect rule with same domain and port"
        "there is https ingress rule with http redirect enabled"
        (clash-unanswered r.protocol r d e h)
        (rw (k (λ x. redirects_domain r.domain_id x && same_protocol x.protocol r.protocol)) refl)
        (rw (h (λ x. has_domain r.domain_id x && is_https x && x.https_redirect)) refl)
