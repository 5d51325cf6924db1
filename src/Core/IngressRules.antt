-- ===== src/Core/IngressRules.antt =====
-- swiftwave_service/core/ingress_rule.operations.go. An operation on a pointer to a rule takes the
-- rule, and returns it where it changes it.
use newrr.Common.{
  ℕ, Bool, true, false, ◌&&◌, ◌||◌, not, if◌then◌else◌, ◌==◌, Option, none, some, List, map, any,
  Result, ok, err, ◌>>=◌, ◌>>◌, refuse, Text,
}
use newrr.Core.Database.{Table, is_exist}
use newrr.Core.Models.{
  ProtocolType, http_protocol, https_protocol, tcp_protocol, udp_protocol, other_protocol,
  same_protocol, IngressRuleTargetType, application_ingress_rule, external_service_ingress_rule,
  RuleStatus, deleting, status_is_deleting, IngressRuleAuthenticationType, no_authentication,
  basic_authentication, IngressRule, RedirectRule, Domain, has_domain,
}

abbrev pub is_http : IngressRule → Bool
is_http r = same_protocol r.protocol http_protocol

abbrev pub is_https : IngressRule → Bool
is_https r = same_protocol r.protocol https_protocol

abbrev pub is_tcp : IngressRule → Bool
is_tcp r = same_protocol r.protocol tcp_protocol

abbrev pub is_udp : IngressRule → Bool
is_udp r = same_protocol r.protocol udp_protocol

abbrev pub lacks_domain : IngressRule → Bool
lacks_domain r = is_none r.domain_id
  where
    is_none : {A : Type 0} → Option A → Bool
    is_none none = true
    is_none (some a) = false

-- The guards of IsValidNewIngressRule that need no query.
unfoldable pub check_ports : IngressRule → List ℕ → Result (Unit {0})
check_ports r restricted_ports =
    refuse ((is_tcp r || is_udp r) && (r.port == 80 || r.port == 443))
      "port 80, 443 not allowed for TCP/UDP mode"
    >> refuse (is_https r && r.port == 80) "port 80 not allowed for HTTPS mode"
    >> refuse (is_http r && r.port == 443) "port 443 not allowed for HTTP mode"
    >> refuse (is_https r && not (r.port == 443)) "only port 443 is allowed for HTTPS mode"
    >> refuse ((is_http r || is_https r) && lacks_domain r) "domain is required for HTTP/HTTPS mode"
    >> refuse (any (λ p. r.port == p) restricted_ports) "port is restricted, choose another port"

-- `domain_id = ?` on redirect rules, with the domain of an ingress rule.
abbrev pub redirects_domain : Option ℕ → RedirectRule → Bool
redirects_domain none x = false
redirects_domain (some i) x = x.domain_id == i

abbrev pub set_status : RuleStatus → IngressRule → IngressRule
set_status s x = record x { status = s }

abbrev is_protected : IngressRuleAuthenticationType → Bool
is_protected no_authentication = false
is_protected basic_authentication = true

module _ {D A : Type 0} (rules : Table D IngressRule) (redirects : Table D RedirectRule)
    (domains : Table D Domain) (find_application : Text → D → Result A) where
  -- The domain and the application of a new rule.
  abbrev pub find_domain : Option ℕ → D → Result (Unit {0})
  find_domain none d = ok tt
  find_domain (some i) d = domains.first (λ x. x.id == i) d >>= λ _. ok tt

  abbrev pub find_target : IngressRuleTargetType → Option Text → D → Result (Unit {0})
  find_target external_service_ingress_rule a d = ok tt
  find_target application_ingress_rule none d = refuse true "invalid application id"
  find_target application_ingress_rule (some a) d = find_application a d >>= λ _. ok tt

  -- Whether there is a rule that the new one clashes with, by the new one's protocol.
  abbrev pub check_clash : ProtocolType → IngressRule → D → Result (Unit {0})
  check_clash http_protocol r d =
      refuse (is_exist rules (λ x. has_domain r.domain_id x && x.port == r.port) d)
        "there is ingress rule with same domain and port"
  check_clash https_protocol r d =
      refuse (is_exist rules (λ x. has_domain r.domain_id x && x.port == r.port) d)
        "there is ingress rule with same domain and port"
  check_clash tcp_protocol r d =
      refuse
        (is_exist rules (λ x. is_tcp x && x.port == r.port) d
          || is_exist rules (λ x. is_http x && x.port == r.port) d
          || is_exist rules (λ x. is_https x && x.port == r.port) d)
        "there is ingress rule with same port"
  check_clash udp_protocol r d =
      refuse (is_exist rules (λ x. is_udp x && x.port == r.port) d)
        "there is ingress rule with same port"
  check_clash (other_protocol s) r d = ok tt

  -- IsValidNewIngressRule
  unfoldable pub is_valid_new_ingress_rule : IngressRule → List ℕ → D → Result (Unit {0})
  unfolding check_ports
  is_valid_new_ingress_rule r restricted_ports d =
      check_ports r restricted_ports
      >> find_domain r.domain_id d
      >> find_target r.target_type r.application_id d
      >> check_clash r.protocol r d
      >> refuse
          (((is_http r && r.port == 80) || is_https r)
            && is_exist redirects
                (λ x. redirects_domain r.domain_id x && same_protocol x.protocol r.protocol) d)
          "there is redirect rule with same domain and port"
      >> refuse
          ((is_http r && r.port == 80)
            && is_exist rules (λ x. has_domain r.domain_id x && is_https x && x.https_redirect) d)
          "there is https ingress rule with http redirect enabled"

  -- Create
  unfoldable pub create : IngressRule → List ℕ → D → D × Result IngressRule
  unfolding is_valid_new_ingress_rule
  create r restricted_ports d = create_valid (is_valid_new_ingress_rule r restricted_ports d)
    where
      create_valid : Result (Unit {0}) → D × Result IngressRule
      create_valid (err e) = (d, err e)
      create_valid (ok _) = rules.create r d

module _ {D : Type 0} (rules : Table D IngressRule) (redirects : Table D RedirectRule) where
  -- ValidateForHttpsRedirectEnableRequest; the Boolean that comes with the error says the same.
  unfoldable pub validate_for_https_redirect_enable_request : IngressRule → D → Result (Unit {0})
  validate_for_https_redirect_enable_request r d =
      refuse (status_is_deleting r.status) "ingress rule is deleting"
      >> refuse (not (is_https r)) "ingress rule should be HTTPS mode to enable https redirect"
      >> refuse (is_exist rules (λ x. has_domain r.domain_id x && x.port == 80 && is_http x) d)
          "existing http ingress rule available with same domain at port 80"
      >> refuse
          (is_exist redirects
            (λ x. redirects_domain r.domain_id x && same_protocol x.protocol http_protocol) d)
          "existing redirect rule available with same domain at port 80"

module _ {D : Type 0} (rules : Table D IngressRule) where
  -- Delete
  unfoldable pub delete : IngressRule → Bool → D → D × Result (Unit {0})
  delete r force d =
      if not force
      then (if status_is_deleting r.status
          then (d, refuse true "ingress rule is deleting")
          else rules.update r.id (set_status deleting) d)
      else rules.delete r.id d

  -- UpdateStatus
  unfoldable pub update_status : IngressRule → RuleStatus → D → D × Result (Unit {0})
  update_status r status d = rules.update r.id (set_status status) d

  -- UpdateHttpsRedirectStatus
  unfoldable pub update_https_redirect_status : IngressRule → Bool → D → D × Result (Unit {0})
  update_https_redirect_status r enabled d =
      rules.update r.id (λ x. record x { https_redirect = enabled }) d

  -- FetchAllExposedTCPPorts, FetchAllExposedUDPPorts
  unfoldable pub fetch_all_exposed_tcp_ports : D → Result (List ℕ)
  fetch_all_exposed_tcp_ports d =
      rules.find (λ x. not (is_udp x)) d >>= λ rs. ok (map (λ x. x.port) rs)

  unfoldable pub fetch_all_exposed_udp_ports : D → Result (List ℕ)
  fetch_all_exposed_udp_ports d = rules.find (λ x. is_udp x) d >>= λ rs. ok (map (λ x. x.port) rs)

  -- DisableAuthentication
  unfoldable pub disable_authentication : IngressRule → D → D × Result IngressRule
  disable_authentication r d = save_copy (rules.first (λ x. x.id == r.id) d)
    where
      save_copy : Result IngressRule → D × Result IngressRule
      save_copy (err e) = (d, err e)
      save_copy (ok x) =
          rules.save
            (record x {
              authentication = record {
                auth_type = no_authentication;
                app_basic_auth_access_control_list_id = none;
              };
            })
            d

module _ {D L : Type 0} (rules : Table D IngressRule) (find_access_list : ℕ → D → Result L)
    (list_id : L → ℕ) where
  -- The checks of ProtectUsingBasicAuth
  abbrev pub check_protection : IngressRule → ℕ → D → Result L
  check_protection r access_list d =
      refuse (is_tcp r || is_udp r) "basic authentication is not supported for TCP/UDP mode"
      >> refuse (is_protected r.authentication.auth_type)
          "ingress rule is already protected, please disable it first"
      >> find_access_list access_list d

  -- ProtectUsingBasicAuth, with the rule as it is saved
  unfoldable pub protect_using_basic_auth : IngressRule → ℕ → D → D × Result IngressRule
  protect_using_basic_auth r access_list d = save_checked (check_protection r access_list d)
    where
      save_checked : Result L → D × Result IngressRule
      save_checked (err e) = (d, err e)
      save_checked (ok l) =
          rules.save
            (record r {
              authentication = record {
                auth_type = basic_authentication;
                app_basic_auth_access_control_list_id = some (list_id l);
              };
            })
            d
