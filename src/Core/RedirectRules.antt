-- ===== src/Core/RedirectRules.antt =====
-- swiftwave_service/core/redirect_rule.oprations.go.
use newrr.Common.{
  ℕ, Bool, true, ◌&&◌, not, if◌then◌else◌, ◌==◌, some, Result, ok, err, ◌>>=◌, ◌>>◌, refuse,
}
use newrr.Core.Database.{Table, is_exist}
use newrr.Core.Models.{
  ProtocolType, http_protocol, https_protocol, same_protocol, RuleStatus, deleting,
  status_is_deleting, IngressRule, RedirectRule, Domain, has_domain,
}

abbrev pub redirects_protocol : RedirectRule → ProtocolType → Bool
redirects_protocol r p = same_protocol r.protocol p

abbrev pub set_status : RuleStatus → RedirectRule → RedirectRule
set_status s x = record x { status = s }

-- The ingress rules of the same domain and protocol on a port, and the HTTPS rules of the domain that
-- redirect from HTTP.
abbrev pub clashing : RedirectRule → ℕ → IngressRule → Bool
clashing r port x =
    has_domain (some r.domain_id) x && same_protocol x.protocol r.protocol && x.port == port

abbrev pub redirecting : RedirectRule → IngressRule → Bool
redirecting r x =
    has_domain (some r.domain_id) x && same_protocol x.protocol https_protocol && x.https_redirect

module _ {D : Type 0} (rules : Table D IngressRule) (redirects : Table D RedirectRule)
    (domains : Table D Domain) where
  -- The ingress rules that a new redirect rule clashes with.
  abbrev pub check_ingress : RedirectRule → D → Result (Unit {0})
  check_ingress r d =
      if redirects_protocol r http_protocol
      then refuse (not (is_exist rules (clashing r 80) d) && is_exist rules (redirecting r) d)
          "there is https ingress rule with same domain having https Redirect enabled"
        >> refuse (is_exist rules (clashing r 80) d)
            "there is ingress rule with same domain and port"
      else refuse (is_exist rules (clashing r 443) d)
          "there is ingress rule with same domain and port"

  -- The checks of Create
  unfoldable pub check : RedirectRule → D → Result (Unit {0})
  check r d =
      (domains.first (λ x. x.id == r.domain_id) d >>= λ _. ok tt)
      >> refuse
          (not (redirects_protocol r http_protocol) && not (redirects_protocol r https_protocol))
          "invalid protocol"
      >> check_ingress r d
      >> refuse
          (is_exist redirects
            (λ x. x.domain_id == r.domain_id && same_protocol x.protocol r.protocol) d)
          "there is redirect rule with same domain and port"

  -- Create
  unfoldable pub create : RedirectRule → D → D × Result RedirectRule
  unfolding check
  create r d = create_valid (check r d)
    where
      create_valid : Result (Unit {0}) → D × Result RedirectRule
      create_valid (err e) = (d, err e)
      create_valid (ok _) = redirects.create r d

module _ {D : Type 0} (redirects : Table D RedirectRule) where
  -- Delete
  unfoldable pub delete : RedirectRule → Bool → D → D × Result (Unit {0})
  delete r force d =
      if not force
      then (if status_is_deleting r.status
          then (d, refuse true "redirect rule is already deleting")
          else redirects.update r.id (set_status deleting) d)
      else redirects.delete r.id d

  -- UpdateStatus
  unfoldable pub update_status : RedirectRule → RuleStatus → D → D × Result (Unit {0})
  update_status r status d = redirects.update r.id (set_status status) d
