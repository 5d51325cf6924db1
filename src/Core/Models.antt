-- ===== src/Core/Models.antt =====
-- The records of swiftwave_service/core/models.go and the constants of core/types.go that routing
-- uses. The times that gorm keeps are left out, and rows of other tables are found by their keys.
use newrr.Common.{ℕ, Bool, true, false, Option, none, some, Text, text_eq, ◌==◌}

pub data ProtocolType : Type 0 where
  http_protocol : ProtocolType
  https_protocol : ProtocolType
  tcp_protocol : ProtocolType
  udp_protocol : ProtocolType
  other_protocol : Text → ProtocolType

pub data IngressRuleTargetType : Type 0 where
  application_ingress_rule : IngressRuleTargetType
  external_service_ingress_rule : IngressRuleTargetType

pub data RuleStatus : Type 0 where
  pending : RuleStatus
  applied : RuleStatus
  failed : RuleStatus
  deleting : RuleStatus

pub data IngressRuleAuthenticationType : Type 0 where
  no_authentication : IngressRuleAuthenticationType
  basic_authentication : IngressRuleAuthenticationType

pub record IngressRuleAuthentication : Type 0 where
  pub auth_type : IngressRuleAuthenticationType
  pub app_basic_auth_access_control_list_id : Option ℕ

pub record IngressRule : Type 0 where
  pub id : ℕ
  pub domain_id : Option ℕ
  pub protocol : ProtocolType
  pub port : ℕ
  pub target_port : ℕ
  pub target_type : IngressRuleTargetType
  pub application_id : Option Text
  pub external_service : Text
  pub https_redirect : Bool
  pub authentication : IngressRuleAuthentication
  pub status : RuleStatus

pub record RedirectRule : Type 0 where
  pub id : ℕ
  pub domain_id : ℕ
  pub protocol : ProtocolType
  pub redirect_url : Text
  pub status : RuleStatus

pub record Domain : Type 0 where
  pub id : ℕ
  pub name : Text
  pub ssl_status : Text
  pub ssl_private_key : Text
  pub ssl_full_chain : Text
  pub ssl_issued_at : ℕ
  pub ssl_expired_at : ℕ
  pub ssl_issuer : Text
  pub ssl_auto_renew : Bool

abbrev pub same_protocol : ProtocolType → ProtocolType → Bool
same_protocol http_protocol http_protocol = true
same_protocol https_protocol https_protocol = true
same_protocol tcp_protocol tcp_protocol = true
same_protocol udp_protocol udp_protocol = true
same_protocol (other_protocol s) (other_protocol t) = text_eq s t
same_protocol _ _ = false

abbrev pub is_domain : ℕ → Option ℕ → Bool
is_domain d none = false
is_domain d (some e) = e == d

-- `domain_id = ?` on a column that may be NULL, with an operand that may be.
abbrev pub has_domain : Option ℕ → IngressRule → Bool
has_domain none r = false
has_domain (some d) r = is_domain d r.domain_id

abbrev pub status_is_deleting : RuleStatus → Bool
status_is_deleting deleting = true
status_is_deleting _ = false
