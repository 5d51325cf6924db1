-- ===== src/Core/Routing/Examples.antt =====
-- A database in memory, and runs of the operations on it.
use newrr.Common.{
  arith, ℕ, ◌==◌, ◌≤◌, false, ◌≡◌, refl, List, [], ◌∷◌, Option, none, some, Result, ok, err, Text,
  text, record_not_found, external, ◌>>◌, inr,
}
use newrr.Core.Database.{Table, Answers, how_many}
use newrr.Core.Memory.{table, table-IsTable, table-Apart, table-Answers}
use newrr.Core.Models.{
  IngressRule, RedirectRule, Domain, http_protocol, https_protocol, external_service_ingress_rule,
  pending, no_authentication, basic_authentication,
}
use newrr.Core.IngressRules
use newrr.Core.RedirectRules
use newrr.Core.Domains
use newrr.Core.Routing.Invariant.{Store, WellFormed}
use newrr.Core.Routing.Histories.{
  create_ingress, create_redirect, create_domain, protect, start, then_step, reached-WellFormed,
  reached-Anchored, Reached,
}
use newrr.Core.Routing.References.{Anchored}
use newrr.Core.Routing.Unanswered.{valid-unanswered}

pub record Memory : Type 0 where
  pub rules : List IngressRule
  pub redirects : List RedirectRule
  pub domains : List Domain

abbrev rules_table : Table Memory IngressRule
rules_table =
    table (λ d. d.rules) (λ xs d. record d { rules = xs }) (λ x. x.id) (λ i x. record x { id = i })

abbrev redirects_table : Table Memory RedirectRule
redirects_table =
    table (λ d. d.redirects) (λ xs d. record d { redirects = xs }) (λ x. x.id)
      (λ i x. record x { id = i })

abbrev domains_table : Table Memory Domain
domains_table =
    table (λ d. d.domains) (λ xs d. record d { domains = xs }) (λ x. x.id)
      (λ i x. record x { id = i })

abbrev pub memory : Store Memory Text
memory = record {
  rules = rules_table;
  redirects = redirects_table;
  domains = domains_table;
  find_application = λ t d. err record_not_found;
  find_access_list = λ i d. ok i;
  rules-IsTable =
      table-IsTable (λ d. d.rules) (λ xs d. record d { rules = xs }) (λ x. x.id)
        (λ i x. record x { id = i }) (λ xs d. refl);
  redirects-IsTable =
      table-IsTable (λ d. d.redirects) (λ xs d. record d { redirects = xs }) (λ x. x.id)
        (λ i x. record x { id = i }) (λ xs d. refl);
  domains-IsTable =
      table-IsTable (λ d. d.domains) (λ xs d. record d { domains = xs }) (λ x. x.id)
        (λ i x. record x { id = i }) (λ xs d. refl);
  rules-redirects =
      table-Apart (λ d. d.rules) (λ xs d. record d { rules = xs }) (λ x. x.id)
        (λ i x. record x { id = i }) (λ d. d.redirects) (λ xs d. record d { redirects = xs })
        (λ x. x.id) (λ i x. record x { id = i }) (λ xs d. refl);
  rules-domains =
      table-Apart (λ d. d.rules) (λ xs d. record d { rules = xs }) (λ x. x.id)
        (λ i x. record x { id = i }) (λ d. d.domains) (λ xs d. record d { domains = xs })
        (λ x. x.id) (λ i x. record x { id = i }) (λ xs d. refl);
  redirects-rules =
      table-Apart (λ d. d.redirects) (λ xs d. record d { redirects = xs }) (λ x. x.id)
        (λ i x. record x { id = i }) (λ d. d.rules) (λ xs d. record d { rules = xs }) (λ x. x.id)
        (λ i x. record x { id = i }) (λ xs d. refl);
  redirects-domains =
      table-Apart (λ d. d.redirects) (λ xs d. record d { redirects = xs }) (λ x. x.id)
        (λ i x. record x { id = i }) (λ d. d.domains) (λ xs d. record d { domains = xs })
        (λ x. x.id) (λ i x. record x { id = i }) (λ xs d. refl);
  domains-rules =
      table-Apart (λ d. d.domains) (λ xs d. record d { domains = xs }) (λ x. x.id)
        (λ i x. record x { id = i }) (λ d. d.rules) (λ xs d. record d { rules = xs }) (λ x. x.id)
        (λ i x. record x { id = i }) (λ xs d. refl);
  domains-redirects =
      table-Apart (λ d. d.domains) (λ xs d. record d { domains = xs }) (λ x. x.id)
        (λ i x. record x { id = i }) (λ d. d.redirects) (λ xs d. record d { redirects = xs })
        (λ x. x.id) (λ i x. record x { id = i }) (λ xs d. refl);
  rules_id = λ x. refl;
  rules_with_id = λ i x. refl;
  domains_id = λ x. refl;
  domains_with_id = λ i x. refl;
  redirects_id = λ x. refl;
  redirects_with_id = λ i x. refl;
}

abbrev site : Domain
site = record {
  id = 0;
  name = text "example.com";
  ssl_status = text "none";
  ssl_private_key = [];
  ssl_full_chain = [];
  ssl_issued_at = 0;
  ssl_expired_at = 0;
  ssl_issuer = [];
  ssl_auto_renew = false;
}

abbrev site_rule : IngressRule
site_rule = record {
  id = 0;
  domain_id = some 1;
  protocol = https_protocol;
  port = 443;
  target_port = 8080;
  target_type = external_service_ingress_rule;
  application_id = none;
  external_service = text "backend";
  https_redirect = false;
  authentication = record {
    auth_type = no_authentication;
    app_basic_auth_access_control_list_id = none;
  };
  status = pending;
}

abbrev site_redirect : RedirectRule
site_redirect = record {
  id = 0;
  domain_id = 1;
  protocol = http_protocol;
  redirect_url = text "https://example.com";
  status = pending;
}

abbrev empty : Memory
empty = record { rules = []; redirects = []; domains = [] }

abbrev decode : Text → Option Text
decode t = none

abbrev certificate : Text → Result Domains.Certificate
certificate t = err record_not_found

abbrev with_domain : Memory
with_domain = (Domains.create domains_table decode certificate site empty).0

abbrev with_rule : Memory
with_rule =
    (IngressRules.create rules_table redirects_table domains_table memory.find_application site_rule
      [] with_domain).0

abbrev with_redirect : Memory
with_redirect =
    (RedirectRules.create rules_table redirects_table domains_table site_redirect with_rule).0

rules_answer : (d : Memory) → Answers rules_table d
rules_answer d =
    table-Answers (λ d. d.rules) (λ xs d. record d { rules = xs }) (λ x. x.id)
      (λ i x. record x { id = i }) (λ xs d. refl) d

redirects_answer : (d : Memory) → Answers redirects_table d
redirects_answer d =
    table-Answers (λ d. d.redirects) (λ xs d. record d { redirects = xs }) (λ x. x.id)
      (λ i x. record x { id = i }) (λ xs d. refl) d

-- The rules are really there at the end.
two_rules :
    (with_redirect.rules ≡ record site_rule { id = 1 } ∷ [])
    × (with_redirect.redirects ≡ record site_redirect { id = 1 } ∷ [])
unfolding Domains.create IngressRules.create RedirectRules.create
two_rules = (refl, refl)

abbrev protected : Memory
protected =
    (IngressRules.protect_using_basic_auth rules_table memory.find_access_list (λ l. l)
      (record site_rule { id = 1 }) 7 with_redirect).0

rule_found :
    (rules_table.first (λ x. x.id == 1) with_redirect ≡ ok (record site_rule { id = 1 }))
    × ((i : ℕ) → how_many rules_table (λ x. x.id == i) with_redirect ≤ 1)
unfolding Domains.create IngressRules.create RedirectRules.create
rule_found = (refl, λ i. ground arith)

-- The rule is really protected at the end.
one_protected :
    protected.rules
    ≡ record site_rule {
      id = 1;
      authentication = record {
        auth_type = basic_authentication;
        app_basic_auth_access_control_list_id = some 7;
      };
    }
      ∷ []
unfolding Domains.create IngressRules.create RedirectRules.create
    IngressRules.protect_using_basic_auth
one_protected = refl

history_before : Reached memory decode certificate empty with_redirect
history_before =
    then_step with_rule with_redirect
      (then_step with_domain with_rule (then_step empty with_domain start (create_domain site)) (
        create_ingress site_rule [] (rules_answer with_domain) (redirects_answer with_domain) refl))
      (create_redirect site_redirect (rules_answer with_rule) (redirects_answer with_rule))

history : Reached memory decode certificate empty protected
history =
    then_step with_redirect protected history_before
      (protect (record site_rule { id = 1 }) 1 7 rule_found.0 rule_found.1)

empty-WellFormed : WellFormed memory empty
empty-WellFormed = record {
  one_http = λ domain port. omega arith;
  one_tcp = λ port. omega arith;
  one_udp = λ port. omega arith;
  one_on_80 = λ domain. omega arith;
  one_on_443 = λ domain. omega arith;
  none_misplaced = refl;
  none_misdirected = refl;
}

reached-WellFormed_example : WellFormed memory protected
reached-WellFormed_example =
    reached-WellFormed memory decode certificate empty protected history empty-WellFormed

reached-Anchored_example : Anchored memory protected
reached-Anchored_example =
    reached-Anchored memory decode certificate empty protected history (λ i. inr refl)

-- A table whose queries for a first row all fail.
abbrev down : {R : Type 0} → Table Memory R → Table Memory R
down t = record t { first = λ p d. err (external (text "connection refused")) }

valid-unanswered_example :
    IngressRules.is_valid_new_ingress_rule
      (down rules_table)
      (down redirects_table)
      domains_table
      memory.find_application
      site_rule
      []
      with_rule
    ≡ (IngressRules.check_ports site_rule []
        >> IngressRules.find_domain
            (down rules_table)
            (down redirects_table)
            domains_table
            memory.find_application
            (some 1)
            with_rule
        >> IngressRules.find_target
            (down rules_table)
            (down redirects_table)
            domains_table
            memory.find_application
            external_service_ingress_rule
            none
            with_rule)
valid-unanswered_example =
    valid-unanswered (down rules_table) (down redirects_table) domains_table memory.find_application
      site_rule [] with_rule (external (text "connection refused")) (λ q. refl) (λ q. refl)
