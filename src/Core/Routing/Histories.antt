-- ===== src/Core/Routing/Histories.antt =====
-- The states that the operations lead to, one after another, in states where the database answers.
use newrr.Common.{
  arith, ℕ, Bool, true, false, ◌==◌, ◌≤◌, ◌≡◌, refl, Option, Result, ok, List, Text, inl, inr,
  Bool-cases,
}
use newrr.Core.Database.{Answers}
use newrr.Core.Models.{IngressRule, RedirectRule, Domain, RuleStatus, deleting, status_is_deleting}
use newrr.Core.IngressRules
use newrr.Core.RedirectRules
use newrr.Core.Domains
use newrr.Core.Routing.Invariant.{Store, WellFormed, WellFormed-Fewer, ingress}
use newrr.Core.Routing.Changes.{
  delete-Fewer, update_status-Fewer, disable_redirect-Fewer, redirect-update_status-Fewer,
  redirect-delete-Fewer, Fewer-Same,
}
use newrr.Core.Routing.Creation.{create_ingress-WellFormed}
use newrr.Core.Routing.Redirection.{stale, enable_redirect-WellFormed, enable_redirect-of_domain}
use newrr.Core.Routing.Protection.{
  disable_authentication-Fewer, protect-Fewer, disable_authentication-domains, protect-domains,
}
use newrr.Core.Routing.RedirectCreation.{create_redirect-WellFormed}
use newrr.Core.Routing.References.{
  Anchored, Anchored-Fewer, create_ingress-Anchored, create_redirect-Anchored,
  create_domain-Anchored, delete_domain-Anchored, create_domain-rules, create_domain-redirects,
  delete_domain-rules, delete_domain-redirects,
}

-- One operation. A new ingress rule does not redirect yet, as the API builds it; a redirection is
-- enabled in the state in which the request for it is validated. A rule is protected as it was just
-- read, and its protection is changed where no two rules have one key.
pub data Step {D A B : Type 0} (s : Store D A) (pem_decode : Text → Option B)
    (parse_certificate : B → Result Domains.Certificate) (d : D) : D → Type 0 where
  create_ingress :
      (r : IngressRule) (ports : List ℕ)
      → Answers s.rules d
      → Answers s.redirects d
      → r.https_redirect ≡ false
      → Step s pem_decode parse_certificate d
          (IngressRules.create s.rules s.redirects s.domains s.find_application r ports d).0
  delete_ingress :
      (r : IngressRule) (force : Bool)
      → Step s pem_decode parse_certificate d (IngressRules.delete s.rules r force d).0
  update_ingress_status :
      (r : IngressRule) (status : RuleStatus)
      → Step s pem_decode parse_certificate d (IngressRules.update_status s.rules r status d).0
  enable_redirect :
      (r : IngressRule)
      → Answers s.rules d
      → Answers s.redirects d
      → ingress s (stale r) d ≡ 0
      → IngressRules.validate_for_https_redirect_enable_request s.rules s.redirects r d ≡ ok tt
      → Step s pem_decode parse_certificate d
          (IngressRules.update_https_redirect_status s.rules r true d).0
  disable_redirect :
      (r : IngressRule)
      → Step s pem_decode parse_certificate d
          (IngressRules.update_https_redirect_status s.rules r false d).0
  protect :
      (r : IngressRule) (i access_list : ℕ)
      → s.rules.first (λ x. x.id == i) d ≡ ok r
      → ((i : ℕ) → ingress s (λ x. s.rules.id_of x == i) d ≤ 1)
      → Step s pem_decode parse_certificate d
          (IngressRules.protect_using_basic_auth s.rules s.find_access_list
            (λ l. l)
            r
            access_list
            d).0
  disable_protection :
      (r : IngressRule)
      → ((i : ℕ) → ingress s (λ x. s.rules.id_of x == i) d ≤ 1)
      → Step s pem_decode parse_certificate d (IngressRules.disable_authentication s.rules r d).0
  create_redirect :
      (r : RedirectRule)
      → Answers s.rules d
      → Answers s.redirects d
      → Step s pem_decode parse_certificate d
          (RedirectRules.create s.rules s.redirects s.domains r d).0
  delete_redirect :
      (r : RedirectRule) (force : Bool)
      → Step s pem_decode parse_certificate d (RedirectRules.delete s.redirects r force d).0
  update_redirect_status :
      (r : RedirectRule) (status : RuleStatus)
      → Step s pem_decode parse_certificate d (RedirectRules.update_status s.redirects r status d).0
  create_domain :
      (x : Domain)
      → Step s pem_decode parse_certificate d
          (Domains.create s.domains pem_decode parse_certificate x d).0
  delete_domain :
      (x : Domain)
      → Answers s.rules d
      → Answers s.redirects d
      → Step s pem_decode parse_certificate d (Domains.delete s.rules s.redirects s.domains x d).0

module _ {D A B : Type 0} (s : Store D A) (pem_decode : Text → Option B)
    (parse_certificate : B → Result Domains.Certificate) where
  abbrev pub StepOf : D → D → Type 0
  StepOf d e = Step s pem_decode parse_certificate d e

  kept-WellFormed : (d e : D) → StepOf d e → WellFormed s d → WellFormed s e
  kept-WellFormed d e (create_ingress r ports a b plain) w =
      create_ingress-WellFormed s r ports d a b plain w
  kept-WellFormed d e (delete_ingress r force) w =
      WellFormed-Fewer s d e w (delete-Fewer s r force d)
  kept-WellFormed d e (update_ingress_status r status) w =
      WellFormed-Fewer s d e w (update_status-Fewer s r status d)
  kept-WellFormed d e (enable_redirect r a b n h) w = enable_redirect-WellFormed s r d a b n h w
  kept-WellFormed d e (disable_redirect r) w =
      WellFormed-Fewer s d e w (disable_redirect-Fewer s r d)
  kept-WellFormed d e (protect r i access_list f u) w =
      WellFormed-Fewer s d e w (protect-Fewer s r i access_list d f u)
  kept-WellFormed d e (disable_protection r u) w =
      WellFormed-Fewer s d e w (disable_authentication-Fewer s r d u)
  kept-WellFormed d e (create_redirect r a b) w = create_redirect-WellFormed s r d a b w
  kept-WellFormed d e (delete_redirect r force) w =
      WellFormed-Fewer s d e w (redirect-delete-Fewer s r force d)
  kept-WellFormed d e (update_redirect_status r status) w =
      WellFormed-Fewer s d e w (redirect-update_status-Fewer s r status d)
  kept-WellFormed d e (create_domain x) w = WellFormed-Fewer s d e w (
      Fewer-Same s d e (λ p. rw (create_domain-rules s pem_decode parse_certificate x d) refl)
        (λ p. rw (create_domain-redirects s pem_decode parse_certificate x d) refl))
  kept-WellFormed d e (delete_domain x a b) w = WellFormed-Fewer s d e w (
      Fewer-Same s d e (λ p. rw (delete_domain-rules s x d) refl)
        (λ p. rw (delete_domain-redirects s x d) refl))

  -- The operations on rules leave the domains alone.
  delete-domains :
      (r : IngressRule) (force : Bool) (d : D)
      → s.domains.rows (IngressRules.delete s.rules r force d).0 ≡ s.domains.rows d
  unfolding IngressRules.delete
  delete-domains r true d = s.rules-domains.delete-apart r.id d
  delete-domains r false d = elim (Bool-cases (status_is_deleting r.status)) [
    | inl y ↦ rw y refl
    | inr y ↦ rw y (s.rules-domains.update-apart r.id (IngressRules.set_status deleting) d)
  ]

  redirect-delete-domains :
      (r : RedirectRule) (force : Bool) (d : D)
      → s.domains.rows (RedirectRules.delete s.redirects r force d).0 ≡ s.domains.rows d
  unfolding RedirectRules.delete
  redirect-delete-domains r true d = s.redirects-domains.delete-apart r.id d
  redirect-delete-domains r false d = elim (Bool-cases (status_is_deleting r.status)) [
    | inl y ↦ rw y refl
    | inr y ↦ rw y (s.redirects-domains.update-apart r.id (RedirectRules.set_status deleting) d)
  ]

  kept-Anchored : (d e : D) → StepOf d e → Anchored s d → Anchored s e
  unfolding IngressRules.update_status IngressRules.update_https_redirect_status
      RedirectRules.update_status
  kept-Anchored d e (create_ingress r ports a b plain) h = create_ingress-Anchored s r ports d h
  kept-Anchored d e (delete_ingress r force) h =
      Anchored-Fewer s d e (delete-domains r force d) (delete-Fewer s r force d) h
  kept-Anchored d e (update_ingress_status r status) h =
      Anchored-Fewer s d e (s.rules-domains.update-apart r.id (IngressRules.set_status status) d)
        (update_status-Fewer s r status d) h
  kept-Anchored d e (enable_redirect r a b n k) h = λ i. elim (h i) [
    | inl x ↦
        inl (rw (s.rules-domains.update-apart r.id (λ x. record x { https_redirect = true }) d) x)
    | inr x ↦ inr (
        rw (s.rules-redirects.update-apart r.id (λ x. record x { https_redirect = true }) d)
          (omega (arith, x, enable_redirect-of_domain s r d i)))
  ]
  kept-Anchored d e (disable_redirect r) h =
      Anchored-Fewer s d e
        (s.rules-domains.update-apart r.id (λ x. record x { https_redirect = false }) d)
        (disable_redirect-Fewer s r d) h
  kept-Anchored d e (protect r i access_list f u) h =
      Anchored-Fewer s d e (protect-domains s r access_list d)
        (protect-Fewer s r i access_list d f u) h
  kept-Anchored d e (disable_protection r u) h =
      Anchored-Fewer s d e (disable_authentication-domains s r d)
        (disable_authentication-Fewer s r d u) h
  kept-Anchored d e (create_redirect r a b) h = create_redirect-Anchored s r d h
  kept-Anchored d e (delete_redirect r force) h =
      Anchored-Fewer s d e (redirect-delete-domains r force d) (redirect-delete-Fewer s r force d) h
  kept-Anchored d e (update_redirect_status r status) h =
      Anchored-Fewer s d e
        (s.redirects-domains.update-apart r.id (RedirectRules.set_status status) d)
        (redirect-update_status-Fewer s r status d) h
  kept-Anchored d e (create_domain x) h =
      create_domain-Anchored s pem_decode parse_certificate x d h
  kept-Anchored d e (delete_domain x a b) h = delete_domain-Anchored s x d a b h

  -- Operations, one after another.
  pub data Reached (d : D) : D → Type 0 where
    start : Reached d d
    then_step : (e f : D) → Reached d e → StepOf e f → Reached d f

  -- From a database whose rules are well formed, any sequence of creations, changes of status and
  -- deletions of ingress rules, redirect rules and domains, and of changes of the redirection and of
  -- the basic authentication of ingress rules, leads to one whose rules are: no port of
  -- a domain has two HTTP or HTTPS rules, no port two TCP rules or two UDP rules, one thing at most
  -- answers HTTP on port 80 for a domain and one at most HTTPS, and each rule stands on a port of
  -- its kind. The queries behind the checks are answered, a new ingress rule does not redirect, a
  -- redirection is enabled in the state in which the request for it is validated, and a rule is
  -- protected as it was just read. No two rules have one key where authentication is changed.
  pub reached-WellFormed : (d e : D) → Reached d e → WellFormed s d → WellFormed s e
  reached-WellFormed d e start w = w
  reached-WellFormed d e (then_step c f h k) w = kept-WellFormed c f k (reached-WellFormed d c h w)

  -- Operations never leave a rule whose domain is gone: from a database that has every domain that an
  -- ingress or a redirect rule refers to, such a sequence leads to one that has them. The queries
  -- behind the checks are answered, a rule is protected as it was just read, and no two rules have
  -- one key where authentication is changed.
  pub reached-Anchored : (d e : D) → Reached d e → Anchored s d → Anchored s e
  reached-Anchored d e start w = w
  reached-Anchored d e (then_step c f h k) w = kept-Anchored c f k (reached-Anchored d c h w)
