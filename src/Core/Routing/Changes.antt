-- ===== src/Core/Routing/Changes.antt =====
-- The operations that change or delete a rule leave no more rules of any kind.
use newrr.Common.{
  arith, ℕ, Bool, true, false, ◌&&◌, not, ◌==◌, ◌≤◌, ◌≡◌, refl, some, Result, ok, err,
  if◌then◌else◌, count-implies, inl, inr, Bool-cases,
}
use newrr.Core.Database.{Table, how_many, Updated, Deleted, Same}
use newrr.Core.Models.{
  IngressRule, RedirectRule, has_domain, RuleStatus, deleting, status_is_deleting,
}
use newrr.Core.IngressRules
use newrr.Core.RedirectRules
use newrr.Core.Routing.Invariant.{
  Store, http_at, tcp_at, udp_at, http_80, https_redirect_of, https_of, redirect_of, directs,
  misplaced, misdirected, Fewer, ingress, redirect,
}

-- A change of a rule that keeps what the rule serves, and does not enable its redirection.
pub record Tame (f : IngressRule → IngressRule) : Type 0 where
  pub same_protocol_of : (x : IngressRule) → (f x).protocol ≡ x.protocol
  pub same_domain_of : (x : IngressRule) → (f x).domain_id ≡ x.domain_id
  pub same_port_of : (x : IngressRule) → (f x).port ≡ x.port
  pub redirect_of_before : (x : IngressRule) → (f x).https_redirect ≡ true → x.https_redirect ≡ true

module _ {D R : Type 0} (t : Table D R) where
  -- A test that holds of a changed row only if it held of the row before.
  pub changed_le :
      (i : ℕ) (f : R → R) (d : D) (p : R → Bool) (r : D × Result (Unit {0}))
      → Updated t i f d r
      → ((x : R) → p (f x) ≡ true → p x ≡ true)
      → how_many t p r.0 ≤ how_many t p d
  changed_le i f d p (e, err _) u h = omega (arith, u p)
  changed_le i f d p (e, ok _) u h = omega (
    arith,
    u p,
    count-implies (λ x. p (if t.id_of x == i then f x else x)) p (t.rows d)
        (λ x k. ground (arith, h x)),
  )

  dropped_le :
      (i : ℕ) (d : D) (p : R → Bool) (r : D × Result (Unit {0}))
      → Deleted t i d r
      → how_many t p r.0 ≤ how_many t p d
  dropped_le i d p (e, err _) u = omega (arith, u p)
  dropped_le i d p (e, ok _) u = omega (
    arith,
    u p,
    count-implies (λ x. not (t.id_of x == i) && p x) p (t.rows d) (λ x k. ground arith),
  )

redirecting :
    (a b c e : Bool)
    → (c ≡ true → e ≡ true)
    → (a && c) ≡ true
    → (a ≡ true → b ≡ true)
    → (b && e) ≡ true
redirecting a b c e h k o = ground (arith, h, o)

module _ {D A : Type 0} (s : Store D A) where
  -- The same redirect rules, and no more ingress rules of any kind.
  pub Fewer-ingress :
      (d e : D) (f : IngressRule → IngressRule)
      → s.redirects.rows e ≡ s.redirects.rows d
      → Tame f
      → ((p : IngressRule → Bool)
          → ((x : IngressRule) → p (f x) ≡ true → p x ≡ true)
          → ingress s p e ≤ ingress s p d)
      → Fewer s d e
  Fewer-ingress d e f same tame le = record {
    fewer_http = λ domain port.
        le (http_at domain port)
          (λ x k. rw (tame.same_protocol_of x, tame.same_domain_of x, tame.same_port_of x) at k);
    fewer_tcp =
        λ port. le (tcp_at port) (λ x k. rw (tame.same_protocol_of x, tame.same_port_of x) at k);
    fewer_udp =
        λ port. le (udp_at port) (λ x k. rw (tame.same_protocol_of x, tame.same_port_of x) at k);
    fewer_http_80 = λ domain.
        le (http_80 domain)
          (λ x k. rw (tame.same_protocol_of x, tame.same_domain_of x, tame.same_port_of x) at k);
    fewer_https_redirect = λ domain. le (https_redirect_of domain) (λ x k.
        redirecting (https_of domain (f x)) (https_of domain x) (f x).https_redirect
          x.https_redirect (tame.redirect_of_before x) k
          (λ o. rw (tame.same_protocol_of x, tame.same_domain_of x) at o));
    fewer_https = λ domain.
        le (https_of domain) (λ x k. rw (tame.same_protocol_of x, tame.same_domain_of x) at k);
    fewer_of_domain =
        λ domain. le (has_domain (some domain)) (λ x k. rw (tame.same_domain_of x) at k);
    fewer_directs = λ domain. rw same (omega arith);
    fewer_misplaced =
        le misplaced
          (λ x k. rw (tame.same_protocol_of x, tame.same_domain_of x, tame.same_port_of x) at k);
    fewer_misdirected = rw same (omega arith);
    fewer_redirect = λ p domain. rw same (omega arith);
  }

  pub update-Fewer :
      (d : D) (i : ℕ) (f : IngressRule → IngressRule) → Tame f → Fewer s d (s.rules.update i f d).0
  update-Fewer d i f tame =
      Fewer-ingress d (s.rules.update i f d).0 f (s.rules-redirects.update-apart i f d) tame (λ p h.
        changed_le s.rules i f d p (s.rules.update i f d) (s.rules-IsTable.update-Updated i f d) h)

set_status-Tame : (status : RuleStatus) → Tame (IngressRules.set_status status)
set_status-Tame status = record {
  same_protocol_of = λ x. refl;
  same_domain_of = λ x. refl;
  same_port_of = λ x. refl;
  redirect_of_before = λ x h. h;
}

pub disabled-Tame : Tame (λ x. record x { https_redirect = false })
disabled-Tame = record {
  same_protocol_of = λ x. refl;
  same_domain_of = λ x. refl;
  same_port_of = λ x. refl;
  redirect_of_before = λ x h. ground arith;
}

module _ {D A : Type 0} (s : Store D A) where
  pub delete-ingress-Fewer : (d : D) (i : ℕ) → Fewer s d (s.rules.delete i d).0
  delete-ingress-Fewer d i =
      Fewer-ingress s d (s.rules.delete i d).0 (λ x. x) (s.rules-redirects.delete-apart i d)
        (record {
          same_protocol_of = λ x. refl;
          same_domain_of = λ x. refl;
          same_port_of = λ x. refl;
          redirect_of_before = λ x h. h;
        })
        (λ p h. dropped_le s.rules i d p (s.rules.delete i d) (s.rules-IsTable.delete-Deleted i d))

  pub Fewer-refl : (d : D) → Fewer s d d
  Fewer-refl d = record {
    fewer_http = λ domain port. omega arith;
    fewer_tcp = λ port. omega arith;
    fewer_udp = λ port. omega arith;
    fewer_http_80 = λ domain. omega arith;
    fewer_https_redirect = λ domain. omega arith;
    fewer_https = λ domain. omega arith;
    fewer_of_domain = λ domain. omega arith;
    fewer_directs = λ domain. omega arith;
    fewer_misplaced = omega arith;
    fewer_misdirected = omega arith;
    fewer_redirect = λ p domain. omega arith;
  }

  -- Delete, forced or not, UpdateStatus and disabling the redirection.
  pub delete-Fewer :
      (r : IngressRule) (force : Bool) (d : D) → Fewer s d (IngressRules.delete s.rules r force d).0
  unfolding IngressRules.delete
  delete-Fewer r true d = delete-ingress-Fewer d r.id
  delete-Fewer r false d = elim (Bool-cases (status_is_deleting r.status)) [
    | inl y ↦ rw y (Fewer-refl d)
    | inr y ↦
        rw y (update-Fewer s d r.id (IngressRules.set_status deleting) (set_status-Tame deleting))
  ]

  pub update_status-Fewer :
      (r : IngressRule) (status : RuleStatus) (d : D)
      → Fewer s d (IngressRules.update_status s.rules r status d).0
  unfolding IngressRules.update_status
  update_status-Fewer r status d =
      update-Fewer s d r.id (IngressRules.set_status status) (set_status-Tame status)

  pub disable_redirect-Fewer :
      (r : IngressRule) (d : D)
      → Fewer s d (IngressRules.update_https_redirect_status s.rules r false d).0
  unfolding IngressRules.update_https_redirect_status
  disable_redirect-Fewer r d =
      update-Fewer s d r.id (λ x. record x { https_redirect = false }) disabled-Tame

  -- The same ingress rules, and no more redirect rules of any kind.
  Fewer-redirects :
      (d e : D)
      → s.rules.rows e ≡ s.rules.rows d
      → ((p : RedirectRule → Bool)
          → ((status : RuleStatus) (y : RedirectRule)
              → p (RedirectRules.set_status status y) ≡ true
              → p y ≡ true)
          → redirect s p e ≤ redirect s p d)
      → Fewer s d e
  Fewer-redirects d e same le = record {
    fewer_http = λ domain port. rw same (omega arith);
    fewer_tcp = λ port. rw same (omega arith);
    fewer_udp = λ port. rw same (omega arith);
    fewer_http_80 = λ domain. rw same (omega arith);
    fewer_https_redirect = λ domain. rw same (omega arith);
    fewer_https = λ domain. rw same (omega arith);
    fewer_of_domain = λ domain. rw same (omega arith);
    fewer_directs = λ domain. le (directs domain) (λ status y h. h);
    fewer_misplaced = rw same (omega arith);
    fewer_misdirected = le misdirected (λ status y h. h);
    fewer_redirect = λ p domain. le (redirect_of p domain) (λ status y h. h);
  }

  pub redirect-update_status-Fewer :
      (r : RedirectRule) (status : RuleStatus) (d : D)
      → Fewer s d (RedirectRules.update_status s.redirects r status d).0
  unfolding RedirectRules.update_status
  redirect-update_status-Fewer r status d =
      let f = RedirectRules.set_status status in
      Fewer-redirects d (s.redirects.update r.id f d).0 (s.redirects-rules.update-apart r.id f d)
        (λ p h.
          changed_le s.redirects r.id f d p (s.redirects.update r.id f d)
            (s.redirects-IsTable.update-Updated r.id f d) (h status))

  pub redirect-delete-Fewer :
      (r : RedirectRule) (force : Bool) (d : D)
      → Fewer s d (RedirectRules.delete s.redirects r force d).0
  unfolding RedirectRules.delete RedirectRules.update_status
  redirect-delete-Fewer r true d =
      Fewer-redirects d (s.redirects.delete r.id d).0 (s.redirects-rules.delete-apart r.id d)
        (λ p h.
          dropped_le s.redirects r.id d p (s.redirects.delete r.id d)
            (s.redirects-IsTable.delete-Deleted r.id d))
  redirect-delete-Fewer r false d = elim (Bool-cases (status_is_deleting r.status)) [
    | inl y ↦ rw y (Fewer-refl d)
    | inr y ↦ rw y (redirect-update_status-Fewer r deleting d)
  ]

  -- A call that fails.
  pub Fewer-Same : (d e : D) → Same s.rules d e → Same s.redirects d e → Fewer s d e
  Fewer-Same d e h k = record {
    fewer_http = λ domain port. omega (arith, h (http_at domain port));
    fewer_tcp = λ port. omega (arith, h (tcp_at port));
    fewer_udp = λ port. omega (arith, h (udp_at port));
    fewer_http_80 = λ domain. omega (arith, h (http_80 domain));
    fewer_https_redirect = λ domain. omega (arith, h (https_redirect_of domain));
    fewer_https = λ domain. omega (arith, h (https_of domain));
    fewer_of_domain = λ domain. omega (arith, h (has_domain (some domain)));
    fewer_directs = λ domain. omega (arith, k (directs domain));
    fewer_misplaced = omega (arith, h misplaced);
    fewer_misdirected = omega (arith, k misdirected);
    fewer_redirect = λ p domain. omega (arith, k (redirect_of p domain));
  }
