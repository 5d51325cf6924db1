-- ===== src/Core/Routing/Creation.antt =====
-- Create of an ingress rule keeps the invariant.
use newrr.Common.{
  arith, ℕ, Bool, true, false, ◌+◌, ◌≤◌, ◌≡◌, refl, Result, ok, err, if◌then◌else◌, inl, inr, List,
  Result-cases,
}
use newrr.Core.Database.{Created, Answers}
use newrr.Core.Models.{http_protocol, https_protocol, IngressRule}
use newrr.Core.IngressRules
use newrr.Core.Routing.Invariant.{
  Store, http_at, tcp_at, udp_at, http_80, https_redirect_of, https_of, redirect_of, misplaced,
  WellFormed, WellFormed-Fewer, ingress, redirect,
}
use newrr.Core.Routing.Changes.{Fewer-Same}
use newrr.Core.Routing.Accepted.{
  Accepted, valid-Accepted, is_valid, free_http, free_tcp, free_udp, free_on_80, free_on_443,
}

-- 1 for a new row that passes the test.
abbrev pub one_if : Bool → ℕ
one_if b = if b then 1 else 0

pub bounded : (t : Bool) (n m : ℕ) → n ≤ 1 → m ≡ one_if t + n → (t ≡ true → n ≡ 0) → m ≤ 1
bounded t n m h k f = ground (arith, f)

bounded_sum :
    (t : Bool) (n o q m l : ℕ)
    → n + o + q ≤ 1
    → m ≡ one_if t + n
    → l ≡ o
    → (t ≡ true → n + o + q ≡ 0)
    → m + l + q ≤ 1
bounded_sum t n o q m l h k j f = ground (arith, f)

pub none_if : (t : Bool) → t ≡ false → one_if t ≡ 0
none_if t h = ground arith

pub one_if_same : (a b : Bool) → a ≡ b → one_if a + 0 ≡ one_if b
one_if_same a b k = ground arith

module _ {D A : Type 0} (s : Store D A) where
  -- The new row is counted, whatever its key.
  pub new_rule_counted :
      (r : IngressRule) (d e : D) (y : IngressRule) (p : IngressRule → Bool)
      → Created s.rules r d (e, ok y)
      → ((i : ℕ) → p (record r { id = i }) ≡ p r)
      → ingress s p e ≡ one_if (p r) + ingress s p d
  new_rule_counted r d e y p (i, q, c) h =
      omega (arith, c p, one_if_same (p y) (p r) (rw (q, s.rules_with_id i r) (h i)))

  module _ (r : IngressRule) (d e : D) (y : IngressRule) (v : Accepted s r d)
      (a : Answers s.rules d) (b : Answers s.redirects d) (w : WellFormed s d)
      (plain : r.https_redirect ≡ false) (c : Created s.rules r d (e, ok y))
      (same : s.redirects.rows e ≡ s.redirects.rows d) where
    new_rule-WellFormed : WellFormed s e
    new_rule-WellFormed = record {
      one_http = λ domain port.
          bounded (http_at domain port r) (ingress s (http_at domain port) d)
            (ingress s (http_at domain port) e) (w.one_http domain port)
            (new_rule_counted r d e y (http_at domain port) c (λ i. refl))
            (free_http s r d v a b domain port);
      one_tcp = λ port.
          bounded (tcp_at port r) (ingress s (tcp_at port) d) (ingress s (tcp_at port) e)
            (w.one_tcp port) (new_rule_counted r d e y (tcp_at port) c (λ i. refl))
            (free_tcp s r d v a b port);
      one_udp = λ port.
          bounded (udp_at port r) (ingress s (udp_at port) d) (ingress s (udp_at port) e)
            (w.one_udp port) (new_rule_counted r d e y (udp_at port) c (λ i. refl))
            (free_udp s r d v a b port);
      one_on_80 = λ domain. rw same (
          bounded_sum (http_80 domain r) (ingress s (http_80 domain) d)
            (ingress s (https_redirect_of domain) d)
            (redirect s (redirect_of http_protocol domain) d) (ingress s (http_80 domain) e)
            (ingress s (https_redirect_of domain) e) (w.one_on_80 domain)
            (new_rule_counted r d e y (http_80 domain) c (λ i. refl))
            (omega (
              arith,
              new_rule_counted r d e y (https_redirect_of domain) c (λ i. refl),
              not_redirecting domain,
            ))
            (free_on_80 s r d v a b domain));
      one_on_443 = λ domain. rw same (
          bounded (https_of domain r)
            (ingress s (https_of domain) d + redirect s (redirect_of https_protocol domain) d)
            (ingress s (https_of domain) e + redirect s (redirect_of https_protocol domain) d)
            (w.one_on_443 domain)
            (omega (arith, new_rule_counted r d e y (https_of domain) c (λ i. refl)))
            (free_on_443 s r d v a b domain w.none_misplaced));
      none_misplaced = omega (
        arith,
        new_rule_counted r d e y misplaced c (λ i. refl),
        w.none_misplaced,
        none_if (misplaced r) v.placed,
      );
      none_misdirected = rw same w.none_misdirected;
    }
      where
        not_redirecting : (domain : ℕ) → one_if (https_redirect_of domain r) ≡ 0
        not_redirecting domain = none_if (https_redirect_of domain r) (ground arith)

  abbrev create_ingress : IngressRule → List ℕ → D → D × Result IngressRule
  create_ingress r ports d =
      IngressRules.create s.rules s.redirects s.domains s.find_application r ports d

  -- Create of an ingress rule, whether it succeeds or fails, in a state where the database answers.
  pub create_ingress-WellFormed :
      (r : IngressRule) (ports : List ℕ) (d : D)
      → Answers s.rules d
      → Answers s.redirects d
      → r.https_redirect ≡ false
      → WellFormed s d
      → WellFormed s (create_ingress r ports d).0
  unfolding IngressRules.create
  create_ingress-WellFormed r ports d a b plain w = elim (Result-cases (is_valid s r ports d)) [
    | inl (_, h) ↦ rw h (
        added (s.rules.create r d) (valid-Accepted s r ports d h)
          (s.rules-IsTable.create-Created r d) (s.rules-redirects.create-apart r d))
    | inr (e, h) ↦ rw h w
  ]
    where
      added :
          (z : D × Result IngressRule)
          → Accepted s r d
          → Created s.rules r d z
          → s.redirects.rows z.0 ≡ s.redirects.rows d
          → WellFormed s z.0
      added (e, ok y) v c same = new_rule-WellFormed r d e y v a b w plain c same
      added (e, err _) v c same = WellFormed-Fewer s d e w (Fewer-Same s d e c (λ p. rw same refl))
