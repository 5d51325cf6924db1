-- ===== src/Core/Domains.antt =====
-- swiftwave_service/core/domain.operations.go. The parsers of crypto/x509 and encoding/pem are
-- parameters.
use newrr.Common.{
  ℕ, if◌then◌else◌, ◌==◌, Option, none, some, List, [], ◌∷◌, Result, ok, err, ◌>>◌, refuse, Text,
  text, text_eq, failure,
}
use newrr.Core.Database.{Table, is_exist}
use newrr.Core.Models.{IngressRule, RedirectRule, Domain, has_domain}

-- The fields of x509.Certificate that are read.
pub record Certificate : Type 0 where
  pub not_before : ℕ
  pub not_after : ℕ
  pub organization : List Text

abbrev pub issuer_of : List Text → Text
issuer_of [] = text "Unknown Issuer"
issuer_of (o ∷ os) = o

module _ {D B : Type 0} (domains : Table D Domain) (pem_decode : Text → Option B)
    (parse_certificate : B → Result Certificate) where
  -- fillSSLInfo
  unfoldable pub fill_ssl_info : Domain → Result Domain
  unfolding text_eq
  fill_ssl_info x =
      if text_eq x.ssl_full_chain [] then ok x else decoded (pem_decode x.ssl_full_chain)
    where
      parsed : Result Certificate → Result Domain
      parsed (err e) = err (failure "failed to parse SSL full chain certificate")
      parsed (ok c) = ok (record x {
        ssl_issued_at = c.not_before;
        ssl_expired_at = c.not_after;
        ssl_issuer = issuer_of c.organization;
      })

      decoded : Option B → Result Domain
      decoded none = err (failure "failed to decode SSL full chain certificate")
      decoded (some b) = parsed (parse_certificate b)

  -- Create and Update
  unfoldable pub create : Domain → D → D × Result Domain
  unfolding fill_ssl_info
  create x d = create_filled (fill_ssl_info x)
    where
      create_filled : Result Domain → D × Result Domain
      create_filled (err e) = (d, err e)
      create_filled (ok y) = domains.create y d

  unfoldable pub update : Domain → D → D × Result Domain
  unfolding fill_ssl_info
  update x d = save_filled (fill_ssl_info x)
    where
      save_filled : Result Domain → D × Result Domain
      save_filled (err e) = (d, err e)
      save_filled (ok y) = domains.save y d

module _ {D : Type 0} (rules : Table D IngressRule) (redirects : Table D RedirectRule)
    (domains : Table D Domain) where
  -- No rule refers to the domain.
  abbrev pub unused : Domain → D → Result (Unit {0})
  unused x d =
      refuse (is_exist rules (λ r. has_domain (some x.id) r) d)
        "there is ingress rule associated with this domain"
      >> refuse (is_exist redirects (λ r. r.domain_id == x.id) d)
          "there is redirect rule associated with this domain"

  -- Delete
  unfoldable pub delete : Domain → D → D × Result (Unit {0})
  delete x d = delete_unused (unused x d)
    where
      delete_unused : Result (Unit {0}) → D × Result (Unit {0})
      delete_unused (err e) = (d, err e)
      delete_unused (ok _) = domains.delete x.id d
