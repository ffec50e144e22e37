-- ===== src/Fetch/Examples.antt =====
-- Addresses and a download, by the guards of packages/common/src/ssrf-fetcher.ts.
use groceryclaw.Fetch.Guarded.{quad, embedded, guards_agree}
use groceryclaw.Fetch.{
  Response, is_public_ipv4, is_private_ipv4, fetch_url_safely, Texts, SafeFetchConfig, ipv4_to_int,
  validate_safe_attachment_url, is_public_ipv6,
}
use groceryclaw.Inbound.{got, error_of}
use groceryclaw.Base.{
  ◌⊎◌, true, false, [], ◌∷◌, none, some, ◌≡◌, refl, inr, if◌then◌else◌, arith, str_eq,
}

guards_agree_example :
    ((is_private_ipv4 192 168 ≡ false) ⊎ (is_public_ipv4 (quad 192 168 1 20) ≡ false))
    × (is_public_ipv6
          (embedded 192 168 1 20 (omega arith) (omega arith) (omega arith) (omega arith) 65535)
        ≡ is_public_ipv4 (quad 192 168 1 20))
guards_agree_example =
    guards_agree 192 168 1 20 (omega arith) (omega arith) (omega arith) (omega arith) 65535
      (inr refl)

public_run : (is_public_ipv4 (quad 8 8 8 8) ≡ true) × (is_public_ipv4 (quad 100 64 0 1) ≡ false)
unfolding is_public_ipv4 ipv4_to_int
public_run = (refl, refl)

private_run : (is_private_ipv4 169 254 ≡ true) × (is_private_ipv4 169 253 ≡ false)
unfolding is_private_ipv4
private_run = (refl, refl)

abbrev texts : Texts
texts = record {
  parse_url =
      (λ s. some (record { protocol = "https:"; host = s; port = none; has_credentials = false }));
  ends_with = (λ s t. false);
  contains = (λ s t. str_eq s "text/xml");
  octets_of = (λ s. if str_eq s "10.0.0.1" then some (10, (0, (0, 1))) else none);
  parts_of = (λ s. []);
  words_of = (λ s. none);
  unbracketed = (λ s. s);
  is_numeric = (λ s. false);
  lower = (λ s. s);
}

abbrev invoice_xml : Response
invoice_xml = record { ok = true; content_type = "text/xml"; body = "<xml>"; body_bytes = 5 }

abbrev limits : SafeFetchConfig
limits = record {
  allowed_domains = "files" ∷ "10.0.0.1" ∷ [];
  allow_http_domains = [];
  max_bytes = 5;
}

fetch_run :
    (fetch_url_safely texts limits (λ u. some invoice_xml) "files" ≡ got invoice_xml)
    × (fetch_url_safely texts limits (λ u. some invoice_xml) "10.0.0.1" ≡ error_of "unsafe_url")
unfolding fetch_url_safely validate_safe_attachment_url is_private_ipv4 str_eq
fetch_run = (refl, refl)
