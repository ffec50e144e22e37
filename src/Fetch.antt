-- ===== src/Fetch.antt =====
-- packages/common/src/ssrf-fetcher.ts: which URLs the services may fetch. The parser of URLs, the splitting of
-- texts into numbers and the request are arguments; `expandIpv6` is the argument `words_of`.
pub mod Guarded
mod Examples
use Prim.Native.String
use groceryclaw.Inbound.{Attempt, got, error_of}
use groceryclaw.Base.{
  ℕ, zero, suc, ◌+◌, ◌-◌, ◌*◌, ◌/◌, ◌%◌, ◌≤◌, ◌<◌, ◌↔◌, ◌⊎◌, String, Bool, true, false, not, ◌&&◌,
  ◌||◌, List, [], ◌∷◌, ◌++◌, map, Option, none, some, ◌≡◌, refl, ◌≢◌, inl, inr, if◌then◌else◌,
  Option-cases, Bool-cases, arith, leb, ltb, ◌==◌, sym, ◌∙◌, ap, subst, str_eq, str_eq_iff,
  str_eq_refl, is_some, any, find, keep_if, length, length-append, guard, ◌>>=◌, ◌>>◌, includes,
  get_or_else, All, max, min, drop,
}

-- `new URL(...)`; the host is in lower case, and `port` is none where it is empty.
pub record Url : Type 0 where
  pub protocol : String
  pub host : String
  pub port : Option String
  pub has_credentials : Bool

pub record Words : Type 0 where
  pub w0 : ℕ
  pub w1 : ℕ
  pub w2 : ℕ
  pub w3 : ℕ
  pub w4 : ℕ
  pub w5 : ℕ
  pub w6 : ℕ
  pub w7 : ℕ

-- `parts_of` is `split('.')`, a part none that is not one to three digits; `octets_of` are the numbers of a host
-- that matches four groups of digits.
pub record Texts : Type 0 where
  pub parse_url : String → Option Url
  pub ends_with : String → String → Bool
  pub contains : String → String → Bool
  pub octets_of : String → Option (ℕ × (ℕ × (ℕ × ℕ)))
  pub parts_of : String → List (Option ℕ)
  pub words_of : String → Option Words
  pub unbracketed : String → String
  pub is_numeric : String → Bool
  pub lower : String → String

-- `isPrivateIPv4`, of the numbers of the host.
unfoldable pub is_private_ipv4 : (a b : ℕ) → Bool
is_private_ipv4 a b =
    a == 10
    || (a == 127
        || (a == 169 && b == 254 || (a == 192 && b == 168 || (a == 172 && (leb 16 b && leb b 31)))))

unfoldable pub ipv4_to_int : (n : ℕ) → List (Option ℕ) → Option ℕ
ipv4_to_int n [] = some n
ipv4_to_int n (none ∷ ps) = none
ipv4_to_int n (some v ∷ ps) = if ltb 255 v then none else ipv4_to_int (n * 256 + v) ps

-- The first address of each range and how many it has, `2 ** (32 - bits)`.
abbrev pub blocked_v4 : List (ℕ × ℕ)
blocked_v4 =
    (0, 16777216)
    ∷ (167772160, 16777216)
    ∷ (1681915904, 4194304)
    ∷ (2130706432, 16777216)
    ∷ (2851995648, 65536)
    ∷ (2886729728, 1048576)
    ∷ (3221225472, 256)
    ∷ (3221225984, 256)
    ∷ (3227017984, 256)
    ∷ (3232235520, 65536)
    ∷ (3323068416, 131072)
    ∷ (3325256704, 256)
    ∷ (3405803776, 256)
    ∷ (3758096384, 268435456)
    ∷ (4026531840, 268435456)
    ∷ []

abbrev pub in_range : (n : ℕ) → ℕ × ℕ → Bool
in_range n (base, size) = leb base n && ltb n (base + size)

unfoldable pub is_public_ipv4 : List (Option ℕ) → Bool
is_public_ipv4 parts =
    length parts == 4
    && elim (ipv4_to_int 0 parts) [ none ↦ false | some n ↦ not (any (in_range n) blocked_v4) ]

-- `isPublicIpv6`. A mask of leading bits is a quotient.
unfoldable pub is_public_ipv6 : Words → Bool
is_public_ipv6 w =
    let low = w.w0 == 0 && (w.w1 == 0 && (w.w2 == 0 && (w.w3 == 0 && w.w4 == 0))) in
    if low && (w.w5 == 0 && (w.w6 == 0 && leb w.w7 1))
    then false
    else if low && (w.w5 == 65535 || w.w5 == 0)
    then is_public_ipv4
        (some (w.w6 / 256) ∷ some (w.w6 % 256) ∷ some (w.w7 / 256) ∷ some (w.w7 % 256) ∷ [])
    else not (
        w.w0 / 512 == 126
        || (w.w0 / 64 == 1018
            || (w.w0 / 256 == 255
                || (w.w0 == 100 && w.w1 == 65435 || w.w0 == 8193 && w.w1 == 3512))))

module _ (tx : Texts) where
  unfoldable pub is_public_ip_address : String → Bool
  is_public_ip_address ip =
      if tx.contains ip ":"
      then elim (tx.words_of ip) [ none ↦ false | some w ↦ is_public_ipv6 w ]
      else is_public_ipv4 (tx.parts_of ip)

  abbrev pub is_private_host : (host : String) → Bool
  is_private_host host = elim (tx.octets_of host) [
    | none ↦ false
    | some (a, (b, (c, d))) ↦ is_private_ipv4 a b
  ]

  abbrev pub is_under : (host suffix : String) → Bool
  is_under host suffix = str_eq host suffix || tx.ends_with host (String.◌++◌ "." suffix)

  abbrev pub is_port : Option String → Bool
  is_port none = true
  is_port (some p) = str_eq p "443"

  unfoldable pub validate_safe_attachment_url :
      (input : String) (allowed allow_http : List String) → Option Url
  validate_safe_attachment_url input allowed allow_http = tx.parse_url input >>= λ u.
      guard
        (not (str_eq u.host "localhost" || (str_eq u.host "::1" || tx.ends_with u.host ".local")))
      >> (guard (not (is_private_host u.host))
          >> (guard (any (is_under u.host) allowed)
              >> (guard (
                    if str_eq u.protocol "https:"
                    then is_port u.port
                    else str_eq u.protocol "http:" && any (is_under u.host) allow_http)
                  >> some u)))

  abbrev pub is_local_name : (host : String) → Bool
  is_local_name host =
      str_eq host ""
      || (str_eq host "localhost"
          || (tx.ends_with host ".localhost"
              || (tx.ends_with host ".local" || tx.ends_with host ".internal")))

  unfoldable pub validate_public_https_url : (input : String) → Option Url
  validate_public_https_url input = tx.parse_url input >>= λ u.
      let literal = tx.unbracketed u.host in
      guard (str_eq u.protocol "https:" && (not u.has_credentials && is_port u.port))
      >> (guard (not (is_local_name u.host))
          >> (guard (
                if tx.is_numeric literal || tx.contains literal ":"
                then is_public_ip_address literal
                else tx.contains literal ".")
              >> some u))

pub record Response : Type 0 where
  pub ok : Bool
  pub content_type : String
  pub body : String
  pub body_bytes : ℕ

pub record SafeFetchConfig : Type 0 where
  pub allowed_domains : List String
  pub allow_http_domains : List String
  pub max_bytes : ℕ

-- `fetch` is none when the request fails, is redirected or takes too long.
unfoldable pub fetch_url_safely :
    Texts → SafeFetchConfig → (fetch : Url → Option Response) (url : String) → Attempt Response
fetch_url_safely tx cfg fetch url =
    elim (validate_safe_attachment_url tx url cfg.allowed_domains cfg.allow_http_domains) [
      | none ↦ error_of "unsafe_url"
      | some u ↦ elim (fetch u) [
        | none ↦ error_of "request failed"
        | some r ↦
            let kind = tx.lower r.content_type in
            if not r.ok
            then error_of "fetch_failed"
            else if not
                (tx.contains kind "xml" || (tx.contains kind "text/plain" || str_eq kind ""))
            then error_of "invalid_content_type"
            else if ltb cfg.max_bytes r.body_bytes
            then error_of "payload_too_large"
            else got r
      ]
    ]
