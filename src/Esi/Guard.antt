-- ===== src/Esi/Guard.antt =====
-- esi/ssrf.go: which URLs may be fetched, and which addresses may be connected to. `url.Parse` is a
-- parameter. Addresses are numbers below 2^32 and 2^128; the zone of an IPv6 address is left out.
pub mod Ranges
pub mod Hosts
use titip.Prelude.{
  ℕ, zero, suc, ◌+◌, ◌-◌, ◌*◌, ◌/◌, ◌%◌, Bool, true, false, not, ◌&&◌, ◌||◌, Option, none, some,
  List, [], ◌∷◌, ◌++◌, any, map, ltb, leb, ◌==◌, if◌then◌else◌, length, take, drop,
}
use titip.Text.{Text, codes, ◌==ₜ◌, has_prefix, index_byte, to_lower, trim_space}
use titip.Http.{is_empty}

-- What is read of a `url.URL`: the scheme, the host, `RequestURI()` and `String()`.
pub record Url : Type 0 where
  pub scheme : Text
  pub host : Text
  pub request_uri : Text
  pub text : Text

-- `url.Parse`, and the URL that has a path alone.
pub record Urls : Type 0 where
  pub parse : Text → Option Url
  pub of_path : Text → Url

abbrev is_web : Url → Bool
is_web u = let s = to_lower u.scheme in s ==ₜ codes "http" || s ==ₜ codes "https"

-- `validateURLScheme`: `none` is an error.
unfoldable pub validate_url_scheme : Urls → Text → Option Url
validate_url_scheme urls raw =
    if is_empty raw
    then none
    else if has_prefix (codes "/") raw
    then (if has_prefix (codes "//") raw
        then none
        else if not (any (λ c. c == b'?' || c == b'#' || c == b'%') raw)
        then some (urls.of_path raw)
        else urls.parse raw)
    else elim (urls.parse raw) [ none ↦ none | some u ↦ if is_web u then some u else none ]

-- `netip.Addr`
pub data Ip : Type 0 where
  v4 v6 : ℕ → Ip

-- The address `a.b.c.d`.
abbrev pub quad : ℕ → ℕ → ℕ → ℕ → ℕ
quad a b c d = ((a * 256 + b) * 256 + c) * 256 + d

abbrev pub two_32 : ℕ
two_32 = 4294967296

abbrev pub two_112 : ℕ
two_112 = 5192296858534827628530496329220096

-- `Unmap`
unfoldable pub unmap : Ip → Ip
unmap (v4 a) = v4 a
unmap (v6 a) = if a / two_32 == 65535 then v4 (a % two_32) else v6 a

-- Is the address in the network of `size` addresses around `net`?
abbrev pub in_network : ℕ → ℕ → ℕ → Bool
in_network net size a = a / size == net / size

-- `IsUnspecified`, `IsLoopback`, `IsLinkLocalUnicast`, `IsLinkLocalMulticast`, `IsMulticast` and
-- `IsPrivate` of netip, in this order.
unfoldable pub is_special_v4 : ℕ → Bool
is_special_v4 a =
    a == 0
    || in_network (quad 127 0 0 0) 16777216 a
    || in_network (quad 169 254 0 0) 65536 a
    || in_network (quad 224 0 0 0) 256 a
    || in_network (quad 224 0 0 0) 268435456 a
    || in_network (quad 10 0 0 0) 16777216 a
    || in_network (quad 172 16 0 0) 1048576 a
    || in_network (quad 192 168 0 0) 65536 a

-- The same, by the first 16 bits of the address.
unfoldable pub is_special_v6 : ℕ → Bool
is_special_v6 a =
    let top = a / two_112 in
    a == 0
    || a == 1
    || top / 64 == 1018
    || (top / 256 == 255 && top % 16 == 2)
    || top / 256 == 255
    || top / 512 == 126

-- `blockedCIDRs`
unfoldable pub in_blocked_cidrs : Ip → Bool
in_blocked_cidrs (v4 a) =
    in_network (quad 0 0 0 0) 16777216 a
    || in_network (quad 100 64 0 0) 4194304 a
    || in_network (quad 192 0 0 0) 256 a
    || in_network (quad 198 18 0 0) 131072 a
    || in_network (quad 240 0 0 0) 268435456 a
in_blocked_cidrs (v6 a) = (a / two_112) / 512 == 126

is_special : Ip → Bool
unfolding is_special_v4 is_special_v6
is_special (v4 a) = is_special_v4 a
is_special (v6 a) = is_special_v6 a

-- `isIPBlocked`
unfoldable pub is_ip_blocked : Ip → Bool
unfolding unmap is_special in_blocked_cidrs
is_ip_blocked ip = is_special (unmap ip) || in_blocked_cidrs (unmap ip)

last_index_byte : ℕ → Text → Option ℕ
last_index_byte b [] = none
last_index_byte b (c ∷ cs) = elim (last_index_byte b cs) [
  | some n ↦ some (suc n)
  | none ↦ if c == b then some 0 else none
]

abbrev has_byte : ℕ → Text → Bool
has_byte b t = any (λ c. c == b) t

-- `net.SplitHostPort` of a text that starts with a bracket, which closes at `end`; `colon` is the
-- last colon.
abbrev bracketed : Text → ℕ → Option ℕ → Option Text
bracketed t colon none = none
bracketed t colon (some end) =
    if suc end == colon && not (has_byte b'[' (drop 1 t)) && not (has_byte b']' (drop (suc end) t))
    then some (take (end - 1) (drop 1 t))
    else none

-- The host that `net.SplitHostPort` returns; `none` is an error.
unfoldable pub split_host_port : Text → Option Text
unfolding last_index_byte
split_host_port t = elim (last_index_byte b':' t) [
  | none ↦ none
  | some colon ↦
      if has_prefix (codes "[") t
      then bracketed t colon (index_byte b']' t)
      else if has_byte b':' (take colon t) || has_byte b'[' t || has_byte b']' t
      then none
      else some (take colon t)
]

-- The text without its port, where it has one.
abbrev pub without_port : Text → Text
without_port t = elim (split_host_port t) [ none ↦ t | some host ↦ host ]

-- `strings.HasSuffix`
unfoldable pub has_suffix : Text → Text → Bool
has_suffix s t = leb (length s) (length t) && drop (length t - length s) t ==ₜ s

abbrev pub host_form : Text → Text
host_form host = to_lower (trim_space (without_port host))

abbrev pub pattern_form : Text → Text
pattern_form pattern = without_port (to_lower (trim_space pattern))

-- Does the host match the pattern? A pattern of spaces matches nothing.
unfoldable pub matches_pattern : Text → Text → Bool
unfolding has_suffix
matches_pattern h pattern =
    let p = pattern_form pattern in
    if is_empty (to_lower (trim_space pattern))
    then false
    else p ==ₜ codes "*"
      || p ==ₜ h
      || (has_prefix (codes "*.") p
          && (has_suffix (drop 1 p) h && ltb (length (drop 1 p)) (length h) || h ==ₜ drop 2 p))

-- `matchHost`
unfoldable pub match_host : Text → List Text → Bool
unfolding matches_pattern
match_host host [] = true
match_host host (p ∷ ps) = any (λ q. matches_pattern (host_form host) q) (p ∷ ps)

-- `ssrfConfig`
pub record SsrfConfig : Type 0 where
  pub block_private_ips : Bool
  pub allowed_hosts : List Text
  pub allow_private_ips_for_allowed_hosts : Bool

-- The `Control` of the dialer: does it let the connection to an address go on? The address is `none`
-- where it is not an IP address.
unfoldable pub control : SsrfConfig → Option Ip → Bool
unfolding is_ip_blocked
control cfg none = true
control cfg (some ip) = not (cfg.block_private_ips && is_ip_blocked ip)

-- `DialContext`: is a connection made to the host at the address that it resolves to?
unfoldable pub dials : SsrfConfig → Text → Option Ip → Bool
unfolding match_host control
dials cfg addr resolved = elim (split_host_port addr) [
  | none ↦ false
  | some host ↦
      if not (is_empty cfg.allowed_hosts)
      then match_host host cfg.allowed_hosts
        && (cfg.allow_private_ips_for_allowed_hosts || control cfg resolved)
      else control cfg resolved
]
