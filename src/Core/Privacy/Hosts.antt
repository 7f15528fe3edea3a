-- ===== src/Core/Privacy/Hosts.antt =====
-- crates/zanei-core/src/privacy/matcher.rs: the host of an absolute URL, or none when the URL is
-- malformed or has no host. The URL is ASCII from the first check on, so a byte is a character.
-- Whether a text is an IPv6 address is decided by `Ipv6Addr::from_str` of the standard library;
-- it is the parameter `is_ipv6`.
pub mod Extraction
use zanei.Prelude.{
  ℕ, suc, ◌+◌, ◌-◌, ◌*◌, Bool, true, false, not, ◌&&◌, ◌||◌, Option, none, some, List, [], ◌∷◌,
  Text, text, to_ascii_lowercase, ltb, leb, ◌==◌, if◌then◌else◌, all, is_empty, length, first?,
  last?, len,
}
use zanei.Prelude.Slices.{
  strip_prefix, strip_suffix, break_at, split_once, rsplit_once, split, contains_char, is_digit,
  is_alphabetic, is_alphanumeric, is_hexdigit,
}

unfoldable pub is_uri_byte : ℕ → Bool
unfolding contains_char
is_uri_byte byte = is_alphanumeric byte || contains_char byte (text "-._~:/?#[]@!$&'()*+,;=")

-- The loop of `valid_uri_syntax`: a percent sign stands before two hexadecimal digits.
unfoldable pub scan_uri : Text → Bool
unfolding is_uri_byte
scan_uri [] = true
scan_uri (c ∷ []) = not (c == b'%') && is_uri_byte c
scan_uri (c ∷ d ∷ []) = not (c == b'%') && is_uri_byte c && scan_uri (d ∷ [])
scan_uri (c ∷ d ∷ e ∷ rest) = elim (c == b'%') [
  | true ↦ is_hexdigit d && is_hexdigit e && scan_uri rest
  | false ↦ is_uri_byte c && scan_uri (d ∷ e ∷ rest)
]

-- `matches(c).count()`.
unfoldable pub count_char : ℕ → Text → ℕ
count_char d [] = 0
count_char d (c ∷ t) = if c == d then suc (count_char d t) else count_char d t

unfoldable pub valid_uri_syntax : Text → Bool
unfolding scan_uri count_char
valid_uri_syntax url =
    not (is_empty url) && all (λ c. ltb c 128) url && leb (count_char b'#' url) 1 && scan_uri url

unfoldable pub valid_scheme : Text → Bool
unfolding contains_char
valid_scheme [] = false
valid_scheme (first ∷ rest) =
    is_alphabetic first && all (λ c. is_alphanumeric c || contains_char c (text "+-.")) rest

unfoldable pub decimal : ℕ → Text → ℕ
decimal n [] = n
decimal n (c ∷ t) = decimal (n * 10 + (c - b'0')) t

-- `port.parse::<u16>()` of digits succeeds up to 65535.
unfoldable pub validate_numeric_port : Text → Bool
unfolding decimal
validate_numeric_port port = not (is_empty port) && all is_digit port && leb (decimal 0 port) 65535

unfoldable pub validate_port : Text → Bool
unfolding validate_numeric_port strip_prefix
validate_port [] = true
validate_port (c ∷ rest) = c == b':' && validate_numeric_port rest

abbrev ends_well : Option ℕ → Bool
ends_well none = false
ends_well (some c) = is_alphanumeric c

unfoldable pub valid_label : Text → Bool
unfolding len
valid_label label =
    not (is_empty label)
    && leb (len label) 63
    && all (λ c. is_alphanumeric c || c == b'-') label
    && ends_well (first? label)
    && ends_well (last? label)

unfoldable pub valid_domain_name : Text → Bool
unfolding valid_label split len
valid_domain_name host = leb (len host) 253 && all valid_label (split b'.' host)

-- `Ipv4Addr::from_str`: four numbers up to 255 without leading zeros.
abbrev leading_zero : Text → Bool
leading_zero (c ∷ d ∷ t) = c == b'0'
leading_zero t = false

unfoldable pub is_octet : Text → Bool
unfolding decimal
is_octet part =
    not (is_empty part)
    && all is_digit part
    && leb (length part) 3
    && not (leading_zero part)
    && leb (decimal 0 part) 255

unfoldable pub is_ipv4 : Text → Bool
unfolding is_octet split
is_ipv4 host = length (split b'.' host) == 4 && all is_octet (split b'.' host)

-- `host.strip_suffix('.').unwrap_or(host)`.
unfoldable pub without_final_dot : Text → Text
unfolding strip_suffix
without_final_dot host = elim (strip_suffix (text ".") host) [ none ↦ host | some h ↦ h ]

-- The checks of the host proper, after the port is split off.
unfoldable pub parse_host : Text → Option Text
unfolding is_ipv4 valid_domain_name to_ascii_lowercase
parse_host host =
    if is_empty host
    then none
    else if if all (λ c. is_digit c || c == b'.') host then is_ipv4 host else valid_domain_name host
    then some (to_ascii_lowercase host)
    else none

-- A colon before the last one is an error.
unfoldable pub parse_host_port : Text × Text → Option Text
unfolding contains_char validate_numeric_port without_final_dot parse_host
parse_host_port (host, port) =
    if contains_char b':' host
    then none
    else if validate_numeric_port port
    then parse_host (without_final_dot host)
    else none

-- What stands before the path, the query and the fragment.
unfoldable pub authority_of : Text → Text
unfolding break_at
authority_of remainder = (break_at (λ c. c == b'/' || c == b'?' || c == b'#') remainder).0

module _ (is_ipv6 : Text → Bool) where
  unfoldable pub parse_bracketed : Option (Text × Text) → Option Text
  unfolding validate_port to_ascii_lowercase
  parse_bracketed none = none
  parse_bracketed (some (address, rest)) =
      if is_ipv6 address && validate_port rest then some (to_ascii_lowercase address) else none

  unfoldable pub parse_unbracketed : Text → Option Text
  unfolding rsplit_once parse_host_port without_final_dot parse_host
  parse_unbracketed host_and_port = elim (rsplit_once b':' host_and_port) [
    | none ↦ parse_host (without_final_dot host_and_port)
    | some cut ↦ parse_host_port cut
  ]

  unfoldable pub parse_host_and_port : Text → Option Text
  unfolding strip_prefix split_once parse_bracketed parse_unbracketed
  parse_host_and_port host_and_port = elim (strip_prefix (text "[") host_and_port) [
    | some bracketed ↦ parse_bracketed (split_once b']' bracketed)
    | none ↦ parse_unbracketed host_and_port
  ]

  -- The authority without its user information, which must not be empty.
  unfoldable pub parse_userinfo : Text → Option (Text × Text) → Option Text
  unfolding parse_host_and_port
  parse_userinfo authority none = parse_host_and_port authority
  parse_userinfo authority (some (userinfo, host_and_port)) =
      if is_empty userinfo then none else parse_host_and_port host_and_port

  unfoldable pub parse_authority : Text → Option Text
  unfolding rsplit_once parse_userinfo count_char
  parse_authority authority =
      if is_empty authority || ltb 1 (count_char b'@' authority)
      then none
      else parse_userinfo authority (rsplit_once b'@' authority)

  unfoldable pub parse_after_scheme : Option Text → Option Text
  unfolding authority_of parse_authority
  parse_after_scheme none = none
  parse_after_scheme (some remainder) = parse_authority (authority_of remainder)

  unfoldable pub parse_scheme : Option (Text × Text) → Option Text
  unfolding valid_scheme strip_prefix parse_after_scheme
  parse_scheme none = none
  parse_scheme (some (scheme, rest)) =
      if valid_scheme scheme then parse_after_scheme (strip_prefix (text "//") rest) else none

  unfoldable pub extract_url_host : Text → Option Text
  unfolding valid_uri_syntax split_once parse_scheme
  extract_url_host url = if valid_uri_syntax url then parse_scheme (split_once b':' url) else none
