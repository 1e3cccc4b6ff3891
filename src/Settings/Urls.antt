-- ===== src/Settings/Urls.antt =====
-- The URLs of mcp/omarchy_hardware/config.py.
use omarchy_hardware.Common.{
  ℕ, zero, suc, ◌+◌, ◌%◌, ◌/◌, ◌==◌, ltb, Bool, false, not, ◌&&◌, ◌||◌, Option, none, some, [], ◌∷◌,
  ◌++◌, reverse, if◌then◌else◌,
}
use omarchy_hardware.Common.Text.{Text, codes, text_eq, contains, split}
use omarchy_hardware.Common.Unicode.{lstrip}
use omarchy_hardware.Settings.Toml.{Value, text}
use omarchy_hardware.Settings.Outcome.{Outcome, ok, config_error, ◌>>=◌, ◌>>◌, require}
use omarchy_hardware.Settings.Fields.{
  UrlPort, no_port, port, bad_port, Url, Python, is_empty, has_char, is_unplain, valid_host,
}

-- The decimal digits of a number; the fuel is the number and one.
unfoldable pub digits : ℕ → ℕ → Text
digits zero n = []
digits (suc fuel) n =
    let higher = digits fuel (n / 10) in
    if ltb n 10 then (b'0' + n) ∷ [] else higher ++ (b'0' + n % 10) ∷ []

unfoldable pub decimal : ℕ → Text
unfolding digits
decimal n = digits (suc n) n

-- A `None` or an empty text is not true.
unfoldable pub is_given : Option Text → Bool
is_given none = false
is_given (some s) = not (is_empty s)

-- `f"[{host}]" if ":" in host else host`
unfoldable pub bracketed : Text → Text
bracketed host = if has_char b':' host then codes "[" ++ (host ++ codes "]") else host

-- `parsed.port or default`
unfoldable pub port_or : ℕ → UrlPort → Outcome ℕ
port_or default no_port = ok default
port_or default (port zero) = ok default
port_or default (port (suc n)) = ok (suc n)
port_or default bad_port = config_error

abbrev pub default_opcua_port : ℕ
default_opcua_port = 4840

unfoldable pub url_host : Python → Option Text → Outcome Text
url_host py none = config_error
url_host py (some host) = do require (valid_host py host); ok host

unfoldable pub parsed : Python → Text → Outcome Url
parsed py value = elim (py.parse_url value) [ none ↦ config_error | some url ↦ ok url ]

unfoldable pub opcua_url : Python → Url → Outcome Text
unfolding is_given url_host port_or bracketed
opcua_url py url = do
  require (
      text_eq url.scheme (codes "opc.tcp")
      && not (
          is_given url.username
          || (is_given url.password || not (is_empty url.query && is_empty url.fragment))))
  require (is_empty url.path || text_eq url.path (codes "/"))
  host ← url_host py url.hostname
  n ← port_or default_opcua_port url.url_port
  ok (codes "opc.tcp://" ++ (bracketed host ++ (codes ":" ++ decimal n)))

unfoldable pub opcua_endpoint : Python → Option Value → Outcome Text
unfolding parsed opcua_url
opcua_endpoint py (some (text value)) = do
  require (not (is_empty value))
  url ← parsed py value
  opcua_url py url
opcua_endpoint py _ = config_error

-- `:{port}`, for a port that is given.
unfoldable pub port_suffix : UrlPort → Outcome Text
port_suffix no_port = ok []
port_suffix (port n) = ok (codes ":" ++ decimal n)
port_suffix bad_port = config_error

-- `path.rstrip("/")`
unfoldable pub rstrip_slash : Text → Text
unfolding lstrip
rstrip_slash s = reverse (lstrip (λ c. c == b'/') (reverse s))

-- A base URL: itself, its host, and whether it is HTTPS.
pub record BaseUrl : Type 0 where
  pub url : Text
  pub host : Text
  pub https : Bool

unfoldable pub base_url : Python → Url → Outcome BaseUrl
unfolding is_given url_host port_suffix rstrip_slash bracketed
base_url py u = do
  require (text_eq u.scheme (codes "http") || text_eq u.scheme (codes "https"))
  require (
      not (
        is_given u.username
        || (is_given u.password
            || not (is_empty u.query && (is_empty u.fragment && is_empty u.params)))))
  host ← url_host py u.hostname
  suffix ← port_suffix u.url_port
  require (
      not (
        is_unplain py (rstrip_slash u.path)
        || contains (split b'/' (rstrip_slash u.path)) (codes "..")))
  ok (record {
    url = u.scheme ++ (codes "://" ++ ((bracketed host ++ suffix) ++ rstrip_slash u.path));
    host = host;
    https = text_eq u.scheme (codes "https");
  })

unfoldable pub http_url : Python → Option Value → Outcome BaseUrl
unfolding parsed base_url
http_url py (some (text value)) = do
  require (not (is_empty value))
  u ← parsed py value
  base_url py u
http_url py _ = config_error
