-- ===== src/Socks.antt =====
-- src/socks.rs: the SOCKS5 front end that accepts a CONNECT of the local Tor, with the bridge's
-- arguments in the username and password. The client's bytes are a list that ends with an error of
-- `read_exact`; a write does not fail.
mod Accept
pub mod Cert
mod Tests
use mix_tor.Base.{
  drop, take, ◌&&◌, ◌||◌, ◌+◌, length, get_or, ◌++◌, not, ◌==◌, false, leb, if◌then◌else◌,
  from_be16, Bool, Option, List, ℕ, ◌∷◌, [], zero, suc, none, some, Result, ok, err,
}
use mix_tor.Hex.{key_from_hex}

pub data SocksError : Type 0 where
  io domain_target_rejected no_supported_auth_method : SocksError
  unsupported_address_kind unsupported_command unsupported_version : ℕ → SocksError

pub record ClientArgs : Type 0 where
  pub cert : Option (List ℕ)

-- `SocketAddr`: the address's octets and the port.
pub data SocketAddr : Type 0 where
  v4 v6 : List ℕ → ℕ → SocketAddr

-- The bytes not read yet, and what was written, in order.
pub record Conn : Type 0 where
  pub incoming : List ℕ
  pub replies : List (List ℕ)

abbrev pub Socks : Type 0 → Type 0
Socks A = Conn → Result SocksError A × Conn

-- `?`: go on with a result, return an error.
abbrev pub and_then :
    {A B : Type 0} → Result SocksError A × Conn → (A → Socks B) → Result SocksError B × Conn
and_then (ok a, c) f = f a c
and_then (err e, c) f = (err e, c)

infixl 5 ◌>>=◌ ◌>>◌
abbrev pub ◌>>=◌ : {A B : Type 0} → Socks A → (A → Socks B) → Socks B
(m >>= f) c = and_then (m c) f

abbrev pub ◌>>◌ : {A B : Type 0} → Socks A → Socks B → Socks B
m >> k = m >>= λ _. k

abbrev pub return : {A : Type 0} → A → Socks A
return a c = (ok a, c)

abbrev pub fail : {A : Type 0} → SocksError → Socks A
fail e c = (err e, c)

-- `read_exact` on a slice of `n` bytes.
unfoldable pub read_exact : ℕ → Socks (List ℕ)
read_exact n c =
    if leb n (length c.incoming)
    then (ok (take n c.incoming), record c { incoming = drop n c.incoming })
    else (err io, record c { incoming = [] })

unfoldable pub write_all : List ℕ → Socks (Unit {0})
write_all bytes c = (ok tt, record c { replies = c.replies ++ (bytes ∷ []) })

abbrev pub contains : ℕ → List ℕ → Bool
contains b [] = false
contains b (c ∷ cs) = b == c || contains b cs

abbrev pub is_hexdigit : ℕ → Bool
is_hexdigit c = (leb 48 c && leb c 57) || ((leb 97 c && leb c 102) || (leb 65 c && leb c 70))

-- `chars().take_while(is_ascii_hexdigit).take(n)`
unfoldable pub hex_run : ℕ → List ℕ → List ℕ
hex_run zero cs = []
hex_run (suc n) [] = []
hex_run (suc n) (c ∷ cs) = let rest = hex_run n cs in if is_hexdigit c then c ∷ rest else []

-- The text behind `prefix`, if `s` starts with it.
abbrev pub strip_prefix : List ℕ → List ℕ → Option (List ℕ)
strip_prefix [] s = some s
strip_prefix (p ∷ ps) [] = none
strip_prefix (p ∷ ps) (c ∷ cs) = if p == c then strip_prefix ps cs else none

-- "cert="
abbrev pub cert_key : List ℕ
cert_key = 99 ∷ 101 ∷ 114 ∷ 116 ∷ 61 ∷ []

or_later : Option (List ℕ) → Option (List ℕ) → Option (List ℕ)
or_later (some s) later = some s
or_later none later = later

-- `&s[s.find("cert=")? + 5..]`
unfoldable pub after_cert : List ℕ → Option (List ℕ)
unfolding or_later
after_cert [] = none
after_cert (c ∷ cs) = or_later (strip_prefix cert_key (c ∷ cs)) (after_cert cs)

unfoldable pub extract_cert : List ℕ → Option (List ℕ)
extract_cert params = elim (after_cert params) [
  | none ↦ none
  | some s ↦ key_from_hex (hex_run 64 s)
]

unfoldable pub read_userpass_args : Socks ClientArgs
read_userpass_args = do
  ver ← read_exact 1
  if not (get_or ver 0 0 == 1) then fail (unsupported_version (get_or ver 0 0)) else (do
    ulen ← read_exact 1
    uname ← read_exact (get_or ulen 0 0)
    plen ← read_exact 1
    passwd ← read_exact (get_or plen 0 0)
    write_all (1 ∷ 0 ∷ [])
    return (record { cert = extract_cert (uname ++ passwd) }))

-- The method chosen among those offered.
unfoldable pub choose_method : List ℕ → Socks ClientArgs
choose_method methods =
    if contains 2 methods
    then (do write_all (5 ∷ 2 ∷ []); read_userpass_args)
    else if contains 0 methods
    then (do write_all (5 ∷ 0 ∷ []); return (record { cert = none }))
    else (do write_all (5 ∷ 255 ∷ []); fail no_supported_auth_method)

unfoldable pub negotiate : Socks ClientArgs
negotiate = do
  header ← read_exact 2
  if not (get_or header 0 0 == 5)
      then fail (unsupported_version (get_or header 0 0))
      else if get_or header 1 0 == 0
      then fail no_supported_auth_method
      else (do methods ← read_exact (get_or header 1 0); choose_method methods)

-- The port behind an address.
unfoldable pub read_port : (ℕ → SocketAddr) → Socks SocketAddr
read_port at_port = do
  port ← read_exact 2
  return (at_port (from_be16 (get_or port 0 0) (get_or port 1 0)))

-- `match header[3]`
unfoldable pub read_address : ℕ → Socks SocketAddr
read_address kind =
    if kind == 1
    then (do octets ← read_exact 4; read_port (v4 octets))
    else if kind == 4
    then (do octets ← read_exact 16; read_port (v6 octets))
    else if kind == 3
    then (do len ← read_exact 1; read_exact (get_or len 0 0 + 2); fail domain_target_rejected)
    else fail (unsupported_address_kind kind)

unfoldable pub read_connect_target : Socks SocketAddr
read_connect_target = do
  header ← read_exact 4
  if not (get_or header 0 0 == 5)
      then fail (unsupported_version (get_or header 0 0))
      else if not (get_or header 1 0 == 1)
      then fail (unsupported_command (get_or header 1 0))
      else read_address (get_or header 3 0)

unfoldable pub accept_socks5_connect : Socks (SocketAddr × ClientArgs)
accept_socks5_connect = do
  args ← negotiate
  target ← read_connect_target
  write_all (5 ∷ 0 ∷ 0 ∷ 1 ∷ 0 ∷ 0 ∷ 0 ∷ 0 ∷ 0 ∷ 0 ∷ [])
  return (target, args)
