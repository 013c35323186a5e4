-- ===== src/Webhook.antt =====
-- internal/webhook/executor.go: a job that posts to a URL. Of Go's library the parser of URLs, the
-- parser of addresses and the folding of letters are parameters, and so are the resolver of names
-- and the servers; the tests of `netip.Addr` are written out.
pub mod Addresses
pub mod Requests
use go_task_q.Base.{
  codes, [], bytes_eq, ◌%◌, ◌&&◌, ◌∷◌, ◌==◌, some, ◌||◌, ℤ, none, ◌^◌, ◌/◌, not, List, Bytes,
  if◌then◌else◌, Bool, ℕ, Option,
}

-- `url.URL`, as far as it is read.
pub record Url : Type 0 where
  pub scheme : Bytes
  pub has_user : Bool
  pub hostname : Bytes

-- `netip.Addr`: 32 bits, or two halves of 64 bits and a zone, which may be empty.
pub data Addr : Type 0 where
  v4 : ℕ → Addr
  v6 : ℕ → ℕ → Bytes → Addr

abbrev pub byte_of : ℕ → ℕ → ℕ
byte_of n shift = n / shift % 256

-- `Is4In6` and `Unmap`, which drops the zone.
abbrev pub unmap : Addr → Addr
unmap (v4 n) = v4 n
unmap (v6 hi lo zone) = if hi == 0 && lo / 2 ^ 32 == 65535 then v4 (lo % 2 ^ 32) else v6 hi lo zone

abbrev pub loopback : Addr → Bool
loopback (v4 n) = byte_of n (2 ^ 24) == 127
loopback (v6 hi lo zone) = hi == 0 && lo == 1

abbrev pub private : Addr → Bool
private (v4 n) =
    byte_of n (2 ^ 24) == 10
    || (byte_of n (2 ^ 24) == 172 && byte_of n (2 ^ 16) / 16 == 1)
    || (byte_of n (2 ^ 24) == 192 && byte_of n (2 ^ 16) == 168)
private (v6 hi lo zone) = byte_of hi (2 ^ 56) / 2 == 126

abbrev pub link_local_unicast : Addr → Bool
link_local_unicast (v4 n) = byte_of n (2 ^ 24) == 169 && byte_of n (2 ^ 16) == 254
link_local_unicast (v6 hi lo zone) = hi / 2 ^ 48 % 2 ^ 16 / 64 == 1018

abbrev pub link_local_multicast : Addr → Bool
link_local_multicast (v4 n) =
    byte_of n (2 ^ 24) == 224 && byte_of n (2 ^ 16) == 0 && byte_of n (2 ^ 8) == 0
link_local_multicast (v6 hi lo zone) =
    hi / 2 ^ 48 % 2 ^ 16 / 256 == 255 && hi / 2 ^ 48 % 2 ^ 16 % 16 == 2

abbrev pub multicast : Addr → Bool
multicast (v4 n) = byte_of n (2 ^ 24) / 16 == 14
multicast (v6 hi lo zone) = byte_of hi (2 ^ 56) == 255

-- This test alone does not unmap, and asks for an empty zone.
abbrev pub unspecified : Addr → Bool
unspecified (v4 n) = n == 0
unspecified (v6 hi lo zone) = hi == 0 && lo == 0 && bytes_eq zone []

pub data UrlError : Type 0 where
  bad_scheme userinfo no_host is_localhost resolve_failed no_addresses : UrlError
  not_public : Addr → UrlError

-- Of the configuration, what is read here.
pub record Config : Type 0 where
  pub allow_private_networks : Bool
  pub max_redirects : ℤ

-- Go's functions on texts.
pub record Net : Type 0 where
  pub trim_space : Bytes → Bytes
  pub to_upper : Bytes → Bytes
  pub equal_fold : Bytes → Bytes → Bool
  pub parse_url : Bytes → Option Url
  pub parse_addr : Bytes → Option Addr

-- What the name stands for after so many requests; `none` is an error.
abbrev pub Resolver : Type 0
Resolver = ℕ → Bytes → Option (List Addr)

module _ (cfg : Config) where
  abbrev pub is_reserved : Addr → Bool
  is_reserved addr =
      loopback (unmap addr)
      || private (unmap addr)
      || link_local_unicast (unmap addr)
      || link_local_multicast (unmap addr)
      || multicast (unmap addr)
      || unspecified addr

  -- `none` is `nil`.
  unfoldable pub validate_addr : Addr → Option UrlError
  validate_addr addr =
      if cfg.allow_private_networks
      then none
      else if is_reserved addr
      then some (not_public addr)
      else none

  abbrev pub orelse : Option UrlError → Option UrlError → Option UrlError
  orelse none next = next
  orelse (some e) next = some e

  unfoldable pub validate_addrs : List Addr → Option UrlError
  unfolding validate_addr
  validate_addrs [] = none
  validate_addrs (addr ∷ addrs) = orelse (validate_addr addr) (validate_addrs addrs)

  abbrev pub validate_resolved : Option (List Addr) → Option UrlError
  validate_resolved none = some resolve_failed
  validate_resolved (some []) = some no_addresses
  validate_resolved (some (addr ∷ addrs)) = validate_addrs (addr ∷ addrs)

  abbrev pub validate_host : Option Addr → Option (List Addr) → Option UrlError
  validate_host (some addr) resolved = validate_addr addr
  validate_host none resolved = validate_resolved resolved

  module _ (net : Net) (resolver : Resolver) where
    unfoldable pub validate_url : ℕ → Url → Option UrlError
    unfolding validate_addr validate_addrs
    validate_url n url =
        if not (bytes_eq url.scheme (codes "http")) && not (bytes_eq url.scheme (codes "https"))
        then some bad_scheme
        else if url.has_user
        then some userinfo
        else if bytes_eq url.hostname []
        then some no_host
        else if net.equal_fold url.hostname (codes "localhost")
        then some is_localhost
        else validate_host (net.parse_addr url.hostname) (resolver n url.hostname)
