-- ===== src/Webhooks/Target.antt =====
-- `_validate_webhook_url` of acme_api/webhooks.py: which addresses may be called.
use acme_api.Common.{
  String, Option, none, some, List, [], ◌∷◌, Bool, ◌||◌, not, str_eq, any, if◌then◌else◌,
}

-- The flags of an address of the module `ipaddress`.
pub record Ip : Type 0 where
  pub is_private : Bool
  pub is_loopback : Bool
  pub is_link_local : Bool
  pub is_multicast : Bool
  pub is_reserved : Bool
  pub is_unspecified : Bool

-- What `urlsplit` finds in the text; the host name as `lower` returns it.
pub record Url : Type 0 where
  pub scheme : String
  pub hostname : Option String

-- The readings of texts that the standard library makes, and the look-up of host names, which
-- fails or finds addresses.
pub record Resolver : Type 0 where
  pub urlsplit : String → Url
  pub ip_address : String → Option Ip
  pub resolve : String → Option (List Ip)

pub data Checked : Type 0 where
  safe : Checked
  unsafe : String → Checked

-- `_is_unsafe_webhook_ip`
abbrev pub is_unsafe_webhook_ip : Ip → Bool
is_unsafe_webhook_ip ip =
    ip.is_private || ip.is_loopback || ip.is_link_local || ip.is_multicast || ip.is_reserved
    || ip.is_unspecified

abbrev pub check_ips : List Ip → Checked
check_ips ips =
    if any is_unsafe_webhook_ip ips
    then unsafe "unsafe webhook url: non-public IP targets are not allowed"
    else safe

abbrev pub check_resolved : Option (List Ip) → Checked
check_resolved none = unsafe "unsafe webhook url: hostname could not be resolved"
check_resolved (some ips) = check_ips ips

module _ (net : Resolver) where
  abbrev pub check_address : String → Option Ip → Checked
  check_address host (some ip) = check_ips (ip ∷ [])
  check_address host none = check_resolved (net.resolve host)

  abbrev pub check_host : Option String → Checked
  check_host none = unsafe "unsafe webhook url: missing hostname"
  check_host (some host) =
      if str_eq host ""
      then unsafe "unsafe webhook url: missing hostname"
      else if str_eq host "localhost"
      then unsafe "unsafe webhook url: localhost is not allowed"
      else check_address host (net.ip_address host)

  unfoldable pub validate_webhook_url : String → Checked
  validate_webhook_url url =
      let parsed = net.urlsplit url in
      if not (str_eq parsed.scheme "http" || str_eq parsed.scheme "https")
      then unsafe "unsafe webhook url: only http/https are allowed"
      else check_host parsed.hostname
