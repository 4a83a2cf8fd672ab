-- ===== src/Events/Callback.antt =====
-- `validate_callback_url` and what it calls, of marketplace/services/event_subscription_service.py. A URL is
-- what `urlsplit` reads of it; the flags of `ipaddress` and the resolver are parameters.
use agentchains.Base.{
  ℕ, ◌-◌, ◌*◌, ◌/◌, ◌^◌, Bool, true, false, ◌&&◌, ◌||◌, Option, none, some, List, [], ◌∷◌, ◌==◌,
  Result, ok, err, if◌then◌else◌,
}

pub data Address : Type 0 where
  v4 v6 : ℕ → Address

-- An address and the number of its leading bits.
pub data Network : Type 0 where
  v4 v6 : ℕ → ℕ → Network

abbrev pub private_networks : List Network
private_networks =
    Network.v4 2130706432 8
    ∷ Network.v4 167772160 8
    ∷ Network.v4 2886729728 12
    ∷ Network.v4 3232235520 16
    ∷ Network.v4 2851995648 16
    ∷ Network.v6 1 128
    ∷ Network.v6 (64512 * 2 ^ 112) 7
    ∷ Network.v6 (65152 * 2 ^ 112) 10
    ∷ []

-- `ip in network`
abbrev pub is_in : Address → Network → Bool
is_in (Address.v4 a) (Network.v4 n bits) = a / 2 ^ (32 - bits) == n / 2 ^ (32 - bits)
is_in (Address.v6 a) (Network.v6 n bits) = a / 2 ^ (128 - bits) == n / 2 ^ (128 - bits)
is_in (Address.v4 a) (Network.v6 n bits) = false
is_in (Address.v6 a) (Network.v4 n bits) = false

abbrev pub is_in_any : Address → List Network → Bool
is_in_any a [] = false
is_in_any a (n ∷ networks) = is_in a n || is_in_any a networks

-- The environment is one of `_PROD_ENVS` or not; `is_special` is loopback, link-local, multicast, reserved or
-- unspecified.
pub record Site : Type 0 where
  pub is_prod : Bool
  pub is_special : Address → Bool

unfoldable pub is_disallowed_ip : Site → Address → Bool
is_disallowed_ip site a = site.is_special a || is_in_any a private_networks

abbrev pub any_disallowed : Site → List Address → Bool
any_disallowed site [] = false
any_disallowed site (a ∷ addresses) = is_disallowed_ip site a || any_disallowed site addresses

pub data Scheme : Type 0 where
  http https other : Scheme

-- A host's text, whether it is one of the local names, and its address if it is one.
pub record Host : Type 0 where
  pub name : ℕ
  pub is_local : Bool
  pub literal : Option Address

-- `netloc` and `path` are none where they are empty; the fragment is dropped by the normal form.
pub record Url : Type 0 where
  pub scheme : Scheme
  pub netloc : Option ℕ
  pub hostname : Option Host
  pub path : Option ℕ
  pub query : ℕ
  pub fragment : ℕ

pub data Error : Type 0 where
  bad_scheme no_host https_required localhost_refused unresolved no_address disallowed : Error

-- What the resolver says of a host at a moment: none where it fails, and else the addresses that it reads.
abbrev pub Resolver : Type 0
Resolver = ℕ → Option (List Address)

unfoldable pub resolve_host_ips : Resolver → Host → Result Error (List Address)
resolve_host_ips resolver host = elim (resolver host.name) [
  | none ↦ err unresolved
  | some [] ↦ err no_address
  | some (a ∷ addresses) ↦ ok (a ∷ addresses)
]

abbrev pub allowed : Site → List Address → Result Error (Unit {0})
allowed site addresses = if any_disallowed site addresses then err disallowed else ok tt

abbrev pub allowed_of : Site → Result Error (List Address) → Result Error (Unit {0})
allowed_of site (err e) = err e
allowed_of site (ok addresses) = allowed site addresses

-- The addresses of the host: its own, and in production what it resolves to.
abbrev pub host_allowed : Site → Resolver → Host → Option Address → Bool → Result Error (Unit {0})
host_allowed site resolver host (some a) prod = allowed site (a ∷ [])
host_allowed site resolver host none true = allowed_of site (resolve_host_ips resolver host)
host_allowed site resolver host none false = ok tt

abbrev pub normal_path : Option ℕ → Option ℕ
normal_path none = some 0
normal_path (some p) = some p

-- Of the normal form only the path and the fragment change; the path "/" is 0, and so is no fragment.
abbrev pub normalized : Url → Result Error (Unit {0}) → Result Error Url
normalized url (err e) = err e
normalized url (ok u) = ok (record url { path = normal_path url.path; fragment = 0 })

abbrev pub is_https : Scheme → Bool
is_https Scheme.https = true
is_https _ = false

abbrev pub check_host : Site → Resolver → Url → Host → Result Error Url
check_host site resolver url host =
    if site.is_prod && (if is_https url.scheme then false else true)
    then err https_required
    else if site.is_prod && host.is_local
    then err localhost_refused
    else normalized url (host_allowed site resolver host host.literal site.is_prod)

abbrev pub check_parts : Site → Resolver → Url → Option ℕ → Option Host → Result Error Url
check_parts site resolver url none hostname = err no_host
check_parts site resolver url (some n) none = err no_host
check_parts site resolver url (some n) (some host) = check_host site resolver url host

abbrev pub check_scheme : Site → Resolver → Url → Scheme → Result Error Url
check_scheme site resolver url Scheme.other = err bad_scheme
check_scheme site resolver url _ = check_parts site resolver url url.netloc url.hostname

unfoldable pub validate_callback_url : Site → Resolver → Url → Result Error Url
unfolding resolve_host_ips is_disallowed_ip
validate_callback_url site resolver url = check_scheme site resolver url url.scheme
