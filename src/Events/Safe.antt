-- ===== src/Events/Safe.antt =====
-- A callback URL that passes its checks has a host, none of whose addresses is special or in a listed network.
use mathlib.Core.Path.{subst}
use agentchains.Base.{
  ℕ, ◌≡◌, refl, sym, ap, ◌∙◌, Bool, true, false, ◌&&◌, Option, none, some, List, [], ◌∷◌, Result,
  ok, err, IfReturns, All, arith, inl, inr, Bool-cases, or_left, or_right, if◌then◌else◌,
}
use agentchains.Events.Callback.{
  Address, Network, is_in, is_in_any, private_networks, Site, Resolver, Host, Url, Scheme,
  is_disallowed_ip, any_disallowed, allowed, allowed_of, resolve_host_ips, host_allowed, normalized,
  check_host, check_parts, check_scheme, validate_callback_url, is_https, disallowed,
  https_required, localhost_refused, unresolved, no_address,
}
use agentchains.Events.Callback
use agentchains.Events.Delivery.{Wire, host_resolves, and_resolves, url_passes}

-- The address is none of the special ones and in no network of the list.
abbrev pub IsOutside : Site → Address → Type 0
IsOutside site a = (site.is_special a ≡ false) × All (λ n. is_in a n ≡ false) private_networks

-- What is known of the host's addresses: its own, or the ones that the resolver gives.
abbrev pub IsAllowed : Site → Resolver → Host → Option Address → Type 0
IsAllowed site resolver host (some a) = IsOutside site a
IsAllowed site resolver host none =
    (addresses : List Address) × (resolver host.name ≡ some addresses)
    × All (IsOutside site) addresses

-- The URL is of HTTP or HTTPS, in production of HTTPS, and its host allowed at the attempt.
abbrev pub IsSafe : Wire → ℕ → Url → Type 0
IsSafe wire attempt url =
    (host : Host) × (url.hostname ≡ some host)
    × ((wire.site.is_prod && (if is_https url.scheme then false else true)) ≡ false)
    × IsAllowed wire.site (wire.resolver_again attempt) host host.literal

is_in_any-All :
    (a : Address) (networks : List Network)
    → is_in_any a networks ≡ false
    → All (λ n. is_in a n ≡ false) networks
is_in_any-All a [] h = tt
is_in_any-All a (n ∷ networks) h =
    (or_left _ _ h, is_in_any-All a networks (or_right (is_in a n) _ h))

is_disallowed_ip-IsOutside :
    (site : Site) (a : Address) → is_disallowed_ip site a ≡ false → IsOutside site a
unfolding is_disallowed_ip
is_disallowed_ip-IsOutside site a h =
    (or_left _ _ h, is_in_any-All a private_networks (or_right (site.is_special a) _ h))

any_disallowed-All :
    (site : Site) (addresses : List Address)
    → any_disallowed site addresses ≡ false
    → All (IsOutside site) addresses
any_disallowed-All site [] h = tt
any_disallowed-All site (a ∷ addresses) h = (
  is_disallowed_ip-IsOutside site a (or_left _ _ h),
  any_disallowed-All site addresses (or_right (is_disallowed_ip site a) _ h),
)

allowed-any :
    (site : Site) (addresses : List Address)
    → IfReturns (λ _. any_disallowed site addresses ≡ false) (allowed site addresses)
allowed-any site addresses = elim (Bool-cases (any_disallowed site addresses)) [
  | inl e ↦ rw e tt
  | inr e ↦ rw e refl
]

IfReturns-mono :
    {E A : Type 0} (P Q : A → Type 0)
    → ((a : A) → P a → Q a)
    → (r : Result E A) → IfReturns P r
    → IfReturns Q r
IfReturns-mono P Q k (ok a) h = k a h
IfReturns-mono P Q k (err e) h = tt

IfReturns-all : {E A : Type 0} (P : A → Type 0) → ((a : A) → P a) → (r : Result E A) → IfReturns P r
IfReturns-all P k (ok a) = k a
IfReturns-all P k (err e) = tt

IfReturns-guard :
    {E A : Type 0} (P : A → Type 0) (c : Bool) (e : E) (r : Result E A)
    → (c ≡ false → IfReturns P r)
    → IfReturns P (if c then err e else r)
IfReturns-guard P true e r k = tt
IfReturns-guard P false e r k = k refl

-- What the validation makes sure of.
abbrev HasHost : Site → Url → Type 0
HasHost site url =
    (host : Host) × (url.hostname ≡ some host)
    × ((site.is_prod && (if is_https url.scheme then false else true)) ≡ false)
    × ((a : Address) → host.literal ≡ some a → is_disallowed_ip site a ≡ false)

host_allowed-literal :
    (site : Site) (resolver : Resolver) (host : Host) (o : Option Address) (prod : Bool)
    → IfReturns
        (λ _. (a : Address) → o ≡ some a → is_disallowed_ip site a ≡ false)
        (host_allowed site resolver host o prod)
host_allowed-literal site resolver host (some b) prod =
    IfReturns-mono (λ _. any_disallowed site (b ∷ []) ≡ false) _
      (λ u h a e.
        let same : b ≡ a = ground (arith, e) in
        ap (is_disallowed_ip site) (sym same) ∙ ground (arith, h))
      (allowed site (b ∷ [])) (allowed-any site (b ∷ []))
host_allowed-literal site resolver host none prod =
    IfReturns-all (λ _. (a : Address) → none ≡ some a → is_disallowed_ip site a ≡ false)
      (λ u a e. absurd (ground (arith, e))) (host_allowed site resolver host none prod)

normalized_returns :
    (P : Type 0) (url : Url) (r : Result Callback.Error (Unit {0}))
    → IfReturns (λ _. P) r
    → IfReturns (λ _. P) (normalized url r)
normalized_returns P url (ok u) h = h
normalized_returns P url (err e) h = tt

check_host-HasHost :
    (site : Site) (resolver : Resolver) (url : Url) (host : Host)
    → url.hostname ≡ some host
    → IfReturns (λ _. HasHost site url) (check_host site resolver url host)
check_host-HasHost site resolver url host named =
    IfReturns-guard (λ _. HasHost site url) _ https_required _
      λ secure.
        IfReturns-guard (λ _. HasHost site url) _ localhost_refused _
          λ remote.
            normalized_returns (HasHost site url) url
              (host_allowed site resolver host host.literal site.is_prod)
              (IfReturns-mono _ (λ _. HasHost site url) (λ u h. (host, named, secure, h)) _
                (host_allowed-literal site resolver host host.literal site.is_prod))

check_parts-HasHost :
    (site : Site) (resolver : Resolver) (url : Url) (n : Option ℕ) (o : Option Host)
    → url.hostname ≡ o
    → IfReturns (λ _. HasHost site url) (check_parts site resolver url n o)
check_parts-HasHost site resolver url none o e = tt
check_parts-HasHost site resolver url (some n) none e = tt
check_parts-HasHost site resolver url (some n) (some host) e =
    check_host-HasHost site resolver url host e

validate-HasHost :
    (site : Site) (resolver : Resolver) (url : Url)
    → IfReturns (λ _. HasHost site url) (validate_callback_url site resolver url)
unfolding validate_callback_url
validate-HasHost site resolver url = by_scheme url.scheme
  where
    by_scheme : (s : Scheme) → IfReturns (λ _. HasHost site url) (check_scheme site resolver url s)
    by_scheme Scheme.other = tt
    by_scheme Scheme.http = check_parts-HasHost site resolver url url.netloc url.hostname refl
    by_scheme Scheme.https = check_parts-HasHost site resolver url url.netloc url.hostname refl

-- The fresh look-up.
resolved-IsAllowed :
    (site : Site) (resolver : Resolver) (host : Host)
    → IfReturns
        (λ _. IsAllowed site resolver host none)
        (allowed_of site (resolve_host_ips resolver host))
unfolding resolve_host_ips
resolved-IsAllowed site resolver host = looked_up (resolver host.name) refl
  where
    looked_up :
        (o : Option (List Address))
        → resolver host.name ≡ o
        → IfReturns
            (λ _. IsAllowed site resolver host none)
            (allowed_of site (elim o as (λ _. Result Callback.Error (List Address)) [
              | none ↦ err unresolved
              | some [] ↦ err no_address
              | some (a ∷ addresses) ↦ ok (a ∷ addresses)
            ]))
    looked_up none e = tt
    looked_up (some []) e = tt
    looked_up (some (a ∷ addresses)) e =
        IfReturns-mono (λ _. any_disallowed site (a ∷ addresses) ≡ false) _
          (λ u h. (a ∷ addresses, e, any_disallowed-All site (a ∷ addresses) h))
          (allowed site (a ∷ addresses)) (allowed-any site (a ∷ addresses))

host_IsAllowed :
    (site : Site) (resolver : Resolver) (host : Host) (o : Option Address)
    → ((a : Address) → o ≡ some a → is_disallowed_ip site a ≡ false)
    → IfReturns
        (λ _. IsAllowed site resolver host o)
        (elim o as (λ _. Result Callback.Error (Unit {0})) [
          | some a ↦ ok tt
          | none ↦ allowed_of site (resolve_host_ips resolver host)
        ])
host_IsAllowed site resolver host none known = resolved-IsAllowed site resolver host
host_IsAllowed site resolver host (some a) known = is_disallowed_ip-IsOutside site a (known a refl)

-- What passes is safe.
pub url_passes-IsSafe :
    (wire : Wire) (attempt : ℕ) (url : Url)
    → IfReturns (λ _. IsSafe wire attempt url) (url_passes wire attempt url)
unfolding url_passes
url_passes-IsSafe wire attempt url =
    resolves (validate_callback_url wire.site (wire.resolver attempt) url)
      (validate-HasHost wire.site (wire.resolver attempt) url)
  where
    named :
        (host : Host)
        → url.hostname ≡ some host
        → ((wire.site.is_prod && (if is_https url.scheme then false else true)) ≡ false)
        → ((a : Address) → host.literal ≡ some a → is_disallowed_ip wire.site a ≡ false)
        → IfReturns
            (λ _. IsSafe wire attempt url)
            (host_resolves wire.site (wire.resolver_again attempt) (some host))
    named host e secure known =
        IfReturns-mono _ (λ _. IsSafe wire attempt url) (λ u h. (host, e, secure, h)) _
          (host_IsAllowed wire.site (wire.resolver_again attempt) host host.literal known)

    resolves :
        (r : Result Callback.Error Url)
        → IfReturns (λ _. HasHost wire.site url) r
        → IfReturns (λ _. IsSafe wire attempt url) (and_resolves wire attempt url r)
    resolves (err e) h = tt
    resolves (ok normal) (host, e, secure, known) =
        subst
          (λ o.
            IfReturns (λ _. IsSafe wire attempt url)
              (host_resolves wire.site (wire.resolver_again attempt) o))
          (sym e) (named host e secure known)
