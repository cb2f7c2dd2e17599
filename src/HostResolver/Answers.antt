-- ===== src/HostResolver/Answers.antt =====
-- Errors, endpoints and flags of muim/screen/host_resolver.cpp.
use tor_onion.Common.{
  ℕ, ◌≡◌, refl, ap, sym, ◌∙◌, Bool, true, not, ◌&&◌, ◌||◌, List, [], ◌∷◌, ◌==◌, if◌then◌else◌,
  arith, Bool-cases, inl, inr,
}
use tor_onion.HostResolver.{
  Text, ErrorCodes, squash_error_code, EndpointResult, AddressList, find_authority,
  endpoint_result_to_address_list, ResolveHostParameters, IpAddress,
  parameters_to_host_resolver_flags, may_use_nat64_for_ipv4_literal,
}

abbrev pub is_public : ErrorCodes → ℕ → Bool
is_public c e =
    (e == c.ok)
    || ((e == c.io_pending)
        || ((e == c.internet_disconnected)
            || ((e == c.name_not_resolved) || (e == c.dns_name_https_only))))

-- A squashed code is one of the five that callers may see; such a code is kept, any other becomes
-- ERR_NAME_NOT_RESOLVED, and squashing twice is squashing once.
pub squash_error_code_lem :
    (c : ErrorCodes) (e : ℕ)
    → (is_public c (squash_error_code c e) ≡ true)
      × (squash_error_code c (squash_error_code c e) ≡ squash_error_code c e)
      × ((squash_error_code c e == e) ≡ is_public c e)
unfolding squash_error_code
squash_error_code_lem c e = ground arith

-- The endpoints that are not alternatives.
pub authorities : List EndpointResult → List EndpointResult
authorities [] = []
authorities (e ∷ es) = if e.is_alternative then authorities es else e ∷ authorities es

authorities-authorities : (es : List EndpointResult) → authorities (authorities es) ≡ authorities es
unfolding authorities
authorities-authorities [] = refl
authorities-authorities (e ∷ es) = ground (arith, authorities-authorities es)

module _ (set_dns_aliases : List Text → AddressList → AddressList) where
  abbrev pub first_list : List EndpointResult → List Text → AddressList
  first_list [] aliases = record { endpoints = []; dns_aliases = [] }
  first_list (e ∷ es) aliases =
      set_dns_aliases aliases (record { endpoints = e.ip_endpoints; dns_aliases = [] })

  find_authority-first :
      (es : List EndpointResult) (aliases : List Text)
      → endpoint_result_to_address_list set_dns_aliases es aliases
        ≡ first_list (authorities es) aliases
  unfolding endpoint_result_to_address_list find_authority authorities
  find_authority-first [] aliases = refl
  find_authority-first (e ∷ es) aliases = elim (Bool-cases e.is_alternative) [
    | inl other ↦ rw (other, find_authority, authorities) (find_authority-first es aliases)
    | inr first ↦ rw (first, find_authority, authorities) refl
  ]

  -- Whatever SetDnsAliases does: alternative endpoints play no part. The list has the endpoints of the
  -- first of the other ones, and the aliases that SetDnsAliases then sets, once, from all those given;
  -- and it is empty, without aliases, if every endpoint is an alternative.
  pub endpoint_result-authorities :
      (es : List EndpointResult) (aliases : List Text)
      → (endpoint_result_to_address_list set_dns_aliases es aliases
          ≡ first_list (authorities es) aliases)
        × (endpoint_result_to_address_list set_dns_aliases (authorities es) aliases
            ≡ endpoint_result_to_address_list set_dns_aliases es aliases)
  endpoint_result-authorities es aliases = (
    find_authority-first es aliases,
    find_authority-first (authorities es) aliases
        ∙ ap (λ x. first_list x aliases) (authorities-authorities es)
        ∙ sym (find_authority-first es aliases),
  )

-- The flags that the parameters of a request give never rule NAT64 out: with them it may be used for
-- exactly the valid IPv4 literals of a request that is not local only.
pub nat64_of_parameters :
    (p : ResolveHostParameters) (is_local_only : Bool) (a : IpAddress)
    → may_use_nat64_for_ipv4_literal (parameters_to_host_resolver_flags p) is_local_only a
      ≡ ((a.is_valid && a.is_ipv4) && not is_local_only)
unfolding may_use_nat64_for_ipv4_literal parameters_to_host_resolver_flags
nat64_of_parameters p is_local_only a = ground arith
