-- ===== src/HostResolver.antt =====
-- muim/screen/host_resolver.cpp: HostResolver, the hosts it is asked for, the parameters of a request
-- and what is made of its results. Strings are lists of bytes. A NOTREACHED is `none`.
pub mod Creation
pub mod Names
pub mod Answers
mod Tests
use tor_onion.Common.{
  ℕ, ◌≡◌, ◌≢◌, Bool, true, false, not, ◌&&◌, ◌||◌, Option, none, some, List, [], ◌∷◌, ◌++◌, ◌==◌,
  ltb, if◌then◌else◌, is_empty, length, value_or, is_some, take, ◌-◌, suc,
}

abbrev pub Text : Type 0
Text = List ℕ

-- HostResolver::Host: a url::SchemeHostPort or a HostPortPair.
pub data Host : Type 0 where
  scheme_host_port : Text → Text → ℕ → Host
  host_port_pair : Text → ℕ → Host

-- What the two classes print.
pub record Printing : Type 0 where
  pub serialize : Text → Text → ℕ → Text
  pub pair_to_string : Text → ℕ → Text
  pub host_for_url : Text → Text

pub has_scheme : Host → Bool
has_scheme (scheme_host_port s h p) = true
has_scheme (host_port_pair h p) = false

-- std::get on the other alternative throws.
pub get_scheme : Host → Option Text
get_scheme (scheme_host_port s h p) = some s
get_scheme (host_port_pair h p) = none

pub get_hostname : Printing → Host → Text
get_hostname pr (scheme_host_port s h p) = h
get_hostname pr (host_port_pair h p) = pr.host_for_url h

abbrev pub open_bracket : ℕ
open_bracket = 91

abbrev pub close_bracket : ℕ
close_bracket = 93

abbrev front : Text → ℕ
front [] = 0
front (c ∷ cs) = c

abbrev back : Text → ℕ
back [] = 0
back (c ∷ []) = c
back (c ∷ d ∷ cs) = back (d ∷ cs)

abbrev tail : Text → Text
tail [] = []
tail (c ∷ cs) = cs

pub without_brackets : Text → Text
without_brackets hostname =
    if ltb 2 (length hostname)
      && ((front hostname == open_bracket) && (back hostname == close_bracket))
    then take (length hostname - 2) (tail hostname)
    else hostname

pub get_hostname_without_brackets : Host → Text
unfolding without_brackets
get_hostname_without_brackets (scheme_host_port s h p) = without_brackets h
get_hostname_without_brackets (host_port_pair h p) = h

pub get_port : Host → ℕ
get_port (scheme_host_port s h p) = p
get_port (host_port_pair h p) = p

pub to_string : Printing → Host → Text
to_string pr (scheme_host_port s h p) = pr.serialize s h p
to_string pr (host_port_pair h p) = pr.pair_to_string h p

-- The keys of a dictionary of options.
pub data OptionKey : Type 0 where
  insecure_extra_time_max_key insecure_extra_time_percent_key insecure_extra_time_min_key :
      OptionKey
  secure_extra_time_max_key secure_extra_time_percent_key secure_extra_time_min_key : OptionKey

pub record HttpsSvcbOptions : Type 0 where
  pub insecure_extra_time_max : ℕ
  pub insecure_extra_time_percent : ℕ
  pub insecure_extra_time_min : ℕ
  pub secure_extra_time_max : ℕ
  pub secure_extra_time_percent : ℕ
  pub secure_extra_time_min : ℕ

-- base::DictValue and base::TimeDeltaFromString. What a key holds is of one kind.
pub record Dict : Type 0 where
  pub find_string : OptionKey → Option Text
  pub find_int : OptionKey → Option ℕ
  pub time_delta_from_string : Text → Option ℕ
  pub one_kind : (k : OptionKey) → is_some (find_string k) ≡ true → find_int k ≡ none

pub time_delta_from_dict : Dict → OptionKey → ℕ → ℕ
time_delta_from_dict d key out = elim (d.find_string key) [
  | none ↦ out
  | some t ↦ value_or (d.time_delta_from_string t) out
]

-- `defaults` are the ones that the class declaration gives.
pub from_dict : HttpsSvcbOptions → Dict → HttpsSvcbOptions
unfolding time_delta_from_dict
from_dict defaults d = record {
  insecure_extra_time_max =
      time_delta_from_dict d insecure_extra_time_max_key defaults.insecure_extra_time_max;
  insecure_extra_time_percent =
      value_or (d.find_int insecure_extra_time_percent_key) defaults.insecure_extra_time_percent;
  insecure_extra_time_min =
      time_delta_from_dict d insecure_extra_time_min_key defaults.insecure_extra_time_min;
  secure_extra_time_max =
      time_delta_from_dict d secure_extra_time_max_key defaults.secure_extra_time_max;
  secure_extra_time_percent =
      value_or (d.find_int secure_extra_time_percent_key) defaults.secure_extra_time_percent;
  secure_extra_time_min =
      time_delta_from_dict d secure_extra_time_min_key defaults.secure_extra_time_min;
}

-- The parameters of the features, by the same keys.
pub from_features : (OptionKey → ℕ) → HttpsSvcbOptions
from_features get = record {
  insecure_extra_time_max = get insecure_extra_time_max_key;
  insecure_extra_time_percent = get insecure_extra_time_percent_key;
  insecure_extra_time_min = get insecure_extra_time_min_key;
  secure_extra_time_max = get secure_extra_time_max_key;
  secure_extra_time_percent = get secure_extra_time_percent_key;
  secure_extra_time_min = get secure_extra_time_min_key;
}

-- The query types that the code asks a set for.
pub record DnsQueryTypeSet : Type 0 where
  pub has_a : Bool
  pub has_aaaa : Bool

pub data AddressFamily : Type 0 where
  unspecified ipv4 ipv6 : AddressFamily

pub dns_query_type_set_to_address_family : DnsQueryTypeSet → AddressFamily
dns_query_type_set_to_address_family q =
    if q.has_a && q.has_aaaa then unspecified else if q.has_aaaa then ipv6 else ipv4

-- HostResolverFlags: each flag is a bit of its own.
pub record HostResolverFlags : Type 0 where
  pub canonname : Bool
  pub loopback_only : Bool
  pub avoid_multicast : Bool
  pub default_family_set_due_to_no_ipv6 : Bool

pub record ResolveHostParameters : Type 0 where
  pub include_canonical_name : Bool
  pub loopback_only : Bool
  pub avoid_multicast_resolution : Bool

pub parameters_to_host_resolver_flags : ResolveHostParameters → HostResolverFlags
parameters_to_host_resolver_flags p =
    let flags0 : HostResolverFlags = record {
      canonname = false;
      loopback_only = false;
      avoid_multicast = false;
      default_family_set_due_to_no_ipv6 = false;
    } in
    let flags1 : HostResolverFlags =
      if p.include_canonical_name then record flags0 { canonname = true } else flags0 in
    let flags2 : HostResolverFlags =
      if p.loopback_only then record flags1 { loopback_only = true } else flags1 in
    if p.avoid_multicast_resolution then record flags2 { avoid_multicast = true } else flags2

-- net/base/net_errors.h.
pub record ErrorCodes : Type 0 where
  pub ok : ℕ
  pub io_pending : ℕ
  pub internet_disconnected : ℕ
  pub name_not_resolved : ℕ
  pub dns_name_https_only : ℕ

pub squash_error_code : ErrorCodes → ℕ → ℕ
squash_error_code c error =
    if (error == c.ok)
      || ((error == c.io_pending)
          || ((error == c.internet_disconnected)
              || ((error == c.name_not_resolved) || (error == c.dns_name_https_only))))
    then error
    else c.name_not_resolved

pub record EndpointResult : Type 0 where
  pub ip_endpoints : List ℕ
  pub is_alternative : Bool

pub record AddressList : Type 0 where
  pub endpoints : List ℕ
  pub dns_aliases : List Text

-- std::ranges::find_if_not.
pub find_authority : List EndpointResult → Option EndpointResult
find_authority [] = none
find_authority (e ∷ es) = if e.is_alternative then find_authority es else some e

-- `aliases` is a std::set, the list of its elements in order. AddressList::SetDnsAliases, which is not in
-- the repository, is `set_dns_aliases`.
module _ (set_dns_aliases : List Text → AddressList → AddressList) where
  pub endpoint_result_to_address_list : List EndpointResult → List Text → AddressList
  unfolding find_authority
  endpoint_result_to_address_list es aliases = elim (find_authority es) [
    | none ↦ record { endpoints = []; dns_aliases = [] }
    | some e ↦ set_dns_aliases aliases (record { endpoints = e.ip_endpoints; dns_aliases = [] })
  ]

pub record IpAddress : Type 0 where
  pub is_valid : Bool
  pub is_ipv4 : Bool

pub may_use_nat64_for_ipv4_literal : HostResolverFlags → Bool → IpAddress → Bool
may_use_nat64_for_ipv4_literal flags is_local_only address =
    not flags.default_family_set_due_to_no_ipv6
    && (address.is_valid && (address.is_ipv4 && not is_local_only))

-- FailingRequestImpl and FailingServiceEndpointRequestImpl: an error and no result.
pub record FailingRequest : Type 0 where
  pub error : ℕ

pub create_failing_request : ℕ → FailingRequest
create_failing_request error = record { error = error }

pub start_request : FailingRequest → ℕ
start_request r = r.error

pub get_address_results : FailingRequest → AddressList
get_address_results r = record { endpoints = []; dns_aliases = [] }

pub get_endpoint_results : FailingRequest → List EndpointResult
get_endpoint_results r = []

pub get_dns_alias_results : FailingRequest → List Text
get_dns_alias_results r = []

pub get_resolve_error_info : FailingRequest → ℕ
get_resolve_error_info r = r.error

pub endpoints_crypto_ready : FailingRequest → Bool
endpoints_crypto_ready r = false

pub change_request_priority : FailingRequest → ℕ → FailingRequest
change_request_priority r priority = r

-- The base class answers these requests by aborting.
pub data BaseCall : Type 0 where
  create_doh_probe_request create_mdns_listener set_request_context : BaseCall
  get_manager_for_testing get_context_for_testing : BaseCall

pub base_call : BaseCall → Option ℕ
base_call c = none

-- With the feature the runner of the priority, and else the current one.
pub get_task_runner : Bool → (ℕ → ℕ) → ℕ → ℕ → ℕ
get_task_runner is_enabled runner_of current priority =
    if is_enabled then runner_of priority else current
