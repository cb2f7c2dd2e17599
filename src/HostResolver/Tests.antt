-- ===== src/HostResolver/Tests.antt =====
-- The theorems on HostResolver (muim/screen/host_resolver.cpp) at concrete hosts, options and results.
use tor_onion.Common.{
  arith, if◌then◌else◌, ℕ, ◌≡◌, refl, true, false, Option, none, some, List, [], ◌∷◌, ◌++◌,
}
use tor_onion.HostResolver.{
  Host, host_port_pair, scheme_host_port, Printing, Dict, OptionKey, AddressList, HttpsSvcbOptions,
  from_dict, from_features, ErrorCodes, EndpointResult, endpoint_result_to_address_list,
  ResolveHostParameters,
}
use tor_onion.HostResolver.Names.{from_dict-from_features, is_time, Prints}
use tor_onion.HostResolver.Creation.{
  ManagerOptions, no_overrides, create_standalone_resolver, create_resolver, owned, manager_of,
  depth, standalone-create_resolver,
}
use tor_onion.HostResolver.Answers.{authorities, first_list, endpoint_result-authorities}

-- Every literal is put in brackets here.
abbrev printing : Printing
printing = record {
  serialize = λ s h p. s ++ h;
  pair_to_string = λ h p. h;
  host_for_url = λ h. 91 ∷ (h ++ (93 ∷ []));
}

-- "::1" and port 80.
abbrev pair : Host
pair = host_port_pair (58 ∷ 58 ∷ 49 ∷ []) 80

abbrev full : Host
full = scheme_host_port [] (91 ∷ 58 ∷ 58 ∷ 49 ∷ 93 ∷ []) 80

abbrev options : HttpsSvcbOptions
options = record {
  insecure_extra_time_max = 1;
  insecure_extra_time_percent = 2;
  insecure_extra_time_min = 3;
  secure_extra_time_max = 4;
  secure_extra_time_percent = 5;
  secure_extra_time_min = 6;
}

abbrev first : List ℕ → Option ℕ
first [] = none
first (x ∷ xs) = some x

-- Every time is 7, every percentage 20.
abbrev chosen : OptionKey → ℕ
chosen k = if is_time k then 7 else 20

abbrev chosen_dict : Dict
chosen_dict = record {
  find_string = λ k. if is_time k then some (7 ∷ []) else none;
  find_int = λ k. if is_time k then none else some 20;
  time_delta_from_string = first;
  one_kind = λ k. ground arith;
}

abbrev nothing : Dict
nothing = record {
  find_string = λ k. none;
  find_int = λ k. none;
  time_delta_from_string = first;
  one_kind = λ k e. refl;
}

chosen-Prints : Prints chosen_dict chosen
chosen-Prints = record {
  as_text = λ k time. (7 ∷ [], rw time refl, rw time refl);
  as_int = λ k percent. rw percent refl;
}

from_dict-from_features_example :
    (from_dict options chosen_dict ≡ from_features chosen) × (from_dict options nothing ≡ options)
from_dict-from_features_example =
    from_dict-from_features options chosen_dict nothing chosen chosen-Prints (λ k. refl) (λ k. refl)

abbrev manager_options : ManagerOptions
manager_options = record {
  insecure_dns_client_enabled = true;
  additional_types_via_insecure_dns_enabled = false;
  dns_config_overrides = no_overrides;
}

standalone-create_resolver_example :
    (create_standalone_resolver manager_options 1 none (42 ∷ []) true false
      ≡ create_resolver (owned manager_options 1) (42 ∷ []) true false)
    × (manager_of (create_standalone_resolver manager_options 1 none (42 ∷ []) true false)
        ≡ owned manager_options 1)
    × (depth (create_standalone_resolver manager_options 1 none (42 ∷ []) true false)
        ≡ (false, true))
standalone-create_resolver_example =
    standalone-create_resolver manager_options 1 none (42 ∷ []) true false

abbrev codes : ErrorCodes
codes = record {
  ok = 0;
  io_pending = 1;
  internet_disconnected = 106;
  name_not_resolved = 105;
  dns_name_https_only = 811;
}

abbrev endpoints : List EndpointResult
endpoints =
    record { ip_endpoints = 1 ∷ []; is_alternative = true }
    ∷ record { ip_endpoints = 2 ∷ 3 ∷ []; is_alternative = false }
    ∷ []

-- The aliases are kept as they are.
abbrev keep_aliases : List (List ℕ) → AddressList → AddressList
keep_aliases aliases l = record l { dns_aliases = aliases }

endpoint_result-authorities_example :
    (endpoint_result_to_address_list keep_aliases endpoints ((9 ∷ []) ∷ [])
      ≡ first_list keep_aliases (authorities endpoints) ((9 ∷ []) ∷ []))
    × (endpoint_result_to_address_list keep_aliases (authorities endpoints) ((9 ∷ []) ∷ [])
        ≡ endpoint_result_to_address_list keep_aliases endpoints ((9 ∷ []) ∷ []))
endpoint_result-authorities_example =
    endpoint_result-authorities keep_aliases endpoints ((9 ∷ []) ∷ [])

abbrev parameters : ResolveHostParameters
parameters = record {
  include_canonical_name = true;
  loopback_only = false;
  avoid_multicast_resolution = true;
}
