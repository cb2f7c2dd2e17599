-- ===== src/HostResolver/Creation.antt =====
-- How muim/screen/host_resolver.cpp puts resolvers together.
use tor_onion.Common.{
  ℕ, ◌≡◌, Bool, true, false, not, ◌&&◌, Option, none, some, List, if◌then◌else◌, is_empty, is_some,
  value_or, arith,
}
use tor_onion.HostResolver.{Text}

-- DnsConfigOverrides: everything by default, with what a network says.
pub record DnsServers : Type 0 where
  pub nameservers : List ℕ
  pub dns_over_tls_active : Bool
  pub dns_over_tls_hostname : Text
  pub search : List Text

pub data DnsConfigOverrides : Type 0 where
  no_overrides : DnsConfigOverrides
  overriding_everything : DnsServers → DnsConfigOverrides

pub record ManagerOptions : Type 0 where
  pub insecure_dns_client_enabled : Bool
  pub additional_types_via_insecure_dns_enabled : Bool
  pub dns_config_overrides : DnsConfigOverrides

-- A manager that is shared, owned, or bound to a network.
pub data Manager : Type 0 where
  shared : ℕ → Manager
  owned : ManagerOptions → ℕ → Manager
  network_bound : ManagerOptions → ℕ → ℕ → Manager

pub data Resolver : Type 0 where
  context_resolver : Manager → Bool → Resolver
  stale_resolver : Resolver → Resolver
  mapped_resolver : Text → Resolver → Resolver

pub create_resolver : Manager → Text → Bool → Bool → Resolver
create_resolver manager host_mapping_rules enable_caching enable_stale =
    let context = context_resolver manager enable_caching in
    let resolver = if enable_stale then stale_resolver context else context in
    if not (is_empty host_mapping_rules)
    then mapped_resolver host_mapping_rules resolver
    else resolver

-- `defaults` is ManagerOptions().
pub create_standalone_context_resolver :
    ManagerOptions → ℕ → Option ManagerOptions → Bool → Resolver
create_standalone_context_resolver defaults net_log options enable_caching =
    context_resolver (owned (value_or options defaults) net_log) enable_caching

pub create_standalone_resolver :
    ManagerOptions → ℕ → Option ManagerOptions → Text → Bool → Bool → Resolver
unfolding create_standalone_context_resolver
create_standalone_resolver defaults net_log options rules enable_caching enable_stale =
    let context = create_standalone_context_resolver defaults net_log options enable_caching in
    let resolver = if enable_stale then stale_resolver context else context in
    if not (is_empty rules) then mapped_resolver rules resolver else resolver

-- The options of a manager bound to a network on Android: `has_sdk` is that the system is recent
-- enough, `servers` what GetDnsServersForNetwork gives.
pub network_bound_options : ManagerOptions → Bool → Option DnsServers → ManagerOptions
network_bound_options o has_sdk none = record o { insecure_dns_client_enabled = false }
network_bound_options o has_sdk (some s) =
    if o.insecure_dns_client_enabled && has_sdk
    then record o {
      dns_config_overrides = overriding_everything s;
      additional_types_via_insecure_dns_enabled = not s.dns_over_tls_active;
      insecure_dns_client_enabled = true;
    }
    else record o { insecure_dns_client_enabled = false }

-- `none` is the null pointer, off Android.
pub create_standalone_network_bound_resolver :
    Bool
    → ManagerOptions
    → Bool
    → (ℕ → Option DnsServers)
    → ℕ
    → ℕ
    → Option ManagerOptions
    → Bool
    → Option Resolver
unfolding network_bound_options
create_standalone_network_bound_resolver is_android defaults has_sdk servers_of net_log network
      options enable_caching =
    if is_android
    then some (
        context_resolver
          (network_bound
            (network_bound_options (value_or options defaults) has_sdk (servers_of network)) network
            net_log)
          enable_caching)
    else none

-- What the servers of a network override, if they are known.
abbrev pub overriding_by : Option DnsServers → DnsConfigOverrides → DnsConfigOverrides
overriding_by none d = d
overriding_by (some s) d = overriding_everything s

-- Looking through the layers.
pub manager_of : Resolver → Manager
manager_of (context_resolver m c) = m
manager_of (stale_resolver r) = manager_of r
manager_of (mapped_resolver rules r) = manager_of r

pub depth : Resolver → Bool × Bool
depth (context_resolver m c) = (false, false)
depth (stale_resolver r) = (true, (depth r).1)
depth (mapped_resolver rules r) = ((depth r).0, true)

-- A standalone resolver is the resolver over a manager of its own, made with the options given or
-- the default ones. Either has a stale layer exactly if it was asked for and a mapping layer exactly
-- if there are rules.
pub standalone-create_resolver :
    (defaults : ManagerOptions) (net_log : ℕ) (options : Option ManagerOptions) (rules : Text)
    (enable_caching enable_stale : Bool)
    → let r =
        create_standalone_resolver defaults net_log options rules enable_caching enable_stale in
      let m = owned (value_or options defaults) net_log in
      (r ≡ create_resolver m rules enable_caching enable_stale)
      × (manager_of r ≡ m)
      × (depth r ≡ (enable_stale, not (is_empty rules)))
unfolding create_standalone_resolver create_resolver manager_of depth
standalone-create_resolver defaults net_log options rules enable_caching enable_stale = ground arith

-- On Android the manager bound to a network uses the built-in client exactly if the options ask for
-- it, the system is recent enough and the servers of the network are known; only then do the
-- servers of the network override the configuration.
pub network_bound_options_lem :
    (o : ManagerOptions) (has_sdk : Bool) (servers : Option DnsServers)
    → let n = network_bound_options o has_sdk servers in
      let uses = o.insecure_dns_client_enabled && (has_sdk && is_some servers) in
      (n.insecure_dns_client_enabled ≡ uses)
      × (n.dns_config_overrides
          ≡ (if uses then overriding_by servers o.dns_config_overrides else o.dns_config_overrides))
unfolding network_bound_options
network_bound_options_lem o has_sdk none = ground arith
network_bound_options_lem o has_sdk (some s) = ground arith
