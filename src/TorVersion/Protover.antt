-- ===== src/TorVersion/Protover.antt =====
-- networking/lib/version.c: what a list of subprotocols supports, remembered for each list in a map.
-- The lists are read by core/or/protover.c, which the repository does not hold: `supports` and
-- `supports_or_later` answer for a list, a protocol and a capability. The map is
-- MountPoints/SortedMap, with `none` for a pointer that is NULL.
pub mod Transparent
use tor_onion.Common.{
  ℕ, Bool, true, false, not, ◌&&◌, ◌||◌, Option, none, some, List, [], ◌∷◌, leb, if◌then◌else◌,
  value_or, is_some, length, is_empty, ◌>>=◌,
}
use tor_onion.MountPoints.Lex.{Bytes, is_prefix}
use tor_onion.MountPoints.SortedMap.{lookup, put}
use tor_onion.TorVersion.{Version, Scanner, tor_version_as_new_as, tor_prefix}

-- PRT_*.
pub data Protocol : Type 0 where
  link_auth relay hs_intro hs_rend hs_dir padding flow_ctrl conflux : Protocol

-- PROTOVER_*.
pub data Capability : Type 0 where
  ed25519_handshake extend2 accept_ipv6 extend_ipv6 canonical_ipv6 intro_v3 intro_dos : Capability
  rendezvous_point_v3 hsdir_v3 hs_setup_padding flow_cc ntor_v3 conflux_v1 negotiate_subproto :
      Capability
  crypt_cgo : Capability

-- protover_summary_flags_t.
pub record Summary : Type 0 where
  pub protocols_known : Bool
  pub supports_ed25519_link_handshake_compat : Bool
  pub supports_ed25519_link_handshake_any : Bool
  pub supports_extend2_cells : Bool
  pub supports_accepting_ipv6_extends : Bool
  pub supports_initiating_ipv6_extends : Bool
  pub supports_canonical_ipv6_conns : Bool
  pub supports_ed25519_hs_intro : Bool
  pub supports_establish_intro_dos_extension : Bool
  pub supports_v3_rendezvous_point : Bool
  pub supports_v3_hsdir : Bool
  pub supports_hs_setup_padding : Bool
  pub supports_congestion_control : Bool
  pub supports_conflux : Bool
  pub supports_ntor_v3 : Bool
  pub supports_cgo : Bool

-- memset(out, 0, sizeof(*out)).
pub no_flags : Summary
no_flags = record {
  protocols_known = false;
  supports_ed25519_link_handshake_compat = false;
  supports_ed25519_link_handshake_any = false;
  supports_extend2_cells = false;
  supports_accepting_ipv6_extends = false;
  supports_initiating_ipv6_extends = false;
  supports_canonical_ipv6_conns = false;
  supports_ed25519_hs_intro = false;
  supports_establish_intro_dos_extension = false;
  supports_v3_rendezvous_point = false;
  supports_v3_hsdir = false;
  supports_hs_setup_padding = false;
  supports_congestion_control = false;
  supports_conflux = false;
  supports_ntor_v3 = false;
  supports_cgo = false;
}

pub record ProtocolLists : Type 0 where
  pub supports : Bytes → Protocol → Capability → Bool
  pub supports_or_later : Bytes → Protocol → Capability → Bool

-- protover_summary_map.
abbrev pub SummaryMap : Type 0
SummaryMap = Option (List (Bytes × Summary))

abbrev pub max_protover_summary_map_len : ℕ
max_protover_summary_map_len = 1024

pub protover_summary_cache_free_all : SummaryMap → SummaryMap
protover_summary_cache_free_all m = none

-- strmap_new after the assertion that there is no map.
pub new_summary_map : SummaryMap → Option (List (Bytes × Summary))
new_summary_map none = some []
new_summary_map (some m) = none

-- The map that is searched: a new one if there is none, or if the old one was full.
pub map_with_room : SummaryMap → Option (List (Bytes × Summary))
unfolding protover_summary_cache_free_all new_summary_map
map_with_room m =
    let m1 = value_or m [] in
    if leb max_protover_summary_map_len (length m1)
    then new_summary_map (protover_summary_cache_free_all (some m1))
    else some m1

module _ (lists : ProtocolLists) where
  pub summary_of : Bytes → Summary
  summary_of protocols =
      let has = lists.supports protocols in
      record {
        protocols_known = true;
        supports_ed25519_link_handshake_compat = has link_auth ed25519_handshake;
        supports_ed25519_link_handshake_any =
            lists.supports_or_later protocols link_auth ed25519_handshake;
        supports_extend2_cells = has relay extend2;
        supports_accepting_ipv6_extends = has relay accept_ipv6 || has relay extend_ipv6;
        supports_initiating_ipv6_extends = has relay extend_ipv6;
        supports_canonical_ipv6_conns = has relay canonical_ipv6;
        supports_ed25519_hs_intro = has hs_intro intro_v3;
        supports_establish_intro_dos_extension = has hs_intro intro_dos;
        supports_v3_rendezvous_point = has hs_rend rendezvous_point_v3;
        supports_v3_hsdir = has hs_dir hsdir_v3;
        supports_hs_setup_padding = has padding hs_setup_padding;
        supports_congestion_control = has flow_ctrl flow_cc && has relay ntor_v3;
        supports_conflux = has flow_ctrl flow_cc && has conflux conflux_v1;
        supports_ntor_v3 = has relay ntor_v3;
        supports_cgo = has flow_ctrl flow_cc && has relay negotiate_subproto && has relay crypt_cgo;
      }

  -- strmap_set answers what the map held for the list; the assertion that this is NULL is the test,
  -- and `none` is that it fails.
  pub remember_summary : Bytes → List (Bytes × Summary) → Option (Summary × SummaryMap)
  unfolding summary_of lookup put
  remember_summary protocols m =
      let out = summary_of protocols in
      if is_some (lookup protocols m) then none else some (out, some (put protocols out m))

  -- The summary that the map holds, or a new one. `none` is an assertion that fails.
  pub find_or_remember : Bytes → List (Bytes × Summary) → Option (Summary × SummaryMap)
  unfolding remember_summary lookup
  find_or_remember protocols m = elim (lookup protocols m) [
    | some cached ↦ if cached.protocols_known then some (cached, some m) else none
    | none ↦ remember_summary protocols m
  ]

  pub memoize_protover_summary : Bytes → SummaryMap → Option (Summary × SummaryMap)
  unfolding find_or_remember map_with_room
  memoize_protover_summary protocols m = map_with_room m >>= λ m1. find_or_remember protocols m1

module _ (lists : ProtocolLists) (as_new_as : Bytes → Bytes → Bool) where
  -- The filter by version; "0.2.4.8-alpha" and "0.3.0.8" are the cutoffs.
  pub filter_by_version : Bytes → Summary → Summary
  filter_by_version version out =
      if not out.protocols_known
      then record out {
        supports_extend2_cells =
            as_new_as version
              (48 ∷ 46 ∷ 50 ∷ 46 ∷ 52 ∷ 46 ∷ 56 ∷ 45 ∷ 97 ∷ 108 ∷ 112 ∷ 104 ∷ 97 ∷ []);
        protocols_known = true;
      }
      else if not (as_new_as version (48 ∷ 46 ∷ 51 ∷ 46 ∷ 48 ∷ 46 ∷ 56 ∷ []))
      then record out { supports_v3_hsdir = false }
      else out

  abbrev pub is_tor_version : Bytes → Bool
  unfolding is_prefix
  is_tor_version version = not (is_empty version) && is_prefix tor_prefix version

  abbrev pub filter_if_tor : Option Bytes → Summary → Summary
  unfolding filter_by_version
  filter_if_tor none out = out
  filter_if_tor (some version) out =
      if is_tor_version version then filter_by_version version out else out

  abbrev pub memoize_if : Option Bytes → SummaryMap → Option (Summary × SummaryMap)
  unfolding memoize_protover_summary no_flags
  memoize_if none m = some (no_flags, m)
  memoize_if (some protocols) m =
      if is_empty protocols then some (no_flags, m) else memoize_protover_summary lists protocols m

  pub summarize_protover_flags :
      Option Bytes → Option Bytes → SummaryMap → Option (Summary × SummaryMap)
  summarize_protover_flags protocols version m =
      memoize_if protocols m >>= λ (out, m'). some (filter_if_tor version out, m')
