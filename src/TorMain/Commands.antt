-- ===== src/TorMain/Commands.antt =====
-- app/startup/main.c: the commands that print, dump or make keys. A command returns its result, and
-- what it prints, writes and frees.
use Prim.Native.String.{String}
use text.Mathlib.Text.{◌==◌}
use tor_onion.Common.{Bool, not, ◌&&◌, ◌||◌, Option, none, some, List, [], ◌∷◌, ◌++◌, if◌then◌else◌}
use tor_onion.Common.Int.{ℤ, pos, negsuc}
use tor_onion.TorMain.Hup.{when_}

-- do_dump_config: the form of the dump, or none for an argument that is not known.
pub data DumpHow : Type 0 where
  options_dump_minimal options_dump_all : DumpHow

unfoldable pub do_dump_config : String → ℤ × Option DumpHow
do_dump_config arg =
    if arg == "short"
    then (pos 0, some options_dump_minimal)
    else if arg == "non-builtin"
    then (pos 0, some options_dump_minimal)
    else if arg == "full"
    then (pos 0, some options_dump_all)
    else (negsuc 0, none)

-- What do_list_fingerprint meets: init_keys, get_server_identity_key, crypto_pk_get_fingerprint and
-- get_master_identity_key succeed.
pub record KeyAnswers : Type 0 where
  pub server_mode : Bool
  pub nickname : Bool
  pub init_keys_ok : Bool
  pub has_server_identity_key : Bool
  pub fingerprint_ok : Bool
  pub has_master_identity_key : Bool

pub data Printed : Type 0 where
  rsa_fingerprint ed25519_identity : Printed

abbrev show_rsa : String → Bool
show_rsa arg = arg == "" || arg == "rsa"

abbrev show_ed25519 : String → Bool
show_ed25519 arg = arg == "ed25519"

-- `none` is the assertion on the nickname.
pub do_list_fingerprint : String → KeyAnswers → Option (ℤ × List Printed)
do_list_fingerprint arg k =
    if not (show_rsa arg) && not (show_ed25519 arg)
    then some (negsuc 0, [])
    else if not k.server_mode
    then some (negsuc 0, [])
    else if not k.nickname
    then none
    else if not k.init_keys_ok
    then some (negsuc 0, [])
    else if not k.has_server_identity_key
    then some (negsuc 0, [])
    else if not k.fingerprint_ok
    then some (negsuc 0, [])
    else if not k.has_master_identity_key
    then some (negsuc 0, [])
    else some
        (pos 0, when_ (show_rsa arg) rsa_fingerprint ++ when_ (show_ed25519 arg) ed25519_identity)

-- What the two key generators do. Freeing a NULL pointer does nothing and is not listed.
pub data KeyEffect : Type 0 where
  creates_family_key writes_family_id prints_family_id : KeyEffect
  frees_key_name frees_id_name frees_contents : KeyEffect
  generates_keypair writes_keypair prints_saved wipes_keypair : KeyEffect

-- `create_ok` and `write_ok` are that create_family_id_key and write_str_to_file succeed.
pub do_keygen_family : Bool → Bool → Bool → ℤ × List KeyEffect
do_keygen_family has_name create_ok write_ok =
    if not has_name
    then (negsuc 0, [])
    else if not create_ok
    then (negsuc 0, frees_key_name ∷ frees_id_name ∷ [])
    else if not write_ok
    then (negsuc 0, creates_family_key ∷ frees_key_name ∷ frees_id_name ∷ frees_contents ∷ [])
    else (
      pos 0,
      creates_family_key ∷ writes_family_id ∷ prints_family_id ∷ frees_key_name ∷ frees_id_name
          ∷ frees_contents ∷ [],
    )

pub do_keygen_onion_key : Bool → Bool → Bool → ℤ × List KeyEffect
do_keygen_onion_key has_name generate_ok write_ok =
    if not has_name
    then (negsuc 0, wipes_keypair ∷ [])
    else if not generate_ok
    then (negsuc 0, wipes_keypair ∷ [])
    else if not write_ok
    then (negsuc 0, generates_keypair ∷ wipes_keypair ∷ [])
    else (pos 0, generates_keypair ∷ writes_keypair ∷ prints_saved ∷ wipes_keypair ∷ [])
