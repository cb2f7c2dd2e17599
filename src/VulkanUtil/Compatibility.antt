-- ===== src/VulkanUtil/Compatibility.antt =====
-- app/gpu/vulkan_util.cpp: CheckVulkanCompatibilities. What the base library, RE2 and the Vulkan headers
-- give is the record `Library`; what base::android and GPUInfo answer are records of the device.
pub mod Newer
use Prim.Native.Char.{code}
use Prim.Native.String.{String}
use text.Mathlib.Text.{◌==◌}
use tor_onion.Common.{
  ℕ, zero, suc, Bool, true, false, not, ◌&&◌, ◌||◌, Option, none, some, List, [], ◌∷◌, ltb,
  if◌then◌else◌,
}
use tor_onion.Common.Int.{ℤ, pos, negsuc}
use tor_onion.VulkanUtil.{same_number}

-- base::SplitString at "|", base::MatchPattern, base::StartsWith, RE2::FullMatch, sscanf with "%d.",
-- gfx::HasExtension on a list of extensions, and the numbers that the headers define.
pub record Library : Type 0 where
  pub split_string : String → List String
  pub match_pattern : String → String → Bool
  pub starts_with : String → String → Bool
  pub full_match : String → String → Bool
  pub scan_version : String → Option ℤ
  pub has_extension : String → String → Bool
  pub make_version : ℕ → ℕ → ℕ → ℕ
  pub vendor_arm : ℕ
  pub vendor_qualcomm : ℕ
  pub vendor_imagination : ℕ
  pub vendor_google : ℕ
  pub vendor_intel : ℕ
  pub device_swift_shader : ℕ

-- What base::android tells of the device.
pub record BuildInfo : Type 0 where
  pub manufacturer : String
  pub version_incremental : String
  pub hardware : String
  pub brand : String
  pub device : String
  pub board : String
  pub vulkan_deqp_level : ℤ

-- VulkanPhysicalDeviceProperties.
pub record DeviceProperties : Type 0 where
  pub driver_version : ℕ
  pub vendor_id : ℕ
  pub device_id : ℕ
  pub device_name : String

-- GPUInfo, as far as it is read.
pub record GpuInfo : Type 0 where
  pub gl_extensions : String
  pub gl_renderer : String
  pub gpu_driver_version : String

-- `a < k`, for a constant that is positive.
pub is_below : ℤ → ℕ → Bool
is_below (pos n) k = ltb n k
is_below (negsuc n) k = true

-- remove_prefix, and substr up to the first space.
pub remove_prefix : ℕ → String → String
remove_prefix zero s = s
remove_prefix (suc n) String.[] = String.[]
remove_prefix (suc n) (String.◌∷◌ c s) = remove_prefix n s

pub before_space : String → String
before_space String.[] = String.[]
before_space (String.◌∷◌ c s) =
    let rest = before_space s in if same_number (code c) 32 then String.[] else String.◌∷◌ c rest

abbrev pub slow_gpus : List String
slow_gpus = "2??" ∷ "3??" ∷ "4??" ∷ "T???" ∷ "G31" ∷ "G51" ∷ "G52" ∷ []

-- What the code is built for: Windows, Fuchsia, Linux (with OZONE_PLATFORM_IS_X11 or not), or another.
pub data BuildTarget : Type 0 where
  windows fuchsia other_platform : BuildTarget
  linux : Bool → BuildTarget

pub memory_object_extension : BuildTarget → String
memory_object_extension windows = "GL_EXT_memory_object_win32"
memory_object_extension fuchsia = "GL_ANGLE_memory_object_fuchsia"
memory_object_extension other_platform = "GL_EXT_memory_object_fd"
memory_object_extension (linux x11) = "GL_EXT_memory_object_fd"

pub semaphore_extension : BuildTarget → String
semaphore_extension windows = "GL_EXT_semaphore_win32"
semaphore_extension fuchsia = "GL_ANGLE_semaphore_fuchsia"
semaphore_extension other_platform = "GL_EXT_semaphore_fd"
semaphore_extension (linux x11) = "GL_EXT_semaphore_fd"

abbrev pub is_plain_linux : BuildTarget → Bool
is_plain_linux (linux x11) = not x11
is_plain_linux p = false

module _ (l : Library) where
  -- Any pattern of a list matches the field.
  pub matches_any : String → List String → Bool
  matches_any field [] = false
  matches_any field (p ∷ ps) = l.match_pattern field p || matches_any field ps

  pub is_device_blocked : String → String → Bool
  unfolding matches_any
  is_device_blocked field block_list = matches_any field (l.split_string block_list)

  pub get_emui_version : BuildInfo → ℤ
  get_emui_version b =
      if not (b.manufacturer == "HUAWEI")
      then negsuc 0
      else elim (l.scan_version b.version_incremental) [ none ↦ negsuc 0 | some version ↦ version ]

  pub is_blocked_by_build_info : BuildInfo → Bool
  unfolding is_device_blocked
  is_blocked_by_build_info b =
      is_device_blocked b.hardware "mt*"
      || is_device_blocked b.brand "HONOR"
      || is_device_blocked b.device "OP4863|OP4883"
      || is_device_blocked b.board "RM67*|RM68*|k68*|mt6*|oppo67*|oppo68*|QM215|rk30sdk"

  pub has_min_deqp_level : BuildInfo → Bool
  unfolding is_below
  has_min_deqp_level b = not (is_below b.vulkan_deqp_level 0x7e80301)

  -- The case of kVendorARM, from the device's name on.
  pub check_mali : BuildInfo → DeviceProperties → GpuInfo → String → Bool
  unfolding has_min_deqp_level is_device_blocked matches_any
  check_mali b d g name =
      if matches_any name slow_gpus
      then false
      else if (name == "G57") && ltb d.driver_version (l.make_version 41 0 0)
      then false
      else if not (is_device_blocked g.gl_renderer "*Mali-G?? M*")
      then true
      else if name == "G57"
      then false
      else has_min_deqp_level b

  pub check_arm : BuildInfo → DeviceProperties → GpuInfo → Bool
  unfolding check_mali get_emui_version is_below remove_prefix before_space
  check_arm b d g =
      if ltb d.driver_version (l.make_version 19 0 0) && is_below (get_emui_version b) 11
      then false
      else if not (l.starts_with d.device_name "Mali-")
      then false
      else check_mali b d g (before_space (remove_prefix 5 d.device_name))

  -- CheckVulkanCompatibilities on Android; `skip` is features::kSkipVulkanBlocklist.
  unfoldable pub check_on_android : Bool → BuildInfo → DeviceProperties → GpuInfo → Bool
  unfolding is_blocked_by_build_info has_min_deqp_level check_arm is_device_blocked
  check_on_android skip b d g =
      if skip
      then true
      else if is_blocked_by_build_info b && not (has_min_deqp_level b)
      then false
      else if same_number d.vendor_id l.vendor_arm
      then check_arm b d g
      else if same_number d.vendor_id l.vendor_qualcomm
      then (d.device_name == "Adreno (TM) 630")
        && not (is_device_blocked g.gpu_driver_version "324.0|331.0|334.0|378.0|415.0|420.0|444.0")
      else if same_number d.vendor_id l.vendor_imagination
      then l.full_match d.device_name "PowerVR ([CDE]-Series)? [CDE]X.*"
      else if same_number d.vendor_id l.vendor_google
          && same_number d.device_id l.device_swift_shader
      then false
      else not (same_number d.vendor_id l.vendor_intel)

  -- CheckVulkanCompatibilities elsewhere; `from_angle` is features::kVulkanFromANGLE.
  unfoldable pub check_elsewhere : BuildTarget → Bool → GpuInfo → Bool
  unfolding memory_object_extension semaphore_extension
  check_elsewhere p from_angle g =
      if not from_angle
        && (not (l.has_extension g.gl_extensions (memory_object_extension p))
            || not (l.has_extension g.gl_extensions (semaphore_extension p)))
      then false
      else not (is_plain_linux p)
