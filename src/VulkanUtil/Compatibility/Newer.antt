-- ===== src/VulkanUtil/Compatibility/Newer.antt =====
-- Newer drivers and newer levels in CheckVulkanCompatibilities (app/gpu/vulkan_util.cpp).
use Prim.Native.String.{String}
use tor_onion.Common.{ℕ, ◌≤◌, ◌≡◌, refl, Bool, true, ltb, arith, Bool-cases, inl, inr}
use tor_onion.Common.Int.{ℤ, pos, negsuc}
use tor_onion.VulkanUtil.Compatibility.{
  Library, BuildInfo, DeviceProperties, GpuInfo, is_below, has_min_deqp_level, check_mali,
  check_arm, check_on_android, is_blocked_by_build_info, get_emui_version, remove_prefix,
  before_space,
}

-- The order of the signed numbers.
abbrev pub IsAtMost : ℤ → ℤ → Type 0
IsAtMost (pos a) (pos b) = a ≤ b
IsAtMost (pos a) (negsuc b) = ⊥
IsAtMost (negsuc a) (pos b) = Unit
IsAtMost (negsuc a) (negsuc b) = b ≤ a

is_below_at_most : (a b : ℤ) (k : ℕ) → IsAtMost a b → is_below b k ≡ true → is_below a k ≡ true
unfolding is_below
is_below_at_most (pos a) (pos b) k h e = ground arith
is_below_at_most (pos a) (negsuc b) k h e = absurd h
is_below_at_most (negsuc a) b k h e = refl

-- The same device with another level, and with another driver.
abbrev pub with_level : ℤ → BuildInfo → BuildInfo
with_level level b = record b { vulkan_deqp_level = level }

abbrev pub with_driver : ℕ → DeviceProperties → DeviceProperties
with_driver version d = record d { driver_version = version }

-- Branches on conditions that only become false.
implies_ltb : (a b k : ℕ) → a ≤ b → ltb b k ≡ true → ltb a k ≡ true
implies_ltb a b k h e = ground arith

module _ (l : Library) where
  level_kept :
      (b : BuildInfo) (level : ℤ)
      → IsAtMost b.vulkan_deqp_level level
      → has_min_deqp_level l b ≡ true
      → has_min_deqp_level l (with_level level b) ≡ true
  unfolding has_min_deqp_level
  level_kept b level h e = elim (Bool-cases (is_below level 0x7e80301)) [
    | inl below ↦
        let old = is_below_at_most b.vulkan_deqp_level level 0x7e80301 h below in ground arith
    | inr above ↦ rw above refl
  ]

  check_mali_kept :
      (b : BuildInfo) (d : DeviceProperties) (g : GpuInfo) (level : ℤ) (version : ℕ) (name : String)
      → IsAtMost b.vulkan_deqp_level level
      → d.driver_version ≤ version
      → check_mali l b d g name ≡ true
      → check_mali l (with_level level b) (with_driver version d) g name ≡ true
  unfolding check_mali
  check_mali_kept b d g level version name h le e =
      let kept = level_kept b level h in
      let drivers = implies_ltb d.driver_version version (l.make_version 41 0 0) le in ground arith

  check_arm_kept :
      (b : BuildInfo) (d : DeviceProperties) (g : GpuInfo) (level : ℤ) (version : ℕ)
      → IsAtMost b.vulkan_deqp_level level
      → d.driver_version ≤ version
      → check_arm l b d g ≡ true
      → check_arm l (with_level level b) (with_driver version d) g ≡ true
  unfolding check_arm get_emui_version
  check_arm_kept b d g level version h le e =
      let kept =
        check_mali_kept b d g level version (before_space (remove_prefix 5 d.device_name)) h le in
      let drivers = implies_ltb d.driver_version version (l.make_version 19 0 0) le in ground arith

  -- On Android a device that Vulkan runs on stays one when the driver_version of its properties,
  -- or the level of the dEQP tests that it passes, grows, all else being equal, also the text of
  -- the driver's version in GPUInfo, which Qualcomm's block list reads.
  pub check_on_android_newer :
      (skip : Bool) (b : BuildInfo) (d : DeviceProperties) (g : GpuInfo) (level : ℤ) (version : ℕ)
      → IsAtMost b.vulkan_deqp_level level
      → d.driver_version ≤ version
      → check_on_android l skip b d g ≡ true
      → check_on_android l skip (with_level level b) (with_driver version d) g ≡ true
  unfolding check_on_android is_blocked_by_build_info
  check_on_android_newer skip b d g level version h le e =
      let kept = level_kept b level h in
      let arm = check_arm_kept b d g level version h le in ground arith
