-- ===== src/VulkanUtil/Tests.antt =====
-- Layouts and devices of app/gpu/vulkan_util.cpp, and instances of what is shown of them.
use text.Mathlib.Text.{◌==◌}
use tor_onion.Common.{◌+◌, ◌*◌, ◌^◌, ◌≡◌, ◌↔◌, refl, ◌&&◌, true, false, none, some, [], ◌∷◌, arith}
use tor_onion.Common.Int.{pos, negsuc}
use tor_onion.VulkanUtil.Compatibility.{
  Library, BuildInfo, DeviceProperties, GpuInfo, linux, windows, check_on_android, check_elsewhere,
}
use tor_onion.VulkanUtil.Compatibility.Newer.{with_level, with_driver, check_on_android_newer}
use tor_onion.VulkanUtil.{
  transfer_dst_optimal, gl_image_layout_to_vk_image_layout, vk_image_layout_to_gl_image_layout,
}
use tor_onion.VulkanUtil.Layouts.{layouts_inverse}

layouts_inverse_example :
    (gl_image_layout_to_vk_image_layout 38291 ≡ some transfer_dst_optimal)
    ↔ (vk_image_layout_to_gl_image_layout transfer_dst_optimal ≡ some 38291)
layouts_inverse_example = layouts_inverse transfer_dst_optimal 38291

no_layout : gl_image_layout_to_vk_image_layout 1 ≡ none
unfolding gl_image_layout_to_vk_image_layout
no_layout = refl

-- A library whose patterns match only themselves.
abbrev plain_library : Library
plain_library = record {
  split_string = λ s. s ∷ [];
  match_pattern = λ field pattern. field == pattern;
  starts_with = λ s prefix. s == "Mali-G57 MC2" && prefix == "Mali-";
  full_match = λ s pattern. false;
  scan_version = λ s. some (pos 10);
  has_extension = λ extensions name. extensions == name;
  make_version = λ major minor patch. major * 2 ^ 22 + minor * 2 ^ 12 + patch;
  vendor_arm = 0x13b5;
  vendor_qualcomm = 0x5143;
  vendor_imagination = 0x1010;
  vendor_google = 0x1ae0;
  vendor_intel = 0x8086;
  device_swift_shader = 0xc0de;
}

abbrev phone : BuildInfo
phone = record {
  manufacturer = "HUAWEI";
  version_incremental = "10.1";
  hardware = "mt*";
  brand = "phone";
  device = "phone";
  board = "phone";
  vulkan_deqp_level = pos 0x7e80301;
}

abbrev mali : DeviceProperties
mali = record {
  driver_version = 41 * 2 ^ 22;
  vendor_id = 0x13b5;
  device_id = 1;
  device_name = "Mali-G57 MC2";
}

abbrev gpu : GpuInfo
gpu = record { gl_extensions = ""; gl_renderer = "Mali"; gpu_driver_version = "" }

mali_is_compatible : check_on_android plain_library false phone mali gpu ≡ true
unfolding check_on_android
mali_is_compatible = refl

-- A driver that is too old, and a level that is too low on hardware that is blocked.
old_driver_is_not :
    check_on_android plain_library false phone (with_driver (40 * 2 ^ 22) mali) gpu ≡ false
unfolding check_on_android
old_driver_is_not = refl

low_level_is_not :
    check_on_android plain_library false (with_level (negsuc 0) phone) mali gpu ≡ false
unfolding check_on_android
low_level_is_not = refl

plain_linux_is_not : check_elsewhere plain_library (linux false) true gpu ≡ false
unfolding check_elsewhere
plain_linux_is_not = refl

windows_from_angle : check_elsewhere plain_library windows true gpu ≡ true
unfolding check_elsewhere
windows_from_angle = refl

check_on_android_newer_example :
    check_on_android plain_library false
      (with_level (pos 0x7e90301) phone)
      (with_driver (42 * 2 ^ 22) mali)
      gpu
    ≡ true
check_on_android_newer_example =
    check_on_android_newer plain_library false phone mali gpu (pos 0x7e90301) (42 * 2 ^ 22)
      (omega arith) (omega arith) mali_is_compatible
