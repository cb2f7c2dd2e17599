-- ===== src/VulkanUtil.antt =====
-- app/gpu/vulkan_util.cpp: the image layouts of GL and of Vulkan, one translated into the other, where a
-- NOTREACHED is `none`. VulkanUtil/Compatibility decides which devices Vulkan runs on.
pub mod Compatibility
pub mod Layouts
mod Tests
use tor_onion.Common.{
  ℕ, ◌≡◌, Bool, true, false, Option, none, some, List, [], ◌∷◌, ◌==◌, if◌then◌else◌, ◌||◌, ◌&&◌,
  not,
}

pub data VkImageLayout : Type 0 where
  undefined_layout general color_attachment_optimal : VkImageLayout
  depth_stencil_attachment_optimal depth_stencil_read_only_optimal : VkImageLayout
  shader_read_only_optimal transfer_src_optimal transfer_dst_optimal : VkImageLayout
  depth_read_only_stencil_attachment_optimal : VkImageLayout
  depth_attachment_stencil_read_only_optimal : VkImageLayout
  other_layout : ℕ → VkImageLayout

abbrev pub same_number : ℕ → ℕ → Bool
same_number a b = a == b

abbrev gl_none : ℕ
gl_none = 0

abbrev gl_layout_general_ext : ℕ
gl_layout_general_ext = 38285

abbrev gl_layout_color_attachment_ext : ℕ
gl_layout_color_attachment_ext = 38286

abbrev gl_layout_depth_stencil_attachment_ext : ℕ
gl_layout_depth_stencil_attachment_ext = 38287

abbrev gl_layout_depth_stencil_read_only_ext : ℕ
gl_layout_depth_stencil_read_only_ext = 38288

abbrev gl_layout_shader_read_only_ext : ℕ
gl_layout_shader_read_only_ext = 38289

abbrev gl_layout_transfer_src_ext : ℕ
gl_layout_transfer_src_ext = 38290

abbrev gl_layout_transfer_dst_ext : ℕ
gl_layout_transfer_dst_ext = 38291

abbrev gl_layout_depth_read_only_stencil_attachment_ext : ℕ
gl_layout_depth_read_only_stencil_attachment_ext = 38192

abbrev gl_layout_depth_attachment_stencil_read_only_ext : ℕ
gl_layout_depth_attachment_stencil_read_only_ext = 38193

-- The cases of the switch from the seventh on.
pub late_layout : ℕ → Option VkImageLayout
late_layout layout =
    if layout == gl_layout_transfer_src_ext
    then some transfer_src_optimal
    else if layout == gl_layout_transfer_dst_ext
    then some transfer_dst_optimal
    else if layout == gl_layout_depth_read_only_stencil_attachment_ext
    then some depth_read_only_stencil_attachment_optimal
    else if layout == gl_layout_depth_attachment_stencil_read_only_ext
    then some depth_attachment_stencil_read_only_optimal
    else none

pub gl_image_layout_to_vk_image_layout : ℕ → Option VkImageLayout
unfolding late_layout
gl_image_layout_to_vk_image_layout layout =
    if layout == gl_none
    then some undefined_layout
    else if layout == gl_layout_general_ext
    then some general
    else if layout == gl_layout_color_attachment_ext
    then some color_attachment_optimal
    else if layout == gl_layout_depth_stencil_attachment_ext
    then some depth_stencil_attachment_optimal
    else if layout == gl_layout_depth_stencil_read_only_ext
    then some depth_stencil_read_only_optimal
    else if layout == gl_layout_shader_read_only_ext
    then some shader_read_only_optimal
    else late_layout layout

pub vk_image_layout_to_gl_image_layout : VkImageLayout → Option ℕ
vk_image_layout_to_gl_image_layout undefined_layout = some gl_none
vk_image_layout_to_gl_image_layout general = some gl_layout_general_ext
vk_image_layout_to_gl_image_layout color_attachment_optimal = some gl_layout_color_attachment_ext
vk_image_layout_to_gl_image_layout depth_stencil_attachment_optimal =
    some gl_layout_depth_stencil_attachment_ext
vk_image_layout_to_gl_image_layout depth_stencil_read_only_optimal =
    some gl_layout_depth_stencil_read_only_ext
vk_image_layout_to_gl_image_layout shader_read_only_optimal = some gl_layout_shader_read_only_ext
vk_image_layout_to_gl_image_layout transfer_src_optimal = some gl_layout_transfer_src_ext
vk_image_layout_to_gl_image_layout transfer_dst_optimal = some gl_layout_transfer_dst_ext
vk_image_layout_to_gl_image_layout depth_read_only_stencil_attachment_optimal =
    some gl_layout_depth_read_only_stencil_attachment_ext
vk_image_layout_to_gl_image_layout depth_attachment_stencil_read_only_optimal =
    some gl_layout_depth_attachment_stencil_read_only_ext
vk_image_layout_to_gl_image_layout (other_layout n) = none
