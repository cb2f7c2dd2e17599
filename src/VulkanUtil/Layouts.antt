-- ===== src/VulkanUtil/Layouts.antt =====
-- The two translations of image layouts in app/gpu/vulkan_util.cpp, one after the other.
use tor_onion.Common.{ℕ, ◌≡◌, ◌↔◌, some, arith}
use tor_onion.VulkanUtil.{
  VkImageLayout, undefined_layout, general, color_attachment_optimal,
  depth_stencil_attachment_optimal, depth_stencil_read_only_optimal, shader_read_only_optimal,
  transfer_src_optimal, transfer_dst_optimal, depth_read_only_stencil_attachment_optimal,
  depth_attachment_stencil_read_only_optimal, other_layout, gl_image_layout_to_vk_image_layout,
  vk_image_layout_to_gl_image_layout, late_layout,
}

to_vk-to_gl :
    (l : VkImageLayout) (n : ℕ)
    → vk_image_layout_to_gl_image_layout l ≡ some n
    → gl_image_layout_to_vk_image_layout n ≡ some l
unfolding vk_image_layout_to_gl_image_layout gl_image_layout_to_vk_image_layout
to_vk-to_gl undefined_layout n e = ground arith
to_vk-to_gl general n e = ground arith
to_vk-to_gl color_attachment_optimal n e = ground arith
to_vk-to_gl depth_stencil_attachment_optimal n e = ground arith
to_vk-to_gl depth_stencil_read_only_optimal n e = ground arith
to_vk-to_gl shader_read_only_optimal n e = ground arith
to_vk-to_gl transfer_src_optimal n e = ground arith
to_vk-to_gl transfer_dst_optimal n e = ground arith
to_vk-to_gl depth_read_only_stencil_attachment_optimal n e = ground arith
to_vk-to_gl depth_attachment_stencil_read_only_optimal n e = ground arith
to_vk-to_gl (other_layout k) n e = cc

late-to_gl :
    (l : VkImageLayout) (n : ℕ)
    → late_layout n ≡ some l
    → vk_image_layout_to_gl_image_layout l ≡ some n
unfolding vk_image_layout_to_gl_image_layout late_layout
late-to_gl l n e = ground arith

to_gl-to_vk :
    (l : VkImageLayout) (n : ℕ)
    → gl_image_layout_to_vk_image_layout n ≡ some l
    → vk_image_layout_to_gl_image_layout l ≡ some n
unfolding vk_image_layout_to_gl_image_layout gl_image_layout_to_vk_image_layout
to_gl-to_vk l n e = ground (arith, late-to_gl l n)

-- A GL layout is translated to a Vulkan layout exactly if that one is translated back to it; so on
-- the layouts that either accepts the two are inverse.
pub layouts_inverse :
    (l : VkImageLayout) (n : ℕ)
    → (gl_image_layout_to_vk_image_layout n ≡ some l)
      ↔ (vk_image_layout_to_gl_image_layout l ≡ some n)
layouts_inverse l n = (to_gl-to_vk l n, to_vk-to_gl l n)
