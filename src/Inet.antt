-- ===== src/Inet.antt =====
-- networking/add.c: internet addresses as numbers and as text. Inet/Quad has the addresses of 32 bits;
-- Inet/Pton reads an address of 128 bits and Inet/Ntop writes one; Inet/Family chooses between them.
pub mod Family
pub mod Ntop
pub mod Pton
pub mod Quad
mod Tests
