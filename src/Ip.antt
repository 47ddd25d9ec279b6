-- ===== src/Ip.antt =====
-- The IP service: src/ip.c, src/ip_fragment.c, src/ip_defer.c and src/ip_route.c.
pub mod Header
pub mod Fragments
pub mod Defer
pub mod Route
pub mod Reassembly
pub mod Send
pub mod Config
pub mod Input
