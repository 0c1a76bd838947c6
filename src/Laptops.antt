-- ===== src/Laptops.antt =====
-- The laptop service: package service without its authentication.
pub mod Qualify
pub mod Store
pub mod Rating
pub mod Image
pub mod Server
