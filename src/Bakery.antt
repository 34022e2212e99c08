-- ===== src/Bakery.antt =====
-- The package bakery.
pub mod Uvarint
pub mod Crypto
pub mod Codec
pub mod Keys
pub mod Macaroon
pub mod Discharge
pub mod Slices
pub mod Ops
pub mod Oven
