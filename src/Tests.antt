-- ===== src/Tests.antt =====
-- Runs of the model on small inputs, and theorems at inputs that meet their hypotheses.
pub mod Namespaces
pub mod Caveats
pub mod Checking
pub mod Declaring
pub mod Codecs
pub mod Keys
pub mod Authorizing
pub mod Squashing
pub mod Platforms
pub mod Macaroons
pub mod Baking
pub mod Jsons
pub mod Responses
pub mod Identities
