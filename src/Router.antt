-- ===== src/Router.antt =====
-- modules/router: the route trie and the binary manifest.
pub mod Trie
pub mod Methods
pub mod Manifest
mod Tests
