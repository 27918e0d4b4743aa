-- ===== src/AccessKeys.antt =====
-- Who may call the router: scripts/files/access_keys.py, the `require_bearer` middleware of
-- scripts/files/router-app.py, and the keys file's writer scripts/files/router-keys.py.
pub mod Principal
pub mod Store
pub mod Served
pub mod Entries
pub mod Authentication
pub mod Bearer
pub mod Policy
pub mod RouterKeys
pub mod KeyLifetime
pub mod Revocation
mod Tests
