-- ===== src/Config.antt =====
-- The configuration of the programs: pkg/sendspin/config_common.go and client_id.go, with
-- PersistStaticDelay of config_player.go.
pub mod Overlay
pub mod Yaml
pub mod ClientId
mod Tests
