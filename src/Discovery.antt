-- ===== src/Discovery.antt =====
-- Discovery from container labels (internal/discovery/discover.go): the volumes of a container and
-- the databases that its labels name.
pub mod Volumes
pub mod Databases
