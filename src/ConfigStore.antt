-- ===== src/ConfigStore.antt =====
-- frontend/services/config_store.py: reading, replacing and updating config.json, and ptp4l.conf.
pub mod Template
pub mod Store
pub mod Saving
pub mod Atomic
pub mod Updates
pub mod Sections
pub mod Stable
pub mod Rendering
