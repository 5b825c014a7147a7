-- ===== src/Config.antt =====
-- c_src/quicer_config.c: reading options, and the settings of a connection.
pub mod Read
pub mod Settings
pub mod Widths
