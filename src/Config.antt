-- ===== src/Config.antt =====
-- The configuration processor (src/module/cfg_processor.cpp and src/module/cfg/utils.cpp), and
-- the configuration object's own readings of files (src/module/cfg.cpp).
pub mod Yaml
pub mod Modes
pub mod Merge
pub mod Items
pub mod Sections
pub mod Dump
pub mod Deployment
pub mod ModuleNode
pub mod Examples
