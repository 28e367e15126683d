-- ===== src/Loader.antt =====
-- app_identify/loader: the signatures and the tables that are made from them.
pub mod Types
pub mod HttpSig
pub mod KeyPair
pub mod Install
pub mod Dump
mod Examples
