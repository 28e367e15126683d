-- ===== src/Matcher.antt =====
-- app_identify/searcher: what the matches of a packet's payload say of its application.
pub mod Ids
pub mod Check
pub mod Found
pub mod Graph
mod Examples
