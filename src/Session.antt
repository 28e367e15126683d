-- ===== src/Session.antt =====
-- app_identify/session.c and session.h: the table of flows and the list of sessions.
--
-- A session is allocated once and never freed, so a pointer to one is its position in the order
-- of allocation, which is also the order of `session_table` (TAILQ_INSERT_TAIL). A flow is not
-- written once it is linked, so a bucket holds the flow itself; the session's own copies are
-- `flow0` and `flow1`. A read of a bucket past the table gives the empty chain.
pub mod Defs
pub mod View
pub mod Valid
pub mod Refine
mod Examples
