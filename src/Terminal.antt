-- ===== src/Terminal.antt =====
-- The embedded terminals: the wire protocol of their sockets, and one tab's session.
pub mod Protocol
pub mod Session
