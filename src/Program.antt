-- ===== src/Program.antt =====
-- app_identify/main.c: the session table is made, the packets of the capture are handled one after
-- the other, and the sessions are printed (`dump_session_table` of app_identify/session.c).
--
-- The packets are those that `pcap_next_ex` gives. Where `main` ends before that (its arguments,
-- a capture that cannot be opened) it does nothing else.
pub mod Setup
pub mod Printed
mod Examples
use orchid_linux.Base.{ℕ, ◌+◌, ◌/◌, ◌%◌, Bool, List, [], ◌∷◌, ◌==◌, map, Run, ok, ◌>>=◌, ◌>>>◌, u8}
use orchid_linux.Session.Defs.{Session, SessionTable, create_session_table, no_table}
use orchid_linux.Packet.{packet_handler, ip_proto_tcp}

-- The arguments of `printf` for a session: whether "TCP" is printed, the bytes of the addresses, the
-- ports and the application.
pub record SessionLine : Type 0 where
  pub tcp : Bool
  pub sip : List ℕ
  pub sport : ℕ
  pub dip : List ℕ
  pub dport : ℕ
  pub app_id : ℕ

-- `IP2STRING`: the four bytes of an address in memory.
abbrev pub ip_bytes : ℕ → List ℕ
ip_bytes ip = u8 ip ∷ u8 (ip >>> 8) ∷ u8 (ip >>> 16) ∷ u8 (ip >>> 24) ∷ []

abbrev pub session_line : Session → SessionLine
session_line sess = record {
  tcp = sess.flow0.key.proto == ip_proto_tcp;
  sip = ip_bytes sess.flow0.key.sip;
  sport = sess.flow0.key.sport;
  dip = ip_bytes sess.flow0.key.dip;
  dport = sess.flow0.key.dport;
  app_id = sess.app_id;
}

-- `dump_session_table`.
unfoldable pub dump_session_table : SessionTable → List SessionLine
dump_session_table t = map session_line t.sessions

module _ {S : Type 0} (scan : List ℕ → S → Run (ℕ × S)) where
  -- The loop of `main` over the packets.
  unfoldable pub handle_packets :
      ℕ → Bool → List (List ℕ) → SessionTable → S → Run (SessionTable × S)
  handle_packets long_size memory [] t s = ok (t, s)
  handle_packets long_size memory (p ∷ ps) t s =
      packet_handler scan long_size memory p t s >>= λ r. handle_packets long_size memory ps r.0 r.1

  -- `main` on a capture, after the signatures are loaded: what it prints of the sessions.
  unfoldable pub main_capture : ℕ → Bool → List (List ℕ) → S → Run (List SessionLine)
  unfolding handle_packets dump_session_table
  main_capture long_size memory packets s =
      handle_packets long_size memory packets (create_session_table memory no_table).1 s >>= λ r.
      ok (dump_session_table r.0)
