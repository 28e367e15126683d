-- ===== src/Packet.antt =====
-- `packet_handler` of app_identify/packet_process.c, built with TEST_AC, over the headers of
-- pktHeader.h: a captured packet is found its session, and its payload is scanned.
--
-- The packet is the list of the captured bytes. Fields of more than one byte are read on a
-- little-endian machine, and `long_size` is its `sizeof(u_long)`. `scan` is `httpParse2` on the
-- globals of the searcher; the bytes it is given are those of the payload pointer and its length.
pub mod Valid
pub mod Handler
mod Examples
use orchid_linux.Base.{
  ℕ, suc, ◌+◌, ◌-◌, ◌*◌, ◌^◌, Bool, true, false, List, [], ◌∷◌, Option, none, some, ◌==◌, ltb,
  if◌then◌else◌, length, take, drop, set, Run, ok, fault, Fault, ◌>>=◌, or_fault, read, bit_and,
  ◌>>>◌, ◌<<<◌, ◌||◌, u16, get_elem?,
}
use orchid_linux.Session.Defs.{FlowKey, Session, SessionTable, session_table_find}

abbrev pub ip_proto_tcp : ℕ
ip_proto_tcp = 6

abbrev pub ip_proto_udp : ℕ
ip_proto_udp = 17

abbrev pub udp_header_size : ℕ
udp_header_size = 8

-- The bytes of a field of two or of four bytes.
unfoldable pub read_short : List ℕ → ℕ → Run ℕ
read_short pktdata at = do
  low ← read pktdata at
  high ← read pktdata (at + 1)
  ok (low + high * 2 ^ 8)

unfoldable pub read_int : List ℕ → ℕ → Run ℕ
unfolding read_short
read_int pktdata at = do
  low ← read_short pktdata at
  high ← read_short pktdata (at + 2)
  ok (low + high * 2 ^ 16)

-- Where `hlen` stands in `tcp_header`: the two ports fill the gap before the first `u_long`, and two
-- of these follow.
abbrev pub hlen_offset : ℕ → ℕ
hlen_offset long_size = 3 * long_size

-- The ports, and where the payload begins.
pub record Transport : Type 0 where
  pub sport : ℕ
  pub dport : ℕ
  pub payload : ℕ

-- The switch over `ih->proto`; `th` is the position of the transport header. `none` returns.
unfoldable pub read_transport : ℕ → List ℕ → ℕ → ℕ → Run (Option Transport)
unfolding read_short
read_transport long_size pktdata proto th =
    if proto == ip_proto_tcp
    then (do
      sport ← read_short pktdata th
      dport ← read_short pktdata (th + 2)
      hlen ← read pktdata (th + hlen_offset long_size)
      ok (some (record { sport = sport; dport = dport; payload = th + (hlen >>> 4 <<< 2) })))
    else if proto == ip_proto_udp
    then (do
      sport ← read_short pktdata th
      dport ← read_short pktdata (th + 2)
      ok (some (record { sport = sport; dport = dport; payload = th + udp_header_size })))
    else ok none

-- `sess->app_id = v` for the session at position `p`.
unfoldable pub set_app_id : ℕ → ℕ → SessionTable → Run SessionTable
set_app_id p v t = do
  s ← read t.sessions p
  ok (record t { sessions = set t.sessions p (record s { app_id = u16 v }) })

module _ {S : Type 0} (scan : List ℕ → S → Run (ℕ × S)) where
  -- The end of the handler: the session is found, and the payload scanned if the application is
  -- not known yet.
  unfoldable pub handle_flow :
      Bool → FlowKey → ℕ → List ℕ → SessionTable → S → Run (SessionTable × S)
  unfolding set_app_id
  handle_flow memory key payload pktdata t s =
      let (found, t') = session_table_find memory key t in
      do
        p ← or_fault Fault.null_pointer found
        sess ← read t'.sessions p
        if sess.app_id == 0
            then (if ltb payload (length pktdata)
                then (do
                  (app_id, s') ← scan (drop payload pktdata) s
                  t2 ← set_app_id p app_id t'
                  ok (t2, s'))
                else ok (t', s))
            else ok (t', s)

  -- `packet_handler`.
  unfoldable pub packet_handler : ℕ → Bool → List ℕ → SessionTable → S → Run (SessionTable × S)
  unfolding read_int
  packet_handler long_size memory pktdata t s = do
    type0 ← read pktdata 12
    other ←
        if type0 == 8
        then (read pktdata 13 >>= λ type1. ok (if type1 == 0 then false else true))
        else ok true
    if other then ok (t, s) else (do
      ver_ihl ← read pktdata 14
      proto ← read pktdata (14 + 9)
      transport ← read_transport long_size pktdata proto (14 + bit_and ver_ihl 0xf * 4)
      elim transport [
        | none ↦ ok (t, s)
        | some h ↦ (do
          saddr ← read_int pktdata (14 + 12)
          daddr ← read_int pktdata (14 + 16)
          let key : FlowKey = record {
            sip = saddr;
            dip = daddr;
            sport = h.sport;
            dport = h.dport;
            proto = proto;
          }
          handle_flow memory key h.payload pktdata t s)
      ])
