-- ===== src/Packet/Handler.antt =====
-- `packet_handler` on packets that are captured up to their transport header.
use orchid_linux.Automaton.Search.Runs.{going_on}
use orchid_linux.Automaton.Search.Choice.{acsm_search}
use orchid_linux.Automaton.Scan.{http_parse2_on}
use orchid_linux.Automaton.Types.{Acsm}
use orchid_linux.Matcher.Found.{MatchState, match_found}
use orchid_linux.Matcher.Check.{Report, pattern_check}
use orchid_linux.Loader.Types.{AppInfo}
use orchid_linux.Base.{
  ℕ, ◌+◌, ◌*◌, ◌%◌, ◌^◌, ◌<◌, ◌≤◌, ◌≡◌, refl, inl, inr, true, List, Option, none, some, arith,
  Bool-cases, Option-cases, length, Returns, Run, ok, read, ◌==◌, bit_and, get_elem?-eq-get_or,
  get_or, ◌>>>◌, ◌<<<◌, ◌⊎◌, drop, take, fault, ◌>>=◌, ap, sym, ok_injective,
}
use orchid_linux.Base.Bits.{bit_and_below}
use orchid_linux.Session.Defs.{FlowKey, SessionTable, session_table_find}
use orchid_linux.Session.View.{view}
use orchid_linux.Session.Valid.{IsValid}
use orchid_linux.Session.Refine.{find_once, session_table_find-find_once}
use orchid_linux.Packet.{
  Transport, read_short, read_int, read_transport, hlen_offset, packet_handler, ip_proto_tcp,
  ip_proto_udp, udp_header_size,
}
use orchid_linux.Packet.Valid.{Stays, handle_flow-Stays, IsZero, ScanFaults}

session_found :
    (k : FlowKey) (t : SessionTable)
    → IsValid t
    → (p : ℕ) × ((session_table_find true k t).0 ≡ some p)
unfolding find_once
session_found k t valid =
    rw (session_table_find-find_once true k t valid) (elim (Option-cases (view t.htable k)) [
      | inl absent ↦ rw (absent, find_once) (_, refl)
      | inr (p, found) ↦ rw (found, find_once) (p, refl)
    ])

read_byte : (d : List ℕ) (i : ℕ) → i < length d → (c : ℕ) × (read d i ≡ ok c)
read_byte d i h = (get_or d i 0, rw (get_elem?-eq-get_or d i 0 h))

read_short_lem : (d : List ℕ) (i : ℕ) → i + 1 < length d → (v : ℕ) × (read_short d i ≡ ok v)
unfolding read_short
read_short_lem d i h =
    let (low, a) = read_byte d i (omega arith) in
    let (high, b) = read_byte d (i + 1) h in (low + high * 2 ^ 8, rw (a, b))

read_int_lem : (d : List ℕ) (i : ℕ) → i + 3 < length d → (v : ℕ) × (read_int d i ≡ ok v)
unfolding read_int
read_int_lem d i h =
    let (low, a) = read_short_lem d i (omega arith) in
    let (high, b) = read_short_lem d (i + 2) (omega arith) in (low + high * 2 ^ 16, rw (a, b))

read_transport_lem :
    (long_size : ℕ) (d : List ℕ) (proto th : ℕ)
    → th + 4 + hlen_offset long_size ≤ length d
    → (h : Option Transport) × (read_transport long_size d proto th ≡ ok h)
unfolding read_transport
read_transport_lem long_size d proto th room =
    let (sport, a) = read_short_lem d th (omega arith) in
    let (dport, b) = read_short_lem d (th + 2) (omega arith) in
    let (hlen, c) = read_byte d (th + hlen_offset long_size) (omega arith) in
    elim (Bool-cases (proto == ip_proto_tcp)) [
      | inl tcp ↦ (
        some (record { sport = sport; dport = dport; payload = th + (hlen >>> 4 <<< 2) }),
        rw (tcp, a, b, c),
      )
      | inr other ↦ elim (Bool-cases (proto == ip_proto_udp)) [
        | inl udp ↦ (
          some (record { sport = sport; dport = dport; payload = th + udp_header_size }),
          rw (other, udp, a, b),
        )
        | inr neither ↦ (none, rw (other, neither))
      ]
    ]

-- The packet is captured up to the length of a TCP header behind the longest IP header.
abbrev pub IsCaptured : ℕ → List ℕ → Type 0
IsCaptured long_size d = 78 + hlen_offset long_size ≤ length d

-- `httpParse2` as the scan of the handler; what `pattern_check` prints is kept with the globals.
abbrev pub http_scan :
    ℕ → Acsm → AppInfo → List ℕ → List Report × MatchState → Run (ℕ × (List Report × MatchState))
http_scan rounds acsm info text s = http_parse2_on rounds acsm info text s.1

then_zero :
    {A B : Type 0} (run : Run A) (rest : A → Run (ℕ × B)) (r : ℕ × B)
    → ((x : A) → rest x ≡ ok r → r.0 ≡ 0)
    → (run >>= rest) ≡ ok r
    → r.0 ≡ 0
then_zero (ok x) rest r h e = h x e
then_zero (fault reason) rest r h e = absurd (cc e)

pub http_scan-IsZero :
    (rounds : ℕ) (acsm : Acsm) (info : AppInfo) → IsZero (http_scan rounds acsm info)
unfolding http_parse2_on
http_scan-IsZero rounds acsm info text s r =
    then_zero
      (acsm_search (going_on (match_found text)) rounds acsm text 0
        (record s.1 { pattern_count = 0 }))
      _ r
      (λ found.
        then_zero (pattern_check info (take found.globals.pattern_count found.globals.pattern))
          (λ reports. ok (0, (reports, found.globals))) r
          (λ reports e. ap (λ x. x.0) (sym (ok_injective e))))

module _ {S : Type 0} (scan : List ℕ → S → Run (ℕ × S)) (zero_scan : IsZero scan) where
  -- The handler with any scan of which no result is other than 0.
  pub handled-Stays :
      (long_size : ℕ) (d : List ℕ) (t : SessionTable) (s : S)
      → IsCaptured long_size d
      → Stays t
      → Returns (packet_handler scan long_size true d t s) (λ r. Stays r.0)
        ⊎ ((k : ℕ) × ScanFaults scan (drop k d) s (packet_handler scan long_size true d t s))
  unfolding packet_handler
  handled-Stays long_size d t s captured stays =
      let (type0, r0) = read_byte d 12 (omega arith) in
      let (type1, r1) = read_byte d 13 (omega arith) in
      let (ver_ihl, r2) = read_byte d 14 (omega arith) in
      let (proto, r3) = read_byte d (14 + 9) (omega arith) in
      let th = 14 + bit_and ver_ihl 0xf * 4 in
      let small : bit_and ver_ihl 0xf ≡ ver_ihl % 16 = bit_and_below 4 ver_ihl in
      let (transport, r4) = read_transport_lem long_size d proto th (omega (arith, small)) in
      let (saddr, r5) = read_int_lem d (14 + 12) (omega arith) in
      let (daddr, r6) = read_int_lem d (14 + 16) (omega arith) in
      elim (Bool-cases (type0 == 8)) [
        | inr not_ip ↦ inl ((t, s), rw (r0, not_ip), stays)
        | inl first ↦ elim (Bool-cases (type1 == 0)) [
          | inr not_ip ↦ inl ((t, s), rw (r0, first, r1, not_ip), stays)
          | inl second ↦ elim (Option-cases transport) [
            | inl nothing ↦ inl ((t, s), rw (r0, first, r1, second, r2, r3, r4, nothing), stays)
            | inr (h, there) ↦
                let key : FlowKey = record {
                  sip = saddr;
                  dip = daddr;
                  sport = h.sport;
                  dport = h.dport;
                  proto = proto;
                } in
                let (p, found) = session_found key t stays.0 in
                elim (handle_flow-Stays scan zero_scan key h.payload p d t s stays found) [
                  | inl (r, run, after) ↦
                      inl (r, rw (r0, first, r1, second, r2, r3, r4, there, r5, r6) run, after)
                  | inr (e, faults, run) ↦ inr (
                    h.payload,
                    (e, faults, rw (r0, first, r1, second, r2, r3, r4, there, r5, r6) run),
                  )
                ]
          ]
        ]
      ]
