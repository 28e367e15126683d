-- ===== src/Program/Printed.antt =====
-- What `main` prints of a capture.
use orchid_linux.Base.{refl, true, arith}
use orchid_linux.Session.Defs.{Session, create_session_table, no_table}
use orchid_linux.Session.Refine.{create_session_table_lem}
use orchid_linux.Packet.Valid.{Stays}

pub empty-Stays : Stays (create_session_table true no_table).1
unfolding create_session_table
empty-Stays = ((create_session_table_lem no_table refl).1, λ p s h. absurd (grind arith))
