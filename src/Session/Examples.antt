-- ===== src/Session/Examples.antt =====
-- The theorems on the session table at the table that `create_session_table` leaves, and tests.
use orchid_linux.Base.{◌≡◌, ◌∙◌, ◌^◌, refl, true, false, none, some, get_elem?, length, arith, ◌<◌}
use orchid_linux.Base.Int.{pos, negsuc}
use orchid_linux.Session.Defs.{
  FlowKey, Session, SessionTable, new_session, hash5tuple, opposite, create_session,
  session_table_find, create_session_table, no_table,
}
use orchid_linux.Session.View.{view}
use orchid_linux.Session.Valid.{
  IsValid, conversations, find_conversation, Refines, create_session-IsValid,
}
use orchid_linux.Session.Refine.{
  find_once, session_table_find-find_once, session_table_find-Refines, session_table_find-opposite,
  create_session_table_lem,
}

abbrev request : FlowKey
request = record { sip = 0x0a00_0001; dip = 0x0808_0808; sport = 0x5000; dport = 0xd2d4; proto = 6 }

-- The ports do not enter symmetrically: the two directions stand in different buckets.
buckets_differ : (hash5tuple request ≡ 4600) × (hash5tuple (opposite request) ≡ 1509)
unfolding hash5tuple
buckets_differ = (refl, refl)

abbrev started : SessionTable
started = (create_session_table true no_table).1

create_session_table_lem_example :
    ((create_session_table true no_table).0 ≡ pos 0)
    × IsValid (create_session_table true no_table).1
    × ((q : FlowKey) → view (create_session_table true no_table).1.htable q ≡ none)
    × ((create_session_table false no_table).0 ≡ negsuc 0)
create_session_table_lem_example = create_session_table_lem no_table refl

started-IsValid : IsValid started
started-IsValid = (create_session_table_lem no_table refl).1

started-none : view started.htable request ≡ none
started-none = (create_session_table_lem no_table refl).2 request

session_table_find-find_once_example :
    session_table_find true request started ≡ find_once true request started
session_table_find-find_once_example =
    session_table_find-find_once true request started started-IsValid

session_table_find-Refines_example :
    Refines
      (session_table_find true request started)
      (find_conversation true request (conversations started))
session_table_find-Refines_example = session_table_find-Refines true request started started-IsValid

first_session : (session_table_find true request started).0 ≡ some 0
unfolding create_session_table
first_session =
    (session_table_find-Refines true request started started-IsValid).result
    ∙ rw (started-none, find_conversation)

session_table_find-opposite_example :
    session_table_find false (opposite request) (session_table_find true request started).1
    ≡ (some 0, (session_table_find true request started).1)
session_table_find-opposite_example =
    session_table_find-opposite true false request started started-IsValid first_session

abbrev one_session : SessionTable
one_session = (create_session request started).1

one_session-IsValid : IsValid one_session
one_session-IsValid = create_session-IsValid request started started-IsValid started-none

abbrev session : Session
session = new_session 0 1 request

session_at_zero : get_elem? one_session.sessions 0 ≡ some session
unfolding create_session create_session_table
session_at_zero = refl

one_session_few : length one_session.sessions < 2 ^ 32
unfolding create_session create_session_table
one_session_few = omega arith
