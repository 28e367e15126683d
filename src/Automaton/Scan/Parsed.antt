-- ===== src/Automaton/Scan/Parsed.antt =====
-- Where the calls of the automaton stand in the text of a packet.
use orchid_linux.Base.{
  ℕ, ◌+◌, ◌<◌, ◌≤◌, ◌^◌, ◌≡◌, refl, ap, inl, inr, List, [], ◌∷◌, ◌++◌, arith, length, length-append,
  All, IsIn,
}
use orchid_linux.Matcher.Found.{Match}
use orchid_linux.Matcher.Found.Selected.{IsInside}
use orchid_linux.Automaton.Types.{Pattern}
use orchid_linux.Automaton.Search.Calls.{call_for}

pub All-each : (P : Match → Type 0) (ms : List Match) → ((m : Match) → IsIn m ms → P m) → All P ms
All-each P [] h = tt
All-each P (m ∷ ms) h = (h m (inl refl), All-each P ms (λ n i. h n (inr i)))

-- A call before the end of the text, for a pattern that was read, is inside it where there are at
-- least 12 bytes from the beginning of the pattern on.
pub call_for-IsInside :
    (text front : List ℕ) (c : ℕ) (rest : List ℕ) (px : Pattern)
    → text ≡ front ++ c ∷ rest
    → length text < 2 ^ 31
    → px.n ≤ length front
    → 12 ≤ px.n + length (c ∷ rest)
    → IsInside text (call_for px front (c ∷ rest))
call_for-IsInside text front c rest px e short was_read room = (
  refl,
  omega (arith, ap (λ l. length l) e, length-append front (c ∷ rest), short, was_read, room),
)
