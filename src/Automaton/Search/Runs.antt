-- ===== src/Automaton/Search/Runs.antt =====
-- The banded search as the run of an automaton: which calls of the callback it makes.
use orchid_linux.Base.{
  ℕ, suc, ◌+◌, ◌<◌, ◌≡◌, refl, ◌∙◌, Bool, false, List, [], ◌∷◌, ◌++◌, some, none, if◌then◌else◌,
  arith, Run, ok, fault, ◌>>=◌, read, length, length-append, get_or, u32, bind_assoc, bind_congr,
  sym, ap,
}
use native.Mathlib.Nat.{add-zero, zero-add}
use orchid_linux.Matcher.Found.{Match}
use orchid_linux.Automaton.Types.{Acsm, Pattern}
use orchid_linux.Automaton.Compile.{xlatcase}
use orchid_linux.Automaton.Search.{
  match_index, Found, Ended, at_end, banded_step, test_match, search_loop, search_banded,
  search_end, finish, call_inside, call_at_end,
}

-- The calls for the first pattern of a list.
abbrev pub inside_match : Pattern → ℕ → Match
inside_match px at = record {
  id = px.iid;
  index = match_index at px;
  position = some (match_index at px);
}

abbrev pub end_match : Pattern → ℕ → Match
end_match px at = record { id = u32 px.udata; index = match_index at px; position = none }

abbrev pub first_match : (Pattern → ℕ → Match) → List Pattern → ℕ → List Match
first_match m [] at = []
first_match m (px ∷ rest) at = m px at ∷ []

-- The calls along a text of an automaton with the transitions `next` and the lists `lists`.
abbrev pub matches_along : (ℕ → List Pattern) → (ℕ → ℕ → ℕ) → ℕ → ℕ → List ℕ → List Match
matches_along lists next at state [] = []
matches_along lists next at state (c ∷ text) =
    first_match inside_match (lists state) at
    ++ matches_along lists next (suc at) (next state (xlatcase c)) text

abbrev pub state_after : (ℕ → ℕ → ℕ) → ℕ → List ℕ → ℕ
state_after next state [] = state
state_after next state (c ∷ text) = state_after next (next state (xlatcase c)) text

abbrev pub lists_of : Acsm → ℕ → List Pattern
lists_of acsm state = get_or acsm.match_list state []

-- All calls of the banded search.
abbrev pub banded_matches : Acsm → (ℕ → ℕ → ℕ) → ℕ → List ℕ → List Match
banded_matches acsm next state text =
    matches_along (lists_of acsm) next 0 state text
    ++ first_match end_match (lists_of acsm (state_after next state text)) (length text)

-- The flag of a row: whether its state has patterns.
abbrev pub flag_of : List Pattern → ℕ
flag_of [] = 0
flag_of (px ∷ rest) = 1

-- The rows of the states below `size` give the transitions `next`, which stay below it.
pub record IsTable (acsm : Acsm) (next : ℕ → ℕ → ℕ) (size : ℕ) : Type 0 where
  pub listed : (state : ℕ) → state < size → read acsm.match_list state ≡ ok (lists_of acsm state)
  pub row : (state : ℕ) → state < size → List ℕ
  pub rows : (state : ℕ) (h : state < size) → read acsm.next_state state ≡ ok (row state h)
  pub flags :
      (state : ℕ) (h : state < size) → read (row state h) 1 ≡ ok (flag_of (lists_of acsm state))
  pub steps :
      (state : ℕ) (h : state < size) (c : ℕ)
      → banded_step (row state h) (xlatcase c) ≡ ok (next state (xlatcase c))
  pub closed : (state c : ℕ) → state < size → next state c < size

-- A callback that never ends the search, and its calls one after the other.
abbrev pub going_on : {S : Type 0} → (Match → S → Run S) → Match → S → Run (Bool × S)
going_on g m s = g m s >>= λ s'. ok (false, s')

abbrev stay : {S : Type 0} → S → Run (Bool × S)
stay s = ok (false, s)

abbrev with_count : {S : Type 0} → ℕ → Bool × S → Run (Bool × (ℕ × S))
with_count n r = ok (r.0, (n, r.1))

abbrev ended_at : {S : Type 0} → ℕ → ℕ → S → Run (Ended S)
ended_at state n s = ok (at_end state n s)

abbrev pub found_at : {S : Type 0} → ℕ → ℕ → S → Run (Found S)
found_at state n s = ok (record { nfound = n; state = state; globals = s })

abbrev found_last : {S : Type 0} → ℕ → ℕ → ℕ → Bool × S → Run (Found S)
found_last n last_state kept r =
    ok (record { nfound = n; state = if r.0 then last_state else kept; globals = r.1 })

abbrev pub each : {S : Type 0} → (Match → S → Run S) → List Match → S → Run S
each g [] s = ok s
each g (m ∷ ms) s = g m s >>= each g ms

module _ {S : Type 0} (g : Match → S → Run S) where
  each-append : (ms ms' : List Match) (s : S) → each g (ms ++ ms') s ≡ (each g ms s >>= each g ms')
  each-append [] ms' s = refl
  each-append (m ∷ ms) ms' s =
      bind_congr (g m s) (each g (ms ++ ms')) (λ s'. each g ms s' >>= each g ms')
        (each-append ms ms')
      ∙ sym (bind_assoc (g m s) (each g ms) (each g ms'))

  called_once :
      (r : Run S) (n : ℕ)
      → ((r >>= stay) >>= with_count n) ≡ ((r >>= λ s'. ok s') >>= λ s'. ok (false, (n, s')))
  called_once (fault e) n = refl
  called_once (ok s') n = refl

  called_last :
      (r : Run S) (n last_state kept : ℕ)
      → ((r >>= stay) >>= found_last n last_state kept) ≡ ((r >>= λ s'. ok s') >>= found_at kept n)
  called_last (fault e) n last_state kept = refl
  called_last (ok s') n last_state kept = refl

  next_step :
      {X B : Type 0} (f : S → X) (rest : X → Run B) (later : S → Run B) (r : Run S)
      → ((s' : S) → rest (f s') ≡ later s')
      → ((r >>= λ s'. ok (f s')) >>= rest) ≡ (r >>= later)
  next_step f rest later (fault e) same = refl
  next_step f rest later (ok s') same = same s'

  test_match-first :
      (acsm : Acsm) (ps : List ℕ) (mlist : List Pattern) (state at nfound : ℕ) (s : S)
      → read ps 1 ≡ ok (flag_of mlist)
      → read acsm.match_list state ≡ ok mlist
      → test_match (call_inside (going_on g)) acsm ps state at nfound s ≡ (
          each g (first_match inside_match mlist at) s >>= λ s'.
          ok (false, (nfound + length (first_match inside_match mlist at), s')))
  unfolding test_match call_inside
  test_match-first acsm ps [] state at nfound s flag listed = rw (flag, add-zero) refl
  test_match-first acsm ps (px ∷ rest) state at nfound s flag listed =
      rw (flag, listed) (called_once (g (inside_match px at) s) (nfound + 1))

  -- The text behind the first byte.
  join :
      {B : Type 0} (first rest : List Match) (s : S) (n : ℕ) (end : ℕ → S → Run B)
      → (each g first s >>= λ s'. each g rest s' >>= end (n + length first + length rest))
        ≡ (each g (first ++ rest) s >>= end (n + length (first ++ rest)))
  join first rest s n end =
      let count : n + length first + length rest ≡ n + length (first ++ rest) =
        omega (arith, length-append first rest) in
      rw (each-append first rest s, ← count)
        (sym (bind_assoc (each g first s) (each g rest) (end (n + length first + length rest))))

  search_loop-runs :
      (acsm : Acsm) (next : ℕ → ℕ → ℕ) (size : ℕ) (text : List ℕ) (at state nfound : ℕ) (s : S)
      → IsTable acsm next size
      → state < size
      → search_loop (call_inside (going_on g)) banded_step acsm text at state nfound s ≡ (
          each g (matches_along (lists_of acsm) next at state text) s
          >>= ended_at
              (state_after next state text)
              (nfound + length (matches_along (lists_of acsm) next at state text)))
  unfolding search_loop
  search_loop-runs acsm next size [] at state nfound s t h = rw add-zero refl
  search_loop-runs acsm next size (c ∷ text) at state nfound s t h =
      let st = next state (xlatcase c) in
      let first = first_match inside_match (lists_of acsm state) at in
      let rest = matches_along (lists_of acsm) next (suc at) st text in
      let nf = nfound + length first in
      rw
        (
          t.rows state h,
          test_match-first acsm (t.row state h) (lists_of acsm state) state at nfound s
              (t.flags state h) (t.listed state h),
          t.steps state h c,
        )
        (next_step (λ s'. (false, (nf, s'))) _
            (λ s'. each g rest s' >>= ended_at (state_after next st text) (nf + length rest))
            (each g first s)
            (λ s'.
              search_loop-runs acsm next size text (suc at) st nf s' t
                (t.closed state (xlatcase c) h))
          ∙ join first rest s nfound (ended_at (state_after next st text)))

  at_the_end :
      (acsm : Acsm) (mlist : List Pattern) (at kept state nfound : ℕ) (s : S)
      → read acsm.match_list state ≡ ok mlist
      → search_end (going_on g) acsm at kept state nfound s ≡ (
          each g (first_match end_match mlist at) s
          >>= found_at kept (nfound + length (first_match end_match mlist at)))
  unfolding search_end call_at_end
  at_the_end acsm [] at kept state nfound s listed = rw (listed, add-zero) refl
  at_the_end acsm (px ∷ rest) at kept state nfound s listed =
      rw listed (called_last (g (end_match px at) s) (nfound + 1) state kept)

  state_after-lt :
      (acsm : Acsm) (next : ℕ → ℕ → ℕ) (size state : ℕ) (text : List ℕ)
      → IsTable acsm next size
      → state < size
      → state_after next state text < size
  state_after-lt acsm next size state [] t h = h
  state_after-lt acsm next size state (c ∷ text) t h =
      state_after-lt acsm next size (next state (xlatcase c)) text t (t.closed state (xlatcase c) h)

  -- For a table of banded rows and a callback that never ends the search: the search from a state of
  -- the table makes the calls along the text, those at its end included, one after the other and no
  -- others; it counts them and leaves `*current_state` as it was.
  pub search_banded-runs :
      (acsm : Acsm) (next : ℕ → ℕ → ℕ) (size : ℕ) (text : List ℕ) (state : ℕ) (s : S)
      → IsTable acsm next size
      → state < size
      → search_banded (going_on g) acsm text state s ≡ (
          each g (banded_matches acsm next state text) s
          >>= found_at state (length (banded_matches acsm next state text)))
  unfolding search_banded finish
  search_banded-runs acsm next size text state s t h =
      let last = state_after next state text in
      let ms = matches_along (lists_of acsm) next 0 state text in
      let ends = first_match end_match (lists_of acsm last) (length text) in
      rw (search_loop-runs acsm next size text 0 state 0 s t h) (
        next_step (λ s'. at_end last (0 + length ms) s') _
          (λ s'. each g ends s' >>= found_at state (0 + length ms + length ends)) (each g ms s)
          (λ s'.
            at_the_end acsm (lists_of acsm last) (length text) state last (0 + length ms) s'
              (t.listed last (state_after-lt acsm next size state text t h)))
        ∙ join ms ends s 0 (found_at state)
        ∙ ap (λ n. each g (ms ++ ends) s >>= found_at state n) (zero-add (length (ms ++ ends))))
