-- ===== src/Automaton/Search/Choice.antt =====
-- The choice of the search: `acsmSearch2`.
use orchid_linux.Base.{ℕ, Bool, List, ◌==◌, if◌then◌else◌, Run, ok, ◌≡◌, refl}
use orchid_linux.Matcher.Found.{Match}
use orchid_linux.Automaton.Types.{Acsm, acf_full, acf_fullq, acf_banded, fsa_nfa, fsa_dfa}
use orchid_linux.Automaton.Search.{Found, search_full, search_banded, search_sparse}
use orchid_linux.Automaton.Search.Nfa.{search_nfa}
use orchid_linux.Automaton.Search.Queued.{search_queued, init_queue}

module _ {S : Type 0} (match : Match → S → Run (Bool × S)) where
  -- `acsmSearch2`; `rounds` bounds the walks along failure states.
  unfoldable pub acsm_search : ℕ → Acsm → List ℕ → ℕ → S → Run (Found S)
  acsm_search rounds acsm text state s =
      if acsm.fsa == fsa_dfa
      then if acsm.format == acf_full
        then search_full match acsm text state s
        else if acsm.format == acf_fullq
        then search_queued match acsm text state init_queue s
        else if acsm.format == acf_banded
        then search_banded match acsm text state s
        else search_sparse match acsm text 0 state 0 s
      else if acsm.fsa == fsa_nfa
      then search_nfa match rounds acsm state text 0 state 0 s
      else ok (record { nfound = 0; state = state; globals = s })

  pub acsm_search-search_banded :
      (rounds : ℕ) (acsm : Acsm) (text : List ℕ) (state : ℕ) (s : S)
      → acsm.fsa ≡ fsa_dfa
      → acsm.format ≡ acf_banded
      → acsm_search rounds acsm text state s ≡ search_banded match acsm text state s
  unfolding acsm_search
  acsm_search-search_banded rounds acsm text state s dfa banded = rw (dfa, banded) refl
