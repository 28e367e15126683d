-- ===== src/Automaton/Build/Nfa/Add.antt =====
-- A state that the loops of `Build_NFA` reach gets its failure state and its patterns.
use orchid_linux.Base.{
  ℕ, ◌<◌, ◌≤◌, ◌≡◌, ◌≢◌, refl, sym, ◌∙◌, ◌⊎◌, inl, inr, List, [], ◌∷◌, ◌++◌, some, arith, length,
  length-set, set, get_or, get_or-set_self, get_or-set_ne, get_elem?-eq-get_or, write-inside, ok,
}
use mathlib.Core.Path.{subst}
use native.Mathlib.Decide.{ℕ_discrete}
use orchid_linux.Automaton.Types.{Acsm, Pattern}
use orchid_linux.Automaton.Build.{copy_entries, set_failure}
use orchid_linux.Automaton.Build.Failure.{HasFailures, next_valid-LeadsTo}
use orchid_linux.Automaton.Tree.{Tree, depth}
use orchid_linux.Automaton.Tree.Longest.{IsFailure, child-IsFailure, depth-child}
use orchid_linux.Automaton.Tree.Layers.{WasSeen, IsLayered, IsIn-append_new}
use orchid_linux.Automaton.Tree.Layers.Steps.{WasSeen-append, WasSeen-append_old, not_seen}
use orchid_linux.Automaton.Build.Nfa.{IsTreeOf, with_lists, HasMatches, IsRight, copy-HasMatches}
use orchid_linux.Automaton.Build.Nfa.Walk.{LeadsTo-IsLongest}

-- The lists of patterns change for one state.
pub record IsListed (base : Acsm) (t : Tree) (lists lists' : List (List Pattern)) (s : ℕ)
    : Type 0 where
  pub same_length : length lists' ≡ length lists
  pub matches : HasMatches base t (get_or lists' s []) s
  pub others : (n : ℕ) → s ≢ n → get_or lists' n [] ≡ get_or lists n []

old :
    (done nodes : List ℕ) (s n : ℕ)
    → s ≢ n
    → WasSeen done (nodes ++ s ∷ []) n
    → WasSeen done nodes n
old done nodes s n ne seen = elim (WasSeen-append done nodes s n seen) [
  | inl before ↦ before
  | inr same ↦ absurd (ne (sym same))
]

-- The state that was put into the queue.
is_new : (done nodes : List ℕ) (s : ℕ) → WasSeen done (nodes ++ s ∷ []) s
is_new done nodes s = inr (IsIn-append_new nodes s)

module _ (base : Acsm) (t : Tree) (b : IsTreeOf base t) where
  pub add-IsRight :
      (done nodes fails : List ℕ) (lists lists' : List (List Pattern)) (s f : ℕ)
      → IsRight base t done nodes fails lists
      → (WasSeen done nodes s → ⊥)
      → s < t.size
      → s ≢ 0
      → IsFailure t s f
      → IsListed base t lists lists' s
      → IsRight base t done (nodes ++ s ∷ []) (set fails s f) lists'
  add-IsRight done nodes fails lists lists' s f r new inside other fail l =
      let here : get_or (set fails s f) s 0 ≡ f =
        get_or-set_self fails s f 0 (omega (arith, inside, r.fails_length, b.failing)) in
      let there : (n : ℕ) → s ≢ n → get_or (set fails s f) n 0 ≡ get_or fails n 0 =
        λ n ne. get_or-set_ne fails s n f 0 ne in
      record {
        fails_length = length-set fails s f ∙ r.fails_length;
        lists_length = l.same_length ∙ r.lists_length;
        fails_inside = λ n n_inside. elim (ℕ_discrete s n) [
          | yes same ↦
              subst (λ k. get_or (set fails s f) k 0 < t.size) same
                (omega (arith, here, fail.inside))
          | no ne ↦ omega (arith, there n ne, r.fails_inside n n_inside)
        ];
        fails_lower = λ n n_inside n_other. elim (ℕ_discrete s n) [
          | yes same ↦
              subst (λ k. depth t (get_or (set fails s f) k 0) < depth t k) same
                (subst (λ k. depth t k < depth t s) (sym here) fail.shorter)
          | no ne ↦
              subst (λ k. depth t k < depth t n) (sym (there n ne))
                (r.fails_lower n n_inside n_other)
        ];
        failure = λ n seen. elim (ℕ_discrete s n) [
          | yes same ↦
              subst (λ k. IsFailure t k (get_or (set fails s f) k 0)) same
                (subst (λ k. IsFailure t s k) (sym here) fail)
          | no ne ↦
              subst (λ k. IsFailure t n k) (sym (there n ne))
                (r.failure n (old done nodes s n ne seen))
        ];
        matches = λ n known. elim (ℕ_discrete s n) [
          | yes same ↦ subst (λ k. HasMatches base t (get_or lists' k []) k) same l.matches
          | no ne ↦
              subst (λ ps. HasMatches base t ps n) (sym (l.others n ne))
                (r.matches n (elim known [
                  | inl root ↦ inl root
                  | inr seen ↦ inr (old done nodes s n ne seen)
                ]))
        ];
        kept = λ n not. elim (ℕ_discrete s n) [
          | yes same ↦
              absurd
                (not (subst (λ k. WasSeen done (nodes ++ s ∷ []) k) same (is_new done nodes s)))
          | no ne ↦ l.others n ne ∙ r.kept n (λ seen. not (WasSeen-append_old done nodes s n seen))
        ];
      }

  IsRight-HasFailures :
      (done nodes fails : List ℕ) (lists : List (List Pattern))
      → IsRight base t done nodes fails lists
      → HasFailures (with_lists base fails lists) (depth t) t.size
  IsRight-HasFailures done nodes fails lists r = record {
    listed = b.listed;
    failing = omega (arith, b.failing, r.fails_length);
    inside = r.fails_inside;
    lower = r.fails_lower;
    targets = λ state c next inside e bad.
        omega (arith, bad, b.small, t.to_inside state c next (sym (b.same state c) ∙ e));
  }

  -- The states that are not deeper than the current one are known.
  known_up_to :
      (done nodes : List ℕ) (r i n : ℕ)
      → IsLayered t done nodes r i
      → n < t.size
      → depth t n ≤ depth t r
      → (n ≡ 0) ⊎ WasSeen done nodes n
  known_up_to done nodes r i n l inside le = elim (ℕ_discrete n 0) [
    | yes root ↦ inl root
    | no other ↦ inr (l.complete n inside other le)
  ]

  -- What `set_failure` does for a state of the trie.
  pub record IsFailureSet (rounds r s i : ℕ) (done nodes fails : List ℕ)
      (lists : List (List Pattern)) : Type 0 where
    pub fails_to : ℕ
    pub lists_to : List (List Pattern)
    pub run :
        set_failure rounds (with_lists base fails lists) r s i
        ≡ ok (with_lists base (set fails s fails_to) lists_to)
    pub right : IsRight base t done (nodes ++ s ∷ []) (set fails s fails_to) lists_to

  pub set_failure-IsRight :
      (rounds r s i : ℕ) (done nodes fails : List ℕ) (lists : List (List Pattern))
      → t.height ≤ rounds
      → IsRight base t done nodes fails lists
      → IsLayered t done nodes r i
      → r ≢ 0
      → t.child r i ≡ some s
      → IsFailureSet rounds r s i done nodes fails lists
  unfolding set_failure
  set_failure-IsRight rounds r s i done nodes fails lists fuel right l not_root e =
      let acsm = with_lists base fails lists in
      let inside = t.from_inside r i s e in
      let s_inside = t.to_inside r i s e in
      let f = get_or fails r 0 in
      let fail = right.failure r (l.complete r inside not_root (omega arith)) in
      let (n, walked, leads) =
        next_valid-LeadsTo rounds acsm (depth t) t.size f i
          (IsRight-HasFailures done nodes fails lists right) fail.inside
          (omega (arith, fail.shorter, t.low r inside, fuel)) in
      let long =
        LeadsTo-IsLongest base t b acsm i f n refl fail.inside
          (λ m m_inside m_other le.
            right.failure m (l.complete m m_inside m_other (omega (arith, le, fail.shorter))))
          leads in
      let s_fail = child-IsFailure t r i f s n e fail long in
      let new = not_seen t done nodes r i s l e in
      let list = copy_entries (get_or lists n []) (get_or lists s []) in
      let s_listed : s < length lists = omega (arith, s_inside, right.lists_length, b.matching) in
      let own : get_or lists s [] ≡ get_or base.match_list s [] = right.kept s new in
      let known =
        known_up_to done nodes r i n l long.inside
          (omega (arith, s_fail.shorter, depth-child t r i s e)) in
      let matches : HasMatches base t list s =
        subst (λ ps. HasMatches base t (copy_entries (get_or lists n []) ps) s) (sym own)
          (copy-HasMatches base t b (get_or lists n []) s n s_inside s_fail
            (right.matches n known)) in
      record {
        fails_to = n;
        lists_to = set lists s list;
        run =
            rw
              (
                get_elem?-eq-get_or fails r 0
                    (omega (arith, inside, right.fails_length, b.failing)),
                walked,
                write-inside fails s n (omega (arith, s_inside, right.fails_length, b.failing)),
                get_elem?-eq-get_or lists n []
                    (omega (arith, long.inside, right.lists_length, b.matching)),
                get_elem?-eq-get_or lists s [] s_listed,
                write-inside lists s list s_listed,
              )
              refl;
        right =
            add-IsRight done nodes fails lists (set lists s list) s n right new s_inside
              (t.to_state r i s e) s_fail
              (record {
                same_length = length-set lists s list;
                matches =
                    subst (λ ps. HasMatches base t ps s)
                      (sym (get_or-set_self lists s list [] s_listed)) matches;
                others = λ m ne. get_or-set_ne lists s m list [] ne;
              });
      }
