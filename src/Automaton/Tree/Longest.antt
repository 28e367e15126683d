-- ===== src/Automaton/Tree/Longest.antt =====
-- The state of a text: the longest word that ends it; and the failure state of a state.
use orchid_linux.Base.{
  ℕ, suc, ◌<◌, ◌≤◌, ◌≡◌, refl, ap, sym, ◌∙◌, ◌⊎◌, inl, inr, List, [], ◌∷◌, none, some, arith,
  length,
}
use mathlib.Core.Path.{subst}
use native.Mathlib.Decide.{ℕ_discrete, dec_lt}
use orchid_linux.Automaton.Tree.{
  Tree, depth, IsStart, IsStart-refl, IsStart-trans, IsStart-between, IsStart-same, length-IsStart,
}

-- The state whose word is the longest that begins `back`, a text backwards.
pub record IsLongest (t : Tree) (back : List ℕ) (q : ℕ) : Type 0 where
  pub inside : q < t.size
  pub starts : IsStart (t.word q) back
  pub longest : (m : ℕ) → m < t.size → IsStart (t.word m) back → depth t m ≤ depth t q

-- The state of the longest text that ends the text of `n` and is shorter.
pub record IsFailure (t : Tree) (n f : ℕ) : Type 0 where
  pub inside : f < t.size
  pub shorter : depth t f < depth t n
  pub starts : IsStart (t.word f) (t.word n)
  pub longest :
      (m : ℕ)
      → m < t.size
      → depth t m < depth t n
      → IsStart (t.word m) (t.word n)
      → depth t m ≤ depth t f

-- A state whose word begins another one but for the newest byte.
pub record IsBehind (t : Tree) (m c : ℕ) (back : List ℕ) : Type 0 where
  pub parent : ℕ
  pub leads : t.child parent c ≡ some m
  pub word_is : t.word m ≡ c ∷ t.word parent
  pub starts : IsStart (t.word parent) back

module _ (t : Tree) where
  pub depth-child : (s c n : ℕ) → t.child s c ≡ some n → depth t n ≡ suc (depth t s)
  depth-child s c n e = ap (λ w. length w) (t.word_child s c n e)

  pub depth_zero : depth t 0 ≡ 0
  depth_zero = ap (λ w. length w) t.root_word

  root_starts : (back : List ℕ) → IsStart (t.word 0) back
  root_starts back = subst (λ w. IsStart w back) (sym t.root_word) tt

  pub behind :
      (m c : ℕ) (back : List ℕ)
      → m < t.size
      → IsStart (t.word m) (c ∷ back)
      → (m ≡ 0) ⊎ IsBehind t m c back
  behind m c back inside starts = elim (ℕ_discrete m 0) [
    | yes root ↦ inl root
    | no other ↦
        let (p, c', e) = t.up m inside other in
        let word = t.word_child p c' m e in
        let both : (c' ≡ c) × IsStart (t.word p) back =
          subst (λ w. IsStart w (c ∷ back)) word starts in
        inr (record {
          parent = p;
          leads = subst (λ k. t.child p k ≡ some m) both.0 e;
          word_is = word ∙ ap (λ k. k ∷ t.word p) both.0;
          starts = both.1;
        })
  ]

  -- The words of the candidates for a longer text, one by one.
  longest_by_parent :
      (c q : ℕ) (back : List ℕ)
      → ((m : ℕ) → IsBehind t m c back → depth t m ≤ depth t q)
      → (m : ℕ) → m < t.size
      → IsStart (t.word m) (c ∷ back)
      → depth t m ≤ depth t q
  longest_by_parent c q back h m inside starts = elim (behind m c back inside starts) [
    | inl root ↦ omega (arith, ap (λ n. depth t n) root, depth_zero)
    | inr b ↦ h m b
  ]

  -- A longer word begins what a state that is not too high can see.
  behind-IsStart :
      (m c f : ℕ) (back : List ℕ) (b : IsBehind t m c back)
      → IsStart (t.word f) back
      → depth t b.parent ≤ depth t f
      → IsStart (t.word m) (c ∷ t.word f)
  behind-IsStart m c f back b starts le =
      subst (λ w. IsStart w (c ∷ t.word f)) (sym b.word_is)
        (refl, IsStart-between (t.word b.parent) (t.word f) back b.starts starts le)

  pub root-IsLongest : IsLongest t [] 0
  root-IsLongest = record {
    inside = t.root_inside;
    starts = root_starts [];
    longest = λ m inside starts. omega (arith, length-IsStart (t.word m) [] starts);
  }

  pub child-IsLongest : (s c n : ℕ) → t.child s c ≡ some n → IsLongest t (c ∷ t.word s) n
  child-IsLongest s c n e = record {
    inside = t.to_inside s c n e;
    starts =
        subst (λ w. IsStart w (c ∷ t.word s)) (sym (t.word_child s c n e))
          (IsStart-refl (c ∷ t.word s));
    longest = λ m inside starts.
        omega (arith, length-IsStart (t.word m) (c ∷ t.word s) starts, depth-child s c n e);
  }

  pub root_none-IsLongest : (c : ℕ) → t.child 0 c ≡ none → IsLongest t (c ∷ t.word 0) 0
  root_none-IsLongest c e = record {
    inside = t.root_inside;
    starts = root_starts (c ∷ t.word 0);
    longest = longest_by_parent c 0 (t.word 0) (λ m b.
        let at_root : b.parent ≡ 0 =
          t.one_state b.parent 0 (t.from_inside b.parent c m b.leads) t.root_inside (
            IsStart-same (t.word b.parent) (t.word 0) (t.word 0) b.starts (IsStart-refl (t.word 0))
              (omega (arith, length-IsStart (t.word b.parent) (t.word 0) b.starts, depth_zero))) in
        absurd (cc (subst (λ p. t.child p c ≡ some m) at_root b.leads, e)));
  }

  -- Where a state has no child for an input, its failure state decides.
  pub failure-IsLongest :
      (r c f n : ℕ)
      → r < t.size
      → t.child r c ≡ none
      → IsFailure t r f
      → IsLongest t (c ∷ t.word f) n
      → IsLongest t (c ∷ t.word r) n
  failure-IsLongest r c f n inside nothing fail long = record {
    inside = long.inside;
    starts = IsStart-trans (t.word n) (c ∷ t.word f) (c ∷ t.word r) long.starts (refl, fail.starts);
    longest = longest_by_parent c n (t.word r) (λ m b.
        elim (dec_lt (depth t b.parent) (depth t r)) [
          | yes lower ↦
              let p_inside = t.from_inside b.parent c m b.leads in
              let le = fail.longest b.parent p_inside lower b.starts in
              long.longest m (t.to_inside b.parent c m b.leads)
                (behind-IsStart m c f (t.word r) b fail.starts le)
          | no not_lower ↦
              let same : b.parent ≡ r =
                t.one_state b.parent r (t.from_inside b.parent c m b.leads) inside (
                  IsStart-same (t.word b.parent) (t.word r) (t.word r) b.starts
                    (IsStart-refl (t.word r))
                    (omega
                      (arith, not_lower, length-IsStart (t.word b.parent) (t.word r) b.starts))) in
              absurd (cc (subst (λ p. t.child p c ≡ some m) same b.leads, nothing))
        ]);
  }

  pub child-IsFailure :
      (r c f s n : ℕ)
      → t.child r c ≡ some s
      → IsFailure t r f
      → IsLongest t (c ∷ t.word f) n
      → IsFailure t s n
  child-IsFailure r c f s n e fail long =
      let word = t.word_child r c s e in
      record {
        inside = long.inside;
        shorter = omega (
          arith,
          length-IsStart (t.word n) (c ∷ t.word f) long.starts,
          fail.shorter,
          depth-child r c s e,
        );
        starts =
            subst (λ w. IsStart (t.word n) w) (sym word)
              (IsStart-trans (t.word n) (c ∷ t.word f) (c ∷ t.word r) long.starts
                (refl, fail.starts));
        longest = λ m m_inside lower starts.
            elim (behind m c (t.word r) m_inside (subst (λ w. IsStart (t.word m) w) word starts)) [
              | inl root ↦ omega (arith, ap (λ n. depth t n) root, depth_zero)
              | inr b ↦
                  let d = depth-child b.parent c m b.leads in
                  let le =
                    fail.longest b.parent (t.from_inside b.parent c m b.leads)
                      (omega (arith, lower, d, depth-child r c s e)) b.starts in
                  long.longest m m_inside (behind-IsStart m c f (t.word r) b fail.starts le)
            ];
      }

  pub first-IsFailure : (c s : ℕ) → t.child 0 c ≡ some s → IsFailure t s 0
  first-IsFailure c s e =
      let d = depth-child 0 c s e in
      record {
        inside = t.root_inside;
        shorter = omega (arith, d, depth_zero);
        starts = root_starts (t.word s);
        longest = λ m inside lower starts. omega (arith, lower, d, depth_zero);
      }

  -- The step of a text by a byte.
  pub IsLongest-next :
      (c q n : ℕ) (back : List ℕ)
      → IsLongest t back q
      → IsLongest t (c ∷ t.word q) n
      → IsLongest t (c ∷ back) n
  IsLongest-next c q n back before after = record {
    inside = after.inside;
    starts = IsStart-trans (t.word n) (c ∷ t.word q) (c ∷ back) after.starts (refl, before.starts);
    longest = longest_by_parent c n back (λ m b.
        let le = before.longest b.parent (t.from_inside b.parent c m b.leads) b.starts in
        after.longest m (t.to_inside b.parent c m b.leads)
          (behind-IsStart m c q back b before.starts le));
  }
