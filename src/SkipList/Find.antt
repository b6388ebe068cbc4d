-- ===== src/SkipList/Find.antt =====
-- `skiplist_search` and `skiplist_contains` of src/base/skip_list.cc find what a look at every node finds.
use Prim.Native.Nat.{Ordering}
use fast_dcs.Common.{
  ℕ, zero, suc, ◌+◌, ◌≤◌, ◌<◌, ◌≡◌, ◌≢◌, ◌⊎◌, inl, inr, refl, sym, ap, subst, ◌∙◌, Option, none,
  some, List, [], ◌∷◌, ◌++◌, arith, length, length-append,
}
use fast_dcs.Common.Int.{ℤ}
use fast_dcs.SkipList.{
  SkipList, Op, finish, goto_next_node, goto_next_level, skiplist_cmp_normalize, op_find, find_loop,
  skiplist_search, rounds, header,
}
use fast_dcs.SkipList.Chains.{Linked, Hop, next_at, behind-Linked, lowest_first}

pub Ordering-cases : (o : Ordering) → (o ≡ Ordering.lt) ⊎ ((o ≡ Ordering.eq) ⊎ (o ≡ Ordering.gt))
Ordering-cases Ordering.lt = inl refl
Ordering-cases Ordering.eq = inr (inl refl)
Ordering-cases Ordering.gt = inr (inr refl)

module _ {ℓ} {V : Type ℓ} (compare_to : V → ℤ) (s : SkipList V) where
  unfoldable pub sign : ℕ → Ordering
  sign n = skiplist_cmp_normalize (compare_to (s.value n))

  -- The nodes in their order, one by one.
  unfoldable pub first_equal : List ℕ → Option ℕ
  unfolding sign
  first_equal [] = none
  first_equal (n ∷ ns) = elim (sign n) [ Ordering.eq ↦ some n | _ ↦ first_equal ns ]

  abbrev pub Above : List ℕ → Type 0
  Above [] = Unit {0}
  Above (n ∷ ns) = (sign n ≡ Ordering.gt) × Above ns

  -- Behind a node that is not less, all are greater.
  abbrev pub Ascending : List ℕ → Type 0
  Ascending [] = Unit {0}
  Ascending (n ∷ ns) = ((sign n ≡ Ordering.lt) ⊎ Above ns) × Ascending ns

  first_equal-Above : (ns : List ℕ) → Above ns → first_equal ns ≡ none
  unfolding first_equal
  first_equal-Above [] a = refl
  first_equal-Above (n ∷ ns) (gt, a) = rw (first_equal, gt) (first_equal-Above ns a)

  pub Above-at :
      (before : List ℕ) (n : ℕ) (behind : List ℕ)
      → Above (before ++ n ∷ behind)
      → sign n ≡ Ordering.gt
  Above-at [] n behind a = a.0
  Above-at (b ∷ before) n behind a = Above-at before n behind a.1

  Ascending-behind :
      (before : List ℕ) (n : ℕ) (behind : List ℕ)
      → Ascending (before ++ n ∷ behind)
      → Ascending (n ∷ behind)
  Ascending-behind [] n behind a = a
  Ascending-behind (b ∷ before) n behind a = Ascending-behind before n behind a.1

  first_equal-behind :
      (before : List ℕ) (n : ℕ) (behind : List ℕ)
      → sign n ≢ Ordering.gt
      → Ascending (before ++ n ∷ behind)
      → first_equal (before ++ n ∷ behind) ≡ first_equal (n ∷ behind)
  unfolding first_equal
  first_equal-behind [] n behind small a = refl
  first_equal-behind (b ∷ before) n behind small (inl less, a) =
      rw (first_equal, less) (first_equal-behind before n behind small a)
  first_equal-behind (b ∷ before) n behind small (inr above, a) =
      absurd (small (Above-at before n behind above))

  pub first_equal_here :
      (n : ℕ) (ns : List ℕ) → sign n ≡ Ordering.eq → first_equal (n ∷ ns) ≡ some n
  unfolding first_equal
  first_equal_here n ns e = rw (first_equal, e) refl

  pub first_equal_less :
      (n : ℕ) (ns : List ℕ) → sign n ≡ Ordering.lt → first_equal (n ∷ ns) ≡ first_equal ns
  unfolding first_equal
  first_equal_less n ns e = rw (first_equal, e) refl

  first_equal_greater :
      (n : ℕ) (ns : List ℕ)
      → sign n ≡ Ordering.gt
      → Ascending (n ∷ ns)
      → first_equal (n ∷ ns) ≡ none
  unfolding first_equal
  first_equal_greater n ns e (inl less, a) = absurd (apart (sym less ∙ e))
    where
      apart : Ordering.lt ≡ Ordering.gt → ⊥
      apart h = cc
  first_equal_greater n ns e (inr above, a) = rw (first_equal, e) (first_equal-Above ns above)

  -- What the operation on the next node is, by the sign of its value.
  op_by_sign :
      (n : ℕ) (o : Ordering)
      → sign n ≡ o
      → op_find compare_to s (some n) ≡ elim o as (λ _. Op) [
        | Ordering.lt ↦ goto_next_node n
        | Ordering.eq ↦ finish n
        | Ordering.gt ↦ goto_next_level
      ]
  unfolding op_find sign
  op_by_sign n o e =
      ap
        (λ o. elim o as (λ _. Op) [
          | Ordering.lt ↦ goto_next_node n
          | Ordering.eq ↦ finish n
          | Ordering.gt ↦ goto_next_level
        ])
        e

  -- A round of the loop, by its operation.
  round_by_op :
      (fuel level cur : ℕ) (op : Op)
      → op_find compare_to s (s.forward cur level) ≡ op
      → find_loop compare_to s (suc fuel) (suc level) cur ≡ elim op as (λ _. Option (Option ℕ)) [
        | finish n ↦ some (some n)
        | goto_next_node n ↦ find_loop compare_to s fuel (suc level) n
        | goto_next_level ↦ find_loop compare_to s fuel level cur
      ]
  unfolding find_loop
  round_by_op fuel level cur op e =
      ap
        (λ op. elim op as (λ _. Option (Option ℕ)) [
          | finish n ↦ some (some n)
          | goto_next_node n ↦ find_loop compare_to s fuel (suc level) n
          | goto_next_level ↦ find_loop compare_to s fuel level cur
        ])
        e

  pub op_at :
      {level cur : ℕ} {ns : List ℕ} (h : Hop s level cur ns) (o : Ordering)
      → sign h.node ≡ o
      → op_find compare_to s (s.forward cur level) ≡ elim o as (λ _. Op) [
        | Ordering.lt ↦ goto_next_node h.node
        | Ordering.eq ↦ finish h.node
        | Ordering.gt ↦ goto_next_level
      ]
  op_at h o e = ap (op_find compare_to s) h.at ∙ op_by_sign h.node o e

  pub op_at_end :
      (level cur : ℕ)
      → s.forward cur level ≡ none
      → op_find compare_to s (s.forward cur level) ≡ goto_next_level
  unfolding op_find
  op_at_end level cur e = rw e refl

  -- At the end of the lowest level no equal node is left.
  lowest_none :
      (cur : ℕ) (ns : List ℕ)
      → Linked s 0 cur ns
      → Ascending ns
      → op_find compare_to s (s.forward cur 0) ≡ goto_next_level
      → first_equal ns ≡ none
  unfolding first_equal
  lowest_none cur [] chain a op = refl
  lowest_none cur (n ∷ ns) chain a op = elim (Ordering-cases (sign n)) [
    | inl less ↦ cc (
        sym (ap (op_find compare_to s) (lowest_first s chain) ∙ op_by_sign n Ordering.lt less) ∙ op)
    | inr (inl same) ↦ cc (
        sym (ap (op_find compare_to s) (lowest_first s chain) ∙ op_by_sign n Ordering.eq same) ∙ op)
    | inr (inr greater) ↦ first_equal_greater n ns greater a
  ]

  -- The rest of a chain, at every level below the node's.
  pub chains_behind :
      {level cur : ℕ} {ns : List ℕ} (h : Hop s level cur ns)
      → ((l : ℕ) → l < suc level → Linked s l cur ns)
      → (l : ℕ) → l < suc level
      → Linked s l h.node h.behind
  chains_behind {cur = cur} h chains l low =
      behind-Linked s h.before h.node h.behind (omega (arith, h.high))
        (subst (Linked s l cur) h.split (chains l low))

  -- The answer is behind a node that is less, is the equal node, or is not there.
  answer_behind :
      {level cur : ℕ} {ns : List ℕ} (h : Hop s level cur ns)
      → sign h.node ≢ Ordering.gt
      → Ascending ns
      → first_equal ns ≡ first_equal (h.node ∷ h.behind)
  answer_behind h small a =
      ap first_equal h.split
      ∙ first_equal-behind h.before h.node h.behind small (subst Ascending h.split a)

  lowest :
      (level cur : ℕ) (ns : List ℕ)
      → ((l : ℕ) → l < suc level → Linked s l cur ns)
      → Ascending ns
      → op_find compare_to s (s.forward cur level) ≡ goto_next_level
      → level ≡ 0
      → first_equal ns ≡ none
  lowest level cur ns chains a op z =
      lowest_none cur ns (chains 0 (omega arith)) a
        (subst (λ l. op_find compare_to s (s.forward cur l) ≡ goto_next_level) z op)

  pub shorter : {level cur : ℕ} {ns : List ℕ} (h : Hop s level cur ns) → length h.behind < length ns
  shorter h = omega (arith, ap length h.split, length-append h.before (h.node ∷ h.behind))

  pub rest_ascends :
      {level cur : ℕ} {ns : List ℕ} (h : Hop s level cur ns) → Ascending ns → Ascending h.behind
  rest_ascends h a = (Ascending-behind h.before h.node h.behind (subst Ascending h.split a)).1

  -- In whatever order the levels lead through the same nodes, the loop finds the equal one among them, in as many
  -- rounds as there are nodes and levels.
  pub find_loop_lem :
      (fuel height cur : ℕ) (ns : List ℕ)
      → length ns + height ≤ fuel
      → ((l : ℕ) → l < height → Linked s l cur ns)
      → Ascending ns
      → (height ≡ 0 → first_equal ns ≡ none)
      → find_loop compare_to s fuel height cur ≡ some (first_equal ns)
  unfolding find_loop
  find_loop_lem zero zero cur ns enough chains a bottom = ap some (sym (bottom refl))
  find_loop_lem (suc fuel) zero cur ns enough chains a bottom = ap some (sym (bottom refl))
  find_loop_lem zero (suc level) cur ns enough chains a bottom = absurd (omega arith)
  find_loop_lem (suc fuel) (suc level) cur ns enough chains a bottom =
      elim (next_at s (chains level (omega arith))) [
        | inl (e, low) ↦
            round_by_op fuel level cur goto_next_level (op_at_end level cur e)
            ∙ find_loop_lem fuel level cur ns (omega arith) (λ l low. chains l (omega arith)) a
                (lowest level cur ns chains a (op_at_end level cur e))
        | inr h ↦ elim (Ordering-cases (sign h.node)) [
          | inl less ↦
              round_by_op fuel level cur (goto_next_node h.node) (op_at h Ordering.lt less)
              ∙ find_loop_lem fuel (suc level) h.node h.behind (omega (arith, enough, shorter h))
                  (chains_behind h chains) (rest_ascends h a) (λ z. absurd (omega (arith, z)))
              ∙ ap some (
                  sym
                    (answer_behind h (λ k. cc (less, k)) a ∙ first_equal_less h.node h.behind less))
          | inr (inl same) ↦
              round_by_op fuel level cur (finish h.node) (op_at h Ordering.eq same)
              ∙ ap some (
                  sym
                    (answer_behind h (λ k. cc (same, k)) a ∙ first_equal_here h.node h.behind same))
          | inr (inr greater) ↦
              round_by_op fuel level cur goto_next_level (op_at h Ordering.gt greater)
              ∙ find_loop_lem fuel level cur ns (omega arith) (λ l low. chains l (omega arith)) a
                  (lowest level cur ns chains a (op_at h Ordering.gt greater))
        ]
      ]

  -- A list whose levels lead through the nodes `ns`, of which there are none where it has no level, and no more
  -- than were made, and whose values ascend, as `compare_to` compares them with what is looked for: the search
  -- ends, and finds the value of the first node that is equal, if there is one.
  pub skiplist_search_lem :
      (ns : List ℕ)
      → length ns ≤ s.next
      → (s.height ≡ 0 → ns ≡ [])
      → ((l : ℕ) → l < s.height → Linked s l header ns)
      → Ascending ns
      → skiplist_search compare_to s
        ≡ some
            (elim (first_equal ns) as (λ _. Option V) [ some n ↦ some (s.value n) | none ↦ none ])
  unfolding skiplist_search first_equal
  skiplist_search_lem ns few emptied chains a =
      rw
        (
          skiplist_search,
          find_loop_lem (rounds s) s.height header ns (omega arith) chains a
              (λ z. ap first_equal (emptied z)),
        )
        refl
