-- ===== src/SkipList/Added.antt =====
-- `skiplist_insert` of src/base/skip_list.cc adds its value at its place.
use Prim.Native.Nat.{Ordering}
use fast_dcs.Common.{
  ℕ, ◌<◌, ◌≡◌, inl, inr, refl, sym, ap, subst, ◌∙◌, true, some, List, [], ◌∷◌, ◌++◌, arith,
}
use fast_dcs.Common.Int.{ℤ, pos}
use fast_dcs.SkipList.{
  SkipList, insert_between, header, rounds, insert_loop, skiplist_insert, skiplist_contains,
  skiplist_cmp_normalize,
}
use fast_dcs.SkipList.Chains.{AllLow}
use fast_dcs.SkipList.Find.{
  Ascending, Above, sign, Ordering-cases, first_equal, find_loop_lem, first_equal_here,
  first_equal_less,
}
use fast_dcs.SkipList.Way.{less_prefix, Fresh, place_loop_lem}
use fast_dcs.SkipList.Inserted.{IsValid, Made, t, t-IsValid}

module _ {ℓ} {V : Type ℓ} (compare_to : V → ℤ) (s : SkipList V) where
  -- Behind the front of less values all are greater.
  split_less :
      (ns : List ℕ)
      → Ascending compare_to s ns
      → Fresh compare_to s ns
      → (back : List ℕ) × ((ns ≡ less_prefix compare_to s ns ++ back) × Above compare_to s back)
  unfolding less_prefix
  split_less [] a f = ([], (refl, tt))
  split_less (n ∷ ns) (order, a) f = elim (Ordering-cases (sign compare_to s n)) [
    | inl less ↦
        let (back, (e, above)) = split_less ns a f.1 in
        (back, (rw (less_prefix, less) (ap (λ ns. n ∷ ns) e), above))
    | inr (inl same) ↦ absurd (f.0 same)
    | inr (inr greater) ↦ (
      n ∷ ns,
      (
        rw (less_prefix, greater) refl,
        (
          greater,
          elim order [ inl less ↦ absurd (apart (sym less ∙ greater)) | inr above ↦ above ],
        ),
      ),
    )
  ]
    where
      apart : Ordering.lt ≡ Ordering.gt → ⊥
      apart h = cc

module _ {ℓ} {V : Type ℓ} (cmp_fn : V → V → ℤ) where
  -- What an insertion leaves: the value in a new node, between the nodes with less values and those with
  -- greater ones.
  pub record Added (s : SkipList V) (ns : List ℕ) (v : V) (u : SkipList V) : Type ℓ where
    pub back : List ℕ
    pub split : ns ≡ less_prefix (λ w. cmp_fn w v) s ns ++ back
    pub above : Above (λ w. cmp_fn w v) s back
    pub valid : IsValid u (less_prefix (λ w. cmp_fn w v) s ns ++ s.next ∷ back)
    pub new_value : u.value s.next ≡ v
    pub values : (n : ℕ) → n < s.next → u.value n ≡ s.value n

  -- Into a valid list whose values ascend, as they are compared with the new one, and of which none is equal, any
  -- level that is drawn: the insertion ends and succeeds, and the list is valid with the value at its place.
  pub skiplist_insert_lem :
      (draws : ℕ) (s : SkipList V) (v : V) (ns : List ℕ)
      → IsValid s ns
      → Ascending (λ w. cmp_fn w v) s ns
      → Fresh (λ w. cmp_fn w v) s ns
      → (u : SkipList V) × ((skiplist_insert cmp_fn draws s v ≡ some (u, true)) × Added s ns v u)
  unfolding skiplist_insert insert_loop t insert_between
  skiplist_insert_lem draws s v ns valid a f =
      let (back, (split, above)) = split_less (λ w. cmp_fn w v) s ns a f in
      let (node, (noted, (result, (below, rest)))) =
        place_loop_lem (λ w. cmp_fn w v) s (rounds s) s.height header ns (λ l. header)
          (omega (arith, valid.few)) (λ l low. valid.chains l) a f in
      let front = less_prefix (λ w. cmp_fn w v) s ns in
      (
        t s v draws noted front back (subst (IsValid s) split valid) below,
        (
          rw (skiplist_insert, insert_loop, result) refl,
          record {
            back = back;
            split = split;
            above = above;
            valid = t-IsValid s v draws noted front back (subst (IsValid s) split valid) below;
            new_value = ground arith;
            values = λ n h. ground arith;
          },
        ),
      )

module _ {ℓ} {V : Type ℓ} (compare_to : V → ℤ) (s u : SkipList V) (new : ℕ)
    (values : (n : ℕ) → n < s.next → u.value n ≡ s.value n)
    (here : sign compare_to u new ≡ Ordering.eq) where
  same_sign : (n : ℕ) → n < s.next → sign compare_to u n ≡ sign compare_to s n
  unfolding sign
  same_sign n h = ap (λ w. skiplist_cmp_normalize (compare_to w)) (values n h)

  same_Above : (ns : List ℕ) → Made s.next ns → Above compare_to s ns → Above compare_to u ns
  same_Above [] m a = tt
  same_Above (n ∷ ns) m a = (same_sign n m.0 ∙ a.0, same_Above ns m.1 a.1)

  Above-Ascending : (ns : List ℕ) → Above compare_to u ns → Ascending compare_to u ns
  Above-Ascending [] a = tt
  Above-Ascending (n ∷ ns) a = (inr a.1, Above-Ascending ns a.1)

  -- The new value is found at its place.
  new_place :
      (ns back : List ℕ)
      → Made s.next ns
      → Above compare_to u back
      → Ascending compare_to u (less_prefix compare_to s ns ++ new ∷ back)
        × (first_equal compare_to u (less_prefix compare_to s ns ++ new ∷ back) ≡ some new)
  unfolding less_prefix
  new_place [] back m a =
      ((inr a, Above-Ascending back a), first_equal_here compare_to u new back here)
  new_place (n ∷ ns) back m a = elim (Ordering-cases (sign compare_to s n)) [
    | inl less ↦
        let (order, found) = new_place ns back m.1 a in
        rw (less_prefix, less)
          (
            (inl (same_sign n m.0 ∙ less), order),
            first_equal_less compare_to u n (less_prefix compare_to s ns ++ new ∷ back)
                  (same_sign n m.0 ∙ less)
                ∙ found,
          )
    | inr (inl same) ↦
        rw (less_prefix, same)
          ((inr a, Above-Ascending back a), first_equal_here compare_to u new back here)
    | inr (inr greater) ↦
        rw (less_prefix, greater)
          ((inr a, Above-Ascending back a), first_equal_here compare_to u new back here)
  ]

new_sign {ℓ} :
    {V : Type ℓ} (cmp_fn : V → V → ℤ) (v : V) (u : SkipList V) (n : ℕ)
    → u.value n ≡ v
    → cmp_fn v v ≡ pos 0
    → sign (λ w. cmp_fn w v) u n ≡ Ordering.eq
unfolding sign skiplist_cmp_normalize
new_sign cmp_fn v u n at same =
    ap (λ w. skiplist_cmp_normalize (cmp_fn w v)) at ∙ ap skiplist_cmp_normalize same

AllLow-at {ℓ} :
    {V : Type ℓ} (u : SkipList V) (l : ℕ) (front : List ℕ) (n : ℕ) (back : List ℕ)
    → AllLow u l (front ++ n ∷ back)
    → u.node_level n < l
AllLow-at u l [] n back a = a.0
AllLow-at u l (m ∷ front) n back a = AllLow-at u l front n back a.1

Made-back : (next : ℕ) (front back : List ℕ) → Made next (front ++ back) → Made next back
Made-back next [] back m = m
Made-back next (n ∷ front) back m = Made-back next front back m.1

module _ {ℓ} {V : Type ℓ} (cmp_fn : V → V → ℤ) where
  -- A value inserted into a valid list, whose values ascend as they are compared with it and of which none is
  -- equal, is contained afterwards, where a value compares equal to itself.
  pub skiplist_contains-skiplist_insert :
      (draws : ℕ) (s : SkipList V) (v : V) (ns : List ℕ)
      → cmp_fn v v ≡ pos 0
      → IsValid s ns
      → Ascending (λ w. cmp_fn w v) s ns
      → Fresh (λ w. cmp_fn w v) s ns
      → (u : SkipList V) × ((skiplist_insert cmp_fn draws s v ≡ some (u, true))
          × (skiplist_contains cmp_fn u v ≡ some true))
  unfolding skiplist_contains sign skiplist_cmp_normalize
  skiplist_contains-skiplist_insert draws s v ns same valid a f =
      let (u, (result, added)) = skiplist_insert_lem cmp_fn draws s v ns valid a f in
      let here = new_sign cmp_fn v u s.next added.new_value same in
      let (order, found) =
        new_place (λ w. cmp_fn w v) s u s.next added.values here ns added.back valid.made.1
          (same_Above (λ w. cmp_fn w v) s u s.next added.values here added.back
            (Made-back s.next (less_prefix (λ w. cmp_fn w v) s ns) added.back
              (subst (Made s.next) added.split valid.made.1))
            added.above) in
      (
        u,
        (
          result,
          rw
              (
                skiplist_contains,
                find_loop_lem (λ w. cmp_fn w v) u (rounds u) u.height header
                    (less_prefix (λ w. cmp_fn w v) s ns ++ s.next ∷ added.back)
                    (omega (arith, added.valid.few)) (λ l low. added.valid.chains l) order
                    (λ z. absurd (
                      omega (
                        arith,
                        AllLow-at u 0 (less_prefix (λ w. cmp_fn w v) s ns) s.next added.back
                            (added.valid.low 0 (omega (arith, z))),
                      ))),
                found,
              )
              refl,
        ),
      )
