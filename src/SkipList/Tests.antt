-- ===== src/SkipList/Tests.antt =====
-- Runs of src/base/skip_list.cc on numbers.
use fast_dcs.Common.{
  ℕ, zero, suc, ◌≡◌, refl, inl, inr, Bool, true, false, Option, none, some, [], ◌∷◌, arith,
}
use fast_dcs.Common.Int.{ℤ, pos, ◌-ℤ◌}
use fast_dcs.SkipList.{
  SkipList, skiplist_init, skiplist_insert, skiplist_delete, skiplist_contains, skiplist_search,
  skiplist_cmp_normalize, header,
}
use fast_dcs.SkipList.Chains.{Linked, ends, hops, skips}
use fast_dcs.SkipList.Inserted.{IsValid}
use fast_dcs.SkipList.Added.{Added, skiplist_insert_lem, skiplist_contains-skiplist_insert}
use fast_dcs.SkipList.Find.{first_equal, skiplist_search_lem, sign}

abbrev by_number : ℕ → ℕ → ℤ
by_number a b = pos a -ℤ pos b

-- The numbers 2 and 5, at the levels 1 and 0.
abbrev two_numbers : SkipList ℕ
two_numbers = record {
  value = λ n. elim n [ zero ↦ 0 | suc zero ↦ 2 | suc (suc n) ↦ 5 ];
  node_level = λ n. elim n [ zero ↦ 8 | suc zero ↦ 1 | suc (suc n) ↦ 0 ];
  forward = λ n l. elim n [
    | zero ↦ elim l [ zero ↦ some 1 | suc zero ↦ some 1 | suc (suc l) ↦ none ]
    | suc zero ↦ elim l [ zero ↦ some 2 | suc l ↦ none ]
    | suc (suc n) ↦ none
  ];
  next = 3;
  length = 2;
  height = 2;
}

run : Option (SkipList ℕ × Bool) → SkipList ℕ
run none = skiplist_init 0
run (some r) = r.0

-- 5, 2 and 9 go in, and 2 goes out again.
abbrev worked : SkipList ℕ
worked = run (
    skiplist_delete by_number
      (run (
        skiplist_insert by_number 2
          (run
            (skiplist_insert by_number 1 (run (skiplist_insert by_number 0 (skiplist_init 0) 5)) 2))
          9))
      2)

worked_has : skiplist_contains by_number worked 9 ≡ some true
unfolding skiplist_contains run skiplist_insert skiplist_delete skiplist_init ◌-ℤ◌
worked_has = refl

worked_has_not : skiplist_contains by_number worked 2 ≡ some false
unfolding skiplist_contains run skiplist_insert skiplist_delete skiplist_init ◌-ℤ◌
worked_has_not = refl

two_chains : (l : ℕ) → Linked two_numbers l header (1 ∷ 2 ∷ [])
two_chains zero = hops (omega arith) refl (hops (omega arith) refl (ends refl))
two_chains (suc zero) = hops (omega arith) refl (skips (omega arith) (ends refl))
two_chains (suc (suc l)) = skips (omega arith) (skips (omega arith) (ends refl))

two_numbers-IsValid : IsValid two_numbers (1 ∷ 2 ∷ [])
two_numbers-IsValid = record {
  chains = two_chains;
  low = λ l h. (omega (arith, h), (omega (arith, h), tt));
  different = (
    ((λ e. absurd (omega (arith, e))), ((λ e. absurd (omega (arith, e))), tt)),
    (((λ e. absurd (omega (arith, e))), tt), (tt, tt)),
  );
  made = (omega arith, (omega arith, (omega arith, tt)));
  few = omega arith;
}

skiplist_search_lem_example : skiplist_search (λ w. by_number w 5) two_numbers ≡ some (some 5)
unfolding first_equal sign skiplist_cmp_normalize ◌-ℤ◌
skiplist_search_lem_example =
    skiplist_search_lem (λ w. by_number w 5) two_numbers (1 ∷ 2 ∷ []) (omega arith)
      (λ z. absurd (omega (arith, z))) (λ l low. two_chains l) (inl refl, (inr tt, tt))

skiplist_insert_lem_example :
    (u : SkipList ℕ) × ((skiplist_insert by_number 1 two_numbers 3 ≡ some (u, true))
      × Added by_number two_numbers (1 ∷ 2 ∷ []) 3 u)
unfolding sign skiplist_cmp_normalize ◌-ℤ◌
skiplist_insert_lem_example =
    skiplist_insert_lem by_number 1 two_numbers 3 (1 ∷ 2 ∷ []) two_numbers-IsValid
      (inl refl, (inr tt, tt)) ((λ e. cc), ((λ e. cc), tt))

skiplist_contains-skiplist_insert_example :
    (u : SkipList ℕ) × ((skiplist_insert by_number 1 two_numbers 3 ≡ some (u, true))
      × (skiplist_contains by_number u 3 ≡ some true))
unfolding sign skiplist_cmp_normalize ◌-ℤ◌
skiplist_contains-skiplist_insert_example =
    skiplist_contains-skiplist_insert by_number 1 two_numbers 3 (1 ∷ 2 ∷ []) refl
      two_numbers-IsValid (inl refl, (inr tt, tt)) ((λ e. cc), ((λ e. cc), tt))
