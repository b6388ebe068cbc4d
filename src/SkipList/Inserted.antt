-- ===== src/SkipList/Inserted.antt =====
-- `skiplist_insert` of src/base/skip_list.cc keeps the chains of a list.
use fast_dcs.Common.{
  ℕ, suc, ◌≤◌, ◌<◌, ◌≡◌, ◌≢◌, inl, inr, refl, sym, subst, ◌∙◌, List, [], ◌∷◌, ◌++◌, arith, length,
  length-append, ltb, if◌then◌else◌,
}
use fast_dcs.SkipList.{SkipList, skiplist_level_generate, drop_in, insert_between, header}
use fast_dcs.SkipList.Chains.{AllLow, Linked}
use fast_dcs.SkipList.Way.{last_high, last_high-low, last_high-high, Nat_cases}
use fast_dcs.SkipList.Insert.{
  linked, NotIn, Different, links_last, links_fresh, links_others, drop_in_outside, drop_in_inside,
  Same, Others, skip_new, insert_new,
}

-- The nodes have been made.
abbrev pub Made : ℕ → List ℕ → Type 0
Made next [] = Unit {0}
Made next (n ∷ ns) = (n < next) × Made next ns

-- The levels lead through the nodes `ns`, in one order.
pub record IsValid {ℓ} {V : Type ℓ} (s : SkipList V) (ns : List ℕ) : Type 0 where
  pub chains : (l : ℕ) → Linked s l header ns
  pub low : (l : ℕ) → s.height ≤ l → AllLow s l ns
  pub different : Different (header ∷ ns)
  pub made : Made s.next (header ∷ ns)
  pub few : length ns ≤ s.next

Made-NotIn : (next : ℕ) (ns : List ℕ) → Made next ns → NotIn next ns
Made-NotIn next [] m = tt
Made-NotIn next (n ∷ ns) m = ((λ e. absurd (omega (arith, e, m.0))), Made-NotIn next ns m.1)

Made-suc :
    (next : ℕ) (front back : List ℕ)
    → Made next (front ++ back)
    → Made (suc next) (front ++ next ∷ back)
Made-suc next [] [] m = (omega arith, tt)
Made-suc next [] (b ∷ back) m = (omega arith, grow (b ∷ back) m)
  where
    grow : (ns : List ℕ) → Made next ns → Made (suc next) ns
    grow [] m = tt
    grow (n ∷ ns) m = (omega (arith, m.0), grow ns m.1)
Made-suc next (n ∷ front) back m = (omega (arith, m.0), Made-suc next front back m.1)

NotIn-insert :
    (n new : ℕ) (front back : List ℕ)
    → n ≢ new
    → NotIn n (front ++ back)
    → NotIn n (front ++ new ∷ back)
NotIn-insert n new [] back h k = (h, k)
NotIn-insert n new (m ∷ front) back h k = (k.0, NotIn-insert n new front back h k.1)

Different-insert :
    (new : ℕ) (front back : List ℕ)
    → NotIn new (front ++ back)
    → Different (front ++ back)
    → Different (front ++ new ∷ back)
Different-insert new [] back h d = (h, d)
Different-insert new (m ∷ front) back h d =
    (NotIn-insert m new front back (λ e. h.0 (sym e)) d.0, Different-insert new front back h.1 d.1)

module _ {ℓ} {V : Type ℓ} (s : SkipList V) where
  last_high_none :
      (l cur : ℕ) (front back : List ℕ) → AllLow s l (front ++ back) → last_high s l cur front ≡ cur
  unfolding last_high
  last_high_none l cur [] back low = refl
  last_high_none l cur (n ∷ front) back low =
      last_high-low s l cur n front low.0 ∙ last_high_none l cur front back low.1

  last_high-Made :
      (l cur : ℕ) (front back : List ℕ)
      → cur < s.next
      → Made s.next (front ++ back)
      → last_high s l cur front < s.next
  unfolding last_high
  last_high-Made l cur [] back h m = h
  last_high-Made l cur (n ∷ front) back h m = elim (Nat_cases l (s.node_level n)) [
    | inl high ↦
        subst (λ k. k < s.next) (sym (last_high-high s l cur n front high))
          (last_high-Made l n front back m.0 m.1)
    | inr low ↦
        subst (λ k. k < s.next) (sym (last_high-low s l cur n front low))
          (last_high-Made l cur front back h m.1)
  ]

module _ {ℓ} {V : Type ℓ} (s : SkipList V) (v : V) (draws : ℕ) (noted : ℕ → ℕ) (front back : List ℕ)
    (valid : IsValid s (front ++ back))
    (way : (l : ℕ) → l < s.height → noted l ≡ last_high s l header front) where
  unfoldable pub t : SkipList V
  t = insert_between v draws noted s

  level : ℕ
  level = skiplist_level_generate draws

  up : ℕ → ℕ
  up l = if ltb l s.height then noted l else header

  up_lem : (l : ℕ) → up l ≡ last_high s l header front
  unfolding up
  up_lem l = elim (Nat_cases s.height l) [
    | inl above ↦ if_above above ∙ sym (last_high_none s l header front back (valid.low l above))
    | inr below ↦ if_below below ∙ way l below
  ]
    where
      if_above : s.height ≤ l → (if ltb l s.height then noted l else header) ≡ header
      if_above h = ground arith

      if_below : l < s.height → (if ltb l s.height then noted l else header) ≡ noted l
      if_below h = ground arith

  apart : (l : ℕ) → up l ≢ s.next
  apart l e =
      absurd
        (omega (arith, e, up_lem l, last_high-Made s l header front back valid.made.0 valid.made.1))

  forward_t : (n l : ℕ) → t.forward n l ≡ drop_in up s.next (suc level) 0 s.forward n l
  unfolding t up level insert_between
  forward_t n l = refl

  level_new : t.node_level s.next ≡ level
  unfolding t level insert_between
  level_new = ground arith

  level_old : (n : ℕ) → n < s.next → t.node_level n ≡ s.node_level n
  unfolding t level insert_between
  level_old n h = ground arith

  at_level : (n l : ℕ) → l < suc level → t.forward n l ≡ linked up s.next apart l s.forward n l
  at_level n l h =
      forward_t n l
      ∙ drop_in_inside up s.next apart (suc level) 0 s.forward n l (omega arith) (omega (arith, h))

  above_level : (n l : ℕ) → suc level ≤ l → t.forward n l ≡ s.forward n l
  above_level n l h =
      forward_t n l
      ∙ drop_in_outside up s.next apart (suc level) 0 s.forward n l (inr (omega (arith, h)))

  other_node : (n l : ℕ) → l < suc level → n < s.next → n ≢ up l → t.forward n l ≡ s.forward n l
  other_node n l h made k =
      at_level n l h
      ∙ links_others up s.next apart l s.forward n k (λ e. absurd (omega (arith, e, made)))

  every-Others :
      (l : ℕ) → l < suc level → (ns : List ℕ) → Made s.next ns → Others s t l s.next (up l) ns
  every-Others l h [] m = tt
  every-Others l h (n ∷ ns) m = ((other_node n l h m.0, level_old n m.0), every-Others l h ns m.1)

  every-Same : (l : ℕ) → suc level ≤ l → (ns : List ℕ) → Made s.next ns → Same s t l s.next ns
  every-Same l h [] m = tt
  every-Same l h (n ∷ ns) m = ((above_level n l h, level_old n m.0), every-Same l h ns m.1)

  chain_t : (l : ℕ) → Linked t l header (front ++ s.next ∷ back)
  chain_t l = elim (Nat_cases (suc level) l) [
    | inl above ↦
        skip_new s t l s.next front back (subst (λ k. k < l) (sym level_new) (omega (arith, above)))
          (valid.chains l) (above_level header l above)
          (every-Same l above (front ++ back) valid.made.1)
    | inr inside ↦
        insert_new s t l s.next (up l) front back (up_lem l)
          (at_level (up l) l inside ∙ links_last up s.next apart l s.forward)
          (at_level s.next l inside ∙ links_fresh up s.next apart l s.forward)
          (subst (λ k. l ≤ k) (sym level_new) (omega (arith, inside))) (valid.chains l)
          (other_node header l inside valid.made.0)
          (every-Others l inside (front ++ back) valid.made.1) valid.different.0 valid.different.1
  ]

  low_insert :
      (l : ℕ) (xs : List ℕ)
      → level < l
      → AllLow s l (xs ++ back)
      → Made s.next (xs ++ back)
      → AllLow t l (xs ++ s.next ∷ back)
  low_insert l [] h a m = (subst (λ k. k < l) (sym level_new) h, keep back a m)
    where
      keep : (ns : List ℕ) → AllLow s l ns → Made s.next ns → AllLow t l ns
      keep [] a m = tt
      keep (n ∷ ns) a m = (subst (λ k. k < l) (sym (level_old n m.0)) a.0, keep ns a.1 m.1)
  low_insert l (x ∷ xs) h a m =
      (subst (λ k. k < l) (sym (level_old x m.0)) a.0, low_insert l xs h a.1 m.1)

  height_t : (l : ℕ) → t.height ≤ l → (s.height ≤ l) × (level < l)
  unfolding t level insert_between
  height_t l h = ground arith

  pub t-IsValid : IsValid t (front ++ s.next ∷ back)
  unfolding t insert_between
  t-IsValid = record {
    chains = chain_t;
    low = λ l h. low_insert l front (height_t l h).1 (valid.low l (height_t l h).0) valid.made.1;
    different = (
      NotIn-insert header s.next front back (λ e. absurd (omega (arith, e, valid.made.0)))
          valid.different.0,
      Different-insert s.next front back (Made-NotIn s.next (front ++ back) valid.made.1)
          valid.different.1,
    );
    made = (omega (arith, valid.made.0), Made-suc s.next front back valid.made.1);
    few = omega (arith, valid.few, length-append front (s.next ∷ back), length-append front back);
  }
