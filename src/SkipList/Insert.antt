-- ===== src/SkipList/Insert.antt =====
-- `skiplist_insert` of src/base/skip_list.cc puts its node into the chain of each of its levels.
use fast_dcs.Common.{
  ℕ, zero, suc, ◌+◌, ◌≤◌, ◌<◌, ◌≡◌, ◌≢◌, ◌⊎◌, inl, inr, refl, sym, ap, subst, ◌∙◌, Option, some,
  List, [], ◌∷◌, ◌++◌, arith,
}
use fast_dcs.SkipList.{SkipList, link, drop_in}
use fast_dcs.SkipList.Chains.{Linked, ends, hops, skips}
use fast_dcs.SkipList.Way.{last_high, last_high-low, last_high-high, Nat_cases}

-- Pairwise different.
abbrev pub NotIn : ℕ → List ℕ → Type 0
NotIn n [] = Unit {0}
NotIn n (m ∷ ms) = (n ≢ m) × NotIn n ms

abbrev pub Different : List ℕ → Type 0
Different [] = Unit {0}
Different (n ∷ ns) = NotIn n ns × Different ns

link_level :
    (f : ℕ → ℕ → Option ℕ) (node level : ℕ) (to : Option ℕ) (n l : ℕ)
    → l ≢ level
    → link f node level to n l ≡ f n l
unfolding link
link_level f node level to n l h = ground arith

link_node :
    (f : ℕ → ℕ → Option ℕ) (node level : ℕ) (to : Option ℕ) (n l : ℕ)
    → n ≢ node
    → link f node level to n l ≡ f n l
unfolding link
link_node f node level to n l h = ground arith

link_here :
    (f : ℕ → ℕ → Option ℕ) (node level : ℕ) (to : Option ℕ) → link f node level to node level ≡ to
unfolding link
link_here f node level to = ground arith

module _ (up : ℕ → ℕ) (new : ℕ) (apart : (l : ℕ) → up l ≢ new) where
  -- The links of one level.
  abbrev pub linked : ℕ → (ℕ → ℕ → Option ℕ) → ℕ → ℕ → Option ℕ
  linked level f = link (link f new level (f (up level) level)) (up level) level (some new)

  links_off : (level : ℕ) (f : ℕ → ℕ → Option ℕ) (n l : ℕ) → l ≢ level → linked level f n l ≡ f n l
  links_off level f n l h =
      link_level (link f new level (f (up level) level)) (up level) level (some new) n l h
      ∙ link_level f new level (f (up level) level) n l h

  links_cong :
      (level : ℕ) (f g : ℕ → ℕ → Option ℕ) (n : ℕ)
      → ((m : ℕ) → g m level ≡ f m level)
      → linked level g n level ≡ linked level f n level
  unfolding link
  links_cong level f g n h = rw (h n, h (up level)) refl

  pub drop_in_outside :
      (count level : ℕ) (f : ℕ → ℕ → Option ℕ) (n l : ℕ)
      → (l < level) ⊎ (level + count ≤ l)
      → drop_in up new count level f n l ≡ f n l
  unfolding drop_in
  drop_in_outside zero level f n l h = refl
  drop_in_outside (suc count) level f n l (inl h) =
      drop_in_outside count (suc level) (linked level f) n l (inl (omega arith))
      ∙ links_off level f n l (λ e. absurd (omega (arith, e)))
  drop_in_outside (suc count) level f n l (inr h) =
      drop_in_outside count (suc level) (linked level f) n l (inr (omega arith))
      ∙ links_off level f n l (λ e. absurd (omega (arith, e)))

  -- At a level of the new node: what `linked` does there.
  pub drop_in_inside :
      (count level : ℕ) (f : ℕ → ℕ → Option ℕ) (n l : ℕ)
      → level ≤ l
      → l < level + count
      → drop_in up new count level f n l ≡ linked l f n l
  unfolding drop_in
  drop_in_inside zero level f n l h k = absurd (omega arith)
  drop_in_inside (suc count) level f n l h k = elim (Nat_cases (suc level) l) [
    | inl later ↦
        drop_in_inside count (suc level) (linked level f) n l later (omega arith)
        ∙ links_cong l f (linked level f) n
            (λ m. links_off level f m l (λ e. absurd (omega (arith, e, later))))
    | inr here ↦
        drop_in_outside count (suc level) (linked level f) n l (inl here)
        ∙ ap (λ k. linked k f n l) (omega (arith, h, here))
  ]

  pub links_last : (level : ℕ) (f : ℕ → ℕ → Option ℕ) → linked level f (up level) level ≡ some new
  links_last level f = link_here (link f new level (f (up level) level)) (up level) level (some new)

  pub links_fresh :
      (level : ℕ) (f : ℕ → ℕ → Option ℕ) → linked level f new level ≡ f (up level) level
  links_fresh level f =
      link_node (link f new level (f (up level) level)) (up level) level (some new) new level
        (λ e. apart level (sym e))
      ∙ link_here f new level (f (up level) level)

  pub links_others :
      (level : ℕ) (f : ℕ → ℕ → Option ℕ) (n : ℕ)
      → n ≢ up level
      → n ≢ new
      → linked level f n level ≡ f n level
  links_others level f n h k =
      link_node (link f new level (f (up level) level)) (up level) level (some new) n level h
      ∙ link_node f new level (f (up level) level) n level k

module _ {ℓ} {V : Type ℓ} (s t : SkipList V) (l new : ℕ) where
  abbrev pub Same : List ℕ → Type 0
  Same [] = Unit {0}
  Same (n ∷ ns) = ((t.forward n l ≡ s.forward n l) × (t.node_level n ≡ s.node_level n)) × Same ns

  -- A chain whose nodes keep their pointers and levels.
  unchanged-Linked :
      {cur : ℕ} {ns : List ℕ}
      → Linked s l cur ns
      → (next : ℕ) → t.forward next l ≡ s.forward cur l
      → Same ns
      → Linked t l next ns
  unchanged-Linked (ends e) next here same = ends (here ∙ e)
  unchanged-Linked (hops {n = n} high e rest) next here same =
      hops (subst (λ k. l ≤ k) (sym same.0.1) high) (here ∙ e)
        (unchanged-Linked rest n same.0.0 same.1)
  unchanged-Linked (skips low rest) next here same =
      skips (subst (λ k. k < l) (sym same.0.1) low) (unchanged-Linked rest next here same.1)

  -- A node above whose level the chain is.
  pub skip_new :
      {cur : ℕ} (front back : List ℕ)
      → t.node_level new < l
      → Linked s l cur (front ++ back)
      → t.forward cur l ≡ s.forward cur l
      → Same (front ++ back)
      → Linked t l cur (front ++ new ∷ back)
  skip_new [] back low chain here same = skips low (unchanged-Linked chain _ here same)
  skip_new (n ∷ front) back low (hops high e rest) here same =
      hops (subst (λ k. l ≤ k) (sym same.0.1) high) (here ∙ e)
        (skip_new front back low rest same.0.0 same.1)
  skip_new (n ∷ front) back low (skips lower rest) here same =
      skips (subst (λ k. k < l) (sym same.0.1) lower) (skip_new front back low rest here same.1)

  -- Neither the node nor the last one of the level before it.
  abbrev pub Other : ℕ → ℕ → Type 0
  Other up n = (n ≢ up → t.forward n l ≡ s.forward n l) × (t.node_level n ≡ s.node_level n)

  abbrev pub Others : ℕ → List ℕ → Type 0
  Others up [] = Unit {0}
  Others up (n ∷ ns) = Other up n × Others up ns

  NotIn-last_high :
      (n cur : ℕ) (front : List ℕ) → n ≢ cur → NotIn n front → n ≢ last_high s l cur front
  unfolding last_high
  NotIn-last_high n cur [] h k = h
  NotIn-last_high n cur (m ∷ front) h k = elim (Nat_cases l (s.node_level m)) [
    | inl high ↦ rw (last_high-high s l cur m front high) (NotIn-last_high n m front k.0 k.1)
    | inr low ↦ rw (last_high-low s l cur m front low) (NotIn-last_high n cur front h k.1)
  ]

  NotIn-front : (n : ℕ) (front back : List ℕ) → NotIn n (front ++ back) → NotIn n front
  NotIn-front n [] back k = tt
  NotIn-front n (m ∷ front) back k = (k.0, NotIn-front n front back k.1)

  Others-Same : (up : ℕ) (ns : List ℕ) → NotIn up ns → Others up ns → Same ns
  Others-Same up [] k o = tt
  Others-Same up (n ∷ ns) k o = ((o.0.0 (λ e. k.0 (sym e)), o.0.1), Others-Same up ns k.1 o.1)

  -- A node of the level, behind the last one that has the level.
  pub insert_new :
      (up : ℕ) {cur : ℕ} (front back : List ℕ)
      → up ≡ last_high s l cur front
      → t.forward up l ≡ some new
      → t.forward new l ≡ s.forward up l
      → l ≤ t.node_level new
      → Linked s l cur (front ++ back)
      → (cur ≢ up → t.forward cur l ≡ s.forward cur l)
      → Others up (front ++ back)
      → NotIn cur (front ++ back)
      → Different (front ++ back)
      → Linked t l cur (front ++ new ∷ back)
  unfolding last_high
  insert_new up {cur} [] back last to from high chain here others apart diff =
      hops high (ap (λ u. t.forward u l) (sym last) ∙ to) (
        unchanged-Linked chain new (from ∙ ap (λ u. s.forward u l) last)
          (Others-Same up back (subst (λ u. NotIn u back) (sym last) apart) others))
  insert_new up {cur} (n ∷ front) back last to from high (hops tall e rest) here others apart diff =
      let last' = last ∙ last_high-high s l cur n front tall in
      hops (subst (λ k. l ≤ k) (sym others.0.1) tall)
        (here (λ same.
            NotIn-last_high cur n front apart.0 (NotIn-front cur front back apart.1) (same ∙ last'))
          ∙ e)
        (insert_new up front back last' to from high rest others.0.0 others.1 diff.0 diff.1)
  insert_new up {cur} (n ∷ front) back last to from high (skips low rest) here others apart diff =
      skips (subst (λ k. k < l) (sym others.0.1) low) (
        insert_new up front back (last ∙ last_high-low s l cur n front low) to from high rest here
          others.1 apart.1 diff.1)
