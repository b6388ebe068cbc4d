-- ===== src/SkipList/Chains.antt =====
-- The chains of src/base/skip_list.cc: at each level, the nodes that are high enough, in one order.
use fast_dcs.Common.{
  ℕ, ◌≤◌, ◌<◌, ◌≡◌, ◌⊎◌, inl, inr, refl, ap, none, some, List, [], ◌∷◌, ◌++◌, arith,
}
use fast_dcs.SkipList.{SkipList}

-- From `cur`, the forward pointers of a level lead through those of the nodes that have the level.
pub data Linked {ℓ} {V : Type ℓ} (s : SkipList V) (level : ℕ) : ℕ → List ℕ → Type 0 where
  ends : {cur : ℕ} → s.forward cur level ≡ none → Linked s level cur []
  hops :
      {cur n : ℕ} {ns : List ℕ}
      → level ≤ s.node_level n
      → s.forward cur level ≡ some n
      → Linked s level n ns
      → Linked s level cur (n ∷ ns)
  skips :
      {cur n : ℕ} {ns : List ℕ}
      → s.node_level n < level
      → Linked s level cur ns
      → Linked s level cur (n ∷ ns)

module _ {ℓ} {V : Type ℓ} (s : SkipList V) where
  -- None of the nodes has the level.
  abbrev pub AllLow : ℕ → List ℕ → Type 0
  AllLow level [] = Unit {0}
  AllLow level (n ∷ ns) = (s.node_level n < level) × AllLow level ns

  -- The next node of a level, and the nodes before it and behind it.
  pub record Hop (level cur : ℕ) (ns : List ℕ) : Type 0 where
    pub node : ℕ
    pub before : List ℕ
    pub behind : List ℕ
    pub at : s.forward cur level ≡ some node
    pub high : level ≤ s.node_level node
    pub low : AllLow level before
    pub split : ns ≡ before ++ node ∷ behind

  pub next_at :
      {level cur : ℕ} {ns : List ℕ}
      → Linked s level cur ns
      → ((s.forward cur level ≡ none) × AllLow level ns) ⊎ Hop level cur ns
  next_at (ends e) = inl (e, tt)
  next_at (hops {n = n} {ns = ns} high e rest) =
      inr
        (record { node = n; before = []; behind = ns; at = e; high = high; low = tt; split = refl })
  next_at (skips {n = n} low rest) = elim (next_at rest) [
    | inl (e, lower) ↦ inl (e, (low, lower))
    | inr h ↦ inr (record {
      node = h.node;
      before = n ∷ h.before;
      behind = h.behind;
      at = h.at;
      high = h.high;
      low = (low, h.low);
      split = ap (λ ns. n ∷ ns) h.split;
    })
  ]

  -- Behind a node of the level, the chain goes on from that node.
  pub behind-Linked :
      {level cur : ℕ} (before : List ℕ) (n : ℕ) (behind : List ℕ)
      → level ≤ s.node_level n
      → Linked s level cur (before ++ n ∷ behind)
      → Linked s level n behind
  behind-Linked [] n behind high (hops h e rest) = rest
  behind-Linked [] n behind high (skips low rest) = absurd (omega arith)
  behind-Linked (b ∷ before) n behind high (hops h e rest) = behind-Linked before n behind high rest
  behind-Linked (b ∷ before) n behind high (skips low rest) =
      behind-Linked before n behind high rest

  -- At the lowest level no node is left out.
  pub lowest_first : {cur n : ℕ} {ns : List ℕ} → Linked s 0 cur (n ∷ ns) → s.forward cur 0 ≡ some n
  lowest_first (hops high e rest) = e
  lowest_first (skips low rest) = absurd (omega arith)
