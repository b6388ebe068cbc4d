-- ===== src/Config/Iterate.antt =====
-- `config_iterate` of src/base/config_file.cc: the pairs of a configuration one by one.
use fast_dcs.Common.{
  ℕ, zero, suc, ◌+◌, ◌<◌, ◌≤◌, ◌≡◌, refl, sym, ap, lt→ltb, ◌∙◌, Bool, true, false, List, [], ◌∷◌,
  Option, none, some, arith, ltb, if◌then◌else◌, length, get_elem?, drop,
}
use native.Mathlib.Decide.{dec_lt}
use fast_dcs.Common.Texts.{Text}
use fast_dcs.Config.Tree.{Tree}

module _ (tree : Tree) where
  open tree use {Table, items}

  -- `traverser` is the place of the item in its node, or none for a null node.
  pub record Config : Type 0 where
    pub table : Table
    pub traverser : Option ℕ
    pub iterating : Bool

  -- `bst_t_first` and `bst_t_next`, which begins again behind the last item.
  unfoldable pub bst_t_first : Table → Option ℕ
  bst_t_first table = if ltb 0 (length (items table)) then some 0 else none

  unfoldable pub bst_t_next : Table → Option ℕ → Option ℕ
  unfolding bst_t_first
  bst_t_next table none = bst_t_first table
  bst_t_next table (some i) = if ltb (suc i) (length (items table)) then some (suc i) else none

  unfoldable pub item_at : Table → Option ℕ → Option (Text × Text)
  item_at table none = none
  item_at table (some i) = get_elem? (items table) i

  unfoldable pub config_iterate : Config → Config × Option (Text × Text)
  unfolding bst_t_next item_at
  config_iterate c =
      let node = if c.iterating then bst_t_next c.table c.traverser else bst_t_first c.table in
      (record c { traverser = node; iterating = true }, item_at c.table node)

  unfoldable pub config_reset : Config → Config
  config_reset c = record c { iterating = false }

  -- The loop of `LoadConfig` over the pairs.
  unfoldable pub list_config : ℕ → Config → List (Text × Text)
  list_config zero c = []
  list_config (suc fuel) c =
      let (c', pair) = config_iterate c in
      elim pair [ none ↦ [] | some p ↦ p ∷ list_config fuel c' ]

get_elem?-lt :
    {A : Type 0} (xs : List A) (i : ℕ)
    → i < length xs
    → (x : A) × (get_elem? xs i ≡ some x) × (drop i xs ≡ x ∷ drop (suc i) xs)
get_elem?-lt [] i h = absurd (omega arith)
get_elem?-lt (x ∷ xs) zero h = (x, refl, refl)
get_elem?-lt (x ∷ xs) (suc i) h = get_elem?-lt xs i (omega arith)

drop-all : {A : Type 0} (xs : List A) (i : ℕ) → length xs ≤ i → drop i xs ≡ []
drop-all [] zero h = refl
drop-all [] (suc i) h = refl
drop-all (x ∷ xs) zero h = absurd (omega arith)
drop-all (x ∷ xs) (suc i) h = drop-all xs i (omega arith)

module _ (tree : Tree) where
  open tree use {Table, items}

  list_some :
      (fuel : ℕ) (c c' : Config tree) (x : Text × Text)
      → config_iterate tree c ≡ (c', some x)
      → list_config tree (suc fuel) c ≡ x ∷ list_config tree fuel c'
  unfolding list_config
  list_some fuel c c' x e =
      rw (e, list_config)
        (ap (λ (r : Config tree × Option (Text × Text)). x ∷ list_config tree fuel r.0) e)

  list_none :
      (fuel : ℕ) (c c' : Config tree)
      → config_iterate tree c ≡ (c', none)
      → list_config tree (suc fuel) c ≡ []
  unfolding list_config
  list_none fuel c c' e = rw (e, list_config)

  -- A loop at the item with a number, and behind it.
  abbrev at : Table → Option ℕ → Config tree
  at table node = record { table = table; traverser = node; iterating = true }

  next_some :
      (table : Table) (i : ℕ) (x : Text × Text)
      → suc i < length (items table)
      → get_elem? (items table) (suc i) ≡ some x
      → config_iterate tree (at table (some i)) ≡ (at table (some (suc i)), some x)
  unfolding config_iterate
  next_some table i x h e = ground (arith, lt→ltb (suc i) (length (items table)) h)

  next_none :
      (table : Table) (i : ℕ)
      → length (items table) ≤ suc i
      → config_iterate tree (at table (some i)) ≡ (at table none, none)
  unfolding config_iterate
  next_none table i h = ground arith

  list_from :
      (fuel i : ℕ) (table : Table)
      → length (items table) ≤ fuel + i
      → list_config tree fuel (at table (some i)) ≡ drop (suc i) (items table)
  unfolding list_config
  list_from zero i table h = sym (drop-all (items table) (suc i) (omega arith))
  list_from (suc fuel) i table h = elim (dec_lt (suc i) (length (items table))) [
    | yes m ↦
        let (x, e, d) = get_elem?-lt (items table) (suc i) m in
        list_some fuel (at table (some i)) _ x (next_some table i x m e)
        ∙ ap (λ l. x ∷ l) (list_from fuel (suc i) table (omega arith))
        ∙ sym d
    | no m ↦
        list_none fuel (at table (some i)) _ (next_none table i (omega arith))
        ∙ sym (drop-all (items table) (suc i) (omega arith))
  ]

  first_some :
      (c : Config tree) (x : Text × Text)
      → 0 < length (items c.table)
      → get_elem? (items c.table) 0 ≡ some x
      → config_iterate tree (config_reset tree c) ≡ (at c.table (some 0), some x)
  unfolding config_iterate config_reset
  first_some c x h e = ground (arith, lt→ltb 0 (length (items c.table)) h)

  first_none :
      (c : Config tree)
      → length (items c.table) ≡ 0
      → config_iterate tree (config_reset tree c) ≡ (at c.table none, none)
  unfolding config_iterate config_reset
  first_none c h = ground arith

  -- A loop that calls `config_iterate` until it gives 0 meets, from `config_reset` on, the pairs of the table, each
  -- once and in the table's order, and no other.
  pub list_config-config_reset :
      (c : Config tree)
      → list_config tree (suc (length (items c.table))) (config_reset tree c) ≡ items c.table
  list_config-config_reset c = elim (dec_lt 0 (length (items c.table))) [
    | yes m ↦
        let (x, e, d) = get_elem?-lt (items c.table) 0 m in
        list_some (length (items c.table)) (config_reset tree c) _ x (first_some c x m e)
        ∙ ap (λ l. x ∷ l) (list_from (length (items c.table)) 0 c.table (omega arith))
        ∙ sym d
    | no m ↦
        list_none (length (items c.table)) (config_reset tree c) _ (first_none c (omega arith))
        ∙ sym (drop-all (items c.table) 0 (omega arith))
  ]
