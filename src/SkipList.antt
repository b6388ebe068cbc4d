-- ===== src/SkipList.antt =====
-- src/base/skip_list.cc: a heap of nodes with forward pointers. The comparison callbacks and the random numbers
-- are parameters. A level is one more here than in the source, where an emptied list has the level -1.
pub mod Chains
pub mod Find
pub mod Way
pub mod Insert
pub mod Inserted
pub mod Added
mod Tests
use Prim.Native.Nat.{Ordering}
use fast_dcs.Common.{
  ℕ, zero, suc, ◌+◌, ◌-◌, Bool, true, false, Option, none, some, ltb, leb, ◌==◌, if◌then◌else◌,
}
use fast_dcs.Common.Int.{ℤ, pos, negsuc}

abbrev pub skiplist_level_max : ℕ
skiplist_level_max = 8

-- A comparison is normalized to three results.
unfoldable pub skiplist_cmp_normalize : ℤ → Ordering
skiplist_cmp_normalize (pos zero) = Ordering.eq
skiplist_cmp_normalize (pos (suc n)) = Ordering.gt
skiplist_cmp_normalize (negsuc n) = Ordering.lt

-- What `skiplist_level_generate` draws: the number of times in a row that a random number lies below a quarter,
-- which is to be less than 128: the level is an `int8_t`, and what it is behind its last value is not modelled.
unfoldable pub skiplist_level_generate : ℕ → ℕ
skiplist_level_generate draws = if ltb draws skiplist_level_max then draws else skiplist_level_max

-- A list over values of `V`; its header is the node 0, and `next` the next node that `malloc` gives.
pub record SkipList {ℓ} (V : Type ℓ) : Type ℓ where
  pub value : ℕ → V
  pub node_level : ℕ → ℕ
  pub forward : ℕ → ℕ → Option ℕ
  pub next : ℕ
  pub length : ℕ
  pub height : ℕ

abbrev pub header : ℕ
header = 0

-- `node->forward[level] = to`.
unfoldable pub link : (ℕ → ℕ → Option ℕ) → ℕ → ℕ → Option ℕ → ℕ → ℕ → Option ℕ
link forward node level to n l =
    if n == node then (if l == level then to else forward n l) else forward n l

-- `update[level] = node`.
unfoldable pub set_update : (ℕ → ℕ) → ℕ → ℕ → ℕ → ℕ
set_update update level node l = if l == level then node else update l

-- The operation after a comparison.
pub data Op : Type 0 where
  goto_next_level : Op
  goto_next_node : ℕ → Op
  finish : ℕ → Op

-- What a search ends with: a node that is equal, or the last node before the value at each level.
pub data Place : Type 0 where
  equal : ℕ → Place
  between : ℕ → (ℕ → ℕ) → Place

-- `skiplist_init`; `null` is the value of the header.
unfoldable pub skiplist_init {ℓ} : {V : Type ℓ} → V → SkipList V
skiplist_init null = record {
  value = λ n. null;
  node_level = λ n. skiplist_level_max;
  forward = λ n l. none;
  next = 1;
  length = 0;
  height = 1;
}

-- Enough rounds for any search: each goes to a later node or to a lower level.
abbrev pub rounds {ℓ} : {V : Type ℓ} → SkipList V → ℕ
rounds s = s.next + s.height

-- `op_insert`, `op_contains` and `op_search`; `compare_to` compares the value of a node with the one that is
-- looked for.
unfoldable pub op_find {ℓ} : {V : Type ℓ} → (V → ℤ) → SkipList V → Option ℕ → Op
unfolding skiplist_cmp_normalize
op_find compare_to s none = goto_next_level
op_find compare_to s (some n) = elim (skiplist_cmp_normalize (compare_to (s.value n))) [
  | Ordering.lt ↦ goto_next_node n
  | Ordering.eq ↦ finish n
  | Ordering.gt ↦ goto_next_level
]

-- `op_delete`, which goes down where the values are equal.
unfoldable pub op_delete {ℓ} : {V : Type ℓ} → (V → ℤ) → SkipList V → Option ℕ → Op
unfolding skiplist_cmp_normalize
op_delete compare_to s none = goto_next_level
op_delete compare_to s (some n) = elim (skiplist_cmp_normalize (compare_to (s.value n))) [
  | Ordering.lt ↦ goto_next_node n
  | Ordering.eq ↦ goto_next_level
  | Ordering.gt ↦ goto_next_level
]

-- The loop of `skiplist_contains` and of `skiplist_search`: the node that is found, if one is.
unfoldable pub find_loop {ℓ} : {V : Type ℓ} → (V → ℤ) → SkipList V → ℕ → ℕ → ℕ → Option (Option ℕ)
unfolding op_find
find_loop compare_to s fuel zero cur = some none
find_loop compare_to s zero (suc level) cur = none
find_loop compare_to s (suc fuel) (suc level) cur =
    elim (op_find compare_to s (s.forward cur level)) [
      | finish n ↦ some (some n)
      | goto_next_node n ↦ find_loop compare_to s fuel (suc level) n
      | goto_next_level ↦ find_loop compare_to s fuel level cur
    ]

-- `skiplist_search`.
unfoldable pub skiplist_search {ℓ} : {V : Type ℓ} → (V → ℤ) → SkipList V → Option (Option V)
unfolding find_loop
skiplist_search compare_to s = elim (find_loop compare_to s (rounds s) s.height header) [
  | none ↦ none
  | some found ↦ some (elim found [ some n ↦ some (s.value n) | none ↦ none ])
]

-- The loops of `skiplist_insert` and `skiplist_delete`, which note the way.
unfoldable pub place_loop {ℓ} :
    {V : Type ℓ} → (SkipList V → Option ℕ → Op) → SkipList V → ℕ → ℕ → ℕ → (ℕ → ℕ) → Option Place
unfolding set_update
place_loop op s fuel zero cur update = some (between cur update)
place_loop op s zero (suc level) cur update = none
place_loop op s (suc fuel) (suc level) cur update = elim (op s (s.forward cur level)) [
  | finish n ↦ some (equal n)
  | goto_next_node n ↦ place_loop op s fuel (suc level) n (set_update update level n)
  | goto_next_level ↦ place_loop op s fuel level cur (set_update update level cur)
]

-- The new node into its levels, `count` of them from `level` on.
unfoldable pub drop_in : (ℕ → ℕ) → ℕ → ℕ → ℕ → (ℕ → ℕ → Option ℕ) → ℕ → ℕ → Option ℕ
unfolding link
drop_in update new zero level forward = forward
drop_in update new (suc count) level forward =
    drop_in update new count (suc level)
      (link (link forward new level (forward (update level) level)) (update level) level (some new))

-- `skiplist_insert` behind its loop; `malloc` succeeds.
unfoldable pub insert_between {ℓ} : {V : Type ℓ} → V → ℕ → (ℕ → ℕ) → SkipList V → SkipList V
unfolding skiplist_level_generate drop_in
insert_between v draws update s =
    let level = skiplist_level_generate draws in
    record s {
      value = λ n. if n == s.next then v else s.value n;
      node_level = λ n. if n == s.next then level else s.node_level n;
      forward =
          drop_in (λ l. if ltb l s.height then update l else header) s.next (suc level) 0 s.forward;
      next = suc s.next;
      length = suc s.length;
      height = if ltb s.height (suc level) then suc level else s.height;
    }

-- The node that is deleted, out of its levels.
unfoldable pub splice : (ℕ → ℕ) → ℕ → ℕ → (ℕ → ℕ → Option ℕ) → ℕ → ℕ → Option ℕ
unfolding link
splice update found zero forward = forward
splice update found (suc level) forward =
    let below = splice update found level forward in
    elim (below (update level) level) [
      | none ↦ below
      | some n ↦ if n == found then link below (update level) level (below found level) else below
    ]

-- The highest level that is used, from `height` down.
unfoldable pub used_height : (ℕ → ℕ → Option ℕ) → ℕ → ℕ
used_height forward zero = zero
used_height forward (suc level) = elim (forward header level) [
  | some n ↦ suc level
  | none ↦ used_height forward level
]

-- `skiplist_delete` behind its loop.
unfoldable pub delete_at {ℓ} : {V : Type ℓ} → (V → ℤ) → ℕ → (ℕ → ℕ) → SkipList V → SkipList V × Bool
unfolding splice used_height skiplist_cmp_normalize
delete_at compare_to cur update s = elim (s.forward cur 0) [
  | none ↦ (s, false)
  | some found ↦ elim (skiplist_cmp_normalize (compare_to (s.value found))) [
    | Ordering.gt ↦ (s, false)
    | _ ↦
        let forward = splice update found s.height s.forward in
        (
          record s {
            forward = forward;
            height = used_height forward s.height;
            length = s.length - 1;
          },
          true,
        )
  ]
]

module _ {ℓ} {V : Type ℓ} (cmp_fn : V → V → ℤ) where
  -- `skiplist_contains`.
  unfoldable pub skiplist_contains : SkipList V → V → Option Bool
  unfolding find_loop
  skiplist_contains s v = elim (find_loop (λ w. cmp_fn w v) s (rounds s) s.height header) [
    | none ↦ none
    | some found ↦ some (elim found [ some n ↦ true | none ↦ false ])
  ]

  unfoldable pub skiplist_delete : SkipList V → V → Option (SkipList V × Bool)
  unfolding place_loop op_delete delete_at
  skiplist_delete s v =
      elim (place_loop (op_delete (λ w. cmp_fn w v)) s (rounds s) s.height header (λ l. header)) [
        | some (between cur update) ↦ some (delete_at (λ w. cmp_fn w v) cur update s)
        | _ ↦ none
      ]

  -- `skiplist_insert`; an equal value is deleted, and then the insertion starts over, at most `tries` times.
  unfoldable pub insert_loop : ℕ → ℕ → SkipList V → V → Option (SkipList V × Bool)
  unfolding place_loop op_find insert_between skiplist_delete
  insert_loop zero draws s v = none
  insert_loop (suc tries) draws s v =
      elim (place_loop (op_find (λ w. cmp_fn w v)) s (rounds s) s.height header (λ l. header)) [
        | none ↦ none
        | some (between cur update) ↦ some (insert_between v draws update s, true)
        | some (equal n) ↦ elim (skiplist_delete s (s.value n)) [
          | none ↦ none
          | some (t, deleted) ↦ if deleted then insert_loop tries draws t v else some (t, false)
        ]
      ]

  unfoldable pub skiplist_insert : ℕ → SkipList V → V → Option (SkipList V × Bool)
  unfolding insert_loop
  skiplist_insert draws s v = insert_loop (suc s.length) draws s v

-- `skiplist_iter_next`.
unfoldable pub skiplist_iter_next {ℓ} : {V : Type ℓ} → SkipList V → ℕ → Option (V × ℕ)
skiplist_iter_next s cur = elim (s.forward cur 0) [ none ↦ none | some n ↦ some (s.value n, n) ]
