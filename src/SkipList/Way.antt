-- ===== src/SkipList/Way.antt =====
-- The way that `skiplist_insert` of src/base/skip_list.cc notes.
use Prim.Native.Nat.{Ordering}
use fast_dcs.Common.{
  ℕ, zero, suc, ◌+◌, ◌≤◌, ◌<◌, ◌≡◌, ◌≢◌, ◌⊎◌, inl, inr, refl, sym, ap, subst, ◌∙◌, Bool-cases,
  Option, some, List, [], ◌∷◌, ◌++◌, arith, length, leb, if◌then◌else◌,
}
use fast_dcs.Common.Int.{ℤ}
use fast_dcs.SkipList.{
  SkipList, Op, finish, goto_next_node, goto_next_level, Place, equal, between, op_find, set_update,
  place_loop,
}
use fast_dcs.SkipList.Chains.{AllLow, Linked, Hop, next_at}
use fast_dcs.SkipList.Find.{
  Ordering-cases, Above-at, chains_behind, shorter, rest_ascends, sign, Ascending, op_at, op_at_end,
}

pub Nat_cases : (m n : ℕ) → (m ≤ n) ⊎ (n < m)
Nat_cases m n = elim (Bool-cases (leb m n)) [
  | inl h ↦ inl (ground arith)
  | inr h ↦ inr (ground arith)
]

module _ {ℓ} {V : Type ℓ} (s : SkipList V) where
  -- The last of `cur` and the nodes behind it that has the level.
  unfoldable pub last_high : ℕ → ℕ → List ℕ → ℕ
  last_high level cur [] = cur
  last_high level cur (n ∷ ns) =
      if leb level (s.node_level n) then last_high level n ns else last_high level cur ns

  pub last_high-low :
      (level cur n : ℕ) (ns : List ℕ)
      → s.node_level n < level
      → last_high level cur (n ∷ ns) ≡ last_high level cur ns
  unfolding last_high
  last_high-low level cur n ns low = ground arith

  pub last_high-high :
      (level cur n : ℕ) (ns : List ℕ)
      → level ≤ s.node_level n
      → last_high level cur (n ∷ ns) ≡ last_high level n ns
  unfolding last_high
  last_high-high level cur n ns high = ground arith

module _ {ℓ} {V : Type ℓ} (compare_to : V → ℤ) (s : SkipList V) where
  -- The nodes at the front whose values are less.
  unfoldable pub less_prefix : List ℕ → List ℕ
  less_prefix [] = []
  less_prefix (n ∷ ns) = elim (sign compare_to s n) [ Ordering.lt ↦ n ∷ less_prefix ns | _ ↦ [] ]

  -- No value is equal.
  abbrev pub Fresh : List ℕ → Type 0
  Fresh [] = Unit {0}
  Fresh (n ∷ ns) = (sign compare_to s n ≢ Ordering.eq) × Fresh ns

  -- Where the level ends, or the next node of the level is greater.
  pub last_high-AllLow :
      (level cur : ℕ) (ns : List ℕ)
      → AllLow s level ns
      → last_high s level cur (less_prefix ns) ≡ cur
  unfolding last_high less_prefix
  last_high-AllLow level cur [] low = refl
  last_high-AllLow level cur (n ∷ ns) low = elim (Ordering-cases (sign compare_to s n)) [
    | inl less ↦
        rw (less_prefix, less)
          (last_high-low s level cur n (less_prefix ns) low.0 ∙ last_high-AllLow level cur ns low.1)
    | inr (inl same) ↦ rw (less_prefix, same) refl
    | inr (inr greater) ↦ rw (less_prefix, greater) refl
  ]

  last_high-greater :
      (level cur : ℕ) (before : List ℕ) (n : ℕ) (behind : List ℕ)
      → AllLow s level before
      → sign compare_to s n ≡ Ordering.gt
      → last_high s level cur (less_prefix (before ++ n ∷ behind)) ≡ cur
  unfolding last_high less_prefix
  last_high-greater level cur [] n behind low greater = rw (less_prefix, greater) refl
  last_high-greater level cur (b ∷ before) n behind low greater =
      elim (Ordering-cases (sign compare_to s b)) [
        | inl less ↦
            rw (less_prefix, less)
              (last_high-low s level cur b (less_prefix (before ++ n ∷ behind)) low.0
                ∙ last_high-greater level cur before n behind low.1 greater)
        | inr (inl same) ↦ rw (less_prefix, same) refl
        | inr (inr big) ↦ rw (less_prefix, big) refl
      ]

  -- Where the next node of the level is less, the way goes on behind it.
  last_high-less :
      (level cur : ℕ) (before : List ℕ) (n : ℕ) (behind : List ℕ)
      → level ≤ s.node_level n
      → sign compare_to s n ≡ Ordering.lt
      → Ascending compare_to s (before ++ n ∷ behind)
      → last_high s level cur (less_prefix (before ++ n ∷ behind))
        ≡ last_high s level n (less_prefix behind)
  unfolding last_high less_prefix
  last_high-less level cur [] n behind high less a =
      rw (less_prefix, less) (last_high-high s level cur n (less_prefix behind) high)
  last_high-less level cur (b ∷ before) n behind high less (inr above, a) =
      absurd (apart (sym less ∙ Above-at compare_to s before n behind above))
    where
      apart : Ordering.lt ≡ Ordering.gt → ⊥
      apart h = cc
  last_high-less level cur (b ∷ before) n behind high less (inl small, a) =
      rw (less_prefix, small)
        (elim (Nat_cases level (s.node_level b)) [
          | inl up ↦
              last_high-high s level cur b (less_prefix (before ++ n ∷ behind)) up
              ∙ last_high-less level b before n behind high less a
          | inr down ↦
              last_high-low s level cur b (less_prefix (before ++ n ∷ behind)) down
              ∙ last_high-less level cur before n behind high less a
        ])

  Fresh-at :
      (before : List ℕ) (n : ℕ) (behind : List ℕ)
      → Fresh (before ++ n ∷ behind)
      → sign compare_to s n ≢ Ordering.eq
  Fresh-at [] n behind f = f.0
  Fresh-at (b ∷ before) n behind f = Fresh-at before n behind f.1

  Fresh-behind :
      (before : List ℕ) (n : ℕ) (behind : List ℕ) → Fresh (before ++ n ∷ behind) → Fresh behind
  Fresh-behind [] n behind f = f.1
  Fresh-behind (b ∷ before) n behind f = Fresh-behind before n behind f.1

  -- A round of the loop, by its operation.
  round_by_op :
      (fuel level cur : ℕ) (update : ℕ → ℕ) (op : Op)
      → op_find compare_to s (s.forward cur level) ≡ op
      → place_loop (op_find compare_to) s (suc fuel) (suc level) cur update
        ≡ elim op as (λ _. Option Place) [
          | finish n ↦ some (equal n)
          | goto_next_node n ↦
              place_loop (op_find compare_to) s fuel (suc level) n (set_update update level n)
          | goto_next_level ↦
              place_loop (op_find compare_to) s fuel level cur (set_update update level cur)
        ]
  unfolding place_loop
  round_by_op fuel level cur update op e =
      ap
        (λ op. elim op as (λ _. Option Place) [
          | finish n ↦ some (equal n)
          | goto_next_node n ↦
              place_loop (op_find compare_to) s fuel (suc level) n (set_update update level n)
          | goto_next_level ↦
              place_loop (op_find compare_to) s fuel level cur (set_update update level cur)
        ])
        e

  -- What the loop ends with: the last node before the value, at each level below `height`.
  abbrev pub Noted : ℕ → ℕ → List ℕ → (ℕ → ℕ) → Option Place → Type 0
  Noted height cur ns update result =
      (node : ℕ) × ((noted : ℕ → ℕ) × ((result ≡ some (between node noted))
          × (((l : ℕ) → l < height → noted l ≡ last_high s l cur (less_prefix ns))
              × ((l : ℕ) → height ≤ l → noted l ≡ update l))))

  set_self : (update : ℕ → ℕ) (level node : ℕ) → set_update update level node level ≡ node
  unfolding set_update
  set_self update level node = ground arith

  set_above :
      (update : ℕ → ℕ) (level node l : ℕ)
      → suc level ≤ l
      → set_update update level node l ≡ update l
  unfolding set_update
  set_above update level node l h = ground arith

  -- A round that goes down.
  down-Noted :
      (fuel level cur : ℕ) (ns : List ℕ) (update : ℕ → ℕ)
      → op_find compare_to s (s.forward cur level) ≡ goto_next_level
      → last_high s level cur (less_prefix ns) ≡ cur
      → Noted level cur ns
          (set_update update level cur)
          (place_loop (op_find compare_to) s fuel level cur (set_update update level cur))
      → Noted
          (suc level)
          cur
          ns
          update
          (place_loop (op_find compare_to) s (suc fuel) (suc level) cur update)
  down-Noted fuel level cur ns update op last (node, (noted, (result, (below, above)))) = (
    node,
    (
      noted,
      (
        round_by_op fuel level cur update goto_next_level op ∙ result,
        (
          (λ l low. elim (Nat_cases (suc l) level) [
            | inl under ↦ below l (omega (arith, under))
            | inr over ↦
                subst (λ k. noted k ≡ last_high s k cur (less_prefix ns)) (omega (arith, low, over))
                  (above level (omega arith) ∙ set_self update level cur ∙ sym last)
          ]),
          (λ l h. above l (omega (arith, h)) ∙ set_above update level cur l h),
        ),
      ),
    ),
  )

  -- A round that goes on to a node.
  next-Noted :
      (fuel level cur : ℕ) (ns : List ℕ) (update : ℕ → ℕ) (h : Hop s level cur ns)
      → sign compare_to s h.node ≡ Ordering.lt
      → Ascending compare_to s ns
      → Noted (suc level) h.node h.behind (set_update update level h.node) (
          place_loop
            (op_find compare_to)
            s
            fuel
            (suc level)
            h.node
            (set_update update level h.node))
      → Noted
          (suc level)
          cur
          ns
          update
          (place_loop (op_find compare_to) s (suc fuel) (suc level) cur update)
  next-Noted fuel level cur ns update h less a (node, (noted, (result, (below, above)))) = (
    node,
    (
      noted,
      (
        round_by_op fuel level cur update (goto_next_node h.node)
              (op_at compare_to s h Ordering.lt less)
            ∙ result,
        (
          (λ l low.
              below l low
              ∙ sym (
                  ap (λ ns. last_high s l cur (less_prefix ns)) h.split
                  ∙ last_high-less l cur h.before h.node h.behind (omega (arith, low, h.high)) less
                      (subst (Ascending compare_to s) h.split a))),
          (λ l high. above l high ∙ set_above update level h.node l high),
        ),
      ),
    ),
  )

  -- The loop ends, where no value is equal, in as many rounds as there are nodes and levels, and has noted the
  -- last node before the value at each level.
  pub place_loop_lem :
      (fuel height cur : ℕ) (ns : List ℕ) (update : ℕ → ℕ)
      → length ns + height ≤ fuel
      → ((l : ℕ) → l < height → Linked s l cur ns)
      → Ascending compare_to s ns
      → Fresh ns
      → Noted height cur ns update (place_loop (op_find compare_to) s fuel height cur update)
  unfolding place_loop
  place_loop_lem zero zero cur ns update enough chains a f =
      (cur, (update, (refl, ((λ l h. absurd (omega (arith, h))), (λ l h. refl)))))
  place_loop_lem (suc fuel) zero cur ns update enough chains a f =
      (cur, (update, (refl, ((λ l h. absurd (omega (arith, h))), (λ l h. refl)))))
  place_loop_lem zero (suc level) cur ns update enough chains a f = absurd (omega arith)
  place_loop_lem (suc fuel) (suc level) cur ns update enough chains a f =
      elim (next_at s (chains level (omega arith))) [
        | inl (e, low) ↦
            down-Noted fuel level cur ns update (op_at_end compare_to s level cur e)
              (last_high-AllLow level cur ns low)
              (place_loop_lem fuel level cur ns (set_update update level cur) (omega arith)
                (λ l low. chains l (omega (arith, low))) a f)
        | inr h ↦ elim (Ordering-cases (sign compare_to s h.node)) [
          | inl less ↦ next-Noted fuel level cur ns update h less a (
              place_loop_lem fuel (suc level) h.node h.behind (set_update update level h.node)
                (omega (arith, enough, shorter compare_to s h))
                (chains_behind compare_to s h chains) (rest_ascends compare_to s h a)
                (Fresh-behind h.before h.node h.behind (subst Fresh h.split f)))
          | inr (inl same) ↦ absurd (Fresh-at h.before h.node h.behind (subst Fresh h.split f) same)
          | inr (inr greater) ↦
              down-Noted fuel level cur ns update (op_at compare_to s h Ordering.gt greater)
                (ap (λ ns. last_high s level cur (less_prefix ns)) h.split
                  ∙ last_high-greater level cur h.before h.node h.behind h.low greater)
                (place_loop_lem fuel level cur ns (set_update update level cur) (omega arith)
                  (λ l low. chains l (omega (arith, low))) a f)
        ]
      ]
