-- ===== src/Common/Maps.antt =====
-- `std::map` as an association list in ascending order of keys, over any key with a total order.
use Prim.Native.Nat.{compare, Ordering}
use fast_dcs.Common.{◌+◌, ◌≡◌, ◌≢◌, refl, Option, none, some, List, [], ◌∷◌, suc, arith, length}
use fast_dcs.Common.Int.{ℤ, pos_part, neg_part}
use fast_dcs.Common.Texts.{Text}

pub record Ord {ℓ} (K : Type ℓ) : Type ℓ where
  pub cmp : K → K → Ordering
  pub cmp_eq : (a b : K) → cmp a b ≡ Ordering.eq → a ≡ b
  pub cmp_refl : (a : K) → cmp a a ≡ Ordering.eq
  pub cmp_gt : (a b : K) → cmp a b ≡ Ordering.gt → cmp b a ≡ Ordering.lt
  pub cmp_trans :
      (a b c : K) → cmp a b ≡ Ordering.lt → cmp b c ≡ Ordering.lt → cmp a c ≡ Ordering.lt

-- Descriptors are `int`s.
unfoldable pub cmp_ℤ : ℤ → ℤ → Ordering
cmp_ℤ a b = compare (pos_part a + neg_part b) (pos_part b + neg_part a)

pub cmp_ℤ_eq_lem : (a b : ℤ) → cmp_ℤ a b ≡ Ordering.eq → a ≡ b
unfolding cmp_ℤ
cmp_ℤ_eq_lem a b h = ground arith

pub cmp_ℤ_refl : (a : ℤ) → cmp_ℤ a a ≡ Ordering.eq
unfolding cmp_ℤ
cmp_ℤ_refl a = ground arith

pub cmp_ℤ_gt : (a b : ℤ) → cmp_ℤ a b ≡ Ordering.gt → cmp_ℤ b a ≡ Ordering.lt
unfolding cmp_ℤ
cmp_ℤ_gt a b h = ground arith

pub cmp_ℤ_trans :
    (a b c : ℤ) → cmp_ℤ a b ≡ Ordering.lt → cmp_ℤ b c ≡ Ordering.lt → cmp_ℤ a c ≡ Ordering.lt
unfolding cmp_ℤ
cmp_ℤ_trans a b c h k = ground arith

instance abbrev pub fd_ord : Ord ℤ
fd_ord = record {
  cmp = cmp_ℤ;
  cmp_eq = cmp_ℤ_eq_lem;
  cmp_refl = cmp_ℤ_refl;
  cmp_gt = cmp_ℤ_gt;
  cmp_trans = cmp_ℤ_trans;
}

-- `std::string::compare`: byte by byte.
unfoldable pub lex : Text → Text → Ordering
lex [] [] = Ordering.eq
lex [] (y ∷ ys) = Ordering.lt
lex (x ∷ xs) [] = Ordering.gt
lex (x ∷ xs) (y ∷ ys) = elim (compare x y) [
  | Ordering.lt ↦ Ordering.lt
  | Ordering.gt ↦ Ordering.gt
  | Ordering.eq ↦ lex xs ys
]

pub lex-eq : (a b : Text) → lex a b ≡ Ordering.eq → a ≡ b
unfolding lex
lex-eq [] [] h = refl
lex-eq [] (y ∷ ys) h = cc
lex-eq (x ∷ xs) [] h = cc
lex-eq (x ∷ xs) (y ∷ ys) h = ground (arith, lex-eq xs ys)

pub lex_refl : (a : Text) → lex a a ≡ Ordering.eq
unfolding lex
lex_refl [] = refl
lex_refl (x ∷ xs) = ground (arith, lex_refl xs)

pub lex_gt : (a b : Text) → lex a b ≡ Ordering.gt → lex b a ≡ Ordering.lt
unfolding lex
lex_gt [] [] h = cc
lex_gt [] (y ∷ ys) h = cc
lex_gt (x ∷ xs) [] h = refl
lex_gt (x ∷ xs) (y ∷ ys) h = ground (arith, lex_gt xs ys)

pub lex_trans :
    (a b c : Text) → lex a b ≡ Ordering.lt → lex b c ≡ Ordering.lt → lex a c ≡ Ordering.lt
unfolding lex
lex_trans [] [] c h k = cc
lex_trans [] (y ∷ ys) [] h k = cc
lex_trans [] (y ∷ ys) (z ∷ zs) h k = refl
lex_trans (x ∷ xs) [] c h k = cc
lex_trans (x ∷ xs) (y ∷ ys) [] h k = cc
lex_trans (x ∷ xs) (y ∷ ys) (z ∷ zs) h k = ground (arith, lex_trans xs ys zs)

instance abbrev pub text_ord : Ord Text
text_ord = record {
  cmp = lex;
  cmp_eq = lex-eq;
  cmp_refl = lex_refl;
  cmp_gt = lex_gt;
  cmp_trans = lex_trans;
}

module _ {ℓ κ} {K : Type ℓ} {V : Type κ} ⦃o : Ord K⦄ where
  unfoldable pub find : K → List (K × V) → Option V
  find k [] = none
  find k ((j, v) ∷ m) = elim (o.cmp k j) [ Ordering.eq ↦ some v | _ ↦ find k m ]

  -- `m[k] = v`.
  unfoldable pub put : K → V → List (K × V) → List (K × V)
  put k v [] = (k, v) ∷ []
  put k v ((j, w) ∷ m) = elim (o.cmp k j) [
    | Ordering.lt ↦ (k, v) ∷ (j, w) ∷ m
    | Ordering.eq ↦ (k, v) ∷ m
    | Ordering.gt ↦ (j, w) ∷ put k v m
  ]

  -- `m.insert(pair(k, v))`, which leaves a key that is there as it was.
  unfoldable pub insert : K → V → List (K × V) → List (K × V)
  unfolding find put
  insert k v m = elim (find k m) [ some w ↦ m | none ↦ put k v m ]

  -- `m.erase(k)`.
  unfoldable pub erase : K → List (K × V) → List (K × V)
  erase k [] = []
  erase k ((j, w) ∷ m) = elim (o.cmp k j) [ Ordering.eq ↦ erase k m | _ ↦ (j, w) ∷ erase k m ]

  pub find-put_self : (k : K) (v : V) (m : List (K × V)) → find k (put k v m) ≡ some v
  unfolding find put
  find-put_self k v [] = ground (arith, o.cmp_refl k)
  find-put_self k v ((j, w) ∷ m) = ground (arith, o.cmp_refl k, find-put_self k v m)

  pub find-put_ne : (k j : K) (v : V) (m : List (K × V)) → k ≢ j → find j (put k v m) ≡ find j m
  unfolding find put
  find-put_ne k j v [] h = ground (arith, o.cmp_eq j k)
  find-put_ne k j v ((i, w) ∷ m) h =
      ground (arith, o.cmp_eq j k, o.cmp_eq k i, o.cmp_eq j i, find-put_ne k j v m h)

  pub find-erase_self : (k : K) (m : List (K × V)) → find k (erase k m) ≡ none
  unfolding find erase
  find-erase_self k [] = refl
  find-erase_self k ((j, w) ∷ m) = ground (arith, find-erase_self k m)

  pub find-erase_ne : (k j : K) (m : List (K × V)) → k ≢ j → find j (erase k m) ≡ find j m
  unfolding find erase
  find-erase_ne k j [] h = refl
  find-erase_ne k j ((i, w) ∷ m) h =
      ground (arith, o.cmp_eq k i, o.cmp_eq j i, find-erase_ne k j m h)

module _ {ℓ κ} {K : Type ℓ} {V : Type κ} ⦃o : Ord K⦄ where
  -- All keys lie above `k`.
  abbrev pub Above : K → List (K × V) → Type 0
  Above k [] = Unit {0}
  Above k ((j, w) ∷ m) = (o.cmp k j ≡ Ordering.lt) × Above k m

  -- The keys ascend, so that none stands twice.
  abbrev pub Sorted : List (K × V) → Type 0
  Sorted [] = Unit {0}
  Sorted ((k, v) ∷ m) = Above k m × Sorted m

  Above-trans : (j k : K) (m : List (K × V)) → o.cmp j k ≡ Ordering.lt → Above k m → Above j m
  Above-trans j k [] h a = tt
  Above-trans j k ((i, w) ∷ m) h a = (o.cmp_trans j k i h a.0, Above-trans j k m h a.1)

  Above-put :
      (j k : K) (v : V) (m : List (K × V))
      → o.cmp j k ≡ Ordering.lt
      → Above j m
      → Above j (put k v m)
  unfolding put
  Above-put j k v [] h a = (h, tt)
  Above-put j k v ((i, w) ∷ m) h a = ground (arith, Above-put j k v m h a.1)

  pub put-Sorted : (k : K) (v : V) (m : List (K × V)) → Sorted m → Sorted (put k v m)
  unfolding put
  put-Sorted k v [] s = (tt, tt)
  put-Sorted k v ((j, w) ∷ m) s = ground (
    arith,
    o.cmp_eq k j,
    o.cmp_gt k j,
    Above-trans k j m,
    Above-put j k v m,
    put-Sorted k v m s.1,
  )

  pub insert-Sorted : (k : K) (v : V) (m : List (K × V)) → Sorted m → Sorted (insert k v m)
  unfolding insert
  insert-Sorted k v m s = ground (arith, put-Sorted k v m s)

  Above-erase : (j k : K) (m : List (K × V)) → Above j m → Above j (erase k m)
  unfolding erase
  Above-erase j k [] a = tt
  Above-erase j k ((i, w) ∷ m) a = ground (arith, Above-erase j k m a.1)

  pub erase-Sorted : (k : K) (m : List (K × V)) → Sorted m → Sorted (erase k m)
  unfolding erase
  erase-Sorted k [] s = tt
  erase-Sorted k ((j, w) ∷ m) s = ground (arith, Above-erase j k m s.0, erase-Sorted k m s.1)

  find-Above : (k : K) (m : List (K × V)) → Above k m → find k m ≡ none
  unfolding find
  find-Above k [] a = refl
  find-Above k ((j, w) ∷ m) a = ground (arith, find-Above k m a.1)

  erase-Above : (k : K) (m : List (K × V)) → Above k m → erase k m ≡ m
  unfolding erase
  erase-Above k [] a = refl
  erase-Above k ((j, w) ∷ m) a = ground (arith, erase-Above k m a.1)

  -- A key that is there goes away once, and one entry with it.
  pub length-erase :
      (k : K) (v : V) (m : List (K × V))
      → Sorted m
      → find k m ≡ some v
      → suc (length (erase k m)) ≡ length m
  unfolding find erase
  length-erase k v [] s e = cc
  length-erase k v ((j, w) ∷ m) s e =
      ground (arith, o.cmp_eq k j, erase-Above k m, length-erase k v m s.1)

  pub length-put_new :
      (k : K) (v : V) (m : List (K × V)) → find k m ≡ none → length (put k v m) ≡ suc (length m)
  unfolding find put
  length-put_new k v [] e = refl
  length-put_new k v ((j, w) ∷ m) e = ground (arith, length-put_new k v m)
