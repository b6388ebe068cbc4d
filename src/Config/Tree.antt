-- ===== src/Config/Tree.antt =====
-- What src/base/config_file.cc uses of the search tree of src/base/config_bst.cc, a copy of GNU libavl's:
-- a table of keys with their values, ordered by `strcmp`.
use fast_dcs.Common.{◌≡◌, ◌≢◌, Option, none, some, List, [], arith, refl}
use fast_dcs.Common.Texts.{Text}
use fast_dcs.Common.Maps
use fast_dcs.Common.Maps.{text_ord}

-- `find` gives the value of the item that `bst_find` finds; `probe` is `bst_probe`, which leaves an item
-- with the same key as it is; `items` are the data in the order of `bst_t_first` and `bst_t_next`.
pub record Tree : Type 1 where
  pub Table : Type 0
  pub create : Table
  pub find : Text → Table → Option Text
  pub probe : Text → Text → Table → Table
  pub items : Table → List (Text × Text)
  pub find-create : (k : Text) → find k create ≡ none
  pub find-probe_new : (k v : Text) (t : Table) → find k t ≡ none → find k (probe k v t) ≡ some v
  pub find-probe_old :
      (k v w : Text) (t : Table) → find k t ≡ some w → find k (probe k v t) ≡ some w
  pub find-probe_ne : (k j v : Text) (t : Table) → k ≢ j → find j (probe k v t) ≡ find j t

pub insert_new :
    (k v : Text) (t : List (Text × Text))
    → Maps.find k t ≡ none
    → Maps.find k (Maps.insert k v t) ≡ some v
unfolding Maps.insert
insert_new k v t e = ground (arith, Maps.find-put_self k v t)

pub insert_old :
    (k v w : Text) (t : List (Text × Text))
    → Maps.find k t ≡ some w
    → Maps.find k (Maps.insert k v t) ≡ some w
unfolding Maps.insert
insert_old k v w t e = ground arith

pub insert_ne :
    (k j v : Text) (t : List (Text × Text))
    → k ≢ j
    → Maps.find j (Maps.insert k v t) ≡ Maps.find j t
unfolding Maps.insert
insert_ne k j v t h = ground (arith, Maps.find-put_ne k j v t h)

pub find_nil : (k : Text) → Maps.find {V = Text} k [] ≡ none
unfolding Maps.find
find_nil k = refl

-- The list of the items in order is such a tree.
abbrev pub list_tree : Tree
list_tree = record {
  Table = List (Text × Text);
  create = [];
  find = λ k t. Maps.find k t;
  probe = λ k v t. Maps.insert k v t;
  items = λ t. t;
  find-create = find_nil;
  find-probe_new = insert_new;
  find-probe_old = insert_old;
  find-probe_ne = insert_ne;
}
