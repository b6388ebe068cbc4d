-- ===== src/Protofile.antt =====
-- src/server/protofile.cc: the values of a `KeyValuesPair`. A value is the message that `WriteRecord`
-- serialises into it, so `ReadRecord` finds the values of the kind that it asks for.
use fast_dcs.Common.{◌≡◌, refl, ap, ◌∙◌, append-nil, true, false, List, [], ◌∷◌, ◌++◌}
use fast_dcs.Common.Texts.{Text, eq, eq_self}
use fast_dcs.Common.Maps.{insert, text_ord}
use fast_dcs.Messages.{FdcsTask, KeyValuesPair, Value, task, pair, status}

-- `ReadRecord(KeyValuesPair*, std::vector<FdcsTask>*)`.
unfoldable pub read_tasks : List Value → List FdcsTask
read_tasks [] = []
read_tasks (task t ∷ vs) = t ∷ read_tasks vs
read_tasks (pair k v ∷ vs) = read_tasks vs
read_tasks (status a ∷ vs) = read_tasks vs

-- `ReadRecord(KeyValuesPair*, std::map<…>*)`: `insert` keeps the first of two values with one key.
unfoldable pub read_pairs : List Value → List (Text × Text) → List (Text × Text)
unfolding insert
read_pairs [] m = m
read_pairs (pair k v ∷ vs) m = read_pairs vs (insert k v m)
read_pairs (task t ∷ vs) m = read_pairs vs m
read_pairs (status a ∷ vs) m = read_pairs vs m

-- `WriteRecord(KeyValuesPair*, const FdcsTask&)` of each task in turn.
unfoldable pub write_tasks : List FdcsTask → List Value
write_tasks [] = []
write_tasks (t ∷ ts) = task t ∷ write_tasks ts

-- The loop over the pairs of a protocol that reads the tasks under `key` into one vector.
unfoldable pub tasks_of : Text → List KeyValuesPair → List FdcsTask
unfolding read_tasks
tasks_of key [] = []
tasks_of key (p ∷ ps) = elim (eq p.key key) [
  | true ↦ read_tasks p.values ++ tasks_of key ps
  | false ↦ tasks_of key ps
]

-- The loop that stops at the first pair under `key`, and reads a map there.
unfoldable pub pairs_of : Text → List KeyValuesPair → List (Text × Text)
unfolding read_pairs
pairs_of key [] = []
pairs_of key (p ∷ ps) = elim (eq p.key key) [
  | true ↦ read_pairs p.values []
  | false ↦ pairs_of key ps
]

pub read_tasks-write_tasks : (ts : List FdcsTask) → read_tasks (write_tasks ts) ≡ ts
unfolding read_tasks write_tasks
read_tasks-write_tasks [] = refl
read_tasks-write_tasks (t ∷ ts) = ap (λ us. t ∷ us) (read_tasks-write_tasks ts)

-- What is written under a key is read under it.
pub tasks_of-write_tasks :
    (key : Text) (ts : List FdcsTask)
    → tasks_of key (record { key = key; values = write_tasks ts } ∷ []) ≡ ts
unfolding tasks_of
tasks_of-write_tasks key ts =
    rw (eq_self key, tasks_of)
      (append-nil (read_tasks (write_tasks ts)) ∙ read_tasks-write_tasks ts)
