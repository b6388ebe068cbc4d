-- ===== src/Tracker/Masters/Next.antt =====
-- `FindNextMaster` goes once round the group, from the master behind this one.
use fast_dcs.Common.{
  ℕ, zero, suc, ◌+◌, ◌<◌, ◌≡◌, refl, sym, ap, ◌∙◌, false, List, [], ◌∷◌, ◌++◌, append_assoc, arith,
  length, length-append, nil≢cons,
}
use fast_dcs.Common.Int.{ℤ}
use fast_dcs.Common.Texts.{Text, eq, eq_self, eq_comm}
use fast_dcs.Tracker.State.{Tracker, World, ok, M, ◌>>=◌, bind_ok, branch, own, no_fd, socket_of}
use fast_dcs.Tracker.Sockets.{connect_master, open_socket, check_ip}
use fast_dcs.Tracker.Masters.{
  pick_next, group, head_or, next_loop, next_in, next_master_address, find_next_loop,
  find_next_master,
}

abbrev pub Absent : Text → List Text → Type 0
Absent a [] = Unit {0}
Absent a (b ∷ bs) = (eq b a ≡ false) × Absent a bs

-- No address stands twice.
abbrev pub Distinct : List Text → Type 0
Distinct [] = Unit {0}
Distinct (a ∷ bs) = Absent a bs × Distinct bs

Absent-middle :
    (x a : Text) (before after : List Text) → Absent x (before ++ a ∷ after) → eq a x ≡ false
Absent-middle x a [] after h = h.0
Absent-middle x a (b ∷ before) after h = Absent-middle x a before after h.1

pub Distinct-middle :
    (a : Text) (before after : List Text)
    → Distinct (before ++ a ∷ after)
    → Absent a before × Absent a after
Distinct-middle a [] after h = (tt, h.0)
Distinct-middle a (b ∷ before) after h =
    let rest = Distinct-middle a before after h.1 in
    ((eq_comm b a ∙ Absent-middle b a before after h.0, rest.0), rest.1)

next_loop-middle :
    (a first last : Text) (before after : List Text)
    → Absent a before
    → next_loop a first last (before ++ a ∷ after) ≡ head_or first after
unfolding next_loop
next_loop-middle a first last [] after h = rw (eq_self a, next_loop)
next_loop-middle a first last (b ∷ before) after h =
    rw (h.0, next_loop) (next_loop-middle a first b before after h.1)

-- `NextMasterAddress` of an address of the group is the one behind it, and the first behind the last.
pub next_in-middle :
    (masters : List Text) (a : Text) (before after : List Text)
    → masters ≡ before ++ a ∷ after
    → Distinct masters
    → next_in masters a ≡ head_or (head_or [] masters) after
unfolding next_in
next_in-middle masters a before after e d =
    rw e (next_loop-middle a _ [] before after (Distinct-middle a before after (rw e at d)).0)

module _ (w : World) where
  -- Connect to each address in turn, until one answers.
  unfoldable pub try_in_order : List Text → M ℤ
  try_in_order [] s = ok no_fd s
  try_in_order (a ∷ more) s =
      (connect_master w a >>= λ connected. branch connected (socket_of a) (try_in_order more)) s

  -- What follows a failed connection runs in the state before it.
  connect_cong :
      (a : Text) (k l : M ℤ) (s : Tracker)
      → k s ≡ l s
      → (connect_master w a >>= λ connected. branch connected (socket_of a) k) s
        ≡ (connect_master w a >>= λ connected. branch connected (socket_of a) l) s
  unfolding connect_master open_socket check_ip
  connect_cong a k l s h = ground arith

head_or-middle :
    (first x : Text) (rest after : List Text) → head_or first (rest ++ x ∷ after) ≡ head_or x rest
head_or-middle first x [] after = refl
head_or-middle first x (a ∷ rest) after = refl

module _ (w : World) (s : Tracker) (d : Distinct (group s)) where
  pick_next-middle :
      (masters : List Text) (a : Text) (before after : List Text)
      → masters ≡ before ++ a ∷ after
      → Distinct masters
      → pick_next masters a s ≡ ok (head_or (head_or [] masters) after) s
  unfolding pick_next
  pick_next-middle [] a [] after e h = absurd (nil≢cons e)
  pick_next-middle [] a (b ∷ before) after e h = absurd (nil≢cons e)
  pick_next-middle (m ∷ masters) a before after e h =
      ap (λ x. ok x s) (next_in-middle (m ∷ masters) a before after e h)

  next_address :
      (a : Text) (before after : List Text)
      → group s ≡ before ++ a ∷ after
      → next_master_address a s ≡ ok (head_or (head_or [] (group s)) after) s
  unfolding next_master_address
  next_address a before after e = pick_next-middle (group s) a before after e d

  -- From the first address to this server's own.
  find_next_loop-before :
      (fuel : ℕ) (done rest after : List Text)
      → group s ≡ done ++ (rest ++ own s ∷ after)
      → length rest < fuel
      → find_next_loop w fuel (head_or (own s) rest) s ≡ try_in_order w rest s
  unfolding find_next_loop try_in_order
  find_next_loop-before zero done rest after e h = absurd (omega arith)
  find_next_loop-before (suc fuel) done [] after e h = rw (eq_self (own s), find_next_loop)
  find_next_loop-before (suc fuel) done (a ∷ rest) after e h =
      let d' = rw e at d in
      let other = Absent-middle a (own s) rest after (Distinct-middle a done _ d').1 in
      let step =
        next_address a done (rest ++ own s ∷ after) e
        ∙ ap (λ x. ok x s) (head_or-middle _ (own s) rest after) in
      rw (eq_comm a (own s) ∙ other, find_next_loop)
        (connect_cong w a (next_master_address a >>= λ next. find_next_loop w fuel next)
          (try_in_order w rest) s
          (bind_ok (next_master_address a) (λ next. find_next_loop w fuel next) s _ s step
            ∙ (find_next_loop-before fuel (done ++ a ∷ []) rest after
                (e ∙ sym (append_assoc done (a ∷ []) _)) (omega arith))))

  -- From this server's own address on to the last one, then from the first on.
  find_next_loop-after :
      (fuel : ℕ) (done rest before after : List Text)
      → group s ≡ before ++ own s ∷ after
      → group s ≡ done ++ rest
      → Absent (own s) rest
      → length rest + length before < fuel
      → find_next_loop w fuel (head_or (head_or [] (group s)) rest) s
        ≡ try_in_order w (rest ++ before) s
  unfolding find_next_loop try_in_order
  find_next_loop-after fuel done [] before after e r missing h =
      rw (ap (head_or []) e ∙ head_or-middle [] (own s) before after)
        (find_next_loop-before fuel [] before after e (omega arith))
  find_next_loop-after zero done (a ∷ rest) before after e r missing h = absurd (omega arith)
  find_next_loop-after (suc fuel) done (a ∷ rest) before after e r missing h =
      rw (missing.0, find_next_loop)
        (connect_cong w a (next_master_address a >>= λ next. find_next_loop w fuel next)
          (try_in_order w (rest ++ before)) s
          (bind_ok (next_master_address a) (λ next. find_next_loop w fuel next) s _ s
              (next_address a done rest r)
            ∙ (find_next_loop-after fuel (done ++ a ∷ []) rest before after e
                (r ∙ sym (append_assoc done (a ∷ []) rest)) missing.1 (omega arith))))

length_bound :
    (masters before : List Text) (x : Text) (after : List Text)
    → masters ≡ before ++ x ∷ after
    → length after + length before < suc (length masters)
length_bound masters before x after e =
    let n = ap length e ∙ length-append before (x ∷ after) in omega arith

-- In a group without a double address that holds this server's own, `FindNextMaster` comes to an end.
-- It tries the addresses behind this server's in their order, then those before it, connects to the
-- first that answers and returns its descriptor, and -1 where none does.
pub find_next_master_lem :
    (w : World) (s : Tracker) (before after : List Text)
    → group s ≡ before ++ own s ∷ after
    → Distinct (group s)
    → find_next_master w s ≡ try_in_order w (after ++ before) s
unfolding find_next_master
find_next_master_lem w s before after e d =
    bind_ok (next_master_address (own s)) (λ next. find_next_loop w (suc (length (group s))) next) s
      _ s (next_address w s d (own s) before after e)
    ∙ (find_next_loop-after w s d (suc (length (group s))) (before ++ own s ∷ []) after before after
        e (e ∙ sym (append_assoc before (own s ∷ []) after))
        (Distinct-middle (own s) before after (rw e at d)).1
        (length_bound (group s) before (own s) after e))
