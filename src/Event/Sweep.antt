-- ===== src/Event/Sweep.antt =====
-- The loop of `notify_inner` and `notify_additional` (src/event.rs) against a plain description: the
-- first `k` listeners that still wait, in the order of their ids, get the tag.
use eneste_rs.Prelude.{
  ℕ, suc, ◌+◌, ◌-◌, ◌<◌, ◌≡◌, refl, false, List, [], ◌∷◌, ◌++◌, none, some, arith, ◌==◌,
  if◌then◌else◌, length, min, ◌⊎◌,
}
use eneste_rs.Event.Map.{BTreeMap, get, Ordered, get_below}
use eneste_rs.Event.{Waker, ListenerEntry, wakes, entry_is_notified, notify_loop}

module _ {T : Type 0} where
  abbrev pub notified_entries : BTreeMap (ListenerEntry T) → ℕ
  notified_entries [] = 0
  notified_entries ((id, e) ∷ m) =
      if entry_is_notified e then suc (notified_entries m) else notified_entries m

  abbrev pub waiting_entries : BTreeMap (ListenerEntry T) → ℕ
  waiting_entries [] = 0
  waiting_entries ((id, e) ∷ m) =
      if entry_is_notified e then waiting_entries m else suc (waiting_entries m)

  pub waiting-add-notified :
      (m : BTreeMap (ListenerEntry T)) → waiting_entries m + notified_entries m ≡ length m
  waiting-add-notified [] = omega arith
  waiting-add-notified ((id, e) ∷ m) = ground (arith, waiting-add-notified m)

  unfoldable pub mark : ℕ → T → BTreeMap (ListenerEntry T) → BTreeMap (ListenerEntry T)
  mark k tag [] = []
  mark k tag ((id, e) ∷ m) =
      let passed = mark k tag m in
      let rest = mark (k - 1) tag m in
      if k == 0
      then (id, e) ∷ m
      else if entry_is_notified e
      then (id, e) ∷ passed
      else (id, record { waker = none; value = some tag }) ∷ rest

  -- The wakers of the first `k` listeners that still wait.
  unfoldable pub mark_wakers : ℕ → BTreeMap (ListenerEntry T) → List Waker
  mark_wakers k [] = []
  mark_wakers k ((id, e) ∷ m) =
      let passed = mark_wakers k m in
      let rest = mark_wakers (k - 1) m in
      if k == 0 then [] else if entry_is_notified e then passed else wakes e.waker ++ rest

  pub entries-notify_loop :
      (c : ℕ) (tag : T) (n k : ℕ) (m : BTreeMap (ListenerEntry T))
      → k ≡ c - n
      → (notify_loop c tag n m).entries ≡ mark k tag m
  unfolding notify_loop mark
  entries-notify_loop c tag n k [] h = refl
  entries-notify_loop c tag n k ((id, e) ∷ m) h = ground (
    arith,
    entries-notify_loop c tag n k m h,
    entries-notify_loop c tag (n + 1) (k - 1) m (omega arith),
  )

  pub count-notify_loop :
      (c : ℕ) (tag : T) (n : ℕ) (m : BTreeMap (ListenerEntry T))
      → (notify_loop c tag n m).count ≡ n + min (c - n) (waiting_entries m)
  unfolding notify_loop
  count-notify_loop c tag n [] = ground arith
  count-notify_loop c tag n ((id, e) ∷ m) =
      ground (arith, count-notify_loop c tag n m, count-notify_loop c tag (n + 1) m)

  pub wakers-notify_loop :
      (c : ℕ) (tag : T) (n k : ℕ) (m : BTreeMap (ListenerEntry T))
      → k ≡ c - n
      → (notify_loop c tag n m).wakers ≡ mark_wakers k m
  unfolding notify_loop mark_wakers
  wakers-notify_loop c tag n k [] h = refl
  wakers-notify_loop c tag n k ((id, e) ∷ m) h = ground (
    arith,
    wakers-notify_loop c tag n k m h,
    wakers-notify_loop c tag (n + 1) (k - 1) m (omega arith),
  )

  pub notified-mark :
      (k : ℕ) (tag : T) (m : BTreeMap (ListenerEntry T))
      → notified_entries (mark k tag m) ≡ notified_entries m + min k (waiting_entries m)
  unfolding mark
  notified-mark k tag [] = ground arith
  notified-mark k tag ((id, e) ∷ m) =
      ground (arith, notified-mark k tag m, notified-mark (k - 1) tag m)

  pub length-mark :
      (k : ℕ) (tag : T) (m : BTreeMap (ListenerEntry T)) → length (mark k tag m) ≡ length m
  unfolding mark
  length-mark k tag [] = refl
  length-mark k tag ((id, e) ∷ m) = ground (arith, length-mark k tag m, length-mark (k - 1) tag m)

  pub mark-Ordered :
      (k : ℕ) (tag : T) (lo : ℕ) (m : BTreeMap (ListenerEntry T)) (hi : ℕ)
      → Ordered lo m hi
      → Ordered lo (mark k tag m) hi
  unfolding mark
  mark-Ordered k tag lo [] hi h = h
  mark-Ordered k tag lo ((id, e) ∷ m) hi h =
      ground
        (arith, mark-Ordered k tag (suc id) m hi h.2, mark-Ordered (k - 1) tag (suc id) m hi h.2)

  -- A marked listener is one that waited: it now has the tag and no waker. Others are untouched.
  pub get-mark :
      (k : ℕ) (tag : T) (m : BTreeMap (ListenerEntry T)) (id : ℕ) (e : ListenerEntry T)
      → get id m ≡ some e
      → (get id (mark k tag m) ≡ some e)
        ⊎ ((entry_is_notified e ≡ false)
            × (get id (mark k tag m) ≡ some (record { waker = none; value = some tag })))
  unfolding mark get
  get-mark k tag [] id e h = cc
  get-mark k tag ((i, x) ∷ m) id e h =
      ground (arith, get-mark k tag m id e, get-mark (k - 1) tag m id e)

  -- Nobody is passed over: if `i` still waits after the sweep, then so does every later `j` that did.
  pub mark_fair :
      (k : ℕ) (tag : T) (lo : ℕ) (m : BTreeMap (ListenerEntry T)) (hi i j : ℕ)
      (a b : ListenerEntry T)
      → Ordered lo m hi
      → i < j
      → get i m ≡ some a
      → get i (mark k tag m) ≡ some a
      → entry_is_notified a ≡ false
      → get j m ≡ some b
      → get j (mark k tag m) ≡ some b
  unfolding mark get
  mark_fair k tag lo [] hi i j a b o lt hi' ha hw hb = cc
  mark_fair k tag lo ((x, e) ∷ m) hi i j a b o lt gi ha hw hb = ground (
    arith,
    get_below (suc x) m hi i o.2,
    mark_fair k tag (suc x) m hi i j a b o.2 lt,
    mark_fair (k - 1) tag (suc x) m hi i j a b o.2 lt,
  )

  pub mark-zero : (tag : T) (m : BTreeMap (ListenerEntry T)) → mark 0 tag m ≡ m
  unfolding mark
  mark-zero tag [] = refl
  mark-zero tag ((id, e) ∷ m) = refl

  pub mark_wakers-zero : (m : BTreeMap (ListenerEntry T)) → mark_wakers 0 m ≡ []
  unfolding mark_wakers
  mark_wakers-zero [] = refl
  mark_wakers-zero ((id, e) ∷ m) = refl

  -- A larger budget than there are waiting listeners changes nothing.
  pub mark-min :
      (k j : ℕ) (tag : T) (m : BTreeMap (ListenerEntry T))
      → j ≡ min (waiting_entries m) k
      → mark k tag m ≡ mark j tag m
  unfolding mark
  mark-min k j tag [] h = refl
  mark-min k j tag ((id, e) ∷ m) h = ground (
    arith,
    mark-min k j tag m,
    mark-min (k - 1) (j - 1) tag m,
    mark-min k 0 tag m,
    mark-zero tag m,
  )

  pub mark_wakers-min :
      (k j : ℕ) (m : BTreeMap (ListenerEntry T))
      → j ≡ min (waiting_entries m) k
      → mark_wakers k m ≡ mark_wakers j m
  unfolding mark_wakers
  mark_wakers-min k j [] h = refl
  mark_wakers-min k j ((id, e) ∷ m) h = ground (
    arith,
    mark_wakers-min k j m,
    mark_wakers-min (k - 1) (j - 1) m,
    mark_wakers-min k 0 m,
    mark_wakers-zero m,
  )
