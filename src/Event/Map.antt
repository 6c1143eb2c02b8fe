-- ===== src/Event/Map.antt =====
-- `BTreeMap<usize, V>` as event.rs uses it: an association list in the order of the keys, which is the
-- order of `values_mut`.
use eneste_rs.Prelude.{
  ℕ, suc, ◌≤◌, ◌<◌, ◌≡◌, refl, List, [], ◌∷◌, ◌++◌, Option, none, some, arith, ltb, ◌==◌,
  if◌then◌else◌, length, ◌≢◌,
}

abbrev pub BTreeMap {ℓ} : Type ℓ → Type ℓ
BTreeMap V = List (ℕ × V)

module _ {ℓ} {V : Type ℓ} where
  unfoldable pub get : ℕ → BTreeMap V → Option V
  get k [] = none
  get k ((j, v) ∷ m) = if j == k then some v else get k m

  unfoldable pub insert : ℕ → V → BTreeMap V → BTreeMap V
  insert k v [] = (k, v) ∷ []
  insert k v ((j, w) ∷ m) =
      if j == k then (k, v) ∷ m else if ltb k j then (k, v) ∷ (j, w) ∷ m else (j, w) ∷ insert k v m

  unfoldable pub remove : ℕ → BTreeMap V → BTreeMap V
  remove k [] = []
  remove k ((j, v) ∷ m) = if j == k then m else (j, v) ∷ remove k m

  -- A write through `get_mut`; a missing key changes nothing.
  unfoldable pub set_value : ℕ → V → BTreeMap V → BTreeMap V
  set_value k v [] = []
  set_value k v ((j, w) ∷ m) = if j == k then (j, v) ∷ m else (j, w) ∷ set_value k v m

  -- The keys rise along the list, from `lo` on and below `hi`.
  abbrev pub Ordered : ℕ → BTreeMap V → ℕ → Type 0
  Ordered lo [] hi = lo ≤ hi
  Ordered lo ((k, v) ∷ m) hi = (lo ≤ k) × (k < hi) × Ordered (suc k) m hi

  pub Ordered-le : (lo : ℕ) (m : BTreeMap V) (hi : ℕ) → Ordered lo m hi → lo ≤ hi
  Ordered-le lo [] hi h = h
  Ordered-le lo ((k, v) ∷ m) hi h = omega (arith, Ordered-le (suc k) m hi h.2)

  pub Ordered-widen :
      (a b : ℕ) (m : BTreeMap V) (c d : ℕ) → b ≤ a → c ≤ d → Ordered a m c → Ordered b m d
  Ordered-widen a b [] c d p q h = omega arith
  Ordered-widen a b ((k, v) ∷ m) c d p q h =
      (omega arith, omega arith, Ordered-widen (suc k) (suc k) m c d (omega arith) q h.2)

  -- A key above all others goes to the end.
  pub insert-last :
      (lo : ℕ) (m : BTreeMap V) (hi : ℕ) (v : V)
      → Ordered lo m hi
      → insert hi v m ≡ m ++ (hi, v) ∷ []
  unfolding insert
  insert-last lo [] hi v h = refl
  insert-last lo ((k, w) ∷ m) hi v h = ground (arith, insert-last (suc k) m hi v h.2)

  pub Ordered-last :
      (lo : ℕ) (m : BTreeMap V) (hi : ℕ) (v : V)
      → Ordered lo m hi
      → Ordered lo (m ++ (hi, v) ∷ []) (suc hi)
  Ordered-last lo [] hi v h = (h, omega arith, omega arith)
  Ordered-last lo ((k, w) ∷ m) hi v h = (h.0, omega arith, Ordered-last (suc k) m hi v h.2)

  pub get_above : (lo : ℕ) (m : BTreeMap V) (hi k : ℕ) → Ordered lo m hi → hi ≤ k → get k m ≡ none
  unfolding get
  get_above lo [] hi k h le = refl
  get_above lo ((j, w) ∷ m) hi k h le = ground (arith, get_above (suc j) m hi k h.2)

  pub get_below : (lo : ℕ) (m : BTreeMap V) (hi k : ℕ) → Ordered lo m hi → k < lo → get k m ≡ none
  unfolding get
  get_below lo [] hi k h le = refl
  get_below lo ((j, w) ∷ m) hi k h le = ground (arith, get_below (suc j) m hi k h.2)

  pub remove-Ordered :
      (k lo : ℕ) (m : BTreeMap V) (hi : ℕ) → Ordered lo m hi → Ordered lo (remove k m) hi
  unfolding remove
  remove-Ordered k lo [] hi h = h
  remove-Ordered k lo ((j, w) ∷ m) hi h = ground (
    arith,
    remove-Ordered k (suc j) m hi h.2,
    Ordered-widen (suc j) lo m hi hi (omega arith) (omega arith) h.2,
  )

  pub set_value-Ordered :
      (k : ℕ) (v : V) (lo : ℕ) (m : BTreeMap V) (hi : ℕ)
      → Ordered lo m hi
      → Ordered lo (set_value k v m) hi
  unfolding set_value
  set_value-Ordered k v lo [] hi h = h
  set_value-Ordered k v lo ((j, w) ∷ m) hi h =
      ground (arith, set_value-Ordered k v (suc j) m hi h.2)

  pub length-set_value : (k : ℕ) (v : V) (m : BTreeMap V) → length (set_value k v m) ≡ length m
  unfolding set_value
  length-set_value k v [] = refl
  length-set_value k v ((j, w) ∷ m) = ground (arith, length-set_value k v m)

  pub length-remove-le : (k : ℕ) (m : BTreeMap V) → length (remove k m) ≤ length m
  unfolding remove
  length-remove-le k [] = omega arith
  length-remove-le k ((j, w) ∷ m) = ground (arith, length-remove-le k m)

  pub get-append :
      (k : ℕ) (m : BTreeMap V) (j : ℕ) (v : V)
      → get k m ≡ none
      → get k (m ++ (j, v) ∷ []) ≡ (if j == k then some v else none)
  unfolding get
  get-append k [] j v h = refl
  get-append k ((i, w) ∷ m) j v h = ground (arith, get-append k m j v)

  pub get-append_some :
      (k : ℕ) (m : BTreeMap V) (j : ℕ) (v : V) {w : V}
      → get k m ≡ some w
      → get k (m ++ (j, v) ∷ []) ≡ some w
  unfolding get
  get-append_some k [] j v h = ground arith
  get-append_some k ((i, u) ∷ m) j v {w} h = ground (arith, get-append_some k m j v {w = w})

  pub get-remove_ne : (k j : ℕ) (m : BTreeMap V) → k ≢ j → get j (remove k m) ≡ get j m
  unfolding get remove
  get-remove_ne k j [] h = refl
  get-remove_ne k j ((i, u) ∷ m) h = ground (arith, get-remove_ne k j m h)

  pub get-remove_self :
      (k lo : ℕ) (m : BTreeMap V) (hi : ℕ) → Ordered lo m hi → get k (remove k m) ≡ none
  unfolding get remove
  get-remove_self k lo [] hi h = refl
  get-remove_self k lo ((i, u) ∷ m) hi h =
      ground (arith, get-remove_self k (suc i) m hi h.2, get_below (suc i) m hi k h.2)

  pub get-set_value :
      (k j : ℕ) (v : V) (m : BTreeMap V) {w : V}
      → get k m ≡ some w
      → get j (set_value k v m) ≡ (if k == j then some v else get j m)
  unfolding get set_value
  get-set_value k j v [] h = cc
  get-set_value k j v ((i, u) ∷ m) {w} h = ground (arith, get-set_value k j v m {w = w})
