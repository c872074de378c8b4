-- ===== src/Base/Dict.antt =====
-- A Python dict as the list of its keys and values in the order of insertion. `same` compares keys.
use bitclone.Base.{
  ◌≡◌, refl, Bool, true, false, List, [], ◌∷◌, ◌++◌, Option, none, some, if◌then◌else◌, arith,
}

module _ {K A : Type 0} (same : K → K → Bool) where
  abbrev pub lookup : K → List (K × A) → Option A
  lookup k [] = none
  lookup k ((k', a) ∷ d) = if same k k' then some a else lookup k d

  -- `del d[k]`, or nothing where the key is missing.
  abbrev pub erase : K → List (K × A) → List (K × A)
  erase k [] = []
  erase k ((k', a) ∷ d) = let rest = erase k d in if same k k' then d else (k', a) ∷ rest

  -- `d.pop(k, None)`, written for every pair with the key.
  abbrev pub drop_key : K → List (K × A) → List (K × A)
  drop_key k [] = []
  drop_key k ((k', a) ∷ d) = let rest = drop_key k d in if same k k' then rest else (k', a) ∷ rest

  -- `d[k] = a`: a key that is there keeps its place.
  abbrev pub insert : K → A → List (K × A) → List (K × A)
  insert k a [] = (k, a) ∷ []
  insert k a ((k', b) ∷ d) =
      let rest = insert k a d in if same k k' then (k', a) ∷ d else (k', b) ∷ rest

  -- `k in d`
  abbrev pub contains : K → List (K × A) → Bool
  contains k d = elim (lookup k d) [ none ↦ false | some a ↦ true ]

module _ {K : Type 0} (same : K → K → Bool) where
  -- A set as a list without repetition: `in`, `add` and `discard`.
  abbrev pub is_member : K → List K → Bool
  is_member k [] = false
  is_member k (x ∷ xs) = if same k x then true else is_member k xs

  abbrev pub add_member : K → List K → List K
  add_member k xs = if is_member k xs then xs else xs ++ (k ∷ [])

  abbrev pub discard : K → List K → List K
  discard k [] = []
  discard k (x ∷ xs) = let rest = discard k xs in if same k x then rest else x ∷ rest

module _ {K A : Type 0} (same : K → K → Bool) where
  -- A new key goes to the end.
  pub insert_fresh :
      (k : K) (a : A) (d : List (K × A))
      → contains same k d ≡ false
      → insert same k a d ≡ d ++ ((k, a) ∷ [])
  insert_fresh k a [] h = refl
  insert_fresh k a ((k', b) ∷ d) h = ground (arith, insert_fresh k a d)

  pub contains_last :
      (k : K) (a : A) (d : List (K × A))
      → same k k ≡ true
      → contains same k (d ++ ((k, a) ∷ [])) ≡ true
  contains_last k a [] h = ground arith
  contains_last k a ((k', b) ∷ d) h = ground (arith, contains_last k a d h)

-- What a dict holds after a change, where `same` decides equality.
module _ {K A : Type 0} (same : K → K → Bool) (sound : (a b : K) → same a b ≡ true → a ≡ b) where
  pub lookup-drop_key-same : (k : K) (d : List (K × A)) → lookup same k (drop_key same k d) ≡ none
  lookup-drop_key-same k [] = refl
  lookup-drop_key-same k ((k', a) ∷ d) = ground (arith, lookup-drop_key-same k d)

  pub lookup-drop_key-other :
      (j k : K) (d : List (K × A))
      → same j k ≡ false
      → lookup same j (drop_key same k d) ≡ lookup same j d
  lookup-drop_key-other j k [] h = refl
  lookup-drop_key-other j k ((k', a) ∷ d) h =
      ground (arith, h, sound k k', lookup-drop_key-other j k d h)

  pub lookup-insert-same :
      (k : K) (a : A) (d : List (K × A))
      → same k k ≡ true
      → lookup same k (insert same k a d) ≡ some a
  lookup-insert-same k a [] h = ground arith
  lookup-insert-same k a ((k', b) ∷ d) h = ground (arith, h, lookup-insert-same k a d h)

  pub lookup-insert-other :
      (j k : K) (a : A) (d : List (K × A))
      → same j k ≡ false
      → lookup same j (insert same k a d) ≡ lookup same j d
  lookup-insert-other j k a [] h = ground arith
  lookup-insert-other j k a ((k', b) ∷ d) h =
      ground (arith, h, sound k k', lookup-insert-other j k a d h)
