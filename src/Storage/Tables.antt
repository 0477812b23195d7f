-- ===== src/Storage/Tables.antt =====
-- Tables with an AUTOINCREMENT key: insertion, update by key, and deletion by a column.
use coldwatch.Base.{
  ℕ, ◌+◌, ◌<◌, ◌≡◌, refl, Bool, true, false, none, some, [], ◌∷◌, ◌==◌, subst, ==_iff, ==_refl,
  if◌then◌else◌, Bool-cases, inl, inr, arith,
}
use coldwatch.Base.Keys.{ℕ_key}
use coldwatch.Base.Dict.{
  Dict, get, has, put, remove, has-remove, remove-HasUniqueKeys, HasUniqueKeys, has-put, has-get,
  put-HasUniqueKeys,
}

module _ {V : Type 0} where
  -- `DELETE FROM ... WHERE`, of the rows that the test is true of.
  unfoldable pub delete_where : (V → Bool) → Dict ℕ V → Dict ℕ V
  delete_where p [] = []
  delete_where p ((k, v) ∷ d) = let rest = delete_where p d in if p v then rest else (k, v) ∷ rest

  -- Every key of the table is above `k`.
  unfoldable pub IsAbove : ℕ → Dict ℕ V → Type 0
  IsAbove k [] = Unit
  IsAbove k ((j, v) ∷ d) = (k < j) × IsAbove k d

  unfoldable pub IsAscending : Dict ℕ V → Type 0
  IsAscending [] = Unit
  IsAscending ((k, v) ∷ d) = IsAbove k d × IsAscending d

  put-IsAbove : (k j : ℕ) (v : V) (d : Dict ℕ V) → k < j → IsAbove k d → IsAbove k (put j v d)
  unfolding IsAbove put
  put-IsAbove k j v [] lt h = (lt, tt)
  put-IsAbove k j v ((i, w) ∷ d) lt (h, above) = elim (Bool-cases (i == j)) [
    | inl same ↦ rw same (lt, above)
    | inr other ↦ rw other (h, put-IsAbove k j v d lt above)
  ]

  IsAbove-has : (k j : ℕ) (d : Dict ℕ V) → IsAbove k d → has j d ≡ true → k < j
  unfolding IsAbove has
  IsAbove-has k j [] h there = absurd (ground arith)
  IsAbove-has k j ((i, w) ∷ d) (h, above) there = elim (Bool-cases (i == j)) [
    | inl same ↦ rw (← (==_iff i j).0 same) h
    | inr other ↦ IsAbove-has k j d above (ground arith)
  ]

  insert-IsAscending :
      (seq : ℕ) (v : V) (d : Dict ℕ V)
      → ((k : ℕ) → seq < k → has k d ≡ false)
      → IsAscending d
      → IsAscending (put (seq + 1) v d)
  unfolding IsAscending IsAbove put has
  insert-IsAscending seq v [] none_above h = (tt, tt)
  insert-IsAscending seq v ((i, w) ∷ d) none_above (above, h) =
      let low : i < seq + 1 = ground (arith, none_above i, ==_refl i) in
      let other : (i == seq + 1) ≡ false = ground arith in
      rw other (
        put-IsAbove i (seq + 1) v d low above,
        insert-IsAscending seq v d (λ k lt. ground (arith, none_above k lt)) h,
      )

  update-IsAscending :
      (k : ℕ) (v : V) (d : Dict ℕ V) → has k d ≡ true → IsAscending d → IsAscending (put k v d)
  unfolding IsAscending put has
  update-IsAscending k v [] there h = absurd (ground arith)
  update-IsAscending k v ((i, w) ∷ d) there (above, h) = elim (Bool-cases (i == k)) [
    | inl same ↦ rw same (subst (λ t. IsAbove t d) ((==_iff i k).0 same) above, h)
    | inr other ↦
        let later : has k d ≡ true = ground arith in
        rw other (
          put-IsAbove i k v d (IsAbove-has i k d above later) above,
          update-IsAscending k v d later h,
        )
  ]

  delete_where-IsAbove :
      (p : V → Bool) (k : ℕ) (d : Dict ℕ V) → IsAbove k d → IsAbove k (delete_where p d)
  unfolding IsAbove delete_where
  delete_where-IsAbove p k [] h = tt
  delete_where-IsAbove p k ((j, v) ∷ d) (h, above) = elim (Bool-cases (p v)) [
    | inl gone ↦ rw gone (delete_where-IsAbove p k d above)
    | inr stays ↦ rw stays (h, delete_where-IsAbove p k d above)
  ]

  delete_where-IsAscending :
      (p : V → Bool) (d : Dict ℕ V) → IsAscending d → IsAscending (delete_where p d)
  unfolding IsAscending delete_where
  delete_where-IsAscending p [] h = tt
  delete_where-IsAscending p ((j, v) ∷ d) (above, h) = elim (Bool-cases (p v)) [
    | inl gone ↦ rw gone (delete_where-IsAscending p d h)
    | inr stays ↦ rw stays (delete_where-IsAbove p j d above, delete_where-IsAscending p d h)
  ]

  remove-IsAbove : (i k : ℕ) (d : Dict ℕ V) → IsAbove k d → IsAbove k (remove i d)
  unfolding IsAbove remove
  remove-IsAbove i k [] h = tt
  remove-IsAbove i k ((j, v) ∷ d) (h, above) = elim (Bool-cases (j == i)) [
    | inl gone ↦ rw gone (remove-IsAbove i k d above)
    | inr stays ↦ rw stays (h, remove-IsAbove i k d above)
  ]

  remove-IsAscending : (i : ℕ) (d : Dict ℕ V) → IsAscending d → IsAscending (remove i d)
  unfolding IsAscending remove
  remove-IsAscending i [] h = tt
  remove-IsAscending i ((j, v) ∷ d) (above, h) = elim (Bool-cases (j == i)) [
    | inl gone ↦ rw gone (remove-IsAscending i d h)
    | inr stays ↦ rw stays (remove-IsAbove i j d above, remove-IsAscending i d h)
  ]

  -- Every key is in use at most once, the rows stand in the order of the keys, and none is above the
  -- highest one given.
  pub record IsTable (seq : ℕ) (d : Dict ℕ V) : Type 0 where
    pub unique : HasUniqueKeys d
    pub ascending : IsAscending d
    pub bounded : (k : ℕ) → seq < k → has k d ≡ false

  pub nil-IsTable : (seq : ℕ) → IsTable seq []
  unfolding HasUniqueKeys has IsAscending
  nil-IsTable seq = record { unique = tt; ascending = tt; bounded = λ k h. refl }

  -- A row inserted under the next key.
  pub insert-IsTable :
      (seq : ℕ) (v : V) (d : Dict ℕ V) → IsTable seq d → IsTable (seq + 1) (put (seq + 1) v d)
  insert-IsTable seq v d w = record {
    unique = put-HasUniqueKeys (seq + 1) v d w.unique;
    ascending = insert-IsAscending seq v d w.bounded w.ascending;
    bounded = λ k h. rw (has-put (seq + 1) k v d) (ground (arith, w.bounded k));
  }

  -- A row that is there, updated.
  pub update-IsTable :
      (seq k : ℕ) (v : V) (d : Dict ℕ V) → has k d ≡ true → IsTable seq d → IsTable seq (put k v d)
  update-IsTable seq k v d there w = record {
    unique = put-HasUniqueKeys k v d w.unique;
    ascending = update-IsAscending k v d there w.ascending;
    bounded = λ j h. rw (has-put k j v d) (ground (arith, w.bounded j, ==_iff k j));
  }

  has-delete_where :
      (p : V → Bool) (k : ℕ) (d : Dict ℕ V) → has k d ≡ false → has k (delete_where p d) ≡ false
  unfolding has delete_where
  has-delete_where p k [] h = refl
  has-delete_where p k ((j, v) ∷ d) h = ground (arith, has-delete_where p k d)

  delete_where-HasUniqueKeys :
      (p : V → Bool) (d : Dict ℕ V) → HasUniqueKeys d → HasUniqueKeys (delete_where p d)
  unfolding HasUniqueKeys delete_where
  delete_where-HasUniqueKeys p [] h = tt
  delete_where-HasUniqueKeys p ((k, v) ∷ d) (h, u) = elim (Bool-cases (p v)) [
    | inl gone ↦ rw gone (delete_where-HasUniqueKeys p d u)
    | inr stays ↦ rw stays (has-delete_where p k d h, delete_where-HasUniqueKeys p d u)
  ]

  pub delete-IsTable :
      (seq : ℕ) (p : V → Bool) (d : Dict ℕ V) → IsTable seq d → IsTable seq (delete_where p d)
  delete-IsTable seq p d w = record {
    unique = delete_where-HasUniqueKeys p d w.unique;
    ascending = delete_where-IsAscending p d w.ascending;
    bounded = λ k h. has-delete_where p k d (w.bounded k h);
  }

  -- After a deletion a key holds what it held, unless its row was deleted.
  pub get-delete_where :
      (p : V → Bool) (k : ℕ) (d : Dict ℕ V)
      → HasUniqueKeys d
      → get k (delete_where p d)
        ≡ elim (get k d) [ none ↦ none | some v ↦ if p v then none else some v ]
  unfolding get delete_where HasUniqueKeys
  get-delete_where p k [] h = refl
  get-delete_where p k ((j, v) ∷ d) (h, u) =
      ground (arith, get-delete_where p k d u, has-get k d, ==_iff j k)

  pub remove-IsTable : (seq i : ℕ) (d : Dict ℕ V) → IsTable seq d → IsTable seq (remove i d)
  remove-IsTable seq i d w = record {
    unique = remove-HasUniqueKeys i d w.unique;
    ascending = remove-IsAscending i d w.ascending;
    bounded = λ k h. ground (arith, has-remove i k d, w.bounded k h);
  }
