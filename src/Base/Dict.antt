-- ===== src/Base/Dict.antt =====
-- Python's insertion-ordered `dict` and `OrderedDict` as an association list: a new key goes to the
-- end, a key that is there keeps its place, and `popitem(last=False)` takes the first entry.
use Prim.Native.Nat.{◌+◌, ◌≤◌}
use mathlib.Core.Path.{◌≡◌, refl}
use mathlib.Core.Logic.{inl, inr}
use mathlib.Core.Bool.{Bool, true, false}
use mathlib.Core.Option.{Option, none, some}
use mathlib.Core.List.{List, [], ◌∷◌}
use native.Mathlib.Omega.{arith}
use coldwatch.Base.Tests.{if◌then◌else◌, Bool-cases}
use coldwatch.Base.Lists.{length}
use coldwatch.Base.Keys.{Key}

abbrev pub Dict : Type 0 → Type 0 → Type 0
Dict K V = List (K × V)

module _ {K V : Type 0} ⦃e : Key K⦄ where
  -- `d.get(k)`, and `d[k]` of a key that is there.
  unfoldable pub get : K → Dict K V → Option V
  get k [] = none
  get k ((j, v) ∷ d) = if e.agree j k then some v else get k d

  -- `k in d`.
  unfoldable pub has : K → Dict K V → Bool
  has k [] = false
  has k ((j, v) ∷ d) = if e.agree j k then true else has k d

  -- `d[k] = v`.
  unfoldable pub put : K → V → Dict K V → Dict K V
  put k v [] = (k, v) ∷ []
  put k v ((j, w) ∷ d) = if e.agree j k then (k, v) ∷ d else (j, w) ∷ put k v d

  -- `d.pop(k, None)` and `del d[k]`.
  unfoldable pub remove : K → Dict K V → Dict K V
  remove k [] = []
  remove k ((j, v) ∷ d) = let rest = remove k d in if e.agree j k then rest else (j, v) ∷ rest

  -- No key stands twice, as in every dict.
  unfoldable pub HasUniqueKeys : Dict K V → Type 0
  HasUniqueKeys [] = Unit
  HasUniqueKeys ((k, v) ∷ d) = (has k d ≡ false) × HasUniqueKeys d

  pub get-put :
      (k j : K) (v : V) (d : Dict K V)
      → get j (put k v d) ≡ (if e.agree k j then some v else get j d)
  unfolding get put
  get-put k j v [] = refl
  get-put k j v ((i, w) ∷ d) =
      ground (arith, get-put k j v d, e.agree_iff i k, e.agree_iff i j, e.agree_iff k j)

  pub get-remove :
      (k j : K) (d : Dict K V) → get j (remove k d) ≡ (if e.agree k j then none else get j d)
  unfolding get remove
  get-remove k j [] = ground arith
  get-remove k j ((i, w) ∷ d) =
      ground (arith, get-remove k j d, e.agree_iff i k, e.agree_iff i j, e.agree_iff k j)

  pub has-put :
      (k j : K) (v : V) (d : Dict K V) → has j (put k v d) ≡ (if e.agree k j then true else has j d)
  unfolding has put
  has-put k j v [] = refl
  has-put k j v ((i, w) ∷ d) =
      ground (arith, has-put k j v d, e.agree_iff i k, e.agree_iff i j, e.agree_iff k j)

  pub has-remove :
      (k j : K) (d : Dict K V) → has j (remove k d) ≡ (if e.agree k j then false else has j d)
  unfolding has remove
  has-remove k j [] = ground arith
  has-remove k j ((i, w) ∷ d) =
      ground (arith, has-remove k j d, e.agree_iff i k, e.agree_iff i j, e.agree_iff k j)

  pub has-get : (k : K) (d : Dict K V) → has k d ≡ false → get k d ≡ none
  unfolding has get
  has-get k [] h = refl
  has-get k ((i, w) ∷ d) h = ground (arith, has-get k d)

  pub get-has : (k : K) (d : Dict K V) → get k d ≡ none → has k d ≡ false
  unfolding has get
  get-has k [] h = refl
  get-has k ((i, w) ∷ d) h = ground (arith, get-has k d)

  pub put-HasUniqueKeys :
      (k : K) (v : V) (d : Dict K V) → HasUniqueKeys d → HasUniqueKeys (put k v d)
  unfolding HasUniqueKeys put has
  put-HasUniqueKeys k v [] h = (refl, tt)
  put-HasUniqueKeys k v ((i, w) ∷ d) (h, u) = elim (Bool-cases (e.agree i k)) [
    | inl same ↦ rw same (ground (arith, e.agree_iff i k), u)
    | inr other ↦ rw other (
      ground (arith, has-put k i v d, e.agree_iff k i, e.agree_iff i k),
      put-HasUniqueKeys k v d u,
    )
  ]

  pub remove-HasUniqueKeys : (k : K) (d : Dict K V) → HasUniqueKeys d → HasUniqueKeys (remove k d)
  unfolding HasUniqueKeys remove
  remove-HasUniqueKeys k [] h = tt
  remove-HasUniqueKeys k ((i, w) ∷ d) (h, u) = elim (Bool-cases (e.agree i k)) [
    | inl same ↦ rw same (remove-HasUniqueKeys k d u)
    | inr other ↦ rw other (ground (arith, has-remove k i d), remove-HasUniqueKeys k d u)
  ]

  pub length-put :
      (k : K) (v : V) (d : Dict K V)
      → length (put k v d) ≡ (if has k d then length d else length d + 1)
  unfolding put has
  length-put k v [] = omega arith
  length-put k v ((i, w) ∷ d) = ground (arith, length-put k v d)

  pub length-remove-le : (k : K) (d : Dict K V) → length (remove k d) ≤ length d
  unfolding remove
  length-remove-le k [] = omega arith
  length-remove-le k ((i, w) ∷ d) = ground (arith, length-remove-le k d)
