-- ===== src/Match/Index/Items.antt =====
-- Lists of item ids: Python's `in`, `append` if not in, and `remove`.
use coldwatch.Base.{
  ℕ, ◌≡◌, refl, Bool, true, false, List, [], ◌∷◌, ◌++◌, ◌==◌, if◌then◌else◌, arith, ==_iff,
  Bool-cases, inl, inr,
}

unfoldable pub has_item : ℕ → List ℕ → Bool
has_item i [] = false
has_item i (j ∷ l) = if j == i then true else has_item i l

-- `if item_id not in owners: owners.append(item_id)`.
unfoldable pub add_item : ℕ → List ℕ → List ℕ
add_item i l = if has_item i l then l else l ++ i ∷ []

-- `owners.remove(item_id)`: the first occurrence.
unfoldable pub remove_item : ℕ → List ℕ → List ℕ
remove_item i [] = []
remove_item i (j ∷ l) = if j == i then l else j ∷ remove_item i l

-- `for item_id in new: if item_id not in acc: acc.append(item_id)`.
unfoldable pub add_items : List ℕ → List ℕ → List ℕ
add_items [] acc = acc
add_items (i ∷ new) acc = add_items new (add_item i acc)

-- No item stands twice.
unfoldable pub IsDistinct : List ℕ → Type 0
IsDistinct [] = Unit
IsDistinct (i ∷ l) = (has_item i l ≡ false) × IsDistinct l

pub has_item-append :
    (i : ℕ) (l m : List ℕ) → has_item i (l ++ m) ≡ (if has_item i l then true else has_item i m)
unfolding has_item
has_item-append i [] m = refl
has_item-append i (j ∷ l) m = ground (arith, has_item-append i l m)

pub has_item-add_item :
    (i j : ℕ) (l : List ℕ) → has_item j (add_item i l) ≡ (if i == j then true else has_item j l)
unfolding add_item has_item
has_item-add_item i j l = ground (arith, has_item-append j l (i ∷ []), ==_iff i j)

pub has_item-add_items :
    (i : ℕ) (new acc : List ℕ)
    → has_item i (add_items new acc) ≡ (if has_item i new then true else has_item i acc)
unfolding add_items has_item
has_item-add_items i [] acc = refl
has_item-add_items i (j ∷ new) acc =
    ground (arith, has_item-add_items i new (add_item j acc), has_item-add_item j i acc)

pub has_item-remove_item :
    (i j : ℕ) (l : List ℕ)
    → IsDistinct l
    → has_item j (remove_item i l) ≡ (if i == j then false else has_item j l)
unfolding remove_item has_item IsDistinct
has_item-remove_item i j [] h = ground arith
has_item-remove_item i j (x ∷ l) (h, d) = ground (arith, has_item-remove_item i j l d)

pub append-IsDistinct :
    (l : List ℕ) (i : ℕ) → IsDistinct l → has_item i l ≡ false → IsDistinct (l ++ i ∷ [])
unfolding IsDistinct has_item
append-IsDistinct [] i h n = (refl, tt)
append-IsDistinct (x ∷ l) i (h, d) n =
    (ground (arith, has_item-append x l (i ∷ [])), append-IsDistinct l i d (ground arith))

pub add_item-IsDistinct : (i : ℕ) (l : List ℕ) → IsDistinct l → IsDistinct (add_item i l)
unfolding add_item
add_item-IsDistinct i l d = elim (Bool-cases (has_item i l)) [
  | inl there ↦ rw there d
  | inr new ↦ rw new (append-IsDistinct l i d new)
]

pub add_items-IsDistinct : (new acc : List ℕ) → IsDistinct acc → IsDistinct (add_items new acc)
unfolding add_items
add_items-IsDistinct [] acc d = d
add_items-IsDistinct (i ∷ new) acc d =
    add_items-IsDistinct new (add_item i acc) (add_item-IsDistinct i acc d)

pub remove_item-IsDistinct : (i : ℕ) (l : List ℕ) → IsDistinct l → IsDistinct (remove_item i l)
unfolding remove_item IsDistinct
remove_item-IsDistinct i [] d = tt
remove_item-IsDistinct i (x ∷ l) (h, d) = elim (Bool-cases (x == i)) [
  | inl same ↦ rw same d
  | inr other ↦ rw other (
    ground (arith, has_item-remove_item i x l d, ==_iff i x, ==_iff x i),
    remove_item-IsDistinct i l d,
  )
]

-- `not owners`.
unfoldable pub is_empty : List ℕ → Bool
is_empty [] = true
is_empty (i ∷ l) = false

pub has_item-is_empty : (i : ℕ) (l : List ℕ) → is_empty l ≡ true → has_item i l ≡ false
unfolding is_empty has_item
has_item-is_empty i [] h = refl
has_item-is_empty i (x ∷ l) h = cc
