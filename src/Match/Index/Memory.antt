-- ===== src/Match/Index/Memory.antt =====
-- match/matcher.py: `InMemoryWatchIndex`.
use coldwatch.Base.{
  ℕ, ◌+◌, ◌≡◌, refl, true, false, none, some, List, [], ◌∷◌, ◌++◌, ◌&&◌, ◌==◌, if◌then◌else◌, arith,
  length, Bool-cases, inl, inr,
}
use coldwatch.Base.Keys.{bytes_key, bytes_beq, bytes_beq_iff}
use coldwatch.Base.Dict.{Dict, get, put, remove, get-put, get-remove}
use coldwatch.Match.Index.Contract.{WatchIndex, IsWatchIndex}
use coldwatch.Match.Index.Items.{
  has_item, add_item, remove_item, is_empty, IsDistinct, has_item-add_item, has_item-remove_item,
  add_item-IsDistinct, remove_item-IsDistinct, has_item-is_empty,
}

pub record InMemoryWatchIndex : Type 0 where
  pub by_spk : Dict (List ℕ) (List ℕ)
  pub by_outpoint : Dict (List ℕ) (List ℕ)

-- `d.get(key, ())`.
unfoldable pub items_at : List ℕ → Dict (List ℕ) (List ℕ) → List ℕ
items_at key d = elim (get key d) [ none ↦ [] | some l ↦ l ]

-- `InMemoryWatchIndex(watched)`.
unfoldable pub watch_all : List (ℕ × List ℕ) → Dict (List ℕ) (List ℕ) → Dict (List ℕ) (List ℕ)
watch_all [] d = d
watch_all ((i, spk) ∷ rest) d = watch_all rest (put spk (items_at spk d ++ i ∷ []) d)

unfoldable pub in_memory : List (ℕ × List ℕ) → InMemoryWatchIndex
unfolding watch_all
in_memory watched = record { by_spk = watch_all watched []; by_outpoint = [] }

unfoldable pub items_watching_spk : List ℕ → InMemoryWatchIndex → List ℕ
items_watching_spk spk s = items_at spk s.by_spk

unfoldable pub items_owning_outpoint : List ℕ → InMemoryWatchIndex → List ℕ
items_owning_outpoint op s = items_at op s.by_outpoint

unfoldable pub add_outpoint : ℕ → List ℕ → InMemoryWatchIndex → InMemoryWatchIndex
add_outpoint i op s = record s {
  by_outpoint = put op (add_item i (items_at op s.by_outpoint)) s.by_outpoint;
}

unfoldable pub drop_outpoint : ℕ → List ℕ → InMemoryWatchIndex → InMemoryWatchIndex
drop_outpoint i op s =
    let owners = items_at op s.by_outpoint in
    let left = remove_item i owners in
    if has_item i owners
    then (if is_empty left
        then record s { by_outpoint = remove op s.by_outpoint }
        else record s { by_outpoint = put op left s.by_outpoint })
    else s

count_all : Dict (List ℕ) (List ℕ) → ℕ
count_all [] = 0
count_all ((op, owners) ∷ rest) = length owners + count_all rest

unfoldable pub outpoint_count : InMemoryWatchIndex → ℕ
unfolding count_all
outpoint_count s = count_all s.by_outpoint

-- No coin has an owner twice.
pub record IsSound (s : InMemoryWatchIndex) : Type 0 where
  pub distinct : (op : List ℕ) → IsDistinct (items_at op s.by_outpoint)

items_at-put :
    (k j : List ℕ) (l : List ℕ) (d : Dict (List ℕ) (List ℕ))
    → items_at j (put k l d) ≡ (if bytes_beq k j then l else items_at j d)
unfolding items_at
items_at-put k j l d = ground (arith, get-put k j l d)

pub items_at-remove :
    (k j : List ℕ) (d : Dict (List ℕ) (List ℕ))
    → items_at j (remove k d) ≡ (if bytes_beq k j then [] else items_at j d)
unfolding items_at
items_at-remove k j d = ground (arith, get-remove k j d)

pub owning-add :
    (i j : ℕ) (h k : List ℕ) (s : InMemoryWatchIndex)
    → has_item j (items_owning_outpoint k (add_outpoint i h s))
      ≡ (if i == j && (bytes_beq h k && true) then true else has_item j (items_owning_outpoint k s))
unfolding items_owning_outpoint add_outpoint
owning-add i j h k s = ground (
  arith,
  items_at-put h k (add_item i (items_at h s.by_outpoint)) s.by_outpoint,
  has_item-add_item i j (items_at h s.by_outpoint),
  bytes_beq_iff h k,
)

pub owning-drop :
    (i j : ℕ) (h k : List ℕ) (s : InMemoryWatchIndex)
    → IsSound s
    → has_item j (items_owning_outpoint k (drop_outpoint i h s))
      ≡ (if i == j && bytes_beq h k then false else has_item j (items_owning_outpoint k s))
unfolding items_owning_outpoint drop_outpoint has_item
owning-drop i j h k s w = ground (
  arith,
  items_at-put h k (remove_item i (items_at h s.by_outpoint)) s.by_outpoint,
  items_at-remove h k s.by_outpoint,
  has_item-remove_item i j (items_at h s.by_outpoint) (w.distinct h),
  has_item-is_empty j (remove_item i (items_at h s.by_outpoint)),
  bytes_beq_iff h k,
)

pub add-IsSound :
    (i : ℕ) (h : List ℕ) (s : InMemoryWatchIndex) → IsSound s → IsSound (add_outpoint i h s)
unfolding add_outpoint
add-IsSound i h s w = record {
  distinct = λ op. rw items_at-put (elim (Bool-cases (bytes_beq h op)) [
    | inl same ↦ rw same (add_item-IsDistinct i (items_at h s.by_outpoint) (w.distinct h))
    | inr other ↦ rw other (w.distinct op)
  ]);
}

put-IsSound :
    (h l : List ℕ) (s : InMemoryWatchIndex)
    → IsDistinct l
    → IsSound s
    → IsSound (record s { by_outpoint = put h l s.by_outpoint })
put-IsSound h l s d w = record {
  distinct = λ op. rw items_at-put (elim (Bool-cases (bytes_beq h op)) [
    | inl same ↦ rw same d
    | inr other ↦ rw other (w.distinct op)
  ]);
}

remove-IsSound :
    (h : List ℕ) (s : InMemoryWatchIndex)
    → IsSound s
    → IsSound (record s { by_outpoint = remove h s.by_outpoint })
unfolding IsDistinct
remove-IsSound h s w = record {
  distinct = λ op. rw items_at-remove (elim (Bool-cases (bytes_beq h op)) [
    | inl same ↦ rw same tt
    | inr other ↦ rw other (w.distinct op)
  ]);
}

drop-IsSound :
    (i : ℕ) (h : List ℕ) (s : InMemoryWatchIndex) → IsSound s → IsSound (drop_outpoint i h s)
unfolding drop_outpoint
drop-IsSound i h s w =
    let owners = items_at h s.by_outpoint in
    elim (Bool-cases (has_item i owners)) [
      | inr absent ↦ rw absent w
      | inl there ↦ elim (Bool-cases (is_empty (remove_item i owners))) [
        | inl last ↦ rw (there, last) (remove-IsSound h s w)
        | inr more ↦
            rw (there, more)
              (put-IsSound h (remove_item i owners) s
                (remove_item-IsDistinct i owners (w.distinct h)) w)
      ]
    ]

watching-drop :
    (i : ℕ) (h k : List ℕ) (s : InMemoryWatchIndex)
    → items_watching_spk k (drop_outpoint i h s) ≡ items_watching_spk k s
unfolding items_watching_spk drop_outpoint
watching-drop i h k s = ground arith

abbrev pub memory_index : WatchIndex InMemoryWatchIndex
memory_index = record {
  items_watching_spk = items_watching_spk;
  items_owning_outpoint = items_owning_outpoint;
  add_outpoint = add_outpoint;
  drop_outpoint = drop_outpoint;
}

abbrev memory_laws : IsWatchIndex memory_index
memory_laws = record {
  IsSound = IsSound;
  tracks = λ i s. true;
  add-IsSound = add-IsSound;
  drop-IsSound = drop-IsSound;
  owning-add = λ i j h k s _. owning-add i j h k s;
  owning-drop = owning-drop;
  watching-add = λ i h k s. unfold items_watching_spk add_outpoint in refl;
  watching-drop = watching-drop;
  tracks-add = λ i j h s. refl;
  tracks-drop = λ i j h s. refl;
  watching_tracked = λ i k s _ h. refl;
}

in_memory-IsSound : (watched : List (ℕ × List ℕ)) → IsSound (in_memory watched)
unfolding in_memory items_at get IsDistinct
in_memory-IsSound watched = record { distinct = λ op. tt }

-- `InMemoryWatchIndex` keeps the contract of `WatchIndex`, a new one is in order, and it tracks every
-- item.
pub memory_index-IsWatchIndex :
    (laws : IsWatchIndex memory_index) × ((watched : List (ℕ × List ℕ))
      → laws.IsSound (in_memory watched))
    × ((i : ℕ) (s : InMemoryWatchIndex) → laws.tracks i s ≡ true)
memory_index-IsWatchIndex = (memory_laws, in_memory-IsSound, λ i s. refl)
