-- ===== src/Node/Supervisor/Delivery.antt =====
-- What the end of a scan does to the futures: each request gets what was found for its own script.
use coldwatch.Base.{
  ℕ, ◌≡◌, refl, true, false, none, some, List, [], ◌∷◌, ◌++◌, ◌==◌, ==_iff, if◌then◌else◌,
  Bool-cases, Option-cases, inl, inr, arith,
}
use coldwatch.Base.Keys.{ℕ_key, bytes_key}
use coldwatch.Base.Dict.{Dict, get, put, HasUniqueKeys, put-HasUniqueKeys}
use coldwatch.Match.Index.Items.{has_item, IsDistinct, has_item-append}
use coldwatch.Node.Scan.{ScanUtxo}
use coldwatch.Node.Futures.{Future, done, state_of, state_of-put, set_outcome}
use coldwatch.Node.Supervisor.{Request, group, group_all, deliver, deliver_all, found_of}
use coldwatch.Node.Supervisor.Outcomes.{ids}
use coldwatch.Node.Supervisor.Groups.{
  all_ids, script_in, script_of, IsApart, has_item-group, script_in-group, group-IsApart,
}

-- The groups of some requests, behind those of others.
record Groups (live : List Request) (old new : Dict (List ℕ) (List Request)) : Type 0 where
  apart : IsApart new
  members :
      (i : ℕ)
      → has_item i (all_ids new)
        ≡ (if has_item i (ids live) then true else has_item i (all_ids old))
  scripts :
      (i : ℕ)
      → script_in i new ≡ elim (script_of i live) [ none ↦ script_in i old | some spk ↦ some spk ]
  unique : HasUniqueKeys new

pub group-HasUniqueKeys :
    (r : Request) (groups : Dict (List ℕ) (List Request))
    → HasUniqueKeys groups
    → HasUniqueKeys (group r groups)
unfolding group
group-HasUniqueKeys r groups u = elim (Option-cases (get r.spk groups)) [
  | inl absent ↦ rw (group, absent) (put-HasUniqueKeys r.spk (r ∷ []) groups u)
  | inr (requests, here) ↦ rw (group, here) (put-HasUniqueKeys r.spk (requests ++ r ∷ []) groups u)
]

pub script_of-absent :
    (i : ℕ) (live : List Request) → has_item i (ids live) ≡ false → script_of i live ≡ none
unfolding ids has_item script_of
script_of-absent i [] h = refl
script_of-absent i (x ∷ live) h = ground (arith, script_of-absent i live)

pub script_of-there :
    (i : ℕ) (live : List Request)
    → has_item i (ids live) ≡ true
    → (spk : List ℕ) × (script_of i live ≡ some spk)
unfolding ids has_item script_of
script_of-there i [] h = absurd (ground arith)
script_of-there i (x ∷ live) h = elim (Bool-cases (x.future == i)) [
  | inl same ↦ (x.spk, rw same refl)
  | inr other ↦ let (spk, e) = script_of-there i live (ground arith) in (spk, rw other e)
]

Groups-cons :
    (r : Request) (live : List Request) (old new : Dict (List ℕ) (List Request))
    → has_item r.future (all_ids old) ≡ false
    → has_item r.future (ids live) ≡ false
    → Groups live (group r old) new
    → Groups (r ∷ live) old new
unfolding ids has_item script_of
Groups-cons r live old new fresh once g = record {
  apart = g.apart;
  members = λ i. ground (arith, g.members i, has_item-group i r old);
  scripts = λ i. ground (
    arith,
    g.scripts i,
    script_in-group i r old,
    script_of-absent r.future live once,
    ==_iff r.future i,
  );
  unique = g.unique;
}

group_all-Groups :
    (live : List Request) (old : Dict (List ℕ) (List Request))
    → IsDistinct (ids live)
    → ((i : ℕ) → has_item i (ids live) ≡ true → has_item i (all_ids old) ≡ false)
    → IsApart old
    → HasUniqueKeys old
    → Groups live old (group_all live old)
unfolding group_all ids IsDistinct has_item script_of
group_all-Groups [] old d fresh apart unique = record {
  apart = apart;
  members = λ i. refl;
  scripts = λ i. refl;
  unique = unique;
}
group_all-Groups (r ∷ live) old (once, d) fresh apart unique =
    let new = fresh r.future (ground arith) in
    Groups-cons r live old (group_all live (group r old)) new once (
      group_all-Groups live (group r old) d
        (λ i here. ground (arith, has_item-group i r old, fresh i, ==_iff r.future i))
        (group-IsApart r old new apart) (group-HasUniqueKeys r old unique))

pub deliver_lem :
    (outcome : List ScanUtxo) (requests : List Request) (futures : Dict ℕ Future)
    → IsDistinct (ids requests)
    → ((i : ℕ) → has_item i (ids requests) ≡ true → done (state_of i futures) ≡ false)
    → (left : Dict ℕ Future) × (deliver outcome requests futures ≡ some left)
      × ((i : ℕ)
          → state_of i left
            ≡ (if has_item i (ids requests) then Future.result outcome else state_of i futures))
unfolding deliver set_outcome ids IsDistinct has_item
deliver_lem outcome [] futures d awaited = (futures, refl, λ i. refl)
deliver_lem outcome (r ∷ requests) futures (once, d) awaited =
    let here = put r.future (Future.result outcome) futures in
    let (left, e, states) = deliver_lem outcome requests here d (λ i in_rest. ground (
      arith,
      awaited i,
      state_of-put r.future i (Future.result outcome) futures,
      ==_iff r.future i,
    )) in
    (
      left,
      ground (arith, awaited r.future),
      λ i. ground (
        arith,
        states i,
        state_of-put r.future i (Future.result outcome) futures,
        ==_iff r.future i,
      ),
    )

script_in-absent :
    (i : ℕ) (groups : Dict (List ℕ) (List Request))
    → has_item i (all_ids groups) ≡ false
    → script_in i groups ≡ none
unfolding script_in all_ids
script_in-absent i [] h = refl
script_in-absent i ((spk, requests) ∷ groups) h =
    ground (arith, script_in-absent i groups, has_item-append i (ids requests) (all_ids groups))

deliver_all_lem :
    (found : Dict (List ℕ) (List ScanUtxo)) (groups : Dict (List ℕ) (List Request))
    (futures : Dict ℕ Future)
    → IsApart groups
    → ((i : ℕ) → has_item i (all_ids groups) ≡ true → done (state_of i futures) ≡ false)
    → (left : Dict ℕ Future) × (deliver_all found groups futures ≡ some left)
      × ((i : ℕ)
          → state_of i left ≡ elim (script_in i groups) [
            | none ↦ state_of i futures
            | some spk ↦ Future.result (found_of spk found)
          ])
unfolding deliver_all IsApart all_ids script_in
deliver_all_lem found [] futures apart awaited = (futures, refl, λ i. refl)
deliver_all_lem found ((spk, requests) ∷ groups) futures (distinct, other, rest) awaited =
    let (here, e, states) =
      deliver_lem (found_of spk found) requests futures distinct (λ i in_first.
        awaited i (ground (arith, has_item-append i (ids requests) (all_ids groups)))) in
    let (left, e', states') = deliver_all_lem found groups here rest (λ i in_rest.
      ground
        (arith, states i, other i, awaited i, has_item-append i (ids requests) (all_ids groups))) in
    (
      left,
      ground arith,
      λ i. elim (Bool-cases (has_item i (ids requests))) [
        | inl first ↦ ground (arith, states i, states' i, script_in-absent i groups (other i first))
        | inr later ↦ ground (arith, states i, states' i)
      ],
    )

-- `set_result` is never refused, and each request of a scan gets what was found for its script.
pub deliver_live :
    (found : Dict (List ℕ) (List ScanUtxo)) (live : List Request) (futures : Dict ℕ Future)
    → IsDistinct (ids live)
    → ((i : ℕ) → has_item i (ids live) ≡ true → done (state_of i futures) ≡ false)
    → (left : Dict ℕ Future) × (deliver_all found (group_all live []) futures ≡ some left)
      × ((i : ℕ)
          → state_of i left ≡ elim (script_of i live) [
            | none ↦ state_of i futures
            | some spk ↦ Future.result (found_of spk found)
          ])
unfolding has_item all_ids script_in IsApart HasUniqueKeys
deliver_live found live futures d awaited =
    let g = group_all-Groups live [] d (λ i here. refl) tt tt in
    let (left, e, states) =
      deliver_all_lem found (group_all live []) futures g.apart
        (λ i here. ground (arith, awaited i, g.members i)) in
    (left, e, λ i. ground (arith, states i, g.scripts i))
