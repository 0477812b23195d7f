-- ===== src/Node/Supervisor/Groups.antt =====
-- The requests of a scan by their scripts, and the delivery of the outcomes to their futures.
use coldwatch.Base.{
  ℕ, ◌≡◌, refl, true, false, Option, none, some, List, [], ◌∷◌, ◌++◌, ◌==◌, ==_iff, if◌then◌else◌,
  Bool-cases, inl, inr, arith,
}
use coldwatch.Base.Keys.{ℕ_key, bytes_key, bytes_beq, bytes_beq_iff}
use coldwatch.Base.Dict.{Dict, get, put}
use coldwatch.Match.Index.Items.{has_item, IsDistinct, has_item-append, append-IsDistinct}
use coldwatch.Node.Supervisor.{Request, group}
use coldwatch.Node.Supervisor.Outcomes.{ids, ids-append}

unfoldable pub all_ids : Dict (List ℕ) (List Request) → List ℕ
all_ids [] = []
all_ids ((spk, requests) ∷ groups) = ids requests ++ all_ids groups

-- The script whose group holds the future.
unfoldable pub script_in : ℕ → Dict (List ℕ) (List Request) → Option (List ℕ)
script_in i [] = none
script_in i ((spk, requests) ∷ groups) =
    if has_item i (ids requests) then some spk else script_in i groups

-- No future stands twice, in one group or in two.
unfoldable pub IsApart : Dict (List ℕ) (List Request) → Type 0
IsApart [] = Unit
IsApart ((spk, requests) ∷ groups) =
    IsDistinct (ids requests)
    × ((i : ℕ) → has_item i (ids requests) ≡ true → has_item i (all_ids groups) ≡ false)
    × IsApart groups

-- The script of the first request with the future.
unfoldable pub script_of : ℕ → List Request → Option (List ℕ)
script_of i [] = none
script_of i (request ∷ requests) =
    if request.future == i then some request.spk else script_of i requests

group-nil : (r : Request) → group r [] ≡ (r.spk, r ∷ []) ∷ []
unfolding group get put
group-nil r = refl

group-cons :
    (r : Request) (spk : List ℕ) (requests : List Request) (groups : Dict (List ℕ) (List Request))
    → group r ((spk, requests) ∷ groups) ≡ (
        if bytes_beq spk r.spk
        then (r.spk, requests ++ r ∷ []) ∷ groups
        else (spk, requests) ∷ group r groups)
unfolding group get put
group-cons r spk requests groups = ground arith

has_item-ids-append :
    (i : ℕ) (requests : List Request) (r : Request)
    → has_item i (ids (requests ++ r ∷ []))
      ≡ (if has_item i (ids requests) then true else r.future == i)
unfolding ids has_item
has_item-ids-append i [] r = ground arith
has_item-ids-append i (x ∷ requests) r = ground (arith, has_item-ids-append i requests r)

ids_append-IsDistinct :
    (r : Request) (requests : List Request)
    → IsDistinct (ids requests)
    → has_item r.future (ids requests) ≡ false
    → IsDistinct (ids (requests ++ r ∷ []))
unfolding ids
ids_append-IsDistinct r requests d new =
    rw (ids-append requests (r ∷ [])) (append-IsDistinct (ids requests) r.future d new)

pub has_item-group :
    (i : ℕ) (r : Request) (groups : Dict (List ℕ) (List Request))
    → has_item i (all_ids (group r groups))
      ≡ (if r.future == i then true else has_item i (all_ids groups))
unfolding all_ids ids has_item
has_item-group i r [] = rw (group-nil r) refl
has_item-group i r ((spk, requests) ∷ groups) =
    rw (group-cons r spk requests groups) (elim (Bool-cases (bytes_beq spk r.spk)) [
      | inl same ↦ rw same (
          ground (
            arith,
            has_item-ids-append i requests r,
            has_item-append i (ids requests) (all_ids groups),
            has_item-append i (ids (requests ++ r ∷ [])) (all_ids groups),
          ))
      | inr other ↦ rw other (
          ground (
            arith,
            has_item-group i r groups,
            has_item-append i (ids requests) (all_ids groups),
            has_item-append i (ids requests) (all_ids (group r groups)),
          ))
    ])

pub script_in-group :
    (i : ℕ) (r : Request) (groups : Dict (List ℕ) (List Request))
    → has_item r.future (all_ids groups) ≡ false
    → script_in i (group r groups) ≡ (if r.future == i then some r.spk else script_in i groups)
unfolding script_in all_ids ids has_item
script_in-group i r [] new = rw (group-nil r) (ground arith)
script_in-group i r ((spk, requests) ∷ groups) new =
    rw (group-cons r spk requests groups) (elim (Bool-cases (bytes_beq spk r.spk)) [
      | inl same ↦ rw same (
          ground (
            arith,
            has_item-ids-append i requests r,
            has_item-append r.future (ids requests) (all_ids groups),
            (bytes_beq_iff spk r.spk).0 same,
            ==_iff r.future i,
          ))
      | inr other ↦ rw other (
          ground (
            arith,
            script_in-group i r groups,
            has_item-append r.future (ids requests) (all_ids groups),
            ==_iff r.future i,
          ))
    ])

pub group-IsApart :
    (r : Request) (groups : Dict (List ℕ) (List Request))
    → has_item r.future (all_ids groups) ≡ false
    → IsApart groups
    → IsApart (group r groups)
unfolding IsApart all_ids
group-IsApart r [] new apart =
    rw (group-nil r) (unfold ids IsDistinct has_item in ((refl, tt), λ i here. refl, tt))
group-IsApart r ((spk, requests) ∷ groups) new (distinct, other, rest) =
    rw (group-cons r spk requests groups) (elim (Bool-cases (bytes_beq spk r.spk)) [
      | inl same ↦ rw same (
        ids_append-IsDistinct r requests distinct
            (ground (arith, has_item-append r.future (ids requests) (all_ids groups))),
        λ i here. ground (
          arith,
          other i,
          has_item-ids-append i requests r,
          has_item-append r.future (ids requests) (all_ids groups),
          ==_iff r.future i,
        ),
        rest,
      )
      | inr different ↦ rw different (
        distinct,
        λ i here. ground (
          arith,
          other i,
          has_item-group i r groups,
          has_item-append r.future (ids requests) (all_ids groups),
          ==_iff r.future i,
        ),
        group-IsApart r groups
            (ground (arith, has_item-append r.future (ids requests) (all_ids groups))) rest,
      )
    ])
