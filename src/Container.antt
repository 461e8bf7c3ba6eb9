-- ===== src/Container.antt =====
-- libmotmot/src/containers/list_factory.h: lists kept sorted by an identifier. A container is the
-- list of its elements from `lh_first` to `lh_last`; the factory's parameters `id_field` and
-- `compare` are the section's `key` and `order`.
use motmot.Base.{Ordering, List, [], ◌∷◌, Option, none, some}
pub mod Order
pub mod Laws

-- How a traversal stands: an element was found, the loop broke off, or it goes on.
pub data Scan {ℓ} (A : Type ℓ) : Type ℓ where
  found : A → Scan A
  broke : Scan A
  going : Scan A

abbrev pub scan_result {ℓ} : {A : Type ℓ} → Scan A → Option A
scan_result (found a) = some a
scan_result broke = none
scan_result going = none

module _ {ℓ κ} {A : Type ℓ} {K : Type κ} (order : K → K → Ordering) (key : A → K) where
  -- `_FWD`: stop once the identifier is below the element's.
  unfoldable pub find_fwd : K → List A → Option A
  find_fwd id [] = none
  find_fwd id (it ∷ l) =
      let rest = find_fwd id l in
      elim (order id (key it)) [ Ordering.eq ↦ some it | Ordering.lt ↦ none | Ordering.gt ↦ rest ]

  -- The test of one element of `_REV`: stop once the identifier is above the element's.
  abbrev visit_rev : K → A → Scan A → Scan A
  visit_rev id it (found a) = found a
  visit_rev id it broke = broke
  visit_rev id it going = elim (order id (key it)) [
    | Ordering.eq ↦ found it
    | Ordering.gt ↦ broke
    | Ordering.lt ↦ going
  ]

  -- `_REV`: the tail is visited before the head.
  unfoldable pub scan_rev : K → List A → Scan A
  scan_rev id [] = going
  scan_rev id (it ∷ l) = visit_rev id it (scan_rev id l)

  unfoldable pub find_rev : K → List A → Option A
  unfolding scan_rev
  find_rev id l = scan_result (scan_rev id l)

  -- `_FWD`: the list afterwards, and the element that the function returns.
  unfoldable pub insert_fwd : A → List A → List A × A
  insert_fwd elt [] = (elt ∷ [], elt)
  insert_fwd elt (it ∷ l) =
      let rest = insert_fwd elt l in
      elim (order (key elt) (key it)) [
        | Ordering.eq ↦ (it ∷ l, it)
        | Ordering.lt ↦ (elt ∷ it ∷ l, elt)
        | Ordering.gt ↦ (it ∷ rest.0, rest.1)
      ]

  -- One element of the `_REV` insertion, given what happened in the tail.
  abbrev place_at : A → A → List A → Option (List A × A) → Option (List A × A)
  place_at elt it l (some (l', r)) = some (it ∷ l', r)
  place_at elt it l none = elim (order (key elt) (key it)) [
    | Ordering.eq ↦ some (it ∷ l, it)
    | Ordering.gt ↦ some (it ∷ elt ∷ l, elt)
    | Ordering.lt ↦ none
  ]

  unfoldable pub place_rev : A → List A → Option (List A × A)
  place_rev elt [] = none
  place_rev elt (it ∷ l) = place_at elt it l (place_rev elt l)

  abbrev at_head : A → List A → Option (List A × A) → List A × A
  at_head elt l none = (elt ∷ l, elt)
  at_head elt l (some r) = r

  -- `_REV`: `LIST_INSERT_HEAD` after a traversal that placed nothing.
  unfoldable pub insert_rev : A → List A → List A × A
  unfolding place_rev
  insert_rev elt l = at_head elt l (place_rev elt l)
