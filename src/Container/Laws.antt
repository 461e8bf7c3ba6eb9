-- ===== src/Container/Laws.antt =====
-- Finding and inserting in the sorted lists of list_factory.h.
use motmot.Base.{◌≡◌, refl, Ordering, List, [], ◌∷◌, Option, none, some, All, All-mono, arith}
use motmot.Container.{going, find_fwd, find_rev, scan_rev, insert_fwd, insert_rev, place_rev}
use motmot.Container.Order.{IsOrder, Sorted}

-- What a lookup finds after an insertion that returned `r`.
abbrev pub inserted {ℓ} : {A : Type ℓ} → Ordering → A → Option A → Option A
inserted Ordering.eq r old = some r
inserted Ordering.lt r old = old
inserted Ordering.gt r old = old

-- What an insertion returns: the element that was there, or the new one.
abbrev pub or_new {ℓ} : {A : Type ℓ} → Option A → A → A
or_new none e = e
or_new (some x) e = x

module _ {ℓ κ} {A : Type ℓ} {K : Type κ} {order : K → K → Ordering} (o : IsOrder order)
    (key : A → K) where
  -- The elements that lie above an identifier.
  abbrev Above : K → List A → Type 0
  Above id = All (λ y. order id (key y) ≡ Ordering.lt)

  Above-trans : (x y : K) (l : List A) → order x y ≡ Ordering.lt → Above y l → Above x l
  Above-trans x y l h = All-mono _ _ l (λ z. o.trans x y (key z) h)

  Above-same : (x y : K) (l : List A) → order x y ≡ Ordering.eq → Above y l → Above x l
  Above-same x y l h a = rw (o.same x y h) a

  -- A traversal from the end does not stop among elements above the identifier.
  scan_rev-Above : (id : K) (l : List A) → Above id l → scan_rev order key id l ≡ going
  unfolding scan_rev
  scan_rev-Above id [] a = refl
  scan_rev-Above id (x ∷ l) a = ground (arith, scan_rev-Above id l a.1)

  place_rev-Above : (e : A) (l : List A) → Above (key e) l → place_rev order key e l ≡ none
  unfolding place_rev
  place_rev-Above e [] a = refl
  place_rev-Above e (x ∷ l) a = ground (arith, place_rev-Above e l a.1)

  find_fwd-Above : (id : K) (l : List A) → Above id l → find_fwd order key id l ≡ none
  unfolding find_fwd
  find_fwd-Above id [] a = refl
  find_fwd-Above id (x ∷ l) a = ground arith

  -- For a comparison that is a strict total order, the search from the end of a sorted list finds
  -- what the search from its front does.
  pub find_rev-eq-find_fwd :
      (id : K) (l : List A) → Sorted order key l → find_rev order key id l ≡ find_fwd order key id l
  unfolding find_rev find_fwd
  find_rev-eq-find_fwd id [] s = refl
  find_rev-eq-find_fwd id (x ∷ l) s = ground (
    arith,
    find_rev-eq-find_fwd id l s.1,
    scan_rev-Above id l,
    Above-trans id (key x) l,
    Above-same id (key x) l,
    s.0,
  )

  -- For a comparison that is a strict total order, the insertion from the end of a sorted list gives
  -- the list, and returns the element, that the insertion from its front does.
  pub insert_rev-eq-insert_fwd :
      (e : A) (l : List A)
      → Sorted order key l
      → insert_rev order key e l ≡ insert_fwd order key e l
  unfolding insert_rev insert_fwd
  insert_rev-eq-insert_fwd e [] s = refl
  insert_rev-eq-insert_fwd e (x ∷ l) s = ground (
    arith,
    insert_rev-eq-insert_fwd e l s.1,
    place_rev-Above e l,
    Above-trans (key e) (key x) l,
    Above-same (key e) (key x) l,
    s.0,
  )

  insert_fwd-Above :
      (x : K) (e : A) (l : List A)
      → order x (key e) ≡ Ordering.lt
      → Above x l
      → Above x (insert_fwd order key e l).0
  unfolding insert_fwd
  insert_fwd-Above x e [] h a = (h, tt)
  insert_fwd-Above x e (y ∷ l) h a = ground (arith, insert_fwd-Above x e l h a.1)

  -- For a comparison that is a strict total order, an insertion keeps a sorted list strictly sorted.
  pub insert_fwd-Sorted :
      (e : A) (l : List A) → Sorted order key l → Sorted order key (insert_fwd order key e l).0
  unfolding insert_fwd
  insert_fwd-Sorted e [] s = (tt, tt)
  insert_fwd-Sorted e (x ∷ l) s = ground (
    arith,
    insert_fwd-Sorted e l s.1,
    Above-trans (key e) (key x) l,
    insert_fwd-Above (key x) e l,
    o.flip_gt (key e) (key x),
  )

  -- For a comparison that is a strict total order, a lookup in a sorted list after an insertion finds
  -- the element that the insertion returned, if it is for that element's identifier, and otherwise
  -- what it found before.
  pub find_fwd-insert_fwd :
      (id : K) (e : A) (l : List A)
      → Sorted order key l
      → find_fwd order key id (insert_fwd order key e l).0
        ≡ inserted (order id (key e)) (insert_fwd order key e l).1 (find_fwd order key id l)
  unfolding find_fwd insert_fwd
  find_fwd-insert_fwd id e [] s = ground arith
  find_fwd-insert_fwd id e (x ∷ l) s = ground (
    arith,
    find_fwd-insert_fwd id e l s.1,
    o.same (key e) (key x),
    o.same id (key x),
    o.flip_gt (key e) (key x),
    o.trans id (key e) (key x),
    o.trans id (key x) (key e),
  )

  -- An insertion returns the element that the list holds under its identifier afterwards.
  pub insert_fwd_result :
      (e : A) (l : List A)
      → Sorted order key l
      → (insert_fwd order key e l).1 ≡ or_new (find_fwd order key (key e) l) e
  unfolding find_fwd insert_fwd
  insert_fwd_result e [] s = refl
  insert_fwd_result e (x ∷ l) s = ground (arith, insert_fwd_result e l s.1)
