-- ===== src/SessionLocal/Tables.antt =====
-- The containers of a session as sorted tables: what the pointer operations and the searches of
-- session_local.c find in them.
use motmot.Base.{
  ℕ, ◌≡◌, ◌≢◌, ◌<◌, refl, sym, ◌∙◌, Ordering, List, [], ◌∷◌, none, some, All, arith, ◌==◌, inl, inr,
  Option-cases, Bool-cases, eq-of-==,
}
use motmot.Primitives.{paxid_compare}
use motmot.Container.{find_fwd, find_rev, insert_fwd, insert_rev}
use motmot.Container.Order.{
  Sorted, paxid_compare-IsOrder, lt-paxid_compare, eq-paxid_compare, gt-paxid_compare,
}
use motmot.Container.Laws.{
  find_rev-eq-find_fwd, insert_rev-eq-insert_fwd, insert_fwd-Sorted, find_fwd-insert_fwd,
  insert_fwd_result,
}
use motmot.SessionLocal.{get_at, set_at, remove_at}

module _ {A : Type 0} (key : A → ℕ) where
  abbrev pub Increasing : List A → Type 0
  Increasing = Sorted paxid_compare key

  abbrev pub Over : ℕ → List A → Type 0
  Over n = All (λ y. paxid_compare n (key y) ≡ Ordering.lt)

  pub get_at_key : (n : ℕ) (l : List A) (x : A) → get_at key n l ≡ some x → key x ≡ n
  unfolding get_at
  get_at_key n [] x h = cc
  get_at_key n (y ∷ l) x h = ground (arith, get_at_key n l x)

  pub get_at-Over : (n m : ℕ) (l : List A) (x : A) → Over n l → get_at key m l ≡ some x → n < m
  unfolding get_at
  get_at-Over n m [] x o h = cc
  get_at-Over n m (y ∷ l) x o h =
      ground (arith, get_at-Over n m l x o.1, lt-paxid_compare n (key y) o.0)

  -- On a sorted list a pointer and a search by its number lead to one element.
  pub find_fwd-eq-get_at :
      (n : ℕ) (l : List A) → Increasing l → find_fwd paxid_compare key n l ≡ get_at key n l
  unfolding find_fwd get_at
  find_fwd-eq-get_at n [] s = refl
  find_fwd-eq-get_at n (x ∷ l) s = elim (Option-cases (get_at key n l)) [
    | inl e ↦ ground (
      arith,
      find_fwd-eq-get_at n l s.1,
      eq-paxid_compare n (key x),
      lt-paxid_compare n (key x),
      gt-paxid_compare n (key x),
    )
    | inr (y, e) ↦ ground (
      arith,
      find_fwd-eq-get_at n l s.1,
      get_at-Over (key x) n l y s.0 e,
      eq-paxid_compare n (key x),
      lt-paxid_compare n (key x),
      gt-paxid_compare n (key x),
    )
  ]

  pub find_rev-eq-get_at :
      (n : ℕ) (l : List A) → Increasing l → find_rev paxid_compare key n l ≡ get_at key n l
  find_rev-eq-get_at n l s =
      find_rev-eq-find_fwd paxid_compare-IsOrder key n l s ∙ find_fwd-eq-get_at n l s

  pub get_at-set_at_ne :
      (n m : ℕ) (f : A → A) (l : List A)
      → n ≢ m
      → ((x : A) → key x ≡ n → key (f x) ≡ n)
      → get_at key m (set_at key n f l) ≡ get_at key m l
  unfolding get_at set_at
  get_at-set_at_ne n m f [] h k = refl
  get_at-set_at_ne n m f (x ∷ l) h k = ground (arith, get_at-set_at_ne n m f l h k, k x)

  pub get_at-set_at_self :
      (n : ℕ) (f : A → A) (l : List A) (x : A)
      → ((x : A) → key x ≡ n → key (f x) ≡ n)
      → get_at key n l ≡ some x
      → get_at key n (set_at key n f l) ≡ some (f x)
  unfolding get_at set_at
  get_at-set_at_self n f [] x k h = cc
  get_at-set_at_self n f (y ∷ l) x k h = ground (arith, get_at-set_at_self n f l x k, k y)

  set_at-Over :
      (m n : ℕ) (f : A → A) (l : List A)
      → ((x : A) → key x ≡ n → key (f x) ≡ n)
      → Over m l
      → Over m (set_at key n f l)
  unfolding set_at
  set_at-Over m n f [] k o = tt
  set_at-Over m n f (x ∷ l) k o = ground (arith, set_at-Over m n f l k o.1, k x)

  -- A write that leaves the identifier alone keeps the order.
  pub set_at-Increasing :
      (n : ℕ) (f : A → A) (l : List A)
      → ((x : A) → key x ≡ n → key (f x) ≡ n)
      → Increasing l
      → Increasing (set_at key n f l)
  unfolding set_at
  set_at-Increasing n f [] k s = tt
  set_at-Increasing n f (x ∷ l) k s = elim (Bool-cases (key x == n)) [
    | inl e ↦
        rw (e, set_at) (rw (k x (eq-of-== (key x) n e) ∙ sym (eq-of-== (key x) n e)) (s.0), s.1)
    | inr e ↦ rw (e, set_at) (set_at-Over (key x) n f l k s.0, set_at-Increasing n f l k s.1)
  ]

  remove_at-Over : (m n : ℕ) (l : List A) → Over m l → Over m (remove_at key n l)
  unfolding remove_at
  remove_at-Over m n [] o = tt
  remove_at-Over m n (x ∷ l) o = ground (arith, remove_at-Over m n l o.1)

  pub remove_at-Increasing : (n : ℕ) (l : List A) → Increasing l → Increasing (remove_at key n l)
  unfolding remove_at
  remove_at-Increasing n [] s = tt
  remove_at-Increasing n (x ∷ l) s =
      ground (arith, remove_at-Increasing n l s.1, remove_at-Over (key x) n l s.0)

  pub insert_rev-Increasing :
      (e : A) (l : List A) → Increasing l → Increasing (insert_rev paxid_compare key e l).0
  insert_rev-Increasing e l s =
      rw (insert_rev-eq-insert_fwd paxid_compare-IsOrder key e l s)
        (insert_fwd-Sorted paxid_compare-IsOrder key e l s)

  -- An insertion leaves what is there.
  pub get_at-insert_rev :
      (e : A) (l : List A) (m : ℕ) (x : A)
      → Increasing l
      → get_at key m l ≡ some x
      → get_at key m (insert_rev paxid_compare key e l).0 ≡ some x
  get_at-insert_rev e l m x s h =
      let o = paxid_compare-IsOrder in
      rw (insert_rev-eq-insert_fwd o key e l s) (
        ground (
          arith,
          find_fwd-eq-get_at m (insert_fwd paxid_compare key e l).0 (insert_fwd-Sorted o key e l s),
          find_fwd-insert_fwd o key m e l s,
          insert_fwd_result o key e l s,
          find_fwd-eq-get_at m l s,
          eq-paxid_compare m (key e),
        ))

  -- What is inserted under a new number is found there.
  pub get_at-insert_rev_new :
      (e : A) (l : List A)
      → Increasing l
      → get_at key (key e) l ≡ none
      → get_at key (key e) (insert_rev paxid_compare key e l).0 ≡ some e
  get_at-insert_rev_new e l s h =
      let o = paxid_compare-IsOrder in
      rw (insert_rev-eq-insert_fwd o key e l s) (
        ground (
          arith,
          find_fwd-eq-get_at (key e) (insert_fwd paxid_compare key e l).0
              (insert_fwd-Sorted o key e l s),
          find_fwd-insert_fwd o key (key e) e l s,
          insert_fwd_result o key e l s,
          find_fwd-eq-get_at (key e) l s,
          o.self (key e),
        ))

  -- An insertion changes no lookup of another number.
  pub get_at-insert_rev_ne :
      (e : A) (l : List A) (m : ℕ)
      → Increasing l
      → (key e ≡ m → ⊥)
      → get_at key m (insert_rev paxid_compare key e l).0 ≡ get_at key m l
  get_at-insert_rev_ne e l m s h =
      let o = paxid_compare-IsOrder in
      rw (insert_rev-eq-insert_fwd o key e l s) (
        ground (
          arith,
          find_fwd-eq-get_at m (insert_fwd paxid_compare key e l).0 (insert_fwd-Sorted o key e l s),
          find_fwd-insert_fwd o key m e l s,
          insert_fwd_result o key e l s,
          find_fwd-eq-get_at m l s,
          eq-paxid_compare m (key e),
        ))
