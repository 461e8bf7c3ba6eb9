-- ===== src/Rpc/Responses.antt =====
-- Responses of a motmot server, as turquoise/rpc.c handles them.
use motmot.Base.{
  Option-cases, eq-of-==, sym, ◌∙◌, ℕ, ◌≡◌, ◌≢◌, inl, inr, refl, Bool, true, false, Option, none,
  some, arith, ◌==◌, if◌then◌else◌,
}
use motmot.SessionLocal.{get_at}
use motmot.Msgpack.{
  as_uint, as_raw, pos, negsuc, Obj, Objs, nil, cons, positive_integer, negative_integer, raw,
  boolean, other_type, array, size,
}
use motmot.Codec.{◌>>=◌}
use motmot.Rpc.{
  Chars, live, Buddy, Roster, returned, crashed, double_free, id_of, Fields, rpc_dispatch,
  rpc_switch, rpc_all_statuses, rpc_get_status_resp, store_all, entry_fields, read_fields,
  store_response, rewrite_buddy, swapout, free_old, at_index,
}

-- What msgpack promises: an object whose type is that of negative integers is one.
abbrev pub Parsed : Obj → Type 0
Parsed (array (cons (negative_integer (pos n)) os)) = ⊥
Parsed _ = Unit

-- An object that msgpack has parsed, so that what has the type of a negative integer is negative, is
-- refused by `rpc_dispatch`, which changes no buddy: the opcodes of its `switch` are positive.
pub rpc_dispatch-refuses :
    (purple_find_buddy : Chars → Option ℕ) (beyond : Objs → Obj) (via_u64 : Chars → ℕ) (r : Roster)
    (o : Obj)
    → Parsed o
    → rpc_dispatch purple_find_buddy beyond via_u64 r o ≡ returned 1 r
unfolding rpc_dispatch rpc_switch
rpc_dispatch-refuses find beyond via r (array (cons (negative_integer (negsuc n)) os)) p = refl
rpc_dispatch-refuses find beyond via r (array (cons (negative_integer (pos n)) os)) p = absurd p
rpc_dispatch-refuses find beyond via r (array nil) p = refl
rpc_dispatch-refuses find beyond via r (array (cons (positive_integer n) os)) p = refl
rpc_dispatch-refuses find beyond via r (array (cons (raw n) os)) p = refl
rpc_dispatch-refuses find beyond via r (array (cons (boolean n) os)) p = refl
rpc_dispatch-refuses find beyond via r (array (cons (array n) os)) p = refl
rpc_dispatch-refuses find beyond via r (array (cons other_type os)) p = refl
rpc_dispatch-refuses find beyond via r (positive_integer n) p = refl
rpc_dispatch-refuses find beyond via r (negative_integer n) p = refl
rpc_dispatch-refuses find beyond via r (raw n) p = refl
rpc_dispatch-refuses find beyond via r (boolean n) p = refl
rpc_dispatch-refuses find beyond via r other_type p = refl

-- A response to a status request, for a buddy that libpurple lists and whose address is known, frees
-- that address twice.
pub rpc_get_status_resp-frees_twice :
    (purple_find_buddy : Chars → Option ℕ) (beyond : Objs → Obj) (via_u64 : Chars → ℕ) (r : Roster)
    (name address old : Chars) (status port id : ℕ) (b : Buddy)
    → purple_find_buddy name ≡ some id
    → get_at id_of id r.listed ≡ some b
    → b.ip ≡ live old
    → rpc_get_status_resp purple_find_buddy beyond via_u64 r (
        array (
          cons (raw name) (
            cons
              (positive_integer status)
              (cons (raw address) (cons (positive_integer port) nil)))))
      ≡ crashed double_free
unfolding rpc_get_status_resp read_fields store_response rewrite_buddy swapout free_old
rpc_get_status_resp-frees_twice find beyond via r name address old status port id b e g h =
    simp (store_response, e, g, h) refl

-- What an array of three elements has in the fourth place.
fourth-of_three : (o : Obj) (os : Objs) → size os ≡ 3 → at_index 3 o os ≡ o
fourth-of_three o nil e = refl
fourth-of_three o (cons a nil) e = refl
fourth-of_three o (cons a (cons b nil)) e = refl
fourth-of_three o (cons a (cons b (cons c nil))) e = refl
fourth-of_three o (cons a (cons b (cons c (cons d os)))) e = absurd (omega arith)

bind-some :
    {A B : Type 0} (x : Option A) (k : A → Option B) (b : B)
    → (x >>= k) ≡ some b
    → (a : A) × (x ≡ some a) × (k a ≡ some b)
bind-some none k b e = ground arith
bind-some (some a) k b e = (a, refl, e)

if-some :
    {A : Type 0} (b : Bool) (x : Option A) (a : A)
    → (if b then x else none) ≡ some a
    → (b ≡ true) × (x ≡ some a)
if-some true x a e = (refl, e)
if-some false x a e = ground arith

as_uint-number : (o : Obj) (p : ℕ) → as_uint o ≡ some p → o ≡ positive_integer p
as_uint-number (positive_integer n) p e = ground arith
as_uint-number (negative_integer n) p e = ground arith
as_uint-number (raw n) p e = ground arith
as_uint-number (boolean n) p e = ground arith
as_uint-number (array n) p e = ground arith
as_uint-number other_type p e = ground arith

-- The four fields, where they are read, end in a number.
ends_in-number :
    (a b c d : Obj) (f : Fields) → read_fields a b c d ≡ some f → (p : ℕ) × (d ≡ positive_integer p)
unfolding read_fields
ends_in-number a b c d f e =
    let (n, e1, h1) = bind-some (as_raw a) _ f e in
    let (s, e2, h2) = bind-some (as_uint b) _ f h1 in
    let (x, e3, h3) = bind-some (as_raw c) _ f h2 in
    let (p, e4, h4) = bind-some (as_uint d) _ f h3 in (p, as_uint-number d p e4)

-- An entry whose fields are read is an array of three, which a number follows.
entry-of_three :
    (find : Chars → Option ℕ) (beyond : Objs → Obj) (via : Chars → ℕ) (o : Obj) (f : Fields)
    → entry_fields find beyond via o ≡ some f
    → (xs : Objs) × (o ≡ array xs) × (size xs ≡ 3) × (p : ℕ) × (beyond xs ≡ positive_integer p)
unfolding entry_fields
entry-of_three find beyond via (array xs) f e =
    let (h, g) = if-some (size xs == 3) _ f e in
    let n : size xs ≡ 3 = eq-of-== (size xs) 3 h in
    let (p, q) =
      ends_in-number (at_index 0 (beyond xs) xs) (at_index 1 (beyond xs) xs)
        (at_index 2 (beyond xs) xs) (at_index 3 (beyond xs) xs) f g in
    (xs, refl, n, p, sym (fourth-of_three (beyond xs) xs n) ∙ q)
entry-of_three find beyond via _ f e = ground arith

-- A list of statuses is refused, and changes no buddy, unless the first entry is an array of three
-- elements that happens to be followed in memory by a number: the port that the entry does not have.
pub rpc_all_statuses-reads_beyond :
    (purple_find_buddy : Chars → Option ℕ) (beyond : Objs → Obj) (via_u64 : Chars → ℕ) (r : Roster)
    (o : Obj) (os : Objs)
    → rpc_all_statuses purple_find_buddy beyond via_u64 r (array (cons o os)) ≢ returned 1 r
    → (xs : Objs) × (o ≡ array xs) × (size xs ≡ 3) × (p : ℕ) × (beyond xs ≡ positive_integer p)
unfolding rpc_all_statuses store_all
rpc_all_statuses-reads_beyond find beyond via r o os h =
    elim (Option-cases (entry_fields find beyond via o)) [
      | inl e ↦ absurd (h (rw (rpc_all_statuses, store_all, e) refl))
      | inr (f, e) ↦ entry-of_three find beyond via o f e
    ]
