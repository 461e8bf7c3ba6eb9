-- ===== src/SessionLocal.antt =====
-- libmotmot/src/types/session_local.c: the containers of a session, and reads and writes through
-- pointers to their elements.
use motmot.Base.{ℕ, Bool, true, false, List, [], ◌∷◌, Option, none, some, ◌==◌, if◌then◌else◌}
use motmot.Primitives.{paxid_compare}
use motmot.Core.{Reqid, reqid_compare}
use motmot.Container.{find_fwd, find_rev, insert_rev}
use motmot.Session.{Acceptor, Instance, Request}
pub mod Tables

abbrev pub paxid_of : Acceptor → ℕ
paxid_of a = a.pa_paxid

abbrev pub inum_of : Instance → ℕ
inum_of i = i.pi_hdr.ph_inum

abbrev pub reqid_of : Request → Reqid
reqid_of r = r.pr_val.pv_reqid

-- LIST_IMPLEMENT(acceptor, paxid_t, pa_le, pa_paxid, paxid_compare, acceptor_destroy, _FWD, _REV)
unfoldable pub acceptor_find : ℕ → List Acceptor → Option Acceptor
acceptor_find id l = find_fwd paxid_compare paxid_of id l

unfoldable pub acceptor_insert : Acceptor → List Acceptor → List Acceptor × Acceptor
acceptor_insert acc l = insert_rev paxid_compare paxid_of acc l

-- LIST_IMPLEMENT(instance, paxid_t, pi_le, pi_hdr.ph_inum, paxid_compare, …, _REV, _REV)
unfoldable pub instance_find : ℕ → List Instance → Option Instance
instance_find id l = find_rev paxid_compare inum_of id l

unfoldable pub instance_insert : Instance → List Instance → List Instance × Instance
instance_insert inst l = insert_rev paxid_compare inum_of inst l

-- LIST_IMPLEMENT(request, reqid_t, pr_le, pr_val.pv_reqid, reqid_compare, …, _FWD, _REV)
unfoldable pub request_find : Reqid → List Request → Option Request
request_find id l = find_fwd reqid_compare reqid_of id l

unfoldable pub request_insert : Request → List Request → List Request × Request
request_insert req l = insert_rev reqid_compare reqid_of req l

unfoldable pub instance_init_metadata : Instance → Instance
instance_init_metadata inst = record inst {
  pi_committed = false;
  pi_cached = false;
  pi_learned = false;
  pi_votes = 1;
  pi_rejects = 0;
}

module _ {A : Type 0} (key : A → ℕ) where
  -- The element that a pointer means.
  unfoldable pub get_at : ℕ → List A → Option A
  get_at n [] = none
  get_at n (x ∷ l) = if key x == n then some x else get_at n l

  -- A write through a pointer.
  unfoldable pub set_at : ℕ → (A → A) → List A → List A
  set_at n f [] = []
  set_at n f (x ∷ l) = if key x == n then f x ∷ l else x ∷ set_at n f l

  -- LIST_REMOVE
  unfoldable pub remove_at : ℕ → List A → List A
  remove_at n [] = []
  remove_at n (x ∷ l) = if key x == n then l else x ∷ remove_at n l
