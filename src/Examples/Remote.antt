-- ===== src/Examples/Remote.antt =====
-- A peer's buffer, and a server's responses, at concrete values.
use motmot.Base.{
  arith, sym, ◌∙◌, ℕ, ◌≡◌, ◌≢◌, refl, [], ◌∷◌, ◌++◌, List, Option, some, none, Bool, true, false,
}
use motmot.SessionLocal.{get_at}
use motmot.Msgpack.{
  Obj, Objs, nil, cons, positive_integer, negative_integer, negsuc, raw, array, size,
}
use motmot.Io.{peer_init, normal, again}
use motmot.Io.Fifo.{IoEvent, sends, writes, io_run, bytes, bytes-io_run, Watched, io_run-Watched}
use motmot.Rpc.{
  Chars, live, Buddy, Roster, returned, crashed, double_free, id_of, swapout, read_fields,
  entry_fields, rpc_dispatch, rpc_all_statuses, rpc_get_status_resp, store_all, store_status,
  rewrite_buddy,
}
use motmot.Rpc.Responses.{
  rpc_dispatch-refuses, rpc_get_status_resp-frees_twice, rpc_all_statuses-reads_beyond,
}

-- Two messages, of which the channel takes one byte, then the rest.
abbrev two_sends : List IoEvent
two_sends =
    sends (1 ∷ 2 ∷ [])
    ∷ writes normal 1 false
    ∷ sends (3 ∷ [])
    ∷ writes again 0 false
    ∷ writes normal 2 true
    ∷ []

bytes-io_run_example : bytes (io_run two_sends peer_init) ≡ 1 ∷ 2 ∷ 3 ∷ []
bytes-io_run_example = bytes-io_run two_sends peer_init

normal_end : normal ≢ motmot.Io.eof
normal_end = λ e. cc

again_end : again ≢ motmot.Io.eof
again_end = λ e. cc

io_run-Watched_example : Watched (io_run two_sends peer_init)
io_run-Watched_example =
    io_run-Watched two_sends peer_init (normal_end, (again_end, (normal_end, tt))) (refl, refl)

abbrev friend : Chars
friend = 98 ∷ 111 ∷ 98 ∷ []

abbrev known_buddy : Buddy
known_buddy = record { buddy_id = 4; ip = live (49 ∷ []); port = 80 }

abbrev one_buddy : Roster
one_buddy = record { listed = known_buddy ∷ []; unlisted = [] }

-- libpurple lists the friend as 4; numbers follow each array; a raw object reads as 0.
abbrev find_friend : Chars → Option ℕ
find_friend [] = none
find_friend (c ∷ name) = some 4

abbrev a_number : Objs → Obj
a_number os = positive_integer 8080

abbrev zero_u64 : Chars → ℕ
zero_u64 s = 0

abbrev pushed : Obj
pushed = array (cons (negative_integer (negsuc 64)) (cons (array nil) nil))

rpc_dispatch-refuses_example :
    rpc_dispatch find_friend a_number zero_u64 one_buddy pushed ≡ returned 1 one_buddy
rpc_dispatch-refuses_example =
    rpc_dispatch-refuses find_friend a_number zero_u64 one_buddy pushed tt

friend_listed : get_at id_of 4 one_buddy.listed ≡ some known_buddy
unfolding get_at
friend_listed = refl

rpc_get_status_resp-frees_twice_example :
    rpc_get_status_resp find_friend a_number zero_u64 one_buddy (
      array (
        cons
          (raw friend)
          (cons (positive_integer 1) (cons (raw (50 ∷ [])) (cons (positive_integer 81) nil)))))
    ≡ crashed double_free
rpc_get_status_resp-frees_twice_example =
    rpc_get_status_resp-frees_twice find_friend a_number zero_u64 one_buddy friend (50 ∷ [])
      (49 ∷ []) 1 81 4 known_buddy refl friend_listed refl

abbrev three_fields : Objs
three_fields = cons (raw friend) (cons (positive_integer 1) (cons (raw (50 ∷ [])) nil))

abbrev updated : Roster
updated = record {
  listed = record { buddy_id = 4; ip = live (50 ∷ []); port = 8080 } ∷ [];
  unlisted = [];
}

three_stored :
    rpc_all_statuses find_friend a_number zero_u64 one_buddy (array (cons (array three_fields) nil))
    ≡ returned 0 updated
unfolding rpc_all_statuses store_all entry_fields read_fields store_status rewrite_buddy swapout
    get_at motmot.SessionLocal.set_at motmot.Base.to_u32
three_stored = refl

three_accepted :
    rpc_all_statuses find_friend a_number zero_u64 one_buddy (array (cons (array three_fields) nil))
    ≢ returned 1 one_buddy
three_accepted =
    λ e. let q : returned 0 updated ≡ returned 1 one_buddy = sym three_stored ∙ e in ground arith

rpc_all_statuses-reads_beyond_example :
    (xs : Objs) × (array three_fields ≡ array xs)
    × (size xs ≡ 3)
    × (p : ℕ) × (a_number xs ≡ positive_integer p)
rpc_all_statuses-reads_beyond_example =
    rpc_all_statuses-reads_beyond find_friend a_number zero_u64 one_buddy (array three_fields) nil
      three_accepted
