-- ===== src/Prepare/Independent.antt =====
-- The parts that proposer_prepare of libmotmot/src/paxos_proposer.c starts.
use Prim.Native.Nat.{bit_or}
use motmot.Base.{
  arith, ltb, ◌||◌, not, ◌==◌, ◌∙◌, sym, Bool-cases, inl, inr, ℕ, ◌≡◌, refl, Bool, true, false,
  List, [], ◌∷◌, ◌++◌, some, inc32,
}
use motmot.Session.{Acceptor, Instance, Session, Prep}
use motmot.Util.{err_accum, proposer_decree_part_by, part_instance}
use motmot.Prepare.{
  is_none, part_dropped, start_prepare, new_prep, prepare_message, proposer_prepare_by,
  proposer_prepare,
}
use motmot.Exec.{M, assert, World, done, pure, gets, modify, ◌>>=◌, option_case}

-- The world after a part has been deferred.
abbrev deferred : ℕ → Bool → World → World
deferred target force w =
    let pax : Session = record w.pax { req_id = inc32 w.pax.req_id } in
    record w { pax = record pax { idefer = pax.idefer ++ part_instance pax target force ∷ [] } }

part_deferred :
    (d : Instance → M ℕ) (target : ℕ) (force : Bool) (w : World) (p : Prep)
    → w.pax.prep ≡ some p
    → proposer_decree_part_by d target force w ≡ done 0 (deferred target force w)
unfolding proposer_decree_part_by ◌>>=◌ gets modify option_case pure
part_deferred d target force w p h = simp h refl

drop_round :
    (d : Instance → M ℕ) (self r : ℕ) (acc : Acceptor) (w : World) (p : Prep) (rest : ℕ → M ℕ)
    → w.pax.prep ≡ some p
    → (err_accum r (proposer_decree_part_by d acc.pa_paxid (ltb acc.pa_paxid self)) >>= rest) w
      ≡ rest (bit_or r 0) (deferred acc.pa_paxid (ltb acc.pa_paxid self) w)
unfolding err_accum ◌>>=◌ pure
drop_round d self r acc w p rest h =
    simp (part_deferred d acc.pa_paxid (ltb acc.pa_paxid self) w p h) refl

module _ (d e : Instance → M ℕ) where
  part_dropped-same :
      (self r : ℕ) (l : List Acceptor) (w : World) (p : Prep)
      → w.pax.prep ≡ some p
      → part_dropped d self r l w ≡ part_dropped e self r l w
  unfolding part_dropped
  part_dropped-same self r [] w p h = refl
  part_dropped-same self r (acc ∷ l) w p h =
      elim (Bool-cases (not (is_none acc.pa_peer) || (acc.pa_paxid == self))) [
        | inl b ↦ simp b (part_dropped-same self r l w p h)
        | inr b ↦
            let k = deferred acc.pa_paxid (ltb acc.pa_paxid self) w in
            simp b (
              drop_round d self r acc w p _ h
              ∙ part_dropped-same self (bit_or r 0) l k p h
              ∙ sym (drop_round e self r acc w p _ h))
      ]

  start_prepare-same :
      (old_proposer : Bool) (w : World)
      → start_prepare d old_proposer w ≡ start_prepare e old_proposer w
  unfolding start_prepare new_prep prepare_message ◌>>=◌ gets modify
  start_prepare-same false w = refl
  start_prepare-same true w =
      let s : Session = record w.pax {
        gen_high = inc32 w.pax.gen_high;
        prep = some (new_prep d w.pax);
      } in
      let v : World = record w { pax = s } in
      rw (part_dropped-same w.pax.self_id 0 w.pax.alist v (new_prep d w.pax) refl) refl

  prepare_by-same :
      (old_proposer : Bool) (w : World)
      → proposer_prepare_by d old_proposer w ≡ proposer_prepare_by e old_proposer w
  unfolding proposer_prepare_by ◌>>=◌ gets assert
  prepare_by-same old_proposer w = ground (arith, start_prepare-same old_proposer w)

-- Preparing does not depend on how parts are decreed: with `proposer_decree`, or with any other
-- function, it is `proposer_prepare`.
pub proposer_prepare-independent :
    (decree : Instance → M ℕ) (old_proposer : Bool) (w : World)
    → proposer_prepare_by decree old_proposer w ≡ proposer_prepare old_proposer w
unfolding proposer_prepare
proposer_prepare-independent decree old_proposer w = prepare_by-same decree _ old_proposer w
