-- ===== src/Runs/Store/Finalize/Permanent.antt =====
-- What happens to a closed attempt afterwards.
use downshift.Base.{◌≡◌, refl, sym, subst, Bool, true, some, [], String, ok, err, arith}
use downshift.Runs.{RunResult, RunEventKind, Observation}
use downshift.Decision.{RoutingDecision}
use downshift.Runs.Store.{
  Store, already_finalized, Codec, EventOptions, append_event, record_decision, write_patch, flush,
}
use downshift.Runs.Store.Reading.{read_attempt}
use downshift.Runs.Store.Journal.{
  IsSound, Step, appends, records, patches, writes, Reach, here, next,
}
use downshift.Runs.Store.Finalize.{FinalizeInput, finalize_attempt}
use downshift.Runs.Store.Finalize.Closed.{finalize_attempt-IsClosed}

module _ {F P : Type 0} (codec : Codec F P) where
  -- A finalized store without pending events, over the same directory.
  record Rests (s u : Store F P) : Type 0 where
    finalized : u.finalized ≡ true
    idle : u.queue ≡ []
    same : u.disk ≡ s.disk

  append_event-Rests :
      (s u : Store F P) (kind : RunEventKind) (payload : P) (o : EventOptions)
      → Rests s u
      → Rests s (append_event codec u kind payload o).0
  unfolding append_event
  append_event-Rests s u kind payload o h =
      let f = h.finalized in
      record {
        finalized = ground arith;
        idle = ground (arith, h.idle);
        same = ground (arith, h.same);
      }

  record_decision-Rests :
      (s u : Store F P) (d : RoutingDecision F) (observation : Observation) (now : String)
      → Rests s u
      → Rests s (record_decision codec u d observation now).0
  unfolding record_decision append_event
  record_decision-Rests s u d observation now h =
      let f = h.finalized in
      record {
        finalized = ground arith;
        idle = ground (arith, h.idle);
        same = ground (arith, h.same);
      }

  write_patch-Rests :
      (s u : Store F P) (patch : String) → Rests s u → Rests s (write_patch codec u patch).0
  unfolding write_patch
  write_patch-Rests s u patch h =
      let f = h.finalized in
      record {
        finalized = ground arith;
        idle = ground (arith, h.idle);
        same = ground (arith, h.same);
      }

  flush-Rests : (s u : Store F P) → Rests s u → Rests s (flush u)
  unfolding flush
  flush-Rests s u h = record {
    finalized = ground (arith, h.idle, h.finalized);
    idle = ground (arith, h.idle);
    same = ground (arith, h.idle, h.same);
  }

  Step-Rests : (s : Store F P) {u v : Store F P} → Step codec u v → Rests s u → Rests s v
  Step-Rests s {u} (appends kind payload o fine e) h =
      rw e (append_event-Rests s u kind payload o h)
  Step-Rests s {u} (records d observation now fine e) h =
      rw e (record_decision-Rests s u d observation now h)
  Step-Rests s {u} (patches patch e) h = rw e (write_patch-Rests s u patch h)
  Step-Rests s {u} (writes e) h = rw e (flush-Rests s u h)

  Reach-Rests : {s u : Store F P} → Reach codec s u → Rests s s → Rests s u
  Reach-Rests here h = h
  Reach-Rests {s} (next r st) h = Step-Rests s st (Reach-Rests r h)

  finalize_again :
      (u : Store F P) (input : FinalizeInput F) (now : String)
      → u.finalized ≡ true
      → finalize_attempt codec u input now ≡ (u, err already_finalized)
  unfolding finalize_attempt
  finalize_again u input now f = ground arith

  -- Once `finalizeAttempt` has returned a result on a sound store, no sequence of later events,
  -- decisions, patches and writes changes the attempt's directory: it is still read back as that
  -- result, and every further `finalizeAttempt` is refused and changes nothing.
  pub result_permanent :
      (s : Store F P) (input : FinalizeInput F) (now : String) (r : RunResult F) {u : Store F P}
      → IsSound codec s
      → (finalize_attempt codec s input now).1 ≡ ok r
      → Reach codec (finalize_attempt codec s input now).0 u
      → (u.disk ≡ (finalize_attempt codec s input now).0.disk)
        × ((torn : Bool)
            → read_attempt codec u.disk torn
              ≡ ok (record { result = some r; events = u.disk.events; truncated_tail = torn }))
        × ((again : FinalizeInput F) (later : String)
            → finalize_attempt codec u again later ≡ (u, err already_finalized))
  result_permanent s input now r {u = u} h done reach =
      let closed = (finalize_attempt-IsClosed codec s input now r h done).0 in
      let rests =
        Reach-Rests reach
          (record { finalized = closed.finalized; idle = closed.nothing_pending; same = refl }) in
      (
        rests.same,
        λ torn.
            subst
              (λ d.
                read_attempt codec d torn
                ≡ ok (record { result = some r; events = d.events; truncated_tail = torn }))
              (sym rests.same) (closed.readable torn),
        λ again later. finalize_again u again later rests.finalized,
      )
