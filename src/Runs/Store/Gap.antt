-- ===== src/Runs/Store/Gap.antt =====
-- A refused event leaves a gap in the journal's numbers.
use mathlib.Core.List.{append_assoc}
use downshift.Base.{subst, ◌≡◌, ◌≢◌, Bool, false, [], ◌∷◌, ◌++◌, ok, err, arith, sym}
use downshift.Runs.{RunEventKind}
use downshift.Runs.Store.{
  Store, Codec, EventOptions, invalid_event, append_event, make_event, queued, taken, seen_before,
  drain,
}
use downshift.Runs.Store.Reading.{IsNumbered, AttemptRead, read_attempt, read_attempt-IsNumbered}
use downshift.Runs.Store.Journal.{IsSound, all_events, IsNumbered-append}

module _ {F P : Type 0} (codec : Codec F P) where
  refused :
      (s : Store F P) (kind : RunEventKind) (payload : P) (o : EventOptions)
      → (append_event codec s kind payload o).1 ≡ err invalid_event
      → (append_event codec s kind payload o).0 ≡ taken s o
  unfolding append_event
  refused s kind payload o e = ground arith

  accepted :
      (s : Store F P) (kind : RunEventKind) (payload : P) (o : EventOptions)
      → seen_before o.dedupe_key s.dedupe ≡ false
      → (append_event codec s kind payload o).1 ≡ ok tt
      → (append_event codec s kind payload o).0 ≡ queued s o (make_event codec s kind payload o)
  unfolding append_event
  accepted s kind payload o new e = ground arith

  gap_unreadable :
      (s t u : Store F P) (o o' : EventOptions) (kind : RunEventKind) (payload : P)
      → IsSound codec s
      → t ≡ taken s o
      → u ≡ queued t o' (make_event codec t kind payload o')
      → (torn : Bool) (a : AttemptRead F P) → read_attempt codec (drain u).disk torn ≢ ok a
  unfolding drain taken queued make_event
  gap_unreadable s t u o o' kind payload h et eu torn a readable =
      let event = make_event codec (taken s o) kind payload o' in
      let events : (drain u).disk.events ≡ all_events s ++ event ∷ [] =
        rw (eu, et) (sym (append_assoc s.disk.events s.queue (event ∷ []))) in
      let numbered =
        (IsNumbered-append 1 (all_events s) (event ∷ [])).0
          (subst (IsNumbered 1) events (read_attempt-IsNumbered codec _ torn readable)) in
      absurd (omega (arith, h.counted, numbered.1.0))

  -- If `appendEvent` throws because the schema refuses an event, it has taken the event's number already:
  -- the next event that is appended makes the journal unreadable once it is written.
  pub refused_event_breaks_journal :
      (s : Store F P) (kind kind' : RunEventKind) (payload payload' : P) (o o' : EventOptions)
      → IsSound codec s
      → (append_event codec s kind payload o).1 ≡ err invalid_event
      → let t = (append_event codec s kind payload o).0 in
        seen_before o'.dedupe_key t.dedupe ≡ false
        → (append_event codec t kind' payload' o').1 ≡ ok tt
        → (torn : Bool) (a : AttemptRead F P)
        → read_attempt codec (drain (append_event codec t kind' payload' o').0).disk torn ≢ ok a
  refused_event_breaks_journal s kind kind' payload payload' o o' h bad new good torn a readable =
      gap_unreadable s _ _ o o' kind' payload' h (refused s kind payload o bad)
        (accepted _ kind' payload' o' new good) torn a readable
