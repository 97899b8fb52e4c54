-- ===== src/Runs/Store/Journal.antt =====
-- The journal of an attempt can be read back at every moment before it is finalized.
use mathlib.Core.List.{append_assoc, append-nil}
use downshift.Base.{
  ℕ, suc, ◌+◌, ◌≡◌, ◌≢◌, ◌↔◌, refl, sym, ◌⊎◌, inl, inr, subst, String, Bool, none, some, List, [],
  ◌∷◌, ◌++◌, ok, err, length, length-append, All, All-append, arith, ◌∙◌, ap,
}
use downshift.Decision.{RoutingDecision}
use downshift.Runs.{RunEvent, RunEventKind, routing, Observation}
use downshift.Runs.Store.{
  Store, Codec, EventOptions, StartOptions, invalid_event, start_attempt, flush, drain, flush_list,
  append_event, make_event, queued, record_decision, decision_options, write_patch,
}
use downshift.Runs.Store.Reading.{
  IsNumbered, Accepted, read_attempt, read_attempt_ok, read_result-none,
}

module _ {P : Type 0} where
  pub IsNumbered-append :
      (n : ℕ) (xs ys : List (RunEvent P))
      → IsNumbered n (xs ++ ys) ↔ (IsNumbered n xs × IsNumbered (n + length xs) ys)
  IsNumbered-append n [] ys = (
    λ h. (tt, subst (λ k. IsNumbered k ys) (omega arith) h),
    λ h. subst (λ k. IsNumbered k ys) (omega arith) h.1,
  )
  IsNumbered-append n (x ∷ xs) ys =
      let ih = IsNumbered-append (suc n) xs ys in
      let e : suc n + length xs ≡ n + suc (length xs) = omega arith in
      (
        λ h. ((h.0, (ih.0 h.1).0), subst (λ k. IsNumbered k ys) e (ih.0 h.1).1),
        λ h. (h.0.0, ih.1 (h.0.1, subst (λ k. IsNumbered k ys) (sym e) h.1)),
      )

module _ {F P : Type 0} where
  -- What was appended, written or not.
  abbrev pub all_events : Store F P → List (RunEvent P)
  all_events s = s.disk.events ++ s.queue

module _ {F P : Type 0} (codec : Codec F P) where
  pub record IsSound (s : Store F P) : Type 0 where
    pub numbered : IsNumbered 1 (all_events s)
    pub counted : length (all_events s) ≡ s.sequence
    pub accepted : All (Accepted codec) (all_events s)
    pub fresh : s.disk.result ≡ none

  -- A step of an attempt that is not finalized: a call that does not offer an event which the schema
  -- refuses, or a pending write.
  pub data Step (s u : Store F P) : Type 0 where
    appends :
        (kind : RunEventKind) (payload : P) (o : EventOptions)
        → (append_event codec s kind payload o).1 ≢ err invalid_event
        → u ≡ (append_event codec s kind payload o).0
        → Step s u
    records :
        (d : RoutingDecision F) (observation : Observation) (now : String)
        → (record_decision codec s d observation now).1 ≢ err invalid_event
        → u ≡ (record_decision codec s d observation now).0
        → Step s u
    patches : (patch : String) → u ≡ (write_patch codec s patch).0 → Step s u
    writes : u ≡ flush s → Step s u

  pub data Reach (s : Store F P) : Store F P → Type 0 where
    here : Reach s s
    next : {t u : Store F P} → Reach s t → Step t u → Reach s u

  -- What soundness depends on.
  pub same-IsSound :
      (s u : Store F P)
      → u.disk.events ≡ s.disk.events
      → u.disk.result ≡ s.disk.result
      → u.queue ≡ s.queue
      → u.sequence ≡ s.sequence
      → IsSound s
      → IsSound u
  same-IsSound s u de dr q n h =
      let same : all_events u ≡ all_events s = rw (de, q) refl in
      record {
        numbered = rw same h.numbered;
        counted = rw (same, n) h.counted;
        accepted = rw same h.accepted;
        fresh = rw dr h.fresh;
      }

  extend-IsSound :
      (s : Store F P) (e : RunEvent P) (u : Store F P)
      → IsSound s
      → e.sequence ≡ suc s.sequence
      → Accepted codec e
      → u.disk.events ≡ s.disk.events
      → u.disk.result ≡ s.disk.result
      → u.queue ≡ s.queue ++ e ∷ []
      → u.sequence ≡ suc s.sequence
      → IsSound u
  extend-IsSound s e u h seq okay same none_yet longer count =
      let grown : all_events u ≡ all_events s ++ e ∷ [] =
        rw (same, longer) (sym (append_assoc s.disk.events s.queue (e ∷ []))) in
      record {
        numbered = rw grown (
            (IsNumbered-append 1 (all_events s) (e ∷ [])).1
              (h.numbered, (omega (arith, h.counted), tt)));
        counted =
            rw (grown, count) (omega (arith, length-append (all_events s) (e ∷ []), h.counted));
        accepted =
            rw grown
              ((All-append (Accepted codec) (all_events s) (e ∷ [])).1 (h.accepted, (okay, tt)));
        fresh = rw none_yet h.fresh;
      }

  append_event_cases :
      (s : Store F P) (kind : RunEventKind) (payload : P) (o : EventOptions)
      → let r = append_event codec s kind payload o in
        let event = make_event codec s kind payload o in
        (r.0 ≡ s) ⊎ ((Accepted codec event) × (r.0 ≡ queued s o event)) ⊎ (r.1 ≡ err invalid_event)
  unfolding append_event
  append_event_cases s kind payload o = ground arith

  pub append_event-IsSound :
      (s : Store F P) (kind : RunEventKind) (payload : P) (o : EventOptions)
      → (append_event codec s kind payload o).1 ≢ err invalid_event
      → IsSound s
      → IsSound (append_event codec s kind payload o).0
  unfolding queued make_event
  append_event-IsSound s kind payload o fine h = elim (append_event_cases s kind payload o) [
    | inl same ↦ rw same h
    | inr (inl (okay, e)) ↦
        rw e
          (extend-IsSound s (make_event codec s kind payload o) _ h refl okay refl refl refl refl)
    | inr (inr bad) ↦ absurd (fine bad)
  ]

  flush-IsSound : (s : Store F P) → IsSound s → IsSound (flush s)
  unfolding flush
  flush-IsSound s h = go s.queue refl
    where
      go : (q : List (RunEvent P)) → s.queue ≡ q → IsSound (flush_list s q)
      go [] e = h
      go (x ∷ xs) e =
          let same : all_events (flush_list s (x ∷ xs)) ≡ all_events s =
            append_assoc s.disk.events (x ∷ []) xs ∙ ap (◌++◌ s.disk.events) (sym e) in
          record {
            numbered = rw same h.numbered;
            counted = rw same h.counted;
            accepted = rw same h.accepted;
            fresh = h.fresh;
          }

  record_decision_cases :
      (s : Store F P) (d : RoutingDecision F) (observation : Observation) (now : String)
      → let r = record_decision codec s d observation now in
        (r.0 ≡ s)
        ⊎ (r
            ≡ append_event codec
                (record s { decision = some d })
                routing
                (codec.decision_payload observation d)
                (decision_options codec d now))
  unfolding record_decision
  record_decision_cases s d observation now = ground arith

  pub record_decision-IsSound :
      (s : Store F P) (d : RoutingDecision F) (observation : Observation) (now : String)
      → (record_decision codec s d observation now).1 ≢ err invalid_event
      → IsSound s
      → IsSound (record_decision codec s d observation now).0
  record_decision-IsSound s d observation now fine h =
      elim (record_decision_cases s d observation now) [
        | inl same ↦ rw same h
        | inr e ↦ rw e (
            append_event-IsSound _ routing _ _ (rw e at fine)
              (same-IsSound s (record s { decision = some d }) refl refl refl refl h))
      ]

  write_patch-IsSound :
      (s : Store F P) (patch : String) → IsSound s → IsSound (write_patch codec s patch).0
  unfolding write_patch
  write_patch-IsSound s patch h =
      same-IsSound s _ (ground arith) (ground arith) (ground arith) (ground arith) h

  -- All pending events are written.
  pub drain-IsSound : (s : Store F P) → IsSound s → IsSound (drain s)
  unfolding drain
  drain-IsSound s h =
      let same : all_events (drain s) ≡ all_events s = append-nil (s.disk.events ++ s.queue) in
      record {
        numbered = rw same h.numbered;
        counted = rw same h.counted;
        accepted = rw same h.accepted;
        fresh = h.fresh;
      }

  Step-IsSound : {s u : Store F P} → Step s u → IsSound s → IsSound u
  Step-IsSound {s} (appends kind payload o fine e) h =
      rw e (append_event-IsSound s kind payload o fine h)
  Step-IsSound {s} (records d observation now fine e) h =
      rw e (record_decision-IsSound s d observation now fine h)
  Step-IsSound {s} (patches patch e) h = rw e (write_patch-IsSound s patch h)
  Step-IsSound {s} (writes e) h = rw e (flush-IsSound s h)

  pub Reach-IsSound : {s u : Store F P} → Reach s u → IsSound s → IsSound u
  Reach-IsSound here h = h
  Reach-IsSound (next r st) h = Step-IsSound st (Reach-IsSound r h)

  pub start_attempt-IsSound : (o : StartOptions) → IsSound (start_attempt o)
  unfolding start_attempt
  start_attempt-IsSound o = record { numbered = tt; counted = refl; accepted = tt; fresh = refl }

  -- Whatever calls an attempt has had, in any interleaving with the writes of its queue, its directory
  -- can be read back, also with a torn last line: the attempt is incomplete, and what is read are
  -- the written events, which together with the pending ones are numbered from 1. This supposes
  -- that no call offered an event which the schema refuses.
  pub journal_readable :
      (o : StartOptions) (s : Store F P) (torn : Bool)
      → Reach (start_attempt o) s
      → (read_attempt codec s.disk torn
          ≡ ok (record { result = none; events = s.disk.events; truncated_tail = torn }))
        × IsNumbered 1 (s.disk.events ++ s.queue)
  journal_readable o s torn r =
      let h = Reach-IsSound r (start_attempt-IsSound o) in
      (
        read_attempt_ok codec s.disk torn none (read_result-none codec h.fresh)
            ((All-append (Accepted codec) s.disk.events s.queue).0 h.accepted).0
            ((IsNumbered-append 1 s.disk.events s.queue).0 h.numbered).0,
        h.numbered,
      )
