-- ===== src/Runs/Store/Reading.antt =====
-- `readAttempt`: the journal and the result of an attempt's directory, as they are found there.
use downshift.Base.{
  ℕ, suc, ◌≡◌, refl, Bool, true, Option, none, some, List, [], ◌∷◌, Result, ok, err, ◌>>=◌, ◌>>◌,
  ◌==◌, if◌then◌else◌, All, arith,
}
use downshift.Runs.{RunEvent, RunResult}
use downshift.Runs.Outcome.{ResultError, validate_run_result}
use downshift.Runs.Store.{Disk, Codec}

pub data ReadError : Type 0 where
  invalid_line invalid_sequence : ℕ → ReadError
  corrupt_result : ResultError → ReadError

-- `result` is `none` where the attempt's status is "incomplete".
pub record AttemptRead (F P : Type 0) : Type 0 where
  pub result : Option (RunResult F)
  pub events : List (RunEvent P)
  pub truncated_tail : Bool

module _ {P : Type 0} where
  check_lines : (RunEvent P → Bool) → ℕ → List (RunEvent P) → Result ReadError (Unit {0})
  check_lines event_ok line [] = ok tt
  check_lines event_ok line (e ∷ es) =
      let rest = check_lines event_ok (suc line) es in
      if event_ok e then rest else err (invalid_line line)

  check_sequence : ℕ → List (RunEvent P) → Result ReadError (Unit {0})
  check_sequence line [] = ok tt
  check_sequence line (e ∷ es) =
      let rest = check_sequence (suc line) es in
      if e.sequence == line then rest else err (invalid_sequence line)

  -- The sequence numbers count up from the given one.
  abbrev pub IsNumbered : ℕ → List (RunEvent P) → Type 0
  IsNumbered n [] = Unit
  IsNumbered n (e ∷ es) = (e.sequence ≡ n) × IsNumbered (suc n) es

module _ {F P : Type 0} (codec : Codec F P) where
  pub read_result : Option (RunResult F) → Result ReadError (Option (RunResult F))
  read_result none = ok none
  read_result (some r) = elim (validate_run_result codec.schemas r) [
    | ok r' ↦ ok (some r')
    | err e ↦ err (corrupt_result e)
  ]

  -- `torn` says that the file ends in a line with no newline, which is dropped.
  unfoldable pub read_attempt : Disk F P → Bool → Result ReadError (AttemptRead F P)
  unfolding check_lines check_sequence read_result
  read_attempt disk torn = do
    check_lines codec.event_ok 1 disk.events
    check_sequence 1 disk.events
    r ← read_result disk.result
    ok (record { result = r; events = disk.events; truncated_tail = torn })

  abbrev pub Accepted : RunEvent P → Type 0
  Accepted e = codec.event_ok e ≡ true

module _ {P : Type 0} (event_ok : RunEvent P → Bool) where
  check_lines_ok :
      (line : ℕ) (es : List (RunEvent P))
      → All (λ e. event_ok e ≡ true) es
      → check_lines event_ok line es ≡ ok tt
  unfolding check_lines
  check_lines_ok line [] h = refl
  check_lines_ok line (e ∷ es) h = ground (arith, check_lines_ok (suc line) es h.1)

module _ {P : Type 0} where
  check_sequence_ok :
      (line : ℕ) (es : List (RunEvent P)) → IsNumbered line es → check_sequence line es ≡ ok tt
  unfolding check_sequence
  check_sequence_ok line [] h = refl
  check_sequence_ok line (e ∷ es) h = ground (arith, check_sequence_ok (suc line) es h.1)

  -- The events of a journal that was read are numbered from 1.
  check_sequence-IsNumbered :
      (line : ℕ) (es : List (RunEvent P)) → check_sequence line es ≡ ok tt → IsNumbered line es
  unfolding check_sequence
  check_sequence-IsNumbered line [] h = tt
  check_sequence-IsNumbered line (e ∷ es) h =
      ground (arith, check_sequence-IsNumbered (suc line) es)

module _ {F P : Type 0} (codec : Codec F P) where
  -- A journal of accepted events with the right numbers is read, if the result is.
  pub read_attempt_ok :
      (disk : Disk F P) (torn : Bool) (r : Option (RunResult F))
      → read_result codec disk.result ≡ ok r
      → All (Accepted codec) disk.events
      → IsNumbered 1 disk.events
      → read_attempt codec disk torn
        ≡ ok (record { result = r; events = disk.events; truncated_tail = torn })
  unfolding read_attempt
  read_attempt_ok disk torn r found accepted numbered = ground (
    arith,
    check_lines_ok codec.event_ok 1 disk.events accepted,
    check_sequence_ok 1 disk.events numbered,
  )

  pub read_result-none : {r : Option (RunResult F)} → r ≡ none → read_result codec r ≡ ok none
  unfolding read_result
  read_result-none e = rw e

  pub read_result-some :
      {r : Option (RunResult F)} (x : RunResult F)
      → r ≡ some x
      → validate_run_result codec.schemas x ≡ ok x
      → read_result codec r ≡ ok (some x)
  unfolding read_result
  read_result-some x e okay = rw e (ground arith)

  pub read_attempt-IsNumbered :
      (disk : Disk F P) (torn : Bool) {a : AttemptRead F P}
      → read_attempt codec disk torn ≡ ok a
      → IsNumbered 1 disk.events
  unfolding read_attempt
  read_attempt-IsNumbered disk torn h = check_sequence-IsNumbered 1 disk.events (ground arith)
