-- ===== src/Usage/Ledger.antt =====
-- The usage ledger keeps the first report of every call, and refuses another one.
use downshift.Base.{
  ◌≡◌, ◌≢◌, ◌↔◌, refl, ◌⊎◌, inl, inr, String, Bool, true, Option, none, some, [], ◌∷◌, ◌++◌, ok,
  err, arith, if◌then◌else◌, holds_iff, str_eq, eq_iff, Option-cases, Bool-cases,
}
use downshift.Usage.{
  UsageRole, RecordedUsage, NormalizedUsage, UsageError, conflicting_duplicate, empty_call_id,
  UsageLedger, lookup, record_usage, same_record, RecordedUsage-discrete,
}

same_record-eq : (r s : RecordedUsage) → same_record r s ≡ true → r ≡ s
unfolding same_record
same_record-eq r s h = (holds_iff (RecordedUsage-discrete r s)).0 h

same_record_refl : (r : RecordedUsage) → same_record r r ≡ true
unfolding same_record
same_record_refl r = (holds_iff (RecordedUsage-discrete r r)).1 refl

lookup-append :
    (j k : String) (r : RecordedUsage) (l : UsageLedger)
    → lookup k l ≡ none
    → lookup j (l ++ (k, r) ∷ []) ≡ (if str_eq k j then some r else lookup j l)
lookup-append j k r [] h = refl
lookup-append j k r ((i, s) ∷ l) h =
    ground (arith, eq_iff i j, eq_iff i k, eq_iff k j, lookup-append j k r l)

abbrev pub UniqueIds : UsageLedger → Type 0
UniqueIds [] = Unit
UniqueIds ((k, r) ∷ l) = (lookup k l ≡ none) × UniqueIds l

UniqueIds-append :
    (k : String) (r : RecordedUsage) (l : UsageLedger)
    → lookup k l ≡ none
    → UniqueIds l
    → UniqueIds (l ++ (k, r) ∷ [])
UniqueIds-append k r [] h u = (refl, tt)
UniqueIds-append k r ((i, s) ∷ l) h u =
    ground (arith, eq_iff i k, eq_iff k i, lookup-append i k r l, UniqueIds-append k r l)

abbrev pub entry : UsageRole → Option NormalizedUsage → Bool → RecordedUsage
entry role u c = record { role = role; usage = u; complete = c }

-- After `UsageLedger.record` has returned, the ledger holds the report under its call's ID and what it
-- held before under every other ID; a call that was there before keeps its report, since the new
-- one is equal to it.
pub lookup-record_usage :
    (l : UsageLedger) (id : String) (role : UsageRole) (u : Option NormalizedUsage) (c : Bool)
    {l' : UsageLedger} {fresh : Bool}
    → record_usage l id role u c ≡ ok (l', fresh)
    → (j : String) → lookup j l' ≡ (if str_eq id j then some (entry role u c) else lookup j l)
unfolding record_usage
lookup-record_usage l id role u c h j = elim (Option-cases (lookup id l)) [
  | inl e ↦ ground (arith, lookup-append j id (entry role u c) l e)
  | inr (r, e) ↦ ground (arith, eq_iff id j, same_record-eq r (entry role u c))
]

-- `UsageLedger.record` keeps the call IDs of the ledger distinct, and answers `true` exactly for a call
-- that the ledger did not hold; that call is then added at the end, and otherwise the ledger is
-- unchanged.
pub record_usage-UniqueIds :
    (l : UsageLedger) (id : String) (role : UsageRole) (u : Option NormalizedUsage) (c : Bool)
    {l' : UsageLedger} {fresh : Bool}
    → UniqueIds l
    → record_usage l id role u c ≡ ok (l', fresh)
    → UniqueIds l'
      × ((fresh ≡ true) ↔ (lookup id l ≡ none))
      × (l' ≡ (if fresh then l ++ (id, entry role u c) ∷ [] else l))
unfolding record_usage
record_usage-UniqueIds l id role u c unique h = elim (Option-cases (lookup id l)) [
  | inl e ↦ (
    ground (arith, UniqueIds-append id (entry role u c) l e unique),
    (λ _. e, ground arith),
    ground arith,
  )
  | inr (r, e) ↦ (ground arith, (ground arith, ground arith), ground arith)
]

-- A report is refused exactly when its call ID is empty, or the ledger holds another report of the call.
pub record_usage_refuses :
    (l : UsageLedger) (id : String) (role : UsageRole) (u : Option NormalizedUsage) (c : Bool)
    → ((e : UsageError) × (record_usage l id role u c ≡ err e))
      ↔ ((id ≡ "") ⊎ ((r : RecordedUsage) × (lookup id l ≡ some r) × (r ≢ entry role u c)))
unfolding record_usage
record_usage_refuses l id role u c = (
  λ h. elim (Option-cases (lookup id l)) [
    | inl e ↦ inl (ground (arith, eq_iff id ""))
    | inr (r, e) ↦ elim (Bool-cases (str_eq id "")) [
      | inl blank ↦ inl ((eq_iff id "").0 blank)
      | inr named ↦ inr (r, e, λ same. ground (arith, same_record_refl r))
    ]
  ],
  λ h. elim h [
    | inl blank ↦ (empty_call_id, ground (arith, eq_iff id ""))
    | inr (r, e, differs) ↦ elim (Bool-cases (str_eq id "")) [
      | inl blank ↦ (empty_call_id, ground arith)
      | inr named ↦ (conflicting_duplicate, ground (arith, same_record-eq r (entry role u c)))
    ]
  ],
)
