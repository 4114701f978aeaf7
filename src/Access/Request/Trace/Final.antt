-- ===== src/Access/Request/Trace/Final.antt =====
-- What holds along every history of the register.
use mathlib.Core.Path.{subst}
use skarbiec.Prelude.{
  String, ◌≡◌, sym, ap, ◌∙◌, ◌≢◌, inl, inr, Option, some, List, [], ◌∷◌, ◌++◌, arith, All, str_eq,
  eq_iff, Bool-cases,
}
use skarbiec.Access.Capability.State.{is_text}
use skarbiec.Access.Request.Register.{AccessRequest, find, find-put, All-put, All-find}
use skarbiec.Access.Request.Decide.{World, or_no_list}
use skarbiec.Access.Request.Trace.{Event, step, run}
use skarbiec.Access.Request.Trace.Changes.{Change, same, added, decided, IsSound, step-Change}

-- Every record of a register is sound.
abbrev pub AllSound : World → Type 0
AllSound w = All IsSound (or_no_list w.register)

All-snoc :
    (P : AccessRequest → Type 0) (rs : List AccessRequest) (new : AccessRequest)
    → All P rs
    → P new
    → All P (rs ++ new ∷ [])
All-snoc P [] new all p = (p, tt)
All-snoc P (r ∷ rs) new (q, all) p = (q, All-snoc P rs new all p)

abbrev AllIn : Option (List AccessRequest) → Type 0
AllIn o = All IsSound (or_no_list o)

Change-AllSound : (w w' : World) → Change w w' → AllSound w → AllSound w'
Change-AllSound w w' (same kept) all = subst AllIn (sym kept) all
Change-AllSound w w' (added rs new registered stored sound) all =
    subst AllIn (sym stored) (All-snoc IsSound rs new (subst AllIn registered all) sound)
Change-AllSound w w' (decided d) all =
    let before : All IsSound d.rs = subst AllIn d.registered all in
    subst AllIn (sym d.stored)
      (All-put IsSound d.id d.new d.rs before (d.sound (All-find IsSound d.id d.rs before d.found)))

-- Along any history from a register whose records are sound, every record stays sound: a pending
-- request is short of the approvals it needs and has nothing issued, an approved one has its grant.
pub run-AllSound : (w : World) (es : List Event) → AllSound w → AllSound (run w es)
unfolding run
run-AllSound w [] all = all
run-AllSound w (e ∷ es) all =
    run-AllSound (step w e) es (Change-AllSound w (step w e) (step-Change w e) all)

find-append :
    (id : String) (rs new : List AccessRequest) {r : AccessRequest}
    → find id rs ≡ some r
    → find id (rs ++ new) ≡ some r
unfolding find
find-append id [] new h = cc
find-append id (x ∷ rs) new {r} h = elim (Bool-cases (is_text id x.id)) [
  | inl here ↦ ground arith
  | inr past ↦ ground (arith, find-append id rs new {r = r} (ground arith))
]

-- The request with this id in a register.
abbrev pub find_in : String → World → Option AccessRequest
find_in id w = find id (or_no_list w.register)

Change-find :
    (w w' : World) (id : String) {r : AccessRequest}
    → Change w w'
    → find_in id w ≡ some r
    → r.state ≢ some "pending"
    → find_in id w' ≡ some r
Change-find w w' id (same kept) found final = rw kept found
Change-find w w' id {r} (added rs new registered stored sound) found final =
    rw stored (find-append id rs (new ∷ []) (rw registered at found))
Change-find w w' id {r} (decided d) found final =
    let before : find id d.rs ≡ some r = rw d.registered at found in
    elim (Bool-cases (str_eq d.id id)) [
      | inl here ↦
          let same_id = (eq_iff d.id id).0 here in
          let one : d.r ≡ r = cc (d.found, before, same_id) in
          absurd (final (sym (ap (λ (x : AccessRequest). x.state) one) ∙ d.pending))
      | inr elsewhere ↦ rw (d.stored, find-put d.id d.new d.rs d.found d.named id, elsewhere) before
    ]

-- A request that is no longer pending, approved, denied or withdrawn, stays as it is whatever
-- happens to the register.
pub run_final :
    (w : World) (es : List Event) (id : String) {r : AccessRequest}
    → find_in id w ≡ some r
    → r.state ≢ some "pending"
    → find_in id (run w es) ≡ some r
unfolding run
run_final w [] id found final = found
run_final w (e ∷ es) id found final =
    run_final (step w e) es id (Change-find w (step w e) id (step-Change w e) found final) final
