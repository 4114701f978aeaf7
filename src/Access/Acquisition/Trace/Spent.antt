-- ===== src/Access/Acquisition/Trace/Spent.antt =====
-- A bearer that was read is read no more.
use skarbiec.Prelude.{
  ℕ, String, ◌≡◌, ◌≢◌, refl, none, some, List, [], ◌∷◌, arith, All, eq_iff, ok, inl, inr,
  Bool-cases, Result-cases,
}
use skarbiec.Prelude.Dict.{lookup, lookup-insert, lookup-retain, lookup-remove}
use skarbiec.Access.Acquisition.State.{State, purge_expired}
use skarbiec.Access.Acquisition.Issue.{
  Env, Asked, AcquiredField, issue, consume, record_bearer, spent, is_presentable,
}
use skarbiec.Access.Acquisition.Issue.Effect.{issue-record_bearer, issue-IsIssued, consume-IsSpent}
use skarbiec.Access.Acquisition.Trace.{Event, asking, presenting, step, run, MintsOther}
use skarbiec.Access.Acquisition.Trace.Once.{consume-leaves}

-- No bearer with this hash is out.
abbrev IsGone : String → State → Type 0
IsGone hash s = lookup hash s.tokens ≡ none

spent-IsGone : (hash key : String) (s : State) → IsGone hash s → IsGone hash (spent key s)
spent-IsGone hash key s gone = rw lookup-remove (ground (arith, gone))

spent_self : (hash : String) (s : State) → IsGone hash (spent hash s)
spent_self hash s = rw lookup-remove (ground (arith, eq_iff hash hash))

issue-IsGone :
    (env : Env) (a : Asked) (s : State) (hash : String) {x : String × ℕ} {s' : State}
    → env.sha256_hex env.random_token ≢ hash
    → issue env a s ≡ ok (x, s')
    → IsGone hash s
    → IsGone hash s'
issue-IsGone env a s hash {x} {s'} other h gone =
    let i = issue-IsIssued env a s h in
    let purged : IsGone hash (purge_expired env.now s) =
      unfold purge_expired in rw (lookup-retain, gone) refl in
    rw (issue-record_bearer env a s h) (
      unfold record_bearer in
      rw lookup-insert
        (ground (arith, eq_iff (env.sha256_hex env.random_token) hash, other, purged)))

step-IsGone :
    (e : Event) (s : State) (hash : String)
    → MintsOther hash e
    → IsGone hash s
    → IsGone hash (step s e)
unfolding step
step-IsGone (asking env a) s hash other gone = elim (Result-cases (issue env a s)) [
  | inr (e, refused) ↦ rw refused gone
  | inl ((x, s'), issued) ↦ rw issued (issue-IsGone env a s hash other issued gone)
]
step-IsGone (presenting env consumer presented item field) s hash other gone =
    elim (consume-leaves env consumer presented item field s) [
      | inl kept ↦ rw kept gone
      | inr taken ↦ rw taken (spent-IsGone hash (env.sha256_hex presented) s gone)
    ]

run-IsGone :
    (es : List Event) (s : State) (hash : String)
    → All (MintsOther hash) es
    → IsGone hash s
    → IsGone hash (run s es)
unfolding run
run-IsGone [] s hash others gone = gone
run-IsGone (e ∷ es) s hash (other, others) gone =
    run-IsGone es (step s e) hash others (step-IsGone e s hash other gone)

consume-IsGone :
    (env : Env) (consumer presented item field : String) (s : State)
    → IsGone (env.sha256_hex presented) s
    → (consume env consumer presented item field s).0 ≡ ok none
unfolding consume
consume-IsGone env consumer presented item field s gone =
    elim (Bool-cases (is_presentable consumer presented item field)) [
      | inl shaped ↦ ground arith
      | inr refused ↦ ground arith
    ]

-- A bearer is read once: after it gave a value, and whatever is asked and presented after that
-- without a new bearer of the same hash, presenting it again gives nothing.
pub bearer_once :
    (env env' : Env) (consumer consumer' presented item item' field field' : String) (s : State)
    (es : List Event) {v : AcquiredField} {s' : State}
    → consume env consumer presented item field s ≡ (ok (some v), s')
    → All (MintsOther (env.sha256_hex presented)) es
    → env'.sha256_hex ≡ env.sha256_hex
    → (consume env' consumer' presented item' field' (run s' es)).0 ≡ ok none
bearer_once env env' consumer consumer' presented item item' field field' s es {v} {s'} h others
      same_hash =
    let i = consume-IsSpent env consumer presented item field s h in
    let hash = env.sha256_hex presented in
    let gone : IsGone hash s' = rw i.removed (spent_self hash s) in
    let still = run-IsGone es s' hash others gone in
    consume-IsGone env' consumer' presented item' field' (run s' es) (rw same_hash still)
