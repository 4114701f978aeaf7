-- ===== src/Access/Acquisition/Trace/Once.antt =====
-- A proof is accepted once while its grant lasts, and a bearer is read once.
use skarbiec.Prelude.{
  ℕ, ◌<◌, String, ◌≡◌, ◌≢◌, ◌⊎◌, refl, ap, some, List, [], ◌∷◌, arith, All, str_eq, eq_iff, Result,
  ok, err, inl, inr, Bool-cases, Result-cases, Option-cases,
}
use skarbiec.Prelude.Dict.{lookup, lookup-insert, lookup-insert_self, lookup-retain}
use skarbiec.Access.Grant.{expires_after}
use skarbiec.Access.Acquisition.State.{State, purge_expired}
use skarbiec.Access.Acquisition.Issue.{
  Env, Asked, AcquiredField, issue, consume, consume_held, record_bearer, proof_text, spent,
  handed_over, read_bound, Stop,
}
use skarbiec.Access.Acquisition.Issue.{is_presentable, is_bound}
use skarbiec.Access.Acquisition.Issue.Effect.{issue-record_bearer, issue-IsIssued}
use skarbiec.Access.Acquisition.Trace.{Event, asking, presenting, step, run, Before}

-- A proof's hash is on record until `end`.
abbrev Remembered : String → ℕ → State → Type 0
Remembered key end s = lookup key s.proofs ≡ some (some end)

purge_expired-Remembered :
    (now : ℕ) (key : String) (end : ℕ) (s : State)
    → now < end
    → Remembered key end s
    → Remembered key end (purge_expired now s)
unfolding purge_expired
purge_expired-Remembered now key end s soon known = rw (lookup-retain, known) (ground arith)

-- Presenting a bearer leaves the state, or takes the bearer out of it.
handed_over-leaves :
    (hash : String) (s : State) (read : Result Stop AcquiredField)
    → ((handed_over hash s read).1 ≡ s) ⊎ ((handed_over hash s read).1 ≡ spent hash s)
handed_over-leaves hash s (ok v) = inr refl
handed_over-leaves hash s (err Stop.unauthorized) = inl refl
handed_over-leaves hash s (err Stop.key_unusable) = inl refl
handed_over-leaves hash s (err Stop.no_item) = inl refl
handed_over-leaves hash s (err Stop.not_exact) = inl refl
handed_over-leaves hash s (err Stop.unreadable) = inl refl
handed_over-leaves hash s (err Stop.field_missing) = inl refl
handed_over-leaves hash s (err Stop.collision) = inl refl
handed_over-leaves hash s (err Stop.unmanaged) = inl refl

pub consume-leaves :
    (env : Env) (consumer presented item field : String) (s : State)
    → ((consume env consumer presented item field s).1 ≡ s)
      ⊎ ((consume env consumer presented item field s).1 ≡ spent (env.sha256_hex presented) s)
unfolding consume consume_held
consume-leaves env consumer presented item field s =
    let hash = env.sha256_hex presented in
    elim (Bool-cases (is_presentable consumer presented item field)) [
      | inr refused ↦ inl (ground arith)
      | inl shaped ↦ elim (Option-cases (lookup hash s.tokens)) [
        | inl unknown ↦ inl (ground arith)
        | inr (b, held) ↦ elim (Bool-cases (expires_after env.now b.expires_at)) [
          | inr ended ↦ inr (ground arith)
          | inl unexpired ↦ elim (Bool-cases (is_bound b consumer item field)) [
            | inr elsewhere ↦ inl (ground arith)
            | inl bound ↦
                let made : consume env consumer presented item field s
                    ≡ handed_over hash s (read_bound env consumer item field) =
                  ground arith in
                rw made (handed_over-leaves hash s (read_bound env consumer item field))
          ]
        ]
      ]
    ]

consume-proofs :
    (env : Env) (consumer presented item field : String) (s : State)
    → (consume env consumer presented item field s).1.proofs ≡ s.proofs
consume-proofs env consumer presented item field s =
    elim (consume-leaves env consumer presented item field s) [
      | inl kept ↦ ap (λ (x : State). x.proofs) kept
      | inr gone ↦ ap (λ (x : State). x.proofs) gone
    ]

issue-Remembered :
    (env : Env) (a : Asked) (s : State) (key : String) (end : ℕ) {x : String × ℕ} {s' : State}
    → env.now < end
    → issue env a s ≡ ok (x, s')
    → Remembered key end s
    → Remembered key end s'
issue-Remembered env a s key end {x} {s'} soon h known =
    let i = issue-IsIssued env a s h in
    let live = purge_expired-Remembered env.now key end s soon known in
    let proof = env.sha256_hex (proof_text a) in
    elim (Bool-cases (str_eq proof key)) [
      | inl same ↦
          let one : proof ≡ key = (eq_iff proof key).0 same in
          absurd (ground (arith, rw one at i.unspent, live))
      | inr other ↦ rw (issue-record_bearer env a s h) (
          unfold record_bearer in
          rw (lookup-insert proof key (some x.1) (purge_expired env.now s).proofs, other) live)
    ]

issue-records :
    (env : Env) (a : Asked) (s : State) {x : String × ℕ} {s' : State}
    → issue env a s ≡ ok (x, s')
    → Remembered (env.sha256_hex (proof_text a)) x.1 s'
issue-records env a s {x} {s'} h =
    let i = issue-IsIssued env a s h in
    rw (issue-record_bearer env a s h) (
      unfold record_bearer in
      lookup-insert_self (env.sha256_hex (proof_text a)) (some x.1)
        (purge_expired env.now s).proofs)

step-Remembered :
    (e : Event) (s : State) (key : String) (end : ℕ) (hash : String → String)
    → Before end hash e
    → Remembered key end s
    → Remembered key end (step s e)
unfolding step
step-Remembered (asking env a) s key end hash (soon, same) known =
    elim (Result-cases (issue env a s)) [
      | inr (e, refused) ↦ rw refused known
      | inl ((x, s'), issued) ↦ rw issued (issue-Remembered env a s key end soon issued known)
    ]
step-Remembered (presenting env consumer presented item field) s key end hash b known =
    rw (consume-proofs env consumer presented item field s) known

run-Remembered :
    (es : List Event) (s : State) (key : String) (end : ℕ) (hash : String → String)
    → All (Before end hash) es
    → Remembered key end s
    → Remembered key end (run s es)
unfolding run
run-Remembered [] s key end hash soon known = known
run-Remembered (e ∷ es) s key end hash (soon, later) known =
    run-Remembered es (step s e) key end hash later (step-Remembered e s key end hash soon known)

-- A proof is accepted once: after a bearer was issued, and whatever is asked and presented before
-- the end of its grant, a request with the same workload and nonce before that end is refused.
pub proof_once :
    (env env' : Env) (a a' : Asked) (s : State) (es : List Event) {x : String × ℕ} {s' : State}
    → issue env a s ≡ ok (x, s')
    → a'.workload_id ≡ a.workload_id
    → a'.nonce ≡ a.nonce
    → env'.sha256_hex ≡ env.sha256_hex
    → env'.now < x.1
    → All (Before x.1 env.sha256_hex) es
    → (y : (String × ℕ) × State) → issue env' a' (run s' es) ≢ ok y
proof_once env env' a a' s es {x} {s'} h same_workload same_nonce same_hash soon others y again =
    let key = env.sha256_hex (proof_text a) in
    let known = run-Remembered es s' key x.1 env.sha256_hex others (issue-records env a s h) in
    let live = purge_expired-Remembered env'.now key x.1 (run s' es) soon known in
    let i =
      issue-IsIssued env' a' (run s' es) {token = y.0.0} {expires_at = y.0.1} {s' = y.1} again in
    let one : env'.sha256_hex (proof_text a') ≡ key =
      rw (same_hash, same_workload, same_nonce) refl in
    ground (arith, rw one at i.unspent, live)
