-- ===== src/Access/Acquisition/Issue/Effect.antt =====
-- What an issued bearer and a spent one have gone through.
use skarbiec.Prelude.{
  ℕ, ◌≤◌, ◌<◌, ◌⊎◌, refl, String, true, false, ◌≡◌, ◌≢◌, ap, Option, none, some, arith, eq_iff,
  Result, ok, err, inl, inr, Bool-cases, Result-cases, Option-cases,
}
use skarbiec.Prelude.Text.{same_text}
use skarbiec.Prelude.Dict.{lookup, contains_key, lookup-insert_self}
use skarbiec.Access.Grant.{
  Token, AcquisitionGrant, acquisition_grant, active, allows, expires_after,
}
use skarbiec.Access.Acquisition.Proof.{workload_payload, verify_workload_proof, item_for}
use skarbiec.Access.Acquisition.State.{Bearer, State, purge_expired}
use skarbiec.Access.Acquisition.Issue.{
  Env, Asked, AcquiredField, Stop, unauthorized, key_unusable, no_item, not_exact, unreadable,
  field_missing, collision, unmanaged, handed_over, admit, issue, record_bearer, validate_target,
  proof_text, newest_of, is_late, read_bound, consume, consume_held, spent, is_bound,
}

-- The grant behind a bearer: the consumer's entry is live, names this field for acquiring, and the
-- proof over exactly this request verifies against the workload's key.
pub record IsAdmitted (env : Env) (a : Asked) (expires_at : ℕ) : Type 0 where
  pub entry : Token
  pub registered : lookup a.consumer env.tokens ≡ some entry
  pub live : active env.now entry ≡ true
  pub allowed : allows "acquire" a.item (some a.field) entry.capabilities ≡ true
  pub key : String
  pub has_key : entry.workload_public_key ≡ some key
  pub ends : entry.expires_at ≡ some expires_at
  pub proved :
      verify_workload_proof env.verify key
        (workload_payload a.consumer a.item a.field a.workload_id a.timestamp a.nonce)
        a.signature
      ≡ some true
  pub signed_before : a.timestamp ≤ env.now

record IsLent (env : Env) (a : Asked) (g : AcquisitionGrant) : Type 0 where
  entry : Token
  registered : lookup a.consumer env.tokens ≡ some entry
  live : active env.now entry ≡ true
  allowed : allows "acquire" a.item (some a.field) entry.capabilities ≡ true
  has_key : entry.workload_public_key ≡ some g.public_key
  ends : entry.expires_at ≡ some g.expires_at

acquisition_grant-IsLent :
    (env : Env) (a : Asked) {g : AcquisitionGrant}
    → acquisition_grant env.tokens env.now a.consumer a.item a.field ≡ some g
    → IsLent env a g
unfolding acquisition_grant
acquisition_grant-IsLent env a {g} h = elim (Option-cases (lookup a.consumer env.tokens)) [
  | inl unknown ↦ absurd (ground arith)
  | inr (entry, registered) ↦ elim (Option-cases entry.workload_public_key) [
    | inl no_key ↦ absurd (ground arith)
    | inr (key, keyed) ↦ elim (Option-cases entry.expires_at) [
      | inl no_end ↦ absurd (ground arith)
      | inr (at, ended) ↦ record {
        entry = entry;
        registered = registered;
        live = ground arith;
        allowed = ground arith;
        has_key = ground arith;
        ends = ground arith;
      }
    ]
  ]
]

admit-IsAdmitted :
    (env : Env) (a : Asked) {expires_at : ℕ}
    → admit env a ≡ ok expires_at
    → IsAdmitted env a expires_at
unfolding admit
admit-IsAdmitted env a {expires_at} h =
    elim (Option-cases (acquisition_grant env.tokens env.now a.consumer a.item a.field)) [
      | inl no_grant ↦ absurd (ground arith)
      | inr (g, granted) ↦
          let l = acquisition_grant-IsLent env a granted in
          elim (Option-cases (
            verify_workload_proof env.verify g.public_key
              (workload_payload a.consumer a.item a.field a.workload_id a.timestamp a.nonce)
              a.signature)) [
                | inl unusable ↦ absurd (ground arith)
                | inr (good, verdict) ↦ elim (Option-cases (item_for env.tagged_items a.item)) [
                  | inl nowhere ↦ absurd (ground arith)
                  | inr (item, found) ↦ elim (Result-cases (validate_target env item a.field)) [
                    | inr (e, bad) ↦ absurd (ground arith)
                    | inl (u, valid) ↦
                        let same : g.expires_at ≡ expires_at = ground arith in
                        record {
                          entry = l.entry;
                          registered = l.registered;
                          live = l.live;
                          allowed = l.allowed;
                          key = g.public_key;
                          has_key = l.has_key;
                          ends = rw same at l.ends;
                          proved = ground arith;
                          signed_before = ground arith;
                        }
                  ]
                ]
              ]
    ]

-- The newest proof on record for the workload, if there is one, is not newer than this one.
abbrev pub IsTimely : ℕ → Option ℕ → Type 0
IsTimely timestamp newest = (newest ≡ none) ⊎ ((n : ℕ) × (newest ≡ some n) × (n ≤ timestamp))

not_late-IsTimely :
    (timestamp : ℕ) (newest : Option ℕ)
    → is_late timestamp newest ≡ false
    → IsTimely timestamp newest
not_late-IsTimely timestamp none h = inl refl
not_late-IsTimely timestamp (some n) h = inr (n, refl, ground (arith, h))

-- The bearer that is kept: for this consumer, coordinate, field and workload, until the grant ends.
pub record IsBearer (a : Asked) (expires_at : ℕ) (b : Bearer) : Type 0 where
  pub for_consumer : b.consumer ≡ some a.consumer
  pub for_item : b.item ≡ some a.item
  pub for_field : b.field ≡ some a.field
  pub for_workload : b.workload_id ≡ some a.workload_id
  pub ends : b.expires_at ≡ some expires_at

-- An issued bearer: admitted under a grant that ends at `expires_at` and has not ended, not older
-- than the workload's newest live proof, with a proof that was not spent. The state that is left has
-- the bearer, the spent proof and the workload's newest proof, each until the grant ends.
pub record IsIssued (env : Env) (a : Asked) (s : State) (token : String) (expires_at : ℕ)
    (s' : State) : Type 0 where
  pub admitted : IsAdmitted env a expires_at
  pub unended : env.now < expires_at
  pub timely :
      IsTimely a.timestamp (newest_of (lookup a.workload_id (purge_expired env.now s).workloads))
  pub unspent :
      contains_key (env.sha256_hex (proof_text a)) (purge_expired env.now s).proofs ≡ false
  pub minted : token ≡ env.random_token
  pub b : Bearer
  pub is_bearer : IsBearer a expires_at b
  pub held : lookup (env.sha256_hex token) s'.tokens ≡ some b
  pub spends : lookup (env.sha256_hex (proof_text a)) s'.proofs ≡ some (some expires_at)
  pub newest :
      lookup a.workload_id s'.workloads
      ≡ some (record { newest = some a.timestamp; expires_at = some expires_at })

IsAdmitted-unended :
    (env : Env) (a : Asked) {expires_at : ℕ} → IsAdmitted env a expires_at → env.now < expires_at
unfolding active
IsAdmitted-unended env a i = ground (arith, i.live, i.ends)

-- What is saved, as the code writes it.
pub issue-record_bearer :
    (env : Env) (a : Asked) (s : State) {token : String} {expires_at : ℕ} {s' : State}
    → issue env a s ≡ ok ((token, expires_at), s')
    → s' ≡ record_bearer env a expires_at (purge_expired env.now s)
unfolding issue
issue-record_bearer env a s h = elim (Result-cases (admit env a)) [
  | inr (e, bad) ↦ absurd (ground arith)
  | inl (at, admitted) ↦ ground arith
]

-- A bearer is issued only under a live acquire grant for exactly that field, to a workload whose
-- proof over exactly this request verifies against the grant's key. The proof is not from the
-- future, not older than the newest live one that this workload spent, and not spent itself. The
-- bearer, for this consumer, coordinate, field and workload, is kept until the grant ends, and so
-- are the proof, as spent, and its time, as the workload's newest.
pub issue-IsIssued :
    (env : Env) (a : Asked) (s : State) {token : String} {expires_at : ℕ} {s' : State}
    → issue env a s ≡ ok ((token, expires_at), s')
    → IsIssued env a s token expires_at s'
unfolding issue record_bearer
issue-IsIssued env a s {token} {expires_at} {s'} h = elim (Result-cases (admit env a)) [
  | inr (e, bad) ↦ absurd (ground arith)
  | inl (at, admitted) ↦
      let same : at ≡ expires_at = ground arith in
      let saved = issue-record_bearer env a s h in
      let in_grant = admit-IsAdmitted env a (rw same at admitted) in
      let live = purge_expired env.now s in
      let minted : token ≡ env.random_token = ground arith in
      record {
        admitted = in_grant;
        unended = IsAdmitted-unended env a in_grant;
        timely =
            not_late-IsTimely a.timestamp (newest_of (lookup a.workload_id live.workloads))
              (ground arith);
        unspent = ground arith;
        minted = minted;
        b = record {
          consumer = some a.consumer;
          item = some a.item;
          field = some a.field;
          expires_at = some expires_at;
          workload_id = some a.workload_id;
        };
        is_bearer = record {
          for_consumer = refl;
          for_item = refl;
          for_field = refl;
          for_workload = refl;
          ends = refl;
        };
        held =
            rw (saved, minted) (lookup-insert_self (env.sha256_hex env.random_token) _ live.tokens);
        spends = rw saved (lookup-insert_self (env.sha256_hex (proof_text a)) _ live.proofs);
        newest = rw saved (lookup-insert_self a.workload_id _ live.workloads);
      }
]

-- A spent bearer was held for exactly this consumer, coordinate and field, and had not ended.
pub record IsSpent (env : Env) (consumer presented item field : String) (s : State)
    (v : AcquiredField) (s' : State) : Type 0 where
  pub b : Bearer
  pub held : lookup (env.sha256_hex presented) s.tokens ≡ some b
  pub for_consumer : b.consumer ≡ some consumer
  pub for_item : b.item ≡ some item
  pub for_field : b.field ≡ some field
  pub unexpired : expires_after env.now b.expires_at ≡ true
  pub value : read_bound env consumer item field ≡ ok v
  pub removed : s' ≡ spent (env.sha256_hex presented) s

same_text-some : (o : Option String) (t : String) → same_text o (some t) ≡ true → o ≡ some t
same_text-some none t h = cc
same_text-some (some s) t h = ground (arith, eq_iff s t)

-- A refused read hands nothing over.
handed_over-refused :
    (hash : String) (s : State) (e : Stop) {v : AcquiredField}
    → (handed_over hash s (err e)).0 ≢ ok (some v)
handed_over-refused hash s unauthorized h = cc
handed_over-refused hash s key_unusable h = cc
handed_over-refused hash s no_item h = cc
handed_over-refused hash s not_exact h = cc
handed_over-refused hash s unreadable h = cc
handed_over-refused hash s field_missing h = cc
handed_over-refused hash s collision h = cc
handed_over-refused hash s unmanaged h = cc

consume_held-IsSpent :
    (env : Env) (consumer presented item field : String) (s : State) (b : Bearer)
    {v : AcquiredField} {s' : State}
    → lookup (env.sha256_hex presented) s.tokens ≡ some b
    → consume_held env consumer (env.sha256_hex presented) item field s b ≡ (ok (some v), s')
    → IsSpent env consumer presented item field s v s'
unfolding consume_held
consume_held-IsSpent env consumer presented item field s b {v} {s'} held h =
    elim (Bool-cases (expires_after env.now b.expires_at)) [
      | inr ended ↦ absurd (ground arith)
      | inl unexpired ↦ elim (Bool-cases (is_bound b consumer item field)) [
        | inr elsewhere ↦ absurd (ground arith)
        | inl bound ↦
            let hash = env.sha256_hex presented in
            let gave : handed_over hash s (read_bound env consumer item field) ≡ (ok (some v), s') =
              ground arith in
            elim (Result-cases (read_bound env consumer item field)) [
              | inr (e, bad) ↦ absurd (
                  handed_over-refused hash s e
                    (ap (λ (x : Result Stop (Option AcquiredField) × State). x.0) (rw bad at gave)))
              | inl (a, read) ↦
                  let got : handed_over hash s (ok a) ≡ (ok (some v), s') = rw read at gave in
                  record {
                    b = b;
                    held = held;
                    for_consumer = same_text-some b.consumer consumer (ground arith);
                    for_item = same_text-some b.item item (ground arith);
                    for_field = same_text-some b.field field (ground arith);
                    unexpired = unexpired;
                    value = ground arith;
                    removed = ground arith;
                  }
            ]
      ]
    ]

-- A presented bearer gives a value only where it is held for exactly this consumer, coordinate and
-- field and has not ended; the value is what the coordinate reads as, and the bearer is then gone.
pub consume-IsSpent :
    (env : Env) (consumer presented item field : String) (s : State) {v : AcquiredField}
    {s' : State}
    → consume env consumer presented item field s ≡ (ok (some v), s')
    → IsSpent env consumer presented item field s v s'
unfolding consume
consume-IsSpent env consumer presented item field s {v} {s'} h =
    elim (Option-cases (lookup (env.sha256_hex presented) s.tokens)) [
      | inl unknown ↦ absurd (ground arith)
      | inr (b, held) ↦
          consume_held-IsSpent env consumer presented item field s b held (ground arith)
    ]
