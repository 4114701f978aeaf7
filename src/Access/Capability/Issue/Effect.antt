-- ===== src/Access/Capability/Issue/Effect.antt =====
-- What issuing a capability does to the state that the journal replays to.
use skarbiec.Prelude.{
  ℕ, String, Bool, ◌≡◌, refl, ◌∙◌, ◌⊎◌, inl, inr, none, some, List, [], ◌∷◌, ◌++◌, arith, ok,
  Option-cases, Result-cases,
}
use skarbiec.Prelude.Dict.{lookup, insert, lookup-insert_self}
use skarbiec.Access.Capability.State.{Record, State, forget_stale}
use skarbiec.Access.Capability.Journal.{
  Entry, Disk, snapshot, capability, apply, replay_from, replay, load_state, save_entry, entries,
  save_state,
}
use skarbiec.Access.Capability.Journal.Replay.{load_state-replay, replay-append, replay-snapshot}
use skarbiec.Access.Capability.Issue.{IssueEnv, Flags, asked, issue}

save_entry-cases :
    (outweighed : List Entry → State → Bool) (s : State) (id : String) (d : Disk) {d' : Disk}
    → save_entry outweighed s id none d ≡ ok d'
    → (r : Record) × (lookup id s.capabilities ≡ some r)
      × ((d'.journal ≡ snapshot s ∷ []) ⊎ (d'.journal ≡ d.journal ++ capability id (some r) ∷ []))
unfolding save_entry entries save_state
save_entry-cases outweighed s id d {d'} h = elim (Option-cases (lookup id s.capabilities)) [
  | inl no_r ↦ absurd (ground arith)
  | inr (r, held) ↦ (r, held, ground arith)
]

abbrev pub with_record : State → String → Record → State
with_record s id r = record s { capabilities = insert id r s.capabilities }

replay_from-line :
    (raw : State) (id : String) (r : Record)
    → replay_from raw (capability id (some r) ∷ []) ≡ ok (with_record raw id r)
unfolding replay_from apply
replay_from-line raw id r = refl

-- `s` is `base` with the issued record put in.
pub record Issued (now : ℕ) (raw : State) (id : String) (r : Record) (after : State) : Type 0 where
  pub base : State
  pub from : (base ≡ raw) ⊎ (base ≡ forget_stale now raw)
  pub made : after ≡ with_record base id r

saved-Issued :
    (env : IssueEnv) (raw : State) (r : Record) (d d' : Disk)
    → replay d.journal ≡ ok raw
    → save_entry env.outweighed
        (with_record (forget_stale env.now raw) env.fresh_id r)
        env.fresh_id
        none
        d
      ≡ ok d'
    → (after : State) × (replay d'.journal ≡ ok after) × Issued env.now raw env.fresh_id r after
saved-Issued env raw r d d' replayed h =
    let loaded = forget_stale env.now raw in
    let s = with_record loaded env.fresh_id r in
    let (r', held, written) = save_entry-cases env.outweighed s env.fresh_id d h in
    let same : r' ≡ r = cc (held, lookup-insert_self env.fresh_id r loaded.capabilities) in
    elim written [
      | inl whole ↦
          (s, rw whole (replay-snapshot s), record { base = loaded; from = inr refl; made = refl })
      | inr longer ↦ (
        with_record raw env.fresh_id r,
        rw (longer, same)
            (replay-append d.journal _ replayed ∙ replay_from-line raw env.fresh_id r),
        record { base = raw; from = inl refl; made = refl },
      )
    ]

-- What was issued: the asked record under the fresh id, in a journal that replays to it.
pub record IsIssued (env : IssueEnv) (flags : Flags) (raw : State) (id : String) (d' : Disk)
    : Type 0 where
  pub r : Record
  pub asked_for : asked env flags ≡ ok r
  pub named : id ≡ env.fresh_id
  pub after : State
  pub replayed : replay d'.journal ≡ ok after
  pub issued : Issued env.now raw env.fresh_id r after

pub issue-IsIssued :
    (env : IssueEnv) (flags : Flags) (d : Disk) {raw : State} {id : String} {d' : Disk}
    → replay d.journal ≡ ok raw
    → issue env flags d ≡ ok (id, d')
    → IsIssued env flags raw id d'
unfolding issue
issue-IsIssued env flags d {raw} {id} {d'} replayed h = elim (Result-cases (asked env flags)) [
  | inr (e, bad) ↦ absurd (ground arith)
  | inl (r, good) ↦ elim (Result-cases (load_state env.now d)) [
    | inr (e, bad) ↦ absurd (ground arith)
    | inl ((s, d1), loaded) ↦
        let (fresh, replayed1) = load_state-replay env.now d replayed loaded in
        elim (Result-cases
          (save_entry env.outweighed (with_record s env.fresh_id r) env.fresh_id none d1)) [
            | inr (e, bad) ↦ absurd (ground arith)
            | inl (d2, saved) ↦
                let same_disk : d' ≡ d2 = ground arith in
                let (after, replayed2, issued) =
                  saved-Issued env raw r d1 d2 replayed1 (rw fresh at saved) in
                record {
                  r = r;
                  asked_for = good;
                  named = ground arith;
                  after = after;
                  replayed = rw same_disk replayed2;
                  issued = issued;
                }
          ]
  ]
]
