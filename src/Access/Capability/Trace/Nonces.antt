-- ===== src/Access/Capability/Trace/Nonces.antt =====
-- A nonce is accepted once for a capability, however the two requests are apart.
use skarbiec.Prelude.{
  ℕ, String, true, ◌≡◌, refl, ◌∙◌, ◌≢◌, ◌⊎◌, inl, inr, none, some, List, [], ◌∷◌, All, arith,
  Result, ok, Bool-cases, Result-cases, str_eq, eq_iff, eq_refl,
}
use skarbiec.Prelude.Text.{Avoids, split_once}
use skarbiec.Prelude.Dict.{lookup, lookup-retain, lookup-insert}
use skarbiec.Access.Capability.State.{Record, State, forget_stale, is_live, nonce_of_live}
use skarbiec.Access.Capability.State.Forget.{forget_stale-held}
use skarbiec.Access.Capability.Journal.{Fault, Disk, replay}
use skarbiec.Access.Capability.Request.{Answer, Line, Request, Shaped, shape, nonce_key}
use skarbiec.Access.Capability.Request.Shapes.{shape-Avoids, split_once-nonce_key}
use skarbiec.Access.Capability.Redeem.{Env, redeem}
use skarbiec.Access.Capability.Redeem.Lines.{handle-cases}
use skarbiec.Access.Capability.Issue.{IssueEnv, Flags, issue}
use skarbiec.Access.Capability.Issue.Effect.{issue-IsIssued}
use skarbiec.Access.Capability.Trace.{Event, request, issuing, step, run, LeavesId}
use skarbiec.Access.Capability.Redeem.Effect.{IsQuiet, Effect, idle, changed, redeem-Leads}
use skarbiec.Access.Capability.Redeem.Checks.{check-held, check-nonce}

-- The capability is not held, or the nonce is on record.
abbrev pub IsBlocked : String → String → State → Type 0
IsBlocked id key s =
    (lookup id s.capabilities ≡ none) ⊎ ((seen : ℕ) × (lookup key s.nonces ≡ some seen))

module _ (id nonce : String) (h : Avoids b':' id) where
  forget_stale-IsBlocked :
      (now : ℕ) (s : State)
      → IsBlocked id (nonce_key id nonce) s
      → IsBlocked id (nonce_key id nonce) (forget_stale now s)
  unfolding forget_stale
  forget_stale-IsBlocked now s blocked = ground (
    arith,
    lookup-retain (λ _ r. is_live now r) id s.capabilities,
    lookup-retain (λ key _. nonce_of_live (forget_stale now s).capabilities (split_once b':' key))
        (nonce_key id nonce) s.nonces,
    split_once-nonce_key id nonce h,
  )

  base-IsBlocked :
      (now : ℕ) {raw base : State}
      → (base ≡ raw) ⊎ (base ≡ forget_stale now raw)
      → IsBlocked id (nonce_key id nonce) raw
      → IsBlocked id (nonce_key id nonce) base
  base-IsBlocked now (inl e) blocked = rw e blocked
  base-IsBlocked now {raw} (inr e) blocked = rw e (forget_stale-IsBlocked now raw blocked)

  -- A request for a capability that is held finds the nonce on record.
  held_is_seen :
      (id' : String) (s : State) {r : Record}
      → str_eq id' id ≡ true
      → lookup id' s.capabilities ≡ some r
      → IsBlocked id (nonce_key id nonce) s
      → (seen : ℕ) × (lookup (nonce_key id nonce) s.nonces ≡ some seen)
  held_is_seen id' s same held (inl gone) = absurd (ground (arith, eq_iff id' id))
  held_is_seen id' s same held (inr seen) = seen

  Effect-IsBlocked :
      (env : Env) (c : Shaped) (raw : State) {res : Result Fault Answer} {after : State}
      → Effect env c raw res after
      → IsBlocked id (nonce_key id nonce) raw
      → IsBlocked id (nonce_key id nonce) after
  Effect-IsBlocked env c raw (idle quiet) blocked = blocked
  Effect-IsBlocked env c raw {after} (changed arrives change) blocked =
      elim (Bool-cases (str_eq c.capability_id id)) [
        | inl same ↦
            let (t, e) = seen_in_base same in
            elim (Bool-cases (str_eq (nonce_key c.capability_id c.nonce) (nonce_key id nonce))) [
              | inl now_seen ↦
                  inr (env.now, change.updated.nonce (nonce_key id nonce) ∙ rw now_seen)
              | inr other ↦ inr (t, change.updated.nonce (nonce_key id nonce) ∙ rw other e)
            ]
        | inr other ↦ ground (
          arith,
          base-IsBlocked env.now change.from blocked,
          change.updated.capability id,
          change.updated.nonce (nonce_key id nonce),
        )
      ]
    where
      loaded : lookup c.capability_id (forget_stale env.now raw).capabilities ≡ some change.r
      loaded = check-held env c (forget_stale env.now raw) change.checked

      base_holds :
          (change.base ≡ raw) ⊎ (change.base ≡ forget_stale env.now raw)
          → lookup c.capability_id change.base.capabilities ≡ some change.r
      base_holds (inl e) = rw e (forget_stale-held env.now raw c.capability_id loaded)
      base_holds (inr e) = rw e loaded

      seen_in_base :
          str_eq c.capability_id id ≡ true
          → (seen : ℕ) × (lookup (nonce_key id nonce) change.base.nonces ≡ some seen)
      seen_in_base same =
          held_is_seen c.capability_id change.base same (base_holds change.from)
            (base-IsBlocked env.now change.from blocked)

  -- A blocked nonce gets no answer that records anything.
  Effect-IsQuiet_of_IsBlocked :
      (env : Env) (c : Shaped) (raw : State) {res : Result Fault Answer} {after : State}
      → c.capability_id ≡ id
      → c.nonce ≡ nonce
      → Effect env c raw res after
      → IsBlocked id (nonce_key id nonce) raw
      → IsQuiet res
  Effect-IsQuiet_of_IsBlocked env c raw same_id same_nonce (idle quiet) blocked = quiet
  Effect-IsQuiet_of_IsBlocked env c raw same_id same_nonce (changed arrives change) blocked =
      absurd (
        ground (
          arith,
          same_key,
          forget_stale-IsBlocked env.now raw blocked,
          check-held env c (forget_stale env.now raw) change.checked,
          check-nonce env c (forget_stale env.now raw) change.checked,
        ))
    where
      same_key : nonce_key c.capability_id c.nonce ≡ nonce_key id nonce
      same_key = rw (same_id, same_nonce)

  -- Any other answer leaves the nonce blocked.
  Effect-IsBlocked_new :
      (env : Env) (c : Shaped) (raw : State) {res : Result Fault Answer} {after : State}
      → c.capability_id ≡ id
      → c.nonce ≡ nonce
      → Effect env c raw res after
      → ¬ IsQuiet res
      → IsBlocked id (nonce_key id nonce) after
  Effect-IsBlocked_new env c raw same_id same_nonce (idle quiet) loud = absurd (loud quiet)
  Effect-IsBlocked_new env c raw same_id same_nonce (changed arrives change) loud = inr (
    env.now,
    rw (← same_id, ← same_nonce)
        (change.updated.nonce _ ∙ rw (eq_refl (nonce_key c.capability_id c.nonce))),
  )

-- What the events of a history keep, if every effect of a redemption or of an issue keeps it.
module _ (id nonce : String) (h : Avoids b':' id) where
  -- The journal replays to a state in which the nonce is blocked.
  abbrev Blocks : Disk → Type 0
  Blocks d = (s : State) × (replay d.journal ≡ ok s) × IsBlocked id (nonce_key id nonce) s

  request-Blocks :
      (d : Disk) (env : Env) (line : Line) → Blocks d → Blocks (step d (request env line))
  unfolding step
  request-Blocks d env line (s, replayed, blocked) = elim (handle-cases env line d) [
    | inl (quiet, same) ↦ rw (same, step) (s, replayed, blocked)
    | inr v ↦
        let (after, replayed', effect) = redeem-Leads env v.c s d replayed in
        rw (v.served, step) (after, replayed', Effect-IsBlocked id nonce h env v.c s effect blocked)
  ]

  issuing-Blocks :
      (d : Disk) (env : IssueEnv) (flags : Flags)
      → env.fresh_id ≢ id
      → Blocks d
      → Blocks (step d (issuing env flags))
  unfolding step
  issuing-Blocks d env flags other (s, replayed, blocked) =
      elim (Result-cases (issue env flags d)) [
        | inr (e, bad) ↦ rw (bad, step) (s, replayed, blocked)
        | inl ((new_id, d'), good) ↦
            let i = issue-IsIssued env flags d replayed good in
            let in_base = base-IsBlocked id nonce h env.now i.issued.from blocked in
            rw (good, step)
              (
                i.after,
                i.replayed,
                ground (
                  arith,
                  in_base,
                  i.issued.made,
                  lookup-insert env.fresh_id id i.r i.issued.base.capabilities,
                  eq_iff env.fresh_id id,
                ),
              )
      ]

  run-Blocks : (d : Disk) (es : List Event) → All (LeavesId id) es → Blocks d → Blocks (run d es)
  unfolding run
  run-Blocks d [] _ b = b
  run-Blocks d (request env line ∷ es) (_, others) b =
      run-Blocks (step d (request env line)) es others (request-Blocks d env line b)
  run-Blocks d (issuing env flags ∷ es) (other, others) b =
      run-Blocks (step d (issuing env flags)) es others (issuing-Blocks d env flags other b)

-- Once a request was answered by a secret, a cancellation or `pending`, every later request of the
-- same capability and nonce is refused or is an error, and records nothing: whatever happened in
-- between, with any clock, as long as the id was not issued again.
pub nonce_once :
    (q q' : Request) (c c' : Shaped) (env env' : Env) (raw : State) (d : Disk) (es : List Event)
    → shape q ≡ ok c
    → shape q' ≡ ok c'
    → c'.capability_id ≡ c.capability_id
    → c'.nonce ≡ c.nonce
    → replay d.journal ≡ ok raw
    → ¬ IsQuiet (redeem env c d).0
    → All (LeavesId c.capability_id) es
    → IsQuiet (redeem env' c' (run (redeem env c d).1 es)).0
nonce_once q q' c c' env env' raw d es good good' same_id same_nonce replayed loud others =
    let h = shape-Avoids q good in
    let (first, replayed1, effect) = redeem-Leads env c raw d replayed in
    let blocked = Effect-IsBlocked_new c.capability_id c.nonce h env c raw refl refl effect loud in
    let (later, replayed2, still) =
      run-Blocks c.capability_id c.nonce h (redeem env c d).1 es others
        (first, replayed1, blocked) in
    let (last, replayed3, effect') = redeem-Leads env' c' later _ replayed2 in
    Effect-IsQuiet_of_IsBlocked c.capability_id c.nonce h env' c' later same_id same_nonce effect'
      still
