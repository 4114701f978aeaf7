-- ===== src/Access/Capability/Issue/Bounds.antt =====
-- What the flags of an issue are held to, and what a capability just issued is good for.
use skarbiec.Prelude.{
  ℕ, ◌+◌, ◌^◌, ◌<◌, String, false, ◌≡◌, Option, none, some, arith, ok, Option-cases, Result-cases,
  inl, inr, ltb, ap, eq_iff,
}
use skarbiec.Prelude.Text.{parse_nonzero, parse_nonzero_pos}
use skarbiec.Prelude.Dict.{lookup, lookup-insert_self, keep_if}
use skarbiec.Access.Capability.State.{Record, State, is_live, redeemable}
use skarbiec.Access.Capability.Journal.{Disk, replay, load_state, save_entry}
use skarbiec.Access.Capability.Issue.{IssueEnv, Flags, asked, issue, live, is_redeemable}
use skarbiec.Access.Capability.Issue.Effect.{issue-IsIssued, with_record}
use skarbiec.Access.Capability.Journal.Replay.{
  load_state-whole, save_entry-whole, load_state_of_whole,
}
use skarbiec.Access.Capability.State.Forget.{forget_stale-lookup}

abbrev pub number_of : Option String → Option ℕ
number_of none = none
number_of (some raw) = parse_nonzero raw

-- The record that is issued for the flags.
pub record IsAsked (env : IssueEnv) (flags : Flags) (r : Record) : Type 0 where
  pub ttl : ℕ
  pub max_uses : ℕ
  pub stated_ttl : number_of flags.ttl ≡ some ttl
  pub stated_uses : number_of flags.max_uses ≡ some max_uses
  pub some_time : 0 < ttl
  pub some_use : 0 < max_uses
  pub issued : r.state ≡ some "issued"
  pub expires : r.expires_at ≡ some (env.now + ttl)
  pub uses : r.remaining_uses ≡ some max_uses
  pub fits : env.now + ttl < 2 ^ 64

number_pos : (o : Option String) {n : ℕ} → number_of o ≡ some n → 0 < n
number_pos (some raw) e = (parse_nonzero_pos raw e).0
number_pos none e = cc

-- A capability is issued only with a lifetime and a number of uses that its issuer stated, each at
-- least one, and its expiry is the stated lifetime after now and fits a machine word.
pub asked-IsAsked :
    (env : IssueEnv) (flags : Flags) {r : Record} → asked env flags ≡ ok r → IsAsked env flags r
unfolding asked
asked-IsAsked env flags e = elim (Option-cases (number_of flags.ttl)) [
  | inl no_ttl ↦ absurd (ground arith)
  | inr (ttl, given) ↦ elim (Option-cases (number_of flags.max_uses)) [
    | inl no_uses ↦ absurd (ground arith)
    | inr (uses, counted) ↦ record {
      ttl = ttl;
      max_uses = uses;
      stated_ttl = given;
      stated_uses = counted;
      some_time = number_pos flags.ttl given;
      some_use = number_pos flags.max_uses counted;
      issued = ground arith;
      expires = ground arith;
      uses = ground arith;
      fits = ground arith;
    }
  ]
]

issue-whole :
    (env : IssueEnv) (flags : Flags) (d : Disk) {id : String} {d' : Disk}
    → issue env flags d ≡ ok (id, d')
    → d'.torn ≡ false
unfolding issue
issue-whole env flags d {id} {d'} h = elim (Result-cases (asked env flags)) [
  | inr (e, bad) ↦ absurd (ground arith)
  | inl (r, good) ↦ elim (Result-cases (load_state env.now d)) [
    | inr (e, bad) ↦ absurd (ground arith)
    | inl ((s, d1), loaded) ↦
        let held = with_record s env.fresh_id r in
        elim (Result-cases (save_entry env.outweighed held env.fresh_id none d1)) [
          | inr (e, bad) ↦ absurd (ground arith)
          | inl (d2, saved) ↦
              let whole =
                save_entry-whole env.outweighed held env.fresh_id none d1
                  (load_state-whole env.now d loaded) saved in
              ground (arith, whole)
        ]
  ]
]

fresh_is_redeemable :
    (env : IssueEnv) (flags : Flags) (r : Record) (now' : ℕ) (v : IsAsked env flags r)
    → is_redeemable now' (keep_if (is_live now') (some r)) ≡ ltb now' (env.now + v.ttl)
unfolding redeemable
fresh_is_redeemable env flags r now' v =
    ground (arith, v.some_use, v.issued, v.expires, v.uses, eq_iff "issued" "issued")

-- A capability that was issued can be redeemed from then on until its stated lifetime is over, and
-- not after it.
pub live-issue :
    (env : IssueEnv) (flags : Flags) (d : Disk) {raw : State} {id : String} {d' : Disk} {ttl : ℕ}
    → replay d.journal ≡ ok raw
    → number_of flags.ttl ≡ some ttl
    → issue env flags d ≡ ok (id, d')
    → (now' : ℕ) → live now' id d' ≡ ok (ltb now' (env.now + ttl))
unfolding live
live-issue env flags d {id} {d'} {ttl} replayed stated h now' =
    let i = issue-IsIssued env flags d replayed h in
    let v = asked-IsAsked env flags i.asked_for in
    let held : lookup id i.after.capabilities ≡ some i.r =
      rw (i.issued.made, i.named)
        (lookup-insert_self env.fresh_id i.r i.issued.base.capabilities) in
    let same_ttl : v.ttl ≡ ttl = cc (stated, v.stated_ttl) in
    rw
      (
        load_state_of_whole now' d' (issue-whole env flags d h) i.replayed,
        forget_stale-lookup now' i.after id,
        held,
        ← same_ttl,
      )
      (ap ok (fresh_is_redeemable env flags i.r now' v))
