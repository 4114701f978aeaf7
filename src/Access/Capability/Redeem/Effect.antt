-- ===== src/Access/Capability/Redeem/Effect.antt =====
-- What one redemption does to the state that the journal replays to.
use skarbiec.Prelude.{
  ℕ, String, true, false, ◌≡◌, refl, ◌∙◌, ◌⊎◌, inl, inr, Option, none, some, arith, Result, ok, err,
  Bool-cases, if◌then◌else◌, str_eq, eq_iff, eq_refl,
}
use skarbiec.Prelude.Dict.{lookup, lookup-insert}
use skarbiec.Access.Capability.State.{Record, State, forget_stale}
use skarbiec.Access.Capability.Journal.{Fault, Disk, replay, load_state, save_entry}
use skarbiec.Access.Capability.Journal.Replay.{
  Recorded, noted, load_state-replay, save_entry-Recorded,
}
use skarbiec.Access.Capability.Request.{
  Answer, listening, denied, pending, cancelled, secret, Shaped, nonce_key,
}
use skarbiec.Access.Capability.Redeem.{
  Env, Fields, Stop, check, read_value, see_nonce, put_record, spend, saving, delivered, stopped,
  refuse, fail, is_challenge, after_read, after_check, serve, after_load, redeem,
}

-- `s` is `base` with the record and the nonce put in, read by key.
pub record Updated (base : State) (id : String) (r : Record) (key : String) (now : ℕ) (s : State)
    : Type 0 where
  pub capability :
      (j : String)
      → lookup j s.capabilities ≡ (if str_eq id j then some r else lookup j base.capabilities)
  pub nonce :
      (k : String) → lookup k s.nonces ≡ (if str_eq key k then some now else lookup k base.nonces)

module _ (id : String) (r : Record) (key : String) (now : ℕ) where
  noted-Updated : (base : State) → Updated base id r key now (noted base id r key now)
  noted-Updated base = record {
    capability = λ j. lookup-insert id j r base.capabilities;
    nonce = λ k. lookup-insert key k now base.nonces;
  }

  held_at : {base s : State} → Updated base id r key now s → lookup id s.capabilities ≡ some r
  held_at u = u.capability id ∙ rw (eq_refl id)

  seen_at : {base s : State} → Updated base id r key now s → lookup key s.nonces ≡ some now
  seen_at u = u.nonce key ∙ rw (eq_refl key)

  -- A saved update of the loaded state is one of the state that the journal replayed to, or of the
  -- loaded state itself.
  Recorded-Updated :
      {raw loaded s after : State}
      → Updated loaded id r key now s
      → Recorded raw s id key after
      → (base : State) × ((base ≡ raw) ⊎ (base ≡ loaded)) × Updated base id r key now after
  Recorded-Updated {raw} {loaded} {s} {after} u w = elim w.shape [
    | inl whole ↦ (loaded, inr refl, rw whole u)
    | inr longer ↦ (raw, inl refl, rw (longer, same_record, same_time) (noted-Updated raw))
  ]
    where
      same_record : w.r ≡ r
      same_record = cc (w.held, held_at u)

      same_time : w.seen ≡ now
      same_time = cc (w.dated, seen_at u)

-- An answer that neither hands over, cancels nor waits.
abbrev pub IsQuiet : Result Fault Answer → Type 0
IsQuiet (err f) = Unit
IsQuiet (ok listening) = Unit
IsQuiet (ok (denied why)) = Unit
IsQuiet (ok pending) = ⊥
IsQuiet (ok cancelled) = ⊥
IsQuiet (ok (secret v)) = ⊥

-- How an answer that records something came about, and the record that it leaves.
abbrev pub Outcome : Env → Shaped → Record → Fields → Answer → Record → Type 0
Outcome env c r f pending r' = (c.cancel ≡ false) × (read_value env f.resource ≡ ok none) × (r' ≡ r)
Outcome env c r f cancelled r' = (c.cancel ≡ true) × (r' ≡ record r { state = some "cancelled" })
Outcome env c r f (secret v) r' =
    (c.cancel ≡ false) × (read_value env f.resource ≡ ok (some v)) × (r' ≡ spend f.remaining r)
Outcome env c r f (denied why) r' = ⊥
Outcome env c r f listening r' = ⊥

pub record Change (env : Env) (c : Shaped) (raw : State) (a : Answer) (after : State) : Type 0 where
  pub r : Record
  pub f : Fields
  pub r' : Record
  pub base : State
  pub checked : check env c (forget_stale env.now raw) ≡ ok (r, f)
  pub outcome : Outcome env c r f a r'
  pub from : (base ≡ raw) ⊎ (base ≡ forget_stale env.now raw)
  pub updated : Updated base c.capability_id r' (nonce_key c.capability_id c.nonce) env.now after

pub data Effect (env : Env) (c : Shaped) (raw : State) : Result Fault Answer → State → Type 0 where
  idle : {res : Result Fault Answer} → IsQuiet res → Effect env c raw res raw
  changed :
      {a : Answer} {res : Result Fault Answer} {after : State}
      → res ≡ delivered env a
      → Change env c raw a after
      → Effect env c raw res after

-- An answer that arrives is the one that was meant.
pub delivered-ok : (env : Env) (a : Answer) {b : Answer} → delivered env a ≡ ok b → a ≡ b
delivered-ok env listening e = cc
delivered-ok env (denied why) e = cc
delivered-ok env pending e = cc
delivered-ok env cancelled e = ground arith
delivered-ok env (secret v) e = ground arith

module _ (env : Env) (c : Shaped) where
  put_record-Updated :
      (loaded : State) (r' : Record)
      → Updated loaded c.capability_id r'
          (nonce_key c.capability_id c.nonce)
          env.now
          (put_record c r' (see_nonce env c loaded))
  unfolding see_nonce
  put_record-Updated loaded r' =
      noted-Updated c.capability_id r' (nonce_key c.capability_id c.nonce) env.now loaded

  see_nonce-Updated :
      (loaded : State) (r : Record)
      → lookup c.capability_id loaded.capabilities ≡ some r
      → Updated loaded c.capability_id r
          (nonce_key c.capability_id c.nonce)
          env.now
          (see_nonce env c loaded)
  unfolding see_nonce
  see_nonce-Updated loaded r e = record {
    capability = λ j. ground (arith, eq_iff c.capability_id j);
    nonce = λ k. lookup-insert (nonce_key c.capability_id c.nonce) k env.now loaded.nonces;
  }

  check-lookup :
      (s : State) {r : Record} {f : Fields}
      → check env c s ≡ ok (r, f)
      → lookup c.capability_id s.capabilities ≡ some r
  unfolding check
  check-lookup s h = ground arith

  -- A result whose disk replays to a state that the redemption leads to.
  abbrev pub Leads : State → Result Fault Answer × Disk → Type 0
  Leads raw out = (after : State) × (replay out.1.journal ≡ ok after) × Effect env c raw out.0 after

  saving-Leads :
      (raw s : State) (a : Answer) (d : Disk) (r r' : Record) (f : Fields)
      → replay d.journal ≡ ok raw
      → check env c (forget_stale env.now raw) ≡ ok (r, f)
      → Outcome env c r f a r'
      → Updated
          (forget_stale env.now raw)
          c.capability_id
          r'
          (nonce_key c.capability_id c.nonce)
          env.now
          s
      → Leads raw (saving env c s a d)
  saving-Leads raw s a d r r' f replayed checked outcome u =
      go (save_entry env.outweighed s c.capability_id (some (nonce_key c.capability_id c.nonce)) d)
        refl
    where
      go :
          (m : Result Fault Disk)
          → save_entry env.outweighed s c.capability_id (some (nonce_key c.capability_id c.nonce)) d
            ≡ m
          → Leads raw (elim m [ err g ↦ (err g, d) | ok d' ↦ (delivered env a, d') ])
      go (err g) e = (raw, replayed, idle tt)
      go (ok d') e =
          let (after, replayed', recorded) =
            save_entry-Recorded env.outweighed s _ _ d replayed e in
          let (base, from, updated) = Recorded-Updated _ r' _ env.now u recorded in
          (
            after,
            replayed',
            changed refl (record {
              r = r;
              f = f;
              r' = r';
              base = base;
              checked = checked;
              outcome = outcome;
              from = from;
              updated = updated;
            }),
          )

  stopped-Leads :
      (raw : State) (d : Disk) (stop : Stop)
      → replay d.journal ≡ ok raw
      → Leads raw (stopped stop d)
  stopped-Leads raw d (refuse why) replayed = (raw, replayed, idle tt)
  stopped-Leads raw d (fail f) replayed = (raw, replayed, idle tt)

  module _ (raw : State) (d : Disk) (replayed : replay d.journal ≡ ok raw) where
    module _ (r : Record) (f : Fields)
        (checked : check env c (forget_stale env.now raw) ≡ ok (r, f)) where
      seen-Updated :
          Updated
            (forget_stale env.now raw)
            c.capability_id
            r
            (nonce_key c.capability_id c.nonce)
            env.now
            (see_nonce env c (forget_stale env.now raw))
      seen-Updated = see_nonce-Updated _ r (check-lookup _ checked)

      after_read-Leads :
          c.cancel ≡ false
          → (m : Result Stop (Option String)) → read_value env f.resource ≡ m
          → Leads raw (after_read env c (see_nonce env c (forget_stale env.now raw)) r f d m)
      unfolding after_read
      after_read-Leads go (err stop) e = stopped-Leads raw d stop replayed
      after_read-Leads go (ok none) e = elim (Bool-cases (is_challenge f.resource)) [
        | inl waits ↦
            rw waits
              (saving-Leads raw _ pending d r r f replayed checked (go, e, refl) seen-Updated)
        | inr never ↦ rw never (raw, replayed, idle tt)
      ]
      after_read-Leads go (ok (some v)) e =
          saving-Leads raw _ (secret v) d r (spend f.remaining r) f replayed checked (go, e, refl)
            (put_record-Updated _ _)

    after_check-Leads :
        (m : Result Stop (Record × Fields))
        → check env c (forget_stale env.now raw) ≡ m
        → Leads raw (after_check env c (forget_stale env.now raw) d m)
    unfolding after_check
    after_check-Leads (err stop) e = stopped-Leads raw d stop replayed
    after_check-Leads (ok (r, f)) e = elim (Bool-cases c.cancel) [
      | inl cancels ↦
          simp cancels (
            saving-Leads raw _ cancelled d r _ f replayed e (cancels, refl)
              (put_record-Updated _ _))
      | inr go ↦ simp go (after_read-Leads r f e go (read_value env f.resource) refl)
    ]

  after_load-Leads :
      (raw : State) (d : Disk)
      → replay d.journal ≡ ok raw
      → (m : Result Fault (State × Disk)) → load_state env.now d ≡ m
      → Leads raw (after_load env c d m)
  unfolding after_load serve
  after_load-Leads raw d replayed (err f) e = (raw, replayed, idle tt)
  after_load-Leads raw d replayed (ok (s, d')) e =
      let (loaded, replayed') = load_state-replay env.now d replayed e in
      rw loaded (after_check-Leads raw d' replayed' _ refl)

  -- One redemption leads from what the journal replayed to, to what it replays to then.
  pub redeem-Leads :
      (raw : State) (d : Disk) → replay d.journal ≡ ok raw → Leads raw (redeem env c d)
  unfolding redeem
  redeem-Leads raw d replayed = after_load-Leads raw d replayed _ refl
