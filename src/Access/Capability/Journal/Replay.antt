-- ===== src/Access/Capability/Journal/Replay.antt =====
-- What the journal replays to after a load and after a save.
use skarbiec.Prelude.{
  ℕ, String, Bool, false, ◌≡◌, refl, ◌⊎◌, inl, inr, Option, some, List, [], ◌∷◌, ◌++◌, arith, ◌∙◌,
  ok, err, ◌>>=◌, Option-cases,
}
use skarbiec.Prelude.Dict.{lookup, insert}
use skarbiec.Access.Capability.State.{Record, State, empty, forget_stale}
use skarbiec.Access.Capability.Journal.{
  Entry, Disk, snapshot, capability, nonce, apply, replay_from, replay, load_state, save_state,
  save_entry, entries,
}

pub replay_from-append :
    (s : State) (xs ys : List Entry)
    → replay_from s (xs ++ ys) ≡ (replay_from s xs >>= λ s'. replay_from s' ys)
unfolding replay_from
replay_from-append s [] ys = refl
replay_from-append s (x ∷ xs) ys =
    elim (apply s x)
      as (λ m.
        (m >>= λ s'. replay_from s' (xs ++ ys))
        ≡ ((m >>= λ s'. replay_from s' xs) >>= λ s'. replay_from s' ys)) [
          | ok s' ↦ replay_from-append s' xs ys
          | err f ↦ refl
        ]

-- Loading drops what is stale, and leaves a journal that replays as it did before.
pub load_state-replay :
    (now : ℕ) (d : Disk) {raw s : State} {d' : Disk}
    → replay d.journal ≡ ok raw
    → load_state now d ≡ ok (s, d')
    → (s ≡ forget_stale now raw) × (replay d'.journal ≡ ok raw)
unfolding load_state replay save_state
load_state-replay now d {raw} e h = ground arith

-- The state that a save records: the record and the nonce, in `base`.
abbrev pub noted : State → String → Record → String → ℕ → State
noted base id r key seen = record {
  capabilities = insert id r base.capabilities;
  nonces = insert key seen base.nonces;
}

pub replay-append :
    (xs ys : List Entry) {raw : State} → replay xs ≡ ok raw → replay (xs ++ ys) ≡ replay_from raw ys
unfolding replay
replay-append xs ys e = replay_from-append empty xs ys ∙ rw e

-- The journal after a save replays to the saved state itself, where the journal was compacted, or
-- to what it replayed to before, with the saved record and nonce put in.
pub record Recorded (base s : State) (id key : String) (after : State) : Type 0 where
  pub r : Record
  pub seen : ℕ
  pub held : lookup id s.capabilities ≡ some r
  pub dated : lookup key s.nonces ≡ some seen
  pub shape : (after ≡ s) ⊎ (after ≡ noted base id r key seen)

-- The lines that are written for a record and a nonce that the state holds.
abbrev lines_of : String → Record → String → ℕ → List Entry
lines_of id r key seen = nonce key (some seen) ∷ capability id (some r) ∷ []

save_entry-cases :
    (outweighed : List Entry → State → Bool) (s : State) (id key : String) (d : Disk) {d' : Disk}
    → save_entry outweighed s id (some key) d ≡ ok d'
    → (r : Record) × (seen : ℕ) × (lookup id s.capabilities ≡ some r)
      × (lookup key s.nonces ≡ some seen)
      × ((d'.journal ≡ snapshot s ∷ []) ⊎ (d'.journal ≡ d.journal ++ lines_of id r key seen))
unfolding save_entry entries save_state
save_entry-cases outweighed s id key d {d'} h = elim (Option-cases (lookup key s.nonces)) [
  | inl no_seen ↦ absurd (ground arith)
  | inr (seen, dated) ↦ elim (Option-cases (lookup id s.capabilities)) [
    | inl no_r ↦ absurd (ground arith)
    | inr (r, held) ↦ (r, seen, held, dated, ground arith)
  ]
]

pub replay-snapshot : (s : State) → replay (snapshot s ∷ []) ≡ ok s
unfolding replay
replay-snapshot s = refl

replay_from-lines :
    (raw : State) (id : String) (r : Record) (key : String) (seen : ℕ)
    → replay_from raw (lines_of id r key seen) ≡ ok (noted raw id r key seen)
unfolding replay_from apply
replay_from-lines raw id r key seen = refl

pub save_entry-Recorded :
    (outweighed : List Entry → State → Bool) (s : State) (id key : String) (d : Disk) {raw : State}
    {d' : Disk}
    → replay d.journal ≡ ok raw
    → save_entry outweighed s id (some key) d ≡ ok d'
    → (after : State) × (replay d'.journal ≡ ok after) × Recorded raw s id key after
save_entry-Recorded outweighed s id key d {raw} {d'} e h =
    let (r, seen, held, dated, written) = save_entry-cases outweighed s id key d h in
    elim written [
      | inl whole ↦ (
        s,
        rw whole (replay-snapshot s),
        record { r = r; seen = seen; held = held; dated = dated; shape = inl refl },
      )
      | inr longer ↦ (
        noted raw id r key seen,
        rw longer (replay-append d.journal _ e ∙ replay_from-lines raw id r key seen),
        record { r = r; seen = seen; held = held; dated = dated; shape = inr refl },
      )
    ]

-- A loaded journal is whole, and a save leaves it whole.
pub load_state-whole :
    (now : ℕ) (d : Disk) {s : State} {d' : Disk} → load_state now d ≡ ok (s, d') → d'.torn ≡ false
unfolding load_state save_state
load_state-whole now d e = ground arith

pub save_entry-whole :
    (outweighed : List Entry → State → Bool) (s : State) (id : String) (key : Option String)
    (d : Disk) {d' : Disk}
    → d.torn ≡ false
    → save_entry outweighed s id key d ≡ ok d'
    → d'.torn ≡ false
unfolding save_entry save_state
save_entry-whole outweighed s id key d whole e = ground arith

-- A whole journal that replays is loaded.
pub load_state_of_whole :
    (now : ℕ) (d : Disk) {raw : State}
    → d.torn ≡ false
    → replay d.journal ≡ ok raw
    → load_state now d ≡ ok (forget_stale now raw, d)
unfolding load_state
load_state_of_whole now d whole e = ground arith
