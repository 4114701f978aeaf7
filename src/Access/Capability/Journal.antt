-- ===== src/Access/Capability/Journal.antt =====
-- The capability state on disk, a journal of one value for each change
-- (src/access/capability/journal.rs, and `load_state`, `save_state` and `save_entry` of state.rs).
pub mod Replay
use skarbiec.Prelude.{
  ℕ, String, Bool, false, Option, none, some, List, [], ◌∷◌, ◌++◌, if◌then◌else◌, Result, ok, err,
  ◌>>=◌, or_fail,
}
use skarbiec.Prelude.Dict.{lookup, insert}
use skarbiec.Access.Capability.State.{Record, State, empty, forget_stale}

pub data Fault : Type 0 where
  unparsed_journal damaged_journal unseen_nonce not_held : Fault
  unverifiable unroutable unaudited : Fault

-- A value that the journal's bytes parse to: a snapshot holds `capabilities`; an entry's `none` is
-- a record that is no object, a time that is no number; `other` is any other value.
pub data Entry : Type 0 where
  snapshot : State → Entry
  capability : String → Option Record → Entry
  nonce : String → Option ℕ → Entry
  other : Entry

-- The file: the complete values, and whether bytes that do not parse stand behind them.
pub record Disk : Type 0 where
  pub journal : List Entry
  pub torn : Bool

unfoldable pub apply : State → Entry → Result Fault State
apply s (snapshot s') = ok s'
apply s (capability id (some r)) = ok (record s { capabilities = insert id r s.capabilities })
apply s (capability id none) = err damaged_journal
apply s (nonce key (some seen)) = ok (record s { nonces = insert key seen s.nonces })
apply s (nonce key none) = err damaged_journal
apply s other = err damaged_journal

unfoldable pub replay_from : State → List Entry → Result Fault State
replay_from s [] = ok s
replay_from s (e ∷ es) = apply s e >>= λ s'. replay_from s' es

unfoldable pub replay : List Entry → Result Fault State
unfolding replay_from apply
replay es = replay_from empty es

-- `save_state`: one snapshot in place of the journal.
unfoldable pub save_state : State → Disk
save_state s = record { journal = snapshot s ∷ []; torn = false }

-- Bytes that do not parse are set aside and the journal is replaced by what replayed; a journal
-- with no complete value is refused.
abbrev repair : Disk → State → Result Fault Disk
repair d s =
    if d.torn then (elim d.journal [ [] ↦ err unparsed_journal | _ ↦ ok (save_state s) ]) else ok d

unfoldable pub load_state : ℕ → Disk → Result Fault (State × Disk)
load_state now d = do s ← replay d.journal; d' ← repair d s; ok (forget_stale now s, d')

abbrev nonce_entry : State → Option String → Result Fault (List Entry)
nonce_entry s none = ok []
nonce_entry s (some key) = do
  seen ← or_fail (lookup key s.nonces) unseen_nonce
  ok (nonce key (some seen) ∷ [])

unfoldable pub entries : State → String → Option String → Result Fault (List Entry)
entries s id key = do
  lines ← nonce_entry s key
  r ← or_fail (lookup id s.capabilities) not_held
  ok (lines ++ capability id (some r) ∷ [])

-- `outweighed` compares the sizes that serde_json writes: whether the journal's dead entries hold
-- more bytes than the live state.
unfoldable pub save_entry :
    (List Entry → State → Bool) → State → String → Option String → Disk → Result Fault Disk
save_entry outweighed s id key d = do
  lines ← entries s id key
  let journal' = d.journal ++ lines
  ok (if outweighed journal' s then save_state s else record d { journal = journal' })
