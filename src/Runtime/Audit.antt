-- ===== src/Runtime/Audit.antt =====
-- The audit journal in segments (src/runtime/audit): the open file, the closed files before it,
-- and the one hash chain through all of them. This module has the data, the hash of a line and what
-- is read of one file; its children have the operations, the report and the proofs.
pub mod Append
pub mod Report
pub mod Chain
mod Runs
use Prim.Native.String.{◌++◌ as joined}
use text.Mathlib.Text.{get?, is_lt}
use skarbiec.Prelude.{
  ℕ, zero, suc, ◌+◌, ◌-◌, String, Bool, true, false, Option, none, some, List, [], ◌∷◌, length,
  take, Result, ok, err, ◌>>=◌, or_fail, str_eq, if◌then◌else◌, leb, ◌^◌,
}
use skarbiec.Prelude.Decimal.{decimal}

-- The members of a line's `extra` that the journal itself reads, where they have the type it reads
-- them at; `rest` stands for all the others.
pub record Extra : Type 0 where
  pub segment : Option String
  pub last_hash : Option String
  pub previous_tail : Option String
  pub checkpoint : Option String
  pub signed_checkpoint : Option String
  pub bytes : Option ℕ
  pub rest : String

-- `Value::Null`, which a line without `extra` is hashed with: no member can be read of it.
abbrev pub null_extra : Extra
null_extra = record {
  segment = none;
  last_hash = none;
  previous_tail = none;
  checkpoint = none;
  signed_checkpoint = none;
  bytes = none;
  rest = "null";
}

pub record Entry : Type 0 where
  pub at : Option String
  pub op : Option String
  pub prev : Option String
  pub hash : Option String
  pub extra : Option Extra

-- A line of a journal file: nothing but white space, text that is no JSON, or a value.
pub data Line : Type 0 where
  blank damaged : Line
  parsed : Entry → Line

-- `<journal>.d/000000.jsonl` and its successors, and the open file, which may not exist.
pub record Journal : Type 0 where
  pub closed : List (List Line)
  pub open_file : Option (List Line)

-- What the journal calls: the SHA-256, serde_json's printing of a value and of a line (with the
-- bytes that a line takes) and of a checkpoint, OpenPGP's clear signatures (`none`: an error), and the
-- name of the open file.
pub record Host : Type 0 where
  pub sha256_hex : String → String
  pub show_extra : Extra → String
  pub line_bytes : Line → ℕ
  pub clearsign : String → String → Option String
  pub verify_clearsigned : String → Option String
  pub show_checkpoint : String → String → String → Option String → ℕ → String
  pub journal_name : String

pub data Fault : Type 0 where
  not_an_entry no_hash too_many_segments no_reason intact_journal unsigned no_owner : Fault

abbrev pub closed_op : String
closed_op = "audit-segment-closed"

abbrev pub epoch_op : String
epoch_op = "audit-epoch-start"

abbrev pub barred : String → String → String
barred a b = joined a (joined "|" b)

-- What the hash of a line covers: the previous hash and the line's own fields.
unfoldable pub digest_input : Host → String → String → String → Extra → String
digest_input host prev at op extra = barred prev (barred at (barred op (host.show_extra extra)))

-- The line that `write_entry` prints.
abbrev pub written : String → String → String → Extra → String → Line
written at op prev extra hash =
    parsed (record {
      at = some at;
      op = some op;
      prev = some prev;
      hash = some hash;
      extra = some extra;
    })

unfoldable pub last_line : List Line → Option Line
last_line [] = none
last_line (blank ∷ ls) = last_line ls
last_line (damaged ∷ ls) = elim (last_line ls) [ none ↦ some damaged | some l ↦ some l ]
last_line (parsed e ∷ ls) = elim (last_line ls) [ none ↦ some (parsed e) | some l ↦ some l ]

abbrev pub hash_of : Line → Result Fault (Option String)
hash_of blank = err not_an_entry
hash_of damaged = err not_an_entry
hash_of (parsed e) = elim e.hash [ none ↦ err no_hash | some h ↦ ok (some h) ]

-- The hash of a file's last line that is not blank; the windows it is read through are left out.
unfoldable pub last_hash_of : List Line → Result Fault (Option String)
last_hash_of ls = elim (last_line ls) [ none ↦ ok none | some l ↦ hash_of l ]

-- `segments::last_hash` of the journal's path.
unfoldable pub last_hash : Option (List Line) → Result Fault (Option String)
last_hash none = ok none
last_hash (some ls) = last_hash_of ls

unfoldable pub file_bytes : Host → List Line → ℕ
file_bytes host [] = 0
file_bytes host (l ∷ ls) = host.line_bytes l + file_bytes host ls

-- `measured`: a closed segment's length and last hash as they are now.
unfoldable pub measured : Host → List Line → Result Fault (ℕ × String)
measured host ls =
    last_hash_of ls >>= λ h. ok (file_bytes host ls, elim h [ none ↦ String.[] | some hash ↦ hash ])

unfoldable pub last_segment : List (List Line) → Option (List Line)
last_segment [] = none
last_segment (ls ∷ more) = elim (last_segment more) [ none ↦ some ls | some last ↦ some last ]

-- A number's digits, with zeros in front up to six.
unfoldable pub padded : ℕ → ℕ → String
padded zero n = decimal n
padded (suc zeros) n =
    let rest = padded zeros n in if leb (10 ^ suc zeros) n then decimal n else String.◌∷◌ "0" rest

unfoldable pub segment_name : ℕ → String
segment_name n = joined (padded 5 n) ".jsonl"
