-- ===== src/Runtime/Audit/Append.antt =====
-- src/runtime/audit/journal.rs, segments.rs (`closed`, `began_before`, `holds_only_closing`,
-- `close`) and epoch.rs: what changes the journal, each operation under the append lock. An
-- operation gives the journal it leaves; reading and writing the files is taken to succeed.
use text.Mathlib.Text.{get?, is_lt}
use Prim.Native.String.{compare}
use skarbiec.Prelude.{
  ℕ, String, Bool, true, false, Option, none, some, List, [], ◌∷◌, ◌++◌, length, take, Result, ok,
  err, ◌>>=◌, str_eq, if◌then◌else◌, leb, is_some, ◌&&◌, ◌-◌,
}
use skarbiec.Runtime.Audit.{
  Extra, Line, blank, damaged, parsed, Journal, Host, Fault, too_many_segments, closed_op,
  digest_input, written, last_hash, file_bytes, measured, last_segment, segment_name,
}

-- The lines of the open file; one that is not there holds none.
abbrev pub open_lines : Option (List Line) → List Line
open_lines none = []
open_lines (some ls) = ls

-- Every line of the journal, the oldest first.
unfoldable pub concat : List (List Line) → List Line
concat [] = []
concat (ls ∷ more) = ls ++ concat more

unfoldable pub all_lines : Journal → List Line
all_lines j = concat j.closed ++ open_lines j.open_file

unfoldable pub append_line : Journal → Line → Journal
append_line j l = record j { open_file = some (open_lines j.open_file ++ l ∷ []) }

-- The closed segments, listed: six digits number at most a million of them.
unfoldable pub listed : Journal → Result Fault (List (List Line))
listed j = if leb (length j.closed) 1000000 then ok j.closed else err too_many_segments

unfoldable pub tail_hash : Host → Journal → Result Fault String
tail_hash host j = last_hash j.open_file >>= λ h. elim h [
  | some hash ↦ ok hash
  | none ↦ listed j >>= λ closed. elim (last_segment closed) [
    | none ↦ ok String.[]
    | some ls ↦ measured host ls >>= λ m. ok m.1
  ]
]

-- One entry chained onto `prev`, with its hash.
unfoldable pub write_entry : Host → String → String → String → Extra → Journal → Journal × String
write_entry host at prev op extra j =
    let hash = host.sha256_hex (digest_input host prev at op extra) in
    (append_line j (written at op prev extra hash), hash)

-- The `extra` of a closing line; `why` is its fourth member.
abbrev pub closing : String → ℕ → String → String → Extra
closing segment bytes last why = record {
  segment = some segment;
  last_hash = some last;
  previous_tail = none;
  checkpoint = none;
  signed_checkpoint = none;
  bytes = some bytes;
  rest = why;
}

-- The open file moved behind the closed ones, and what the closing line will say of it.
pub record Moved : Type 0 where
  pub journal : Journal
  pub segment : String
  pub last : String
  pub bytes : ℕ

unfoldable pub close : Host → Journal → Result Fault (Option Moved)
close host j = last_hash j.open_file >>= λ h. elim h [
  | none ↦ ok none
  | some last ↦ listed j >>= λ closed. ok (
      some record {
        journal = record { closed = closed ++ open_lines j.open_file ∷ []; open_file = none };
        segment = segment_name (length closed);
        last = last;
        bytes = file_bytes host (open_lines j.open_file);
      })
]

unfoldable pub close_segment : Host → String → String → Journal → Result Fault (Bool × Journal)
close_segment host at why j = close host j >>= λ moved. elim moved [
  | none ↦ ok (false, j)
  | some m ↦ ok (
    true,
    (write_entry host at m.last closed_op (closing m.segment m.bytes m.last why) m.journal).0,
  )
]

-- The line that a close still owes when it stopped after its rename.
abbrev pub name_last : Host → String → Journal → List (List Line) → ℕ × String → Journal
name_last host at j closed m =
    (write_entry host at m.1 closed_op
      (closing (segment_name (length closed - 1)) m.0 m.1
        "the close of this segment stopped before its line was written")
      j).0

abbrev pub finish_last :
    Host → String → Journal → List (List Line) → Option (List Line) → Result Fault Journal
finish_last host at j closed none = ok j
finish_last host at j closed (some ls) = measured host ls >>= λ m. ok (name_last host at j closed m)

abbrev pub finish_unless : Host → String → Journal → Option String → Result Fault Journal
finish_unless host at j (some hash) = ok j
finish_unless host at j none =
    listed j >>= λ closed. finish_last host at j closed (last_segment closed)

unfoldable pub finish_interrupted_close : Host → String → Journal → Result Fault Journal
finish_interrupted_close host at j = last_hash j.open_file >>= finish_unless host at j

abbrev stated_at : Line → Option String
stated_at (parsed e) = e.at
stated_at blank = none
stated_at damaged = none

-- The first time that one of the leading lines states.
unfoldable pub first_at : List Line → Option String
first_at [] = none
first_at (l ∷ ls) = elim (stated_at l) [ none ↦ first_at ls | some at ↦ some at ]

abbrev day_before : String → Option String → Bool
day_before today none = false
day_before today (some day) = is_lt (compare day today)

unfoldable pub began_before : Option (List Line) → String → Bool
began_before open_file today = elim (first_at (take 64 (open_lines open_file))) [
  | none ↦ false
  | some at ↦ day_before today (get? at 0 10)
]

abbrev pub close_old : Host → (ℕ → String) → Bool → Journal → Result Fault Journal
close_old host clock false j = ok j
close_old host clock true j =
    close_segment host (clock 1) "the open segment began on an earlier UTC day" j >>= λ r. ok r.1

-- `clock` is what each reading of the clock gives, in their order.
unfoldable pub rotate_if_due : Host → (ℕ → String) → String → Journal → Result Fault Journal
rotate_if_due host clock today j = finish_interrupted_close host (clock 0) j >>= λ j'.
    close_old host clock (began_before j'.open_file today) j'

unfoldable pub append_sync :
    Host → (ℕ → String) → String → String → Extra → Journal → Result Fault Journal
append_sync host clock today op extra j = rotate_if_due host clock today j >>= λ j'.
    tail_hash host j' >>= λ prev. ok (write_entry host (clock 2) prev op extra j').0

-- The lines that are not blank.
unfoldable pub present : List Line → List Line
present [] = []
present (blank ∷ ls) = present ls
present (damaged ∷ ls) = damaged ∷ present ls
present (parsed e ∷ ls) = parsed e ∷ present ls

abbrev closes : List Line → Bool
closes [] = false
closes (blank ∷ ls) = false
closes (damaged ∷ ls) = false
closes (parsed e ∷ []) = elim e.op [
  | none ↦ false
  | some op ↦ str_eq op closed_op && is_some (elim e.extra [ none ↦ none | some x ↦ x.segment ])
]
closes (parsed e ∷ l ∷ ls) = false

-- Whether the open file holds only the line that closed the segment before it.
unfoldable pub holds_only_closing : Option (List Line) → Bool
holds_only_closing open_file = closes (present (open_lines open_file))

abbrev pub close_unless : Host → (ℕ → String) → Bool → Journal → Result Fault (Bool × Journal)
close_unless host clock true j = ok (false, j)
close_unless host clock false j = close_segment host (clock 1) "audit rotate closed it" j

unfoldable pub rotate : Host → (ℕ → String) → Journal → Result Fault (Bool × Journal)
rotate host clock j = finish_interrupted_close host (clock 0) j >>= λ j'.
    close_unless host clock (holds_only_closing j'.open_file) j'
