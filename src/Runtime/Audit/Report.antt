-- ===== src/Runtime/Audit/Report.antt =====
-- `chain_report` and its walk (src/runtime/audit/reports.rs): linkage, segments, digests and epochs
-- of a journal, fault by fault. A fault's `detail` sentence is left out.
pub mod Window
pub mod Lines
pub mod Sound
use Prim.Native.String.{◌++◌ as joined}
use skarbiec.Prelude.{
  ℕ, zero, suc, ◌+◌, ◌-◌, String, Bool, true, false, not, Option, none, some, List, [], ◌∷◌, ◌++◌,
  length, Result, ok, err, ◌>>=◌, str_eq, if◌then◌else◌, ltb, leb, ◌==◌, ◌&&◌, ◌||◌,
}
use skarbiec.Prelude.Text.{same_text, trim_end}
use skarbiec.Runtime.Audit.{
  Extra, Entry, Line, blank, damaged, parsed, Journal, Host, Fault, closed_op, epoch_op,
  digest_input, file_bytes, segment_name, null_extra,
}
use skarbiec.Runtime.Audit.Append.{present, open_lines, listed}

pub data Kind : Type 0 where
  malformed linkage segment digest epoch : Kind

pub record Found : Type 0 where
  pub segment : String
  pub line : ℕ
  pub at : Option String
  pub op : Option String
  pub kind : Kind

abbrev pub found : String → ℕ → Option String → Option String → Kind → Found
found s n at op kind = record { segment = s; line = n; at = at; op = op; kind = kind }

-- The walk's state, one line at a time.
pub record Walk : Type 0 where
  pub digests_from : Option ℕ
  pub position : ℕ
  pub previous_hash : Option String
  pub closing : List (String × ℕ)
  pub entries : ℕ
  pub malformed : ℕ
  pub linked : ℕ
  pub epochs : ℕ
  pub digests_checked : ℕ
  pub digested : ℕ
  pub faults : List Found

abbrev pub add_fault : Found → Walk → Walk
add_fault f w = record w { faults = w.faults ++ f ∷ [] }

abbrev pub when_bad : Bool → Found → Walk → Walk
when_bad bad f w = if bad then add_fault f w else w

-- The last closed segment, with its length.
unfoldable pub last_closing : List (String × ℕ) → Option (String × ℕ)
last_closing [] = none
last_closing (c ∷ cs) = elim (last_closing cs) [ none ↦ some c | some d ↦ some d ]

abbrev same_bytes : Option ℕ → ℕ → Bool
same_bytes none n = false
same_bytes (some m) n = m == n

-- What is wrong in a line that closes a segment: the name, the length or the last hash.
unfoldable pub wrong_closing : Extra → Option (String × ℕ) → Option String → Bool
wrong_closing extra none previous = false
wrong_closing extra (some c) previous =
    not (same_text extra.segment (some c.0))
    || (not (same_bytes extra.bytes c.1) || not (same_text extra.last_hash previous))

unfoldable pub segment_link : String → ℕ → String → String → Extra → Bool → Walk → Walk
segment_link name n at op extra opens w =
    let bad = found name n (some at) (some op) segment in
    if opens
    then if str_eq op closed_op
      then when_bad (wrong_closing extra (last_closing w.closing) w.previous_hash) bad w
      else add_fault bad w
    else when_bad (str_eq op closed_op) bad w

abbrev same_checkpoint : String → Option String → Bool
same_checkpoint payload none = false
same_checkpoint payload (some cleartext) = str_eq (trim_end cleartext) (trim_end payload)

-- Whether the checkpoint is signed and names the old tail.
unfoldable pub epoch_valid : Host → String → String → String → String → Option String → Bool
epoch_valid host stored_prev prior payload signed previous =
    str_eq stored_prev String.[]
    && (same_text previous (some prior) && same_checkpoint payload (host.verify_clearsigned signed))

abbrev pub epoch_members : Extra → Option (String × (String × String))
epoch_members x = elim x.previous_tail [
  | none ↦ none
  | some prior ↦ elim x.checkpoint [
    | none ↦ none
    | some payload ↦ elim x.signed_checkpoint [ none ↦ none | some s ↦ some (prior, (payload, s)) ]
  ]
]

abbrev pub started : Found → Walk → Bool → Bool × Walk
started bad w true = (true, record w { epochs = w.epochs + 1 })
started bad w false = (false, add_fault bad w)

abbrev pub epoch_started :
    Host
    → String
    → ℕ
    → String
    → String
    → String
    → Walk
    → Option (String × (String × String))
    → Bool × Walk
epoch_started host name n at op stored_prev w none =
    (false, add_fault (found name n (some at) (some op) malformed) w)
epoch_started host name n at op stored_prev w (some m) =
    started (found name n (some at) (some op) epoch) w
      (epoch_valid host stored_prev m.0 m.1.0 m.1.1 w.previous_hash)

-- An epoch start: whether it restarts the chain, and the walk with what is wrong with it.
unfoldable pub epoch_line :
    Host → String → ℕ → String → String → String → Extra → Walk → Bool × Walk
epoch_line host name n at op stored_prev extra w =
    epoch_started host name n at op stored_prev w (epoch_members extra)

abbrev pub in_window : Option ℕ → ℕ → Bool
in_window none position = true
in_window (some from) position = leb from position

-- Only an epoch start is examined as one.
unfoldable pub epoch_link :
    Host → String → ℕ → String → String → String → Extra → Walk → Bool × Walk
epoch_link host name n at op stored_prev extra w =
    if str_eq op epoch_op then epoch_line host name n at op stored_prev extra w else (false, w)

abbrev pub linked_or : Found → Bool → Bool × Walk → Walk
linked_or bad same e =
    if same || e.0 then record e.1 { linked = e.1.linked + 1 } else add_fault bad e.1

-- The linkage of a line, an epoch start's exception included.
unfoldable pub link : Host → String → ℕ → String → String → String → Extra → Walk → Walk
link host name n at op stored_prev extra w =
    linked_or (found name n (some at) (some op) linkage)
      (same_text w.previous_hash (some stored_prev))
      (epoch_link host name n at op stored_prev extra w)

abbrev pub digest_result : Found → Walk → Bool → Bool → Walk
digest_result bad w false matches = w
digest_result bad w true true = record w {
  digests_checked = w.digests_checked + 1;
  digested = w.digested + 1;
}
digest_result bad w true false =
    add_fault bad (record w { digests_checked = w.digests_checked + 1 })

unfoldable pub digest_check :
    Host → String → ℕ → ℕ → String → String → String → String → Extra → Walk → Walk
digest_check host name n position at op stored_prev stored_hash extra w =
    digest_result (found name n (some at) (some op) digest) w (in_window w.digests_from position)
      (str_eq stored_hash (host.sha256_hex (digest_input host stored_prev at op extra)))

-- A line that has its four fields.
unfoldable pub complete_line :
    Host → String → ℕ → ℕ → String → String → String → String → Extra → Bool → Walk → Walk
complete_line host name n position at op prev hash extra opens w =
    let w1 = segment_link name n at op extra opens w in
    let w2 = link host name n at op prev extra w1 in
    let w3 = digest_check host name n position at op prev hash extra w2 in
    record w3 { previous_hash = some hash }

abbrev pub unnamed : String → ℕ → Option String → Option String → Bool → Walk → Walk
unnamed name n at op opens w = when_bad opens (found name n at op segment) w

-- A line that misses one of them is neither linked nor digested.
unfoldable pub incomplete_line :
    String → ℕ → Option String → Option String → Option String → Bool → Walk → Walk
incomplete_line name n at op hash opens w =
    let w1 = unnamed name n at op opens (add_fault (found name n at op malformed) w) in
    record w1 { previous_hash = hash }

abbrev pub or_null : Option Extra → Extra
or_null none = null_extra
or_null (some x) = x

unfoldable pub entry_line : Host → String → ℕ → ℕ → Entry → Bool → Walk → Walk
entry_line host name n position e opens w = elim e.at [
  | none ↦ incomplete_line name n e.at e.op e.hash opens w
  | some at ↦ elim e.op [
    | none ↦ incomplete_line name n e.at e.op e.hash opens w
    | some op ↦ elim e.prev [
      | none ↦ incomplete_line name n e.at e.op e.hash opens w
      | some prev ↦ elim e.hash [
        | none ↦ incomplete_line name n e.at e.op e.hash opens w
        | some hash ↦ complete_line host name n position at op prev hash (or_null e.extra) opens w
      ]
    ]
  ]
]

-- `Walk::line`, for a line that is not blank.
unfoldable pub walk_line : Host → String → ℕ → Line → Bool → Walk → Walk
walk_line host name n blank opens w = w
walk_line host name n damaged opens w =
    let w1 = record w { position = w.position + 1; malformed = w.malformed + 1 } in
    unnamed name n none none opens (add_fault (found name n none none malformed) w1)
walk_line host name n (parsed e) opens w =
    let w1 = record w { position = w.position + 1; entries = w.entries + 1 } in
    entry_line host name n w.position e opens w1

abbrev pub is_blank : Line → Bool
is_blank blank = true
is_blank damaged = false
is_blank (parsed e) = false

-- The lines of one file; `opens` is for its first line that is not blank.
unfoldable pub walk_lines : Host → String → ℕ → Bool → List Line → Walk → Walk
walk_lines host name n opens [] w = w
walk_lines host name n opens (l ∷ ls) w =
    walk_lines host name (n + 1) (opens && is_blank l) ls (walk_line host name n l opens w)

abbrev pub all_blank : List Line → Bool
all_blank ls = elim (present ls) [ [] ↦ true | l ∷ more ↦ false ]

-- One closed segment: an empty one is a fault, and the next file must name it.
unfoldable pub walk_closed : Host → ℕ → List Line → Walk → Walk
walk_closed host index ls w =
    let name = segment_name index in
    let w1 = walk_lines host name 1 (ltb 0 index) ls w in
    let w2 = when_bad (all_blank ls) (found name 0 none none segment) w1 in
    record w2 { closing = w2.closing ++ (name, file_bytes host ls) ∷ [] }

unfoldable pub walk_segments : Host → ℕ → List (List Line) → Walk → Walk
walk_segments host index [] w = w
walk_segments host index (ls ∷ more) w =
    walk_segments host (suc index) more (walk_closed host index ls w)

unfoldable pub open_name : Host → String
open_name host = joined host.journal_name " (open)"

unfoldable pub walk_open : Host → ℕ → Option (List Line) → Walk → Walk
walk_open host index open_file w =
    walk_lines host (open_name host) 1 (ltb 0 index) (open_lines open_file) w

abbrev pub start : Option ℕ → Walk
start digests_from = record {
  digests_from = digests_from;
  position = 0;
  previous_hash = some String.[];
  closing = [];
  entries = 0;
  malformed = 0;
  linked = 0;
  epochs = 0;
  digests_checked = 0;
  digested = 0;
  faults = [];
}

-- The walk over every file.
unfoldable pub walk_journal : Host → Option ℕ → Journal → Walk
walk_journal host digests_from j =
    walk_open host (length j.closed) j.open_file
      (walk_segments host 0 j.closed (start digests_from))

unfoldable pub chain_report : Host → Option ℕ → Journal → Result Fault Walk
chain_report host digests_from j = listed j >>= λ closed. ok (walk_journal host digests_from j)

-- `report.intact`: there is no fault.
unfoldable pub intact : Walk → Bool
intact w = elim w.faults [ [] ↦ true | f ∷ fs ↦ false ]

unfoldable pub broken_at : Walk → Option String
broken_at w = elim w.faults [ [] ↦ none | f ∷ fs ↦ f.at ]
