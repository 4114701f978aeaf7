-- ===== src/Runtime/Audit/Runs.antt =====
-- A journal that is written to, rotated and reported on, and the theorems about it there.
use Prim.Native.String.{◌++◌ as joined}
use skarbiec.Prelude.{ℕ, ◌≡◌, refl, String, true, none, some, [], ◌∷◌, ok, arith}
use skarbiec.Runtime.Audit.{
  Line, Journal, Host, null_extra, written, digest_input, last_line, last_hash_of, last_hash,
  last_segment, measured,
}
use skarbiec.Runtime.Audit.Append.{
  append_line, listed, tail_hash, write_entry, finish_interrupted_close, first_at, began_before,
  rotate_if_due, append_sync, all_lines,
}
use skarbiec.Runtime.Audit.Report.{
  Walk, segment_link, epoch_link, link, digest_check, complete_line, entry_line, walk_line,
  walk_lines, walk_segments, walk_open, walk_journal, chain_report, intact,
}
use skarbiec.Runtime.Audit.Report.Sound.{Linked, intact-Linked}
use skarbiec.Runtime.Audit.Chain.Reach.{Reach, begin, go_on, appended, no_journal, Reach-intact}
use skarbiec.Runtime.Audit.Chain.Live.{append_sync-succeeds}
use skarbiec.Runtime.Audit.Chain.Grows.{Grew, append_sync-Grew}

-- A hash that keeps its input, and lines of ten bytes.
abbrev host : Host
host = record {
  sha256_hex = λ text. joined "#" text;
  show_extra = λ x. x.rest;
  line_bytes = λ l. 10;
  clearsign = λ signer text. some text;
  verify_clearsigned = λ text. some text;
  show_checkpoint = λ at reason tail broken faults. joined at reason;
  journal_name = "audit.jsonl";
}

abbrev clock : ℕ → String
clock n = "2026-03-01T10:00:00Z"

abbrev later : ℕ → String
later n = "2026-03-02T09:00:00Z"

-- The first line, and the journal that has it alone.
abbrev first : Line
first =
    written "2026-03-01T10:00:00Z" "item-put" "" null_extra "#|2026-03-01T10:00:00Z|item-put|null"

abbrev one_line : Journal
one_line = record { closed = []; open_file = some (first ∷ []) }

first_append : append_sync host clock "2026-03-01" "item-put" null_extra no_journal ≡ ok one_line
unfolding append_sync rotate_if_due finish_interrupted_close last_hash last_hash_of last_line listed
    last_segment began_before first_at tail_hash measured write_entry append_line digest_input
first_append = refl

one_line-Reach : Reach host one_line
one_line-Reach =
    go_on begin (appended clock "2026-03-01" "item-put" null_extra one_line refl refl first_append)

report_on_one : intact (walk_journal host none one_line) ≡ true
unfolding intact walk_journal walk_segments walk_open walk_lines walk_line entry_line complete_line
    segment_link link epoch_link digest_check digest_input
report_on_one = refl

Reach-intact_example : (w : Walk) × (chain_report host none one_line ≡ ok w) × (intact w ≡ true)
Reach-intact_example = Reach-intact host none one_line one_line-Reach (omega arith)

-- The next day's append closes the file first.
append_sync-succeeds_example :
    (before : Journal) × (prev : String) × (append_sync host later "2026-03-02" "item-get"
        null_extra one_line
      ≡ ok (
          append_line before (
            written
              (later 2)
              "item-get"
              prev
              null_extra
              (host.sha256_hex (digest_input host prev (later 2) "item-get" null_extra)))))
append_sync-succeeds_example =
    append_sync-succeeds host later "2026-03-02" "item-get" null_extra one_line one_line-Reach
      (omega arith)

intact-Linked_example :
    Linked host (some "") (all_lines one_line) (walk_journal host none one_line).previous_hash
intact-Linked_example = intact-Linked host one_line report_on_one

append_sync-Grew_example :
    (prev hash : String) × Grew no_journal one_line
      (written (clock 2) "item-put" prev null_extra hash ∷ [])
append_sync-Grew_example =
    append_sync-Grew host clock "2026-03-01" "item-put" null_extra no_journal one_line first_append
