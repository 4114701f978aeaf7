-- ===== src/Runtime/Audit/Chain/Reach.antt =====
-- The journals that Skarbiec's own operations reach, stops in the middle of a close included.
use mathlib.Core.Path.{subst}
use skarbiec.Prelude.{
  ℕ, ◌≤◌, ◌≡◌, String, Bool, true, false, Option, none, some, List, [], ◌∷◌, ◌++◌, length, str_eq,
  refl, ◌∙◌, sym, ap, arith, ok, >>=-eq-ok, ◌≢◌,
}
use skarbiec.Runtime.Audit.{
  Extra, Line, Journal, Host, closed_op, epoch_op, last_hash, last_hash_of, segment_name,
  file_bytes, last_segment,
}
use skarbiec.Runtime.Audit.Append.{
  listed, tail_hash, write_entry, Moved, close, close_segment, close_old, close_unless,
  finish_interrupted_close, rotate_if_due, append_sync, rotate, began_before, holds_only_closing,
}
use skarbiec.Runtime.Audit.Report.{Walk, walk_journal, chain_report, intact}
use skarbiec.Runtime.Audit.Chain.{Closed, Open, IsChained}
use skarbiec.Runtime.Audit.Chain.Walks.{walk_journal-IsChained}
use skarbiec.Runtime.Audit.Chain.Appends.{File-last_hash_of, Closed-snoc, Closed-IsLast}
use skarbiec.Runtime.Audit.Chain.Steps.{
  IsReady, result_of, result_pair, write_entry-IsReady, finish_interrupted_close-IsReady,
  close_segment-IsReady,
}

abbrev pub no_journal : Journal
no_journal = record { closed = []; open_file = none }

-- `finished` and `stopped` are an append or a rotation that went no further.
pub data Step (host : Host) (j : Journal) : Journal → Type 0 where
  appended :
      (clock : ℕ → String) (today op : String) (x : Extra) (j' : Journal)
      → str_eq op closed_op ≡ false
      → str_eq op epoch_op ≡ false
      → append_sync host clock today op x j ≡ ok j'
      → Step host j j'
  rotated : (clock : ℕ → String) (r : Bool × Journal) → rotate host clock j ≡ ok r → Step host j r.1
  finished :
      (at : String) (j' : Journal) → finish_interrupted_close host at j ≡ ok j' → Step host j j'
  stopped : (m : Moved) → close host j ≡ ok (some m) → Step host j m.journal

pub data Reach (host : Host) : Journal → Type 0 where
  begin : Reach host no_journal
  go_on : {j j' : Journal} → Reach host j → Step host j j' → Reach host j'

pub rotate_if_due-IsReady :
    (host : Host) (clock : ℕ → String) (today : String) (j j' : Journal)
    → IsChained host j
    → rotate_if_due host clock today j ≡ ok j'
    → IsReady host j'
unfolding rotate_if_due
rotate_if_due-IsReady host clock today j j' h e =
    let first = >>=-eq-ok (finish_interrupted_close host (clock 0) j) _ e in
    let ready = finish_interrupted_close-IsReady host (clock 0) j first.0 h first.1 in
    old (began_before first.0.open_file today) first.0 ready first.2
  where
    old :
        (b : Bool) (j1 : Journal)
        → IsReady host j1
        → close_old host clock b j1 ≡ ok j'
        → IsReady host j'
    old false j1 r e = result_of host {m = ok j1} j1 j' refl r e
    old true j1 r e =
        let closed =
          >>=-eq-ok (close_segment host (clock 1) "the open segment began on an earlier UTC day" j1)
            _ e in
        result_of host {m = ok closed.0.1} closed.0.1 j' refl
          (close_segment-IsReady host (clock 1) _ j1 closed.0 r closed.1) closed.2

-- What a ready journal's next line chains onto.
tail_of :
    (host : Host) (files : List (List Line)) (f : Option (List Line))
    → (h : IsReady host (record { closed = files; open_file = f }))
    → tail_hash host (record { closed = files; open_file = f }) ≡ ok h.chained.hash
unfolding tail_hash last_hash listed last_segment Open Closed
tail_of host files (some ls) h =
    let o = h.chained.open_file in
    rw (File-last_hash_of host h.chained.last ls h.chained.tail h.chained.hash o.0 o.1) refl
tail_of host [] none h = ap (λ (s : String). ok s) (h.chained.closed.1 ∙ h.chained.open_file)
tail_of host (ls ∷ more) none h = absurd (
    no_name (h.ready refl)
      (Closed-IsLast host 0 (length (ls ∷ more)) none h.chained.last ls more String.[]
        h.chained.tail (omega arith) h.chained.closed).named)
  where
    no_name : {c : Option (String × ℕ)} {d : String × ℕ} → c ≡ none → c ≡ some d → ⊥
    no_name e f = cc

pub tail_hash-IsReady :
    (host : Host) (j : Journal) (h : IsReady host j) → tail_hash host j ≡ ok h.chained.hash
tail_hash-IsReady host j h = tail_of host j.closed j.open_file h

append_sync-IsReady :
    (host : Host) (clock : ℕ → String) (today op : String) (x : Extra) (j j' : Journal)
    → IsChained host j
    → str_eq op closed_op ≡ false
    → str_eq op epoch_op ≡ false
    → append_sync host clock today op x j ≡ ok j'
    → IsReady host j'
unfolding append_sync
append_sync-IsReady host clock today op x j j' h p q e =
    let first = >>=-eq-ok (rotate_if_due host clock today j) _ e in
    let ready = rotate_if_due-IsReady host clock today j first.0 h first.1 in
    result_of host (write_entry host (clock 2) ready.chained.hash op x first.0).0 j'
      (rw (tail_hash-IsReady host first.0 ready) refl)
      (write_entry-IsReady host (clock 2) op x first.0 ready p q) first.2

rotate-IsReady :
    (host : Host) (clock : ℕ → String) (j : Journal) (r : Bool × Journal)
    → IsChained host j
    → rotate host clock j ≡ ok r
    → IsReady host r.1
unfolding rotate
rotate-IsReady host clock j r h e =
    let first = >>=-eq-ok (finish_interrupted_close host (clock 0) j) _ e in
    let ready = finish_interrupted_close-IsReady host (clock 0) j first.0 h first.1 in
    unless (holds_only_closing first.0.open_file) first.0 ready first.2
  where
    unless :
        (b : Bool) (j1 : Journal)
        → IsReady host j1
        → close_unless host clock b j1 ≡ ok r
        → IsReady host r.1
    unless true j1 ready e = result_pair host {m = ok (false, j1)} (false, j1) r refl ready e
    unless false j1 ready e = close_segment-IsReady host (clock 1) _ j1 r ready e

-- A close that stops after its rename: the open file of a chained journal holds a line.
close-none :
    (host : Host) (files : List (List Line)) (m : Moved)
    → close host (record { closed = files; open_file = none }) ≢ ok (some m)
unfolding close last_hash
close-none host files m e = cc

moved_to :
    (host : Host) (files : List (List Line)) (ls : List Line) (q : String) (m : Moved)
    → last_hash_of ls ≡ ok (some q)
    → close host (record { closed = files; open_file = some ls }) ≡ ok (some m)
    → m.journal ≡ record { closed = files ++ ls ∷ []; open_file = none }
unfolding close last_hash listed
moved_to host files ls q m h e = ground (arith, h, e)

moved :
    (host : Host) (m : Moved) (files : List (List Line)) (f : Option (List Line))
    → IsChained host (record { closed = files; open_file = f })
    → close host (record { closed = files; open_file = f }) ≡ ok (some m)
    → IsChained host m.journal
unfolding Open
moved host m files none h e = absurd (close-none host files m e)
moved host m files (some ls) h e =
    let ends = File-last_hash_of host h.last ls h.tail h.hash h.open_file.0 h.open_file.1 in
    subst (IsChained host) (sym (moved_to host files ls h.hash m ends e)) (record {
      last = some (segment_name (length files), file_bytes host ls);
      tail = h.hash;
      hash = h.hash;
      closed =
          Closed-snoc host 0 (length files) none h.last files ls String.[] h.tail h.hash
            (omega arith) h.closed h.open_file.0 h.open_file.1;
      open_file = refl;
    })

no_journal-IsChained : (host : Host) → IsChained host no_journal
unfolding Closed Open
no_journal-IsChained host = record {
  last = none;
  tail = String.[];
  hash = String.[];
  closed = (refl, refl);
  open_file = refl;
}

Step-IsChained :
    (host : Host) (j j' : Journal) → IsChained host j → Step host j j' → IsChained host j'
Step-IsChained host j j' h (appended clock today op x _ p q e) =
    (append_sync-IsReady host clock today op x j j' h p q e).chained
Step-IsChained host j j' h (rotated clock r e) = (rotate-IsReady host clock j r h e).chained
Step-IsChained host j j' h (finished at _ e) =
    (finish_interrupted_close-IsReady host at j j' h e).chained
Step-IsChained host j j' h (stopped m e) = moved host m j.closed j.open_file h e

pub Reach-IsChained : (host : Host) (j : Journal) → Reach host j → IsChained host j
Reach-IsChained host j begin = no_journal-IsChained host
Reach-IsChained host j (go_on {j = i} r s) = Step-IsChained host i j (Reach-IsChained host i r) s

-- Whatever appends, rotations and stops led to a journal, its report is clean.
pub Reach-intact :
    (host : Host) (from : Option ℕ) (j : Journal)
    → Reach host j
    → length j.closed ≤ 1000000
    → (w : Walk) × (chain_report host from j ≡ ok w) × (intact w ≡ true)
unfolding chain_report listed intact
Reach-intact host from j r few = (
  walk_journal host from j,
  ground (arith, few),
  rw (walk_journal-IsChained host from j (Reach-IsChained host j r)) refl,
)
