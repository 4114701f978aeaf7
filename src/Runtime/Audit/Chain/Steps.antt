-- ===== src/Runtime/Audit/Chain/Steps.antt =====
-- `finish_interrupted_close`, `close_segment`, `rotate` and `append_sync` on a chained journal.
use mathlib.Core.Path.{subst}
use skarbiec.Prelude.{
  ℕ, ◌-◌, ◌<◌, ◌≡◌, String, Bool, true, false, Option, none, some, List, [], ◌∷◌, ◌++◌, length,
  str_eq, refl, sym, arith, length-append, Result, ok, inl, inr, Bool-cases, leb, ◌≢◌,
}
use skarbiec.Runtime.Audit.{
  Extra, Line, Journal, Host, Fault, closed_op, epoch_op, digest_input, file_bytes, segment_name,
  last_hash, last_hash_of, last_segment, measured,
}
use skarbiec.Runtime.Audit.Append.{
  open_lines, append_line, listed, write_entry, closing, close, close_segment,
  finish_interrupted_close,
}
use skarbiec.Runtime.Audit.Chain.{Plain, Lines, File, Closed, Open, IsChained}
use skarbiec.Runtime.Audit.Chain.Appends.{File-last_hash_of, File-snoc, Closed-snoc, Closed-IsLast}

snoc-pos : (ls : List Line) (l : Line) → 0 < length (ls ++ l ∷ [])
snoc-pos ls l = omega (arith, length-append ls (l ∷ []))

-- The open file holds a line, or no file was closed before it: no close is half done.
pub record IsReady (host : Host) (j : Journal) : Type 0 where
  pub chained : IsChained host j
  pub ready : j.open_file ≡ none → chained.last ≡ none

-- The hash that a chained journal's next line names.
tail_of_open :
    (host : Host) (j : Journal) (h : IsChained host j) (ls : List Line)
    → j.open_file ≡ some ls
    → last_hash j.open_file ≡ ok (some h.hash)
unfolding last_hash Open
tail_of_open host j h ls e =
    let o = subst (λ (f : Option (List Line)). Open host h.last h.tail f h.hash) e h.open_file in
    rw e (File-last_hash_of host h.last ls h.tail h.hash o.0 o.1)

-- One more plain line behind the open file.
Plain-added :
    (host : Host) (last : Option (String × ℕ)) (p q : String) (f : Option (List Line)) (l : Line)
    (r : String)
    → Open host last p f q
    → (f ≡ none → last ≡ none)
    → Plain host q l r
    → Open host last p (some (open_lines f ++ l ∷ [])) r
unfolding Open File Lines
Plain-added host last p q none l r o ready h = (
  omega arith,
  subst (λ (c : Option (String × ℕ)). File host c p (l ∷ []) r) (sym (ready refl))
      ((r, subst (λ (s : String). Plain host s l r) (sym o) h, refl)),
)
Plain-added host last p q (some ls) l r o ready h =
    (snoc-pos ls l, File-snoc host last ls l p q r o.1 h)

pub write_entry-IsReady :
    (host : Host) (at op : String) (x : Extra) (j : Journal) (h : IsReady host j)
    → str_eq op closed_op ≡ false
    → str_eq op epoch_op ≡ false
    → IsReady host (write_entry host at h.chained.hash op x j).0
unfolding write_entry append_line
write_entry-IsReady host at op x j h e f = record {
  chained = record {
    last = h.chained.last;
    tail = h.chained.tail;
    hash = host.sha256_hex (digest_input host h.chained.hash at op x);
    closed = h.chained.closed;
    open_file =
        Plain-added host h.chained.last h.chained.tail h.chained.hash j.open_file _ _
          h.chained.open_file h.ready
          (record {
            at = at;
            op = op;
            extra = x;
            not_closed = e;
            not_epoch = f;
            is = refl;
            hashed = refl;
          });
  };
  ready = λ n. cc;
}

-- The line that closes the last closed file, in a new open file.
opened :
    (host : Host) (at : String) (why : String) (c : String × ℕ) (p : String)
    (files : List (List Line))
    → Closed host 0 none String.[] files (some c) p
    → IsReady host
        (write_entry host at p closed_op
          (closing c.0 c.1 p why)
          (record { closed = files; open_file = none })).0
unfolding write_entry append_line Open File Lines
opened host at why c p files h = record {
  chained = record {
    last = some c;
    tail = p;
    hash = host.sha256_hex (digest_input host p at closed_op (closing c.0 c.1 p why));
    closed = h;
    open_file = (
      omega arith,
      (
        _,
        record {
          at = at;
          extra = closing c.0 c.1 p why;
          names = refl;
          holds = refl;
          ends = refl;
          is = refl;
          hashed = refl;
        },
        refl,
      ),
    );
  };
  ready = λ n. cc;
}

-- A result that is known.
pub result_of :
    (host : Host) {m : Result Fault Journal} (known j' : Journal)
    → m ≡ ok known
    → IsReady host known
    → m ≡ ok j'
    → IsReady host j'
result_of host known j' k r e = subst (IsReady host) (the_same k e) r
  where
    the_same : {m : Result Fault Journal} {a b : Journal} → m ≡ ok a → m ≡ ok b → a ≡ b
    the_same k e = cc

pub already_open :
    (host : Host) (at : String) (files : List (List Line)) (ls : List Line)
    → (h : IsChained host (record { closed = files; open_file = some ls }))
    → finish_interrupted_close host at (record { closed = files; open_file = some ls })
      ≡ ok (record { closed = files; open_file = some ls })
unfolding finish_interrupted_close last_hash Open
already_open host at files ls h =
    rw (File-last_hash_of host h.last ls h.tail h.hash h.open_file.0 h.open_file.1) refl

pub nothing_closed :
    (host : Host) (at : String)
    → finish_interrupted_close host at (record { closed = []; open_file = none })
      ≡ ok (record { closed = []; open_file = none })
unfolding finish_interrupted_close last_hash listed last_segment
nothing_closed host at = refl

-- The line that a stopped close still owes.
abbrev owed : Host → String → List (List Line) → List Line → String → Journal
owed host at files segment p =
    (write_entry host at p closed_op
      (closing (segment_name (length files - 1)) (file_bytes host segment) p
        "the close of this segment stopped before its line was written")
      (record { closed = files; open_file = none })).0

pub interrupted :
    (host : Host) (at : String) (files : List (List Line)) (segment : List Line) (p : String)
    → last_segment files ≡ some segment
    → last_hash_of segment ≡ ok (some p)
    → leb (length files) 1000000 ≡ true
    → finish_interrupted_close host at (record { closed = files; open_file = none })
      ≡ ok (owed host at files segment p)
unfolding finish_interrupted_close last_hash listed measured
interrupted host at files segment p e f g = ground (arith, g, e, f)

too_many :
    (host : Host) (at : String) (files : List (List Line)) (j' : Journal)
    → leb (length files) 1000000 ≡ false
    → finish_interrupted_close host at (record { closed = files; open_file = none }) ≢ ok j'
unfolding finish_interrupted_close last_hash listed
too_many host at files j' g e = ground (arith, g, e)

finished :
    (host : Host) (at : String) (files : List (List Line)) (f : Option (List Line))
    → (h : IsChained host (record { closed = files; open_file = f })) (j' : Journal)
    → finish_interrupted_close host at (record { closed = files; open_file = f }) ≡ ok j'
    → IsReady host j'
unfolding Closed
finished host at files (some ls) h j' e =
    result_of host _ j' (already_open host at files ls h) (record { chained = h; ready = λ n. cc })
      e
finished host at [] none h j' e =
    result_of host _ j' (nothing_closed host at)
      (record { chained = h; ready = λ n. sym h.closed.0 }) e
finished host at (ls ∷ more) none h j' e =
    let last =
      Closed-IsLast host 0 (length (ls ∷ more)) none h.last ls more String.[] h.tail (omega arith)
        h.closed in
    elim (Bool-cases (leb (length (ls ∷ more)) 1000000)) [
      | inl few ↦
          result_of host _ j'
            (interrupted host at (ls ∷ more) last.segment h.tail last.is last.ends few)
            (opened host at _ (segment_name (length (ls ∷ more) - 1), file_bytes host last.segment)
              h.tail (ls ∷ more)
              (subst
                (λ (c : Option (String × ℕ)). Closed host 0 none String.[] (ls ∷ more) c h.tail)
                last.named h.closed))
            e
      | inr many ↦ absurd (too_many host at (ls ∷ more) j' many e)
    ]

pub finish_interrupted_close-IsReady :
    (host : Host) (at : String) (j j' : Journal)
    → IsChained host j
    → finish_interrupted_close host at j ≡ ok j'
    → IsReady host j'
finish_interrupted_close-IsReady host at j j' h e = finished host at j.closed j.open_file h j' e

-- The open file of a ready journal, closed, and the line that says so.
abbrev pub closed_and_named :
    (host : Host) (at why : String) (files : List (List Line)) (ls : List Line)
    → IsChained host (record { closed = files; open_file = some ls })
    → Journal
closed_and_named host at why files ls h =
    (write_entry host at h.hash closed_op
      (closing (segment_name (length files)) (file_bytes host ls) h.hash why)
      (record { closed = files ++ ls ∷ []; open_file = none })).0

closed_and_named-IsReady :
    (host : Host) (at why : String) (files : List (List Line)) (ls : List Line)
    → (h : IsChained host (record { closed = files; open_file = some ls }))
    → IsReady host (closed_and_named host at why files ls h)
unfolding Open
closed_and_named-IsReady host at why files ls h =
    opened host at why (segment_name (length files), file_bytes host ls) h.hash (files ++ ls ∷ [])
      (Closed-snoc host 0 (length files) none h.last files ls String.[] h.tail h.hash (omega arith)
        h.closed h.open_file.0 h.open_file.1)

pub closes :
    (host : Host) (at why : String) (files : List (List Line)) (ls : List Line)
    → (h : IsChained host (record { closed = files; open_file = some ls }))
    → leb (length files) 1000000 ≡ true
    → close_segment host at why (record { closed = files; open_file = some ls })
      ≡ ok (true, closed_and_named host at why files ls h)
unfolding close_segment close last_hash listed Open
closes host at why files ls h g =
    rw (File-last_hash_of host h.last ls h.tail h.hash h.open_file.0 h.open_file.1) (rw g refl)

cannot_close :
    (host : Host) (at why : String) (files : List (List Line)) (ls : List Line) (r : Bool × Journal)
    → (h : IsChained host (record { closed = files; open_file = some ls }))
    → leb (length files) 1000000 ≡ false
    → close_segment host at why (record { closed = files; open_file = some ls }) ≢ ok r
unfolding close_segment close last_hash listed Open
cannot_close host at why files ls r h g e =
    ground (arith, g, e, File-last_hash_of host h.last ls h.tail h.hash h.open_file.0 h.open_file.1)

pub nothing_open :
    (host : Host) (at why : String) (files : List (List Line))
    → close_segment host at why (record { closed = files; open_file = none })
      ≡ ok (false, record { closed = files; open_file = none })
unfolding close_segment close last_hash
nothing_open host at why files = refl

pub result_pair :
    (host : Host) {m : Result Fault (Bool × Journal)} (known r : Bool × Journal)
    → m ≡ ok known
    → IsReady host known.1
    → m ≡ ok r
    → IsReady host r.1
result_pair host known r k h e = subst (λ (p : Bool × Journal). IsReady host p.1) (the_same k e) h
  where
    the_same :
        {m : Result Fault (Bool × Journal)} {a b : Bool × Journal} → m ≡ ok a → m ≡ ok b → a ≡ b
    the_same k e = cc

closed_or_not :
    (host : Host) (at why : String) (files : List (List Line)) (f : Option (List Line))
    (r : Bool × Journal)
    → IsReady host (record { closed = files; open_file = f })
    → close_segment host at why (record { closed = files; open_file = f }) ≡ ok r
    → IsReady host r.1
closed_or_not host at why files none r h e =
    result_pair host _ r (nothing_open host at why files) h e
closed_or_not host at why files (some ls) r h e = elim (Bool-cases (leb (length files) 1000000)) [
  | inl few ↦
      result_pair host _ r (closes host at why files ls h.chained few)
        (closed_and_named-IsReady host at why files ls h.chained) e
  | inr many ↦ absurd (cannot_close host at why files ls r h.chained many e)
]

pub close_segment-IsReady :
    (host : Host) (at why : String) (j : Journal) (r : Bool × Journal)
    → IsReady host j
    → close_segment host at why j ≡ ok r
    → IsReady host r.1
close_segment-IsReady host at why j r h e = closed_or_not host at why j.closed j.open_file r h e
