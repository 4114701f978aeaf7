-- ===== src/Runtime/Audit/Chain/Grows.antt =====
-- The journal as one list of lines, over all its files: no operation changes or removes one.
use skarbiec.Prelude.{
  ℕ, ◌≡◌, String, Bool, true, false, Option, none, some, List, [], ◌∷◌, ◌++◌, refl, ◌∙◌, sym, ap,
  arith, All, Result, ok, err, ◌>>=◌, >>=-eq-ok, Option-cases, ◌≢◌, Result-cases, inl, inr,
  append_nil,
}
use mathlib.Core.List.{append_assoc}
use mathlib.Core.Path.{subst}
use skarbiec.Runtime.Audit.{
  Extra, Line, Journal, Host, Fault, closed_op, written, digest_input, last_hash, last_segment,
  measured,
}
use skarbiec.Runtime.Audit.Append.{
  concat, all_lines, open_lines, listed, tail_hash, write_entry, append_line, Moved, close,
  close_segment, close_old, finish_interrupted_close, rotate_if_due, append_sync, began_before,
  closing, name_last, finish_last, finish_unless,
}

-- A line that closes a file.
pub record ClosesFile (l : Line) : Type 0 where
  pub at : String
  pub prev : String
  pub hash : String
  pub extra : Extra
  pub is : l ≡ written at closed_op prev extra hash

-- `j'` has the lines of `j`, then lines that close files, then `more`.
pub record Grew (j j' : Journal) (more : List Line) : Type 0 where
  pub markers : List Line
  pub closing : All ClosesFile markers
  pub is : all_lines j' ≡ all_lines j ++ (markers ++ more)

concat-snoc :
    (files : List (List Line)) (ls : List Line) → concat (files ++ ls ∷ []) ≡ concat files ++ ls
unfolding concat
concat-snoc [] ls = append_nil ls
concat-snoc (ks ∷ files) ls = rw (concat-snoc files ls) (sym (append_assoc ks (concat files) ls))

all_lines-append_line :
    (j : Journal) (l : Line) → all_lines (append_line j l) ≡ all_lines j ++ l ∷ []
unfolding all_lines append_line
all_lines-append_line j l = sym (append_assoc (concat j.closed) (open_lines j.open_file) (l ∷ []))

unchanged : (j : Journal) → Grew j j []
unchanged j = record { markers = []; closing = tt; is = sym (append_nil (all_lines j)) }

-- A move changes no line.
moved_value :
    (host : Host) (j : Journal) (m : Moved)
    → close host j ≡ ok (some m)
    → m.journal ≡ record { closed = j.closed ++ open_lines j.open_file ∷ []; open_file = none }
unfolding close listed
moved_value host j m e = ground (arith, e)

all_lines-close :
    (host : Host) (j : Journal) (m : Moved)
    → close host j ≡ ok (some m)
    → all_lines m.journal ≡ all_lines j
unfolding all_lines
all_lines-close host j m e =
    ap all_lines (moved_value host j m e)
    ∙ append_nil (concat (j.closed ++ open_lines j.open_file ∷ []))
    ∙ concat-snoc j.closed (open_lines j.open_file)

-- A journal with the lines of `j`, and one line more that closes a file.
named :
    (host : Host) (at prev : String) (x : Extra) (j moved : Journal)
    → all_lines moved ≡ all_lines j
    → Grew j (write_entry host at prev closed_op x moved).0 []
unfolding write_entry
named host at prev x j moved e = record {
  markers =
      written at closed_op prev x (host.sha256_hex (digest_input host prev at closed_op x)) ∷ [];
  closing = (record { at = at; prev = prev; hash = _; extra = x; is = refl }, tt);
  is =
      all_lines-append_line moved _
      ∙ ap
          (λ (ls : List Line).
            ls
            ++ written at closed_op prev x (host.sha256_hex (digest_input host prev at closed_op x))
              ∷ [])
          e;
}

same_end :
    (j j' k : Journal)
    → Grew j k []
    → {m : Result Fault Journal} → m ≡ ok k
    → m ≡ ok j'
    → Grew j j' []
same_end j j' k g e f = subst (λ (i : Journal). Grew j i []) (the_same e f) g
  where
    the_same : {m : Result Fault Journal} {a b : Journal} → m ≡ ok a → m ≡ ok b → a ≡ b
    the_same e f = cc

did_not_close :
    (host : Host) (at why : String) (j : Journal)
    → close host j ≡ ok none
    → close_segment host at why j ≡ ok (false, j)
unfolding close_segment
did_not_close host at why j e = rw e refl

did_close :
    (host : Host) (at why : String) (j : Journal) (m : Moved)
    → close host j ≡ ok (some m)
    → close_segment host at why j
      ≡ ok (
        true,
        (write_entry host at m.last closed_op (closing m.segment m.bytes m.last why) m.journal).0,
      )
unfolding close_segment
did_close host at why j m e = rw e refl

failed : {A : Type 0} {m : Result Fault A} {f : Fault} {a : A} → m ≡ err f → m ≢ ok a
failed e g = cc

ok_unique : {A : Type 0} {m : Result Fault A} {a b : A} → m ≡ ok a → m ≡ ok b → a ≡ b
ok_unique e g = cc

close_fails :
    (host : Host) (at why : String) (j : Journal) (f : Fault)
    → close host j ≡ err f
    → close_segment host at why j ≡ err f
unfolding close_segment
close_fails host at why j f e = rw e refl

close_segment-Grew :
    (host : Host) (at why : String) (j : Journal) (r : Bool × Journal)
    → close_segment host at why j ≡ ok r
    → Grew j r.1 []
close_segment-Grew host at why j r e = elim (Result-cases (close host j)) [
  | inr (f, c) ↦ absurd (failed (close_fails host at why j f c) e)
  | inl (moved, c) ↦ elim (Option-cases moved) [
    | inl n ↦
        subst (λ (k : Journal). Grew j k [])
          (ap (λ (p : Bool × Journal). p.1)
            (ok_unique (did_not_close host at why j (c ∙ ap (λ (o : Option Moved). ok o) n)) e))
          (unchanged j)
    | inr (m, s) ↦
        let d = c ∙ ap (λ (o : Option Moved). ok o) s in
        subst (λ (k : Journal). Grew j k [])
          (ap (λ (p : Bool × Journal). p.1) (ok_unique (did_close host at why j m d) e))
          (named host at m.last (closing m.segment m.bytes m.last why) j m.journal
            (all_lines-close host j m d))
  ]
]

finish_last-Grew :
    (host : Host) (at : String) (j j' : Journal) (closed : List (List Line))
    (last : Option (List Line))
    → finish_last host at j closed last ≡ ok j'
    → Grew j j' []
finish_last-Grew host at j j' closed none e =
    subst (λ (k : Journal). Grew j k []) (ok_unique {m = ok j} refl e) (unchanged j)
finish_last-Grew host at j j' closed (some ls) e =
    let size = >>=-eq-ok (measured host ls) (λ m. ok (name_last host at j closed m)) e in
    subst (λ (k : Journal). Grew j k [])
      (ok_unique {m = ok (name_last host at j closed size.0)} refl size.2)
      (named host at size.0.1 _ j j refl)

finish_unless-Grew :
    (host : Host) (at : String) (j j' : Journal) (h : Option String)
    → finish_unless host at j h ≡ ok j'
    → Grew j j' []
finish_unless-Grew host at j j' (some hash) e =
    subst (λ (k : Journal). Grew j k []) (ok_unique {m = ok j} refl e) (unchanged j)
finish_unless-Grew host at j j' none e =
    let files =
      >>=-eq-ok (listed j) (λ closed. finish_last host at j closed (last_segment closed)) e in
    finish_last-Grew host at j j' files.0 (last_segment files.0) files.2

finish_interrupted_close-Grew :
    (host : Host) (at : String) (j j' : Journal)
    → finish_interrupted_close host at j ≡ ok j'
    → Grew j j' []
unfolding finish_interrupted_close
finish_interrupted_close-Grew host at j j' e =
    let h = >>=-eq-ok (last_hash j.open_file) (finish_unless host at j) e in
    finish_unless-Grew host at j j' h.0 h.2

All-append : (xs ys : List Line) → All ClosesFile xs → All ClosesFile ys → All ClosesFile (xs ++ ys)
All-append [] ys h k = k
All-append (x ∷ xs) ys h k = (h.0, All-append xs ys h.1 k)

Grew-trans : (i j k : Journal) (more : List Line) → Grew i j [] → Grew j k more → Grew i k more
Grew-trans i j k more g h = record {
  markers = g.markers ++ h.markers;
  closing = All-append g.markers h.markers g.closing h.closing;
  is =
      h.is
      ∙ ap (λ (ls : List Line). ls ++ (h.markers ++ more))
          (g.is ∙ ap (λ (ls : List Line). all_lines i ++ ls) (append_nil g.markers))
      ∙ append_assoc (all_lines i) g.markers (h.markers ++ more)
      ∙ ap (λ (ls : List Line). all_lines i ++ ls) (sym (append_assoc g.markers h.markers more));
}

close_old-Grew :
    (host : Host) (clock : ℕ → String) (old : Bool) (j j' : Journal)
    → close_old host clock old j ≡ ok j'
    → Grew j j' []
close_old-Grew host clock false j j' e =
    subst (λ (k : Journal). Grew j k []) (ok_unique {m = ok j} refl e) (unchanged j)
close_old-Grew host clock true j j' e =
    let c =
      >>=-eq-ok (close_segment host (clock 1) "the open segment began on an earlier UTC day" j)
        (λ (r : Bool × Journal). ok r.1) e in
    subst (λ (k : Journal). Grew j k []) (ok_unique {m = ok c.0.1} refl c.2)
      (close_segment-Grew host (clock 1) _ j c.0 c.1)

-- An append adds its entry, behind at most the lines that close files.
pub append_sync-Grew :
    (host : Host) (clock : ℕ → String) (today op : String) (x : Extra) (j j' : Journal)
    → append_sync host clock today op x j ≡ ok j'
    → (prev hash : String) × Grew j j' (written (clock 2) op prev x hash ∷ [])
unfolding append_sync rotate_if_due write_entry
append_sync-Grew host clock today op x j j' e =
    let ready =
      >>=-eq-ok (rotate_if_due host clock today j)
        (λ (i : Journal).
          tail_hash host i >>= λ (prev : String). ok (write_entry host (clock 2) prev op x i).0)
        e in
    let tail =
      >>=-eq-ok (tail_hash host ready.0)
        (λ (prev : String). ok (write_entry host (clock 2) prev op x ready.0).0) ready.2 in
    let first =
      >>=-eq-ok (finish_interrupted_close host (clock 0) j)
        (λ (i : Journal). close_old host clock (began_before i.open_file today) i) ready.1 in
    let entry =
      written (clock 2) op tail.0 x (host.sha256_hex (digest_input host tail.0 (clock 2) op x)) in
    let grew =
      Grew-trans j first.0 ready.0 []
        (finish_interrupted_close-Grew host (clock 0) j first.0 first.1)
        (close_old-Grew host clock _ first.0 ready.0 first.2) in
    (
      tail.0,
      _,
      Grew-trans j ready.0 j' (entry ∷ []) grew (record {
        markers = [];
        closing = tt;
        is =
            ap all_lines (ok_unique {m = ok j'} refl (sym tail.2))
            ∙ all_lines-append_line ready.0 entry;
      }),
    )
