-- ===== src/Runtime/Audit/Chain/Walks.antt =====
-- The report's walk over a chained journal finds no fault.
use skarbiec.Prelude.{
  ℕ, suc, ◌+◌, ◌<◌, ◌≡◌, String, Bool, true, false, Option, none, some, List, [], ◌∷◌, ◌++◌, length,
  str_eq, refl, ◌∙◌, sym, ap, arith, eq_refl, Bool-cases, inl, inr, ltb, is_some, ◌==◌,
}
use skarbiec.Prelude.Text.{same_text}
use skarbiec.Runtime.Audit.{
  Extra, Line, Journal, Host, closed_op, epoch_op, digest_input, file_bytes, segment_name,
}
use skarbiec.Runtime.Audit.Append.{present}
use skarbiec.Runtime.Audit.Report.{
  Walk, epoch_link, all_blank, is_blank, in_window, segment_link, link, digest_check, complete_line,
  entry_line, walk_line, walk_lines, walk_closed, walk_segments, walk_open, walk_journal, start,
  last_closing, wrong_closing,
}
use skarbiec.Runtime.Audit.Chain.{Plain, Opening, Lines, File, Closed, Open, IsChained}

-- A part of the walk that found nothing and stands at the hash `r`.
pub record Clean (w w' : Walk) (hash : Option String) : Type 0 where
  pub faults : w'.faults ≡ w.faults
  pub closing : w'.closing ≡ w.closing
  pub previous : w'.previous_hash ≡ hash

same_text-some : (s : String) → same_text (some s) (some s) ≡ true
same_text-some s = eq_refl s

segment_link-plain :
    (name : String) (n : ℕ) (at op : String) (x : Extra) (w : Walk)
    → str_eq op closed_op ≡ false
    → segment_link name n at op x false w ≡ w
unfolding segment_link
segment_link-plain name n at op x w e = rw e refl

same_number : (n : ℕ) → (n == n) ≡ true
same_number n = ground arith

closing_right :
    (x : Extra) (c : String × ℕ) (p : String)
    → x.segment ≡ some c.0
    → x.bytes ≡ some c.1
    → x.last_hash ≡ some p
    → wrong_closing x (some c) (some p) ≡ false
unfolding wrong_closing
closing_right x c p e1 e2 e3 = rw (e1, e2, e3, eq_refl c.0, eq_refl p, same_number c.1) refl

segment_link-opening :
    (name : String) (n : ℕ) (at : String) (x : Extra) (w : Walk) (c : String × ℕ) (p : String)
    → x.segment ≡ some c.0
    → x.bytes ≡ some c.1
    → x.last_hash ≡ some p
    → last_closing w.closing ≡ some c
    → w.previous_hash ≡ some p
    → segment_link name n at closed_op x true w ≡ w
unfolding segment_link
segment_link-opening name n at x w c p e1 e2 e3 e4 e5 =
    rw (e4, e5, closing_right x c p e1 e2 e3) refl

link-Clean :
    (host : Host) (name : String) (n : ℕ) (at op p : String) (x : Extra) (w : Walk)
    → str_eq op epoch_op ≡ false
    → w.previous_hash ≡ some p
    → Clean w (link host name n at op p x w) (some p)
unfolding link epoch_link
link-Clean host name n at op p x w e h =
    rw (e, h, eq_refl p) record { faults = refl; closing = refl; previous = refl }

digest_check-Clean :
    (host : Host) (name : String) (n position : ℕ) (at op p r : String) (x : Extra) (w : Walk)
    → r ≡ host.sha256_hex (digest_input host p at op x)
    → Clean w (digest_check host name n position at op p r x w) w.previous_hash
unfolding digest_check
digest_check-Clean host name n position at op p r x w h =
    elim (Bool-cases (in_window w.digests_from position)) [
      | inl e ↦
          rw (e, h, eq_refl (host.sha256_hex (digest_input host p at op x)))
            record { faults = refl; closing = refl; previous = refl }
      | inr e ↦ rw e record { faults = refl; closing = refl; previous = refl }
    ]

Clean-trans : {w v u : Walk} {p q : Option String} → Clean w v p → Clean v u q → Clean w u q
Clean-trans f g = record {
  faults = g.faults ∙ f.faults;
  closing = g.closing ∙ f.closing;
  previous = g.previous;
}

-- A line that is linked and digested, once `segment_link` has found nothing.
complete_line-Clean :
    (host : Host) (name : String) (n position : ℕ) (at op p r : String) (x : Extra) (opens : Bool)
    (w : Walk)
    → segment_link name n at op x opens w ≡ w
    → str_eq op epoch_op ≡ false
    → w.previous_hash ≡ some p
    → r ≡ host.sha256_hex (digest_input host p at op x)
    → Clean w (complete_line host name n position at op p r x opens w) (some r)
unfolding complete_line
complete_line-Clean host name n position at op p r x opens w s e h d =
    let f = link-Clean host name n at op p x w e h in
    let g = digest_check-Clean host name n position at op p r x (link host name n at op p x w) d in
    rw s record { faults = g.faults ∙ f.faults; closing = g.closing ∙ f.closing; previous = refl }

-- The counts do not matter.
counted :
    {w u : Walk} {p e : ℕ} {q : Option String}
    → Clean (record w { position = p; entries = e }) u q
    → Clean w u q
counted f = record { faults = f.faults; closing = f.closing; previous = f.previous }

walk_line-Plain :
    (host : Host) (name : String) (n : ℕ) (w : Walk) (l : Line) (p r : String)
    → Plain host p l r
    → w.previous_hash ≡ some p
    → Clean w (walk_line host name n l false w) (some r)
unfolding walk_line entry_line
walk_line-Plain host name n w l p r h e = rw h.is (
    counted (
      complete_line-Clean host name n w.position h.at h.op p r h.extra false
        (record w { position = w.position + 1; entries = w.entries + 1 })
        (segment_link-plain name n h.at h.op h.extra _ h.not_closed) h.not_epoch e h.hashed))

walk_line-Opening :
    (host : Host) (name : String) (n : ℕ) (w : Walk) (c : String × ℕ) (l : Line) (p r : String)
    → Opening host c p l r
    → w.previous_hash ≡ some p
    → last_closing w.closing ≡ some c
    → Clean w (walk_line host name n l true w) (some r)
unfolding walk_line entry_line
walk_line-Opening host name n w c l p r h e m = rw h.is (
    counted (
      complete_line-Clean host name n w.position h.at closed_op p r h.extra true
        (record w { position = w.position + 1; entries = w.entries + 1 })
        (segment_link-opening name n h.at h.extra _ c p h.names h.holds h.ends m e) refl e
        h.hashed))

walk_lines-Lines :
    (host : Host) (name : String) (n : ℕ) (ls : List Line) (w : Walk) (p q : String)
    → Lines host p ls q
    → w.previous_hash ≡ some p
    → Clean w (walk_lines host name n false ls w) (some q)
unfolding walk_lines Lines
walk_lines-Lines host name n [] w p q h e = record {
  faults = refl;
  closing = refl;
  previous = e ∙ ap (λ (s : String). some s) h;
}
walk_lines-Lines host name n (l ∷ ls) w p q h e =
    let first = walk_line-Plain host name n w l p h.0 h.1 e in
    Clean-trans first (walk_lines-Lines host name (n + 1) ls _ h.0 q h.2 first.previous)

Opening-stands :
    (host : Host) (c : String × ℕ) (p : String) (l : Line) (r : String)
    → Opening host c p l r
    → is_blank l ≡ false
Opening-stands host c p l r h = rw h.is refl

-- A whole file, which opens with the line that closes `c`.
walk_lines-File :
    (host : Host) (name : String) (c : Option (String × ℕ)) (ls : List Line) (w : Walk)
    (p q : String)
    → File host c p ls q
    → w.previous_hash ≡ some p
    → last_closing w.closing ≡ c
    → Clean w (walk_lines host name 1 (is_some c) ls w) (some q)
unfolding walk_lines File
walk_lines-File host name none ls w p q h e m = walk_lines-Lines host name 1 ls w p q h e
walk_lines-File host name (some c) [] w p q h e m = absurd h
walk_lines-File host name (some c) (l ∷ ls) w p q h e m =
    let first = walk_line-Opening host name 1 w c l p h.0 h.1 e m in
    rw (Opening-stands host c p l h.0 h.1)
      (Clean-trans first (walk_lines-Lines host name 2 ls _ h.0 q h.2 first.previous))

-- A file that holds a line is not blank throughout.
Plain-stands :
    (host : Host) (p : String) (l : Line) (ls : List Line) (r : String)
    → Plain host p l r
    → all_blank (l ∷ ls) ≡ false
unfolding present
Plain-stands host p l ls r h = rw h.is refl

opens_stand :
    (host : Host) (c : String × ℕ) (p : String) (l : Line) (ls : List Line) (r : String)
    → Opening host c p l r
    → all_blank (l ∷ ls) ≡ false
unfolding present
opens_stand host c p l ls r h = rw h.is refl

File-stands :
    (host : Host) (c : Option (String × ℕ)) (ls : List Line) (p q : String)
    → 0 < length ls
    → File host c p ls q
    → all_blank ls ≡ false
unfolding File Lines
File-stands host none [] p q n h = absurd (omega arith)
File-stands host none (l ∷ ls) p q n h = Plain-stands host p l ls h.0 h.1
File-stands host (some c) [] p q n h = absurd h
File-stands host (some c) (l ∷ ls) p q n h = opens_stand host c p l ls h.0 h.1

last_closing-snoc : (cs : List (String × ℕ)) (c : String × ℕ) → last_closing (cs ++ c ∷ []) ≡ some c
unfolding last_closing
last_closing-snoc [] c = refl
last_closing-snoc (d ∷ cs) c = rw (last_closing-snoc cs c) refl

-- What the walk knows before the file with number `i`.
pub record Before (w : Walk) (i : ℕ) (c : Option (String × ℕ)) (p : String) : Type 0 where
  pub clean : w.faults ≡ []
  pub previous : w.previous_hash ≡ some p
  pub named : last_closing w.closing ≡ c
  pub first : ltb 0 i ≡ is_some c

walk_closed-Before :
    (host : Host) (i : ℕ) (ls : List Line) (w : Walk) (c : Option (String × ℕ)) (p q : String)
    → 0 < length ls
    → File host c p ls q
    → Before w i c p
    → Before (walk_closed host i ls w) (suc i) (some (segment_name i, file_bytes host ls)) q
unfolding walk_closed
walk_closed-Before host i ls w c p q n h b =
    let walk = walk_lines-File host (segment_name i) c ls w p q h b.previous b.named in
    rw (b.first, File-stands host c ls p q n h)
      record {
        clean = walk.faults ∙ b.clean;
        previous = walk.previous;
        named = last_closing-snoc _ _;
        first = ground arith;
      }

Before-eq :
    {w : Walk} {i i' : ℕ} {c c' : Option (String × ℕ)} {p p' : String}
    → i ≡ i'
    → c ≡ c'
    → p ≡ p'
    → Before w i c p
    → Before w i' c' p'
Before-eq e f g b = record {
  clean = b.clean;
  previous = b.previous ∙ ap (λ (s : String). some s) g;
  named = b.named ∙ f;
  first = ap (λ (k : ℕ). ltb 0 k) (sym e) ∙ b.first ∙ ap (λ (o : Option (String × ℕ)). is_some o) f;
}

walk_segments-Before :
    (host : Host) (i : ℕ) (files : List (List Line)) (w : Walk) (c c' : Option (String × ℕ))
    (p q : String)
    → Closed host i c p files c' q
    → Before w i c p
    → Before (walk_segments host i files w) (length files + i) c' q
unfolding walk_segments Closed
walk_segments-Before host i [] w c c' p q h b = Before-eq (omega arith) h.0 h.1 b
walk_segments-Before host i (ls ∷ more) w c c' p q h b =
    let here = walk_closed-Before host i ls w c p h.0 h.1 h.2 b in
    Before-eq (omega arith) refl refl (walk_segments-Before host (suc i) more _ _ c' h.0 q h.3 here)

-- Whichever lines the digest scan covers, the report on a chained journal is clean.
pub walk_journal-IsChained :
    (host : Host) (from : Option ℕ) (j : Journal)
    → IsChained host j
    → (walk_journal host from j).faults ≡ []
unfolding walk_journal walk_open walk_lines Open last_closing
walk_journal-IsChained host from j h =
    let before =
      walk_segments-Before host 0 j.closed (start from) none h.last String.[] h.tail h.closed
        (record { clean = refl; previous = refl; named = refl; first = refl }) in
    the_open j.open_file h.open_file
      (Before-eq {i' = length j.closed} (omega arith) refl refl before)
  where
    the_open :
        (open_file : Option (List Line))
        → Open host h.last h.tail open_file h.hash
        → Before (walk_segments host 0 j.closed (start from)) (length j.closed) h.last h.tail
        → (walk_open host
            (length j.closed)
            open_file
            (walk_segments host 0 j.closed (start from))).faults
          ≡ []
    the_open none o b = b.clean
    the_open (some ls) o b =
        rw b.first (
          (walk_lines-File host _ h.last ls _ h.tail h.hash o.1 b.previous b.named).faults
          ∙ b.clean)
