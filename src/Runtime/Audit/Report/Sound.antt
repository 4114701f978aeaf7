-- ===== src/Runtime/Audit/Report/Sound.antt =====
-- What a report without faults says of a journal, whoever wrote it.
use skarbiec.Prelude.{
  ℕ, suc, ◌+◌, ◌≡◌, String, Bool, true, false, Option, none, some, List, [], ◌∷◌, ◌++◌, length,
  refl, ◌∙◌, sym, ap, arith, ◌&&◌, ltb,
}
use mathlib.Core.Path.{subst}
use skarbiec.Runtime.Audit.{Line, blank, damaged, parsed, Journal, Host, segment_name}
use skarbiec.Runtime.Audit.Append.{open_lines, concat, all_lines}
use skarbiec.Runtime.Audit.Report.{
  Walk, found, segment, entry_line, walk_line, walk_lines, walk_closed, walk_segments, walk_open,
  walk_journal, start, all_blank, open_name, intact,
}
use skarbiec.Runtime.Audit.Report.Window.{
  damaged-window, entry_line-window, walk_closed-window, walk_segments-window,
}
use skarbiec.Runtime.Audit.Report.Lines.{Sound, when_bad-eq, damaged-faulty, entry_line-Entered}

unfoldable pub Linked : Host → Option String → List Line → Option String → Type 0
Linked host p [] q = p ≡ q
Linked host p (blank ∷ ls) q = Linked host p ls q
Linked host p (damaged ∷ ls) q = ⊥
Linked host p (parsed e ∷ ls) q = Sound host p e × Linked host e.hash ls q

-- A stretch of the walk in which nothing is wrong, over the lines `ls`.
pub record Stretch (host : Host) (w w' : Walk) (ls : List Line) : Type 0 where
  pub none_before : w.faults ≡ []
  pub same_window : w'.digests_from ≡ w.digests_from
  pub linked : Linked host w.previous_hash ls w'.previous_hash

walk_lines-Stretch :
    (host : Host) (name : String) (n : ℕ) (opens : Bool) (ls : List Line) (w : Walk)
    → w.digests_from ≡ none
    → (walk_lines host name n opens ls w).faults ≡ []
    → Stretch host w (walk_lines host name n opens ls w) ls
unfolding walk_lines walk_line Linked
walk_lines-Stretch host name n opens [] w d e = record {
  none_before = e;
  same_window = refl;
  linked = refl;
}
walk_lines-Stretch host name n opens (blank ∷ ls) w d e =
    let rest = walk_lines-Stretch host name (n + 1) (opens && true) ls w d e in
    record { none_before = rest.none_before; same_window = rest.same_window; linked = rest.linked }
walk_lines-Stretch host name n opens (damaged ∷ ls) w d e =
    let w1 = walk_line host name n damaged opens w in
    damaged-faulty host name n opens w
      (walk_lines-Stretch host name (n + 1) (opens && false) ls w1
        (damaged-window host name n opens w ∙ d) e).none_before
walk_lines-Stretch host name n opens (parsed x ∷ ls) w d e =
    let w1 = record w { position = w.position + 1; entries = w.entries + 1 } in
    let w2 = entry_line host name n w.position x opens w1 in
    let rest =
      walk_lines-Stretch host name (n + 1) (opens && false) ls w2
        (entry_line-window host name n w.position x opens w1 ∙ d) e in
    let entered = entry_line-Entered host name n w.position x opens w1 d rest.none_before in
    record {
      none_before = entered.none_before;
      same_window = rest.same_window ∙ entered.same_window;
      linked = (
        entered.sound,
        subst
            (λ (h : Option String).
              Linked host h ls (walk_lines host name (n + 1) (opens && false) ls w2).previous_hash)
            entered.hash rest.linked,
      );
    }

Linked-append :
    (host : Host) (p q r : Option String) (xs ys : List Line)
    → Linked host p xs q
    → Linked host q ys r
    → Linked host p (xs ++ ys) r
unfolding Linked
Linked-append host p q r [] ys h k = subst (λ (s : Option String). Linked host s ys r) (sym h) k
Linked-append host p q r (blank ∷ xs) ys h k = Linked-append host p q r xs ys h k
Linked-append host p q r (damaged ∷ xs) ys h k = absurd h
Linked-append host p q r (parsed e ∷ xs) ys h k = (h.0, Linked-append host e.hash q r xs ys h.1 k)

walk_closed-Stretch :
    (host : Host) (i : ℕ) (ls : List Line) (w : Walk)
    → w.digests_from ≡ none
    → (walk_closed host i ls w).faults ≡ []
    → Stretch host w (walk_closed host i ls w) ls
unfolding walk_closed
walk_closed-Stretch host i ls w d e =
    let w1 = walk_lines host (segment_name i) 1 (ltb 0 i) ls w in
    let same = when_bad-eq (all_blank ls) (found (segment_name i) 0 none none segment) w1 e in
    let walked =
      walk_lines-Stretch host (segment_name i) 1 (ltb 0 i) ls w d
        (sym (ap (λ (u : Walk). u.faults) same) ∙ e) in
    record {
      none_before = walked.none_before;
      same_window = ap (λ (u : Walk). u.digests_from) same ∙ walked.same_window;
      linked =
          subst (λ (h : Option String). Linked host w.previous_hash ls h)
            (sym (ap (λ (u : Walk). u.previous_hash) same)) walked.linked;
    }

walk_segments-Stretch :
    (host : Host) (i : ℕ) (files : List (List Line)) (w : Walk)
    → w.digests_from ≡ none
    → (walk_segments host i files w).faults ≡ []
    → Stretch host w (walk_segments host i files w) (concat files)
unfolding walk_segments Linked concat
walk_segments-Stretch host i [] w d e = record {
  none_before = e;
  same_window = refl;
  linked = refl;
}
walk_segments-Stretch host i (ls ∷ more) w d e =
    let w1 = walk_closed host i ls w in
    let rest = walk_segments-Stretch host (suc i) more w1 (walk_closed-window host i ls w ∙ d) e in
    let first = walk_closed-Stretch host i ls w d rest.none_before in
    record {
      none_before = first.none_before;
      same_window = rest.same_window ∙ first.same_window;
      linked =
          Linked-append host w.previous_hash w1.previous_hash _ ls (concat more) first.linked
            rest.linked;
    }

no_faults : (w : Walk) → intact w ≡ true → w.faults ≡ []
unfolding intact
no_faults w e = ground (arith, e)

-- A report over every digest that finds nothing: the lines of all files are one chain.
pub intact-Linked :
    (host : Host) (j : Journal)
    → intact (walk_journal host none j) ≡ true
    → Linked host (some String.[]) (all_lines j) (walk_journal host none j).previous_hash
unfolding walk_journal walk_open all_lines
intact-Linked host j e =
    let w = walk_segments host 0 j.closed (start none) in
    let walked =
      walk_lines-Stretch host (open_name host) 1 (ltb 0 (length j.closed)) (open_lines j.open_file)
        w (walk_segments-window host 0 j.closed (start none))
        (no_faults (walk_journal host none j) e) in
    let segments = walk_segments-Stretch host 0 j.closed (start none) refl walked.none_before in
    Linked-append host _ w.previous_hash _ (concat j.closed) (open_lines j.open_file)
      segments.linked walked.linked
