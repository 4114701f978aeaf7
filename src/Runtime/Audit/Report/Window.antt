-- ===== src/Runtime/Audit/Report/Window.antt =====
-- The walk of the report never changes which lines its digest scan covers.
use skarbiec.Prelude.{
  ℕ, suc, ◌+◌, ◌≡◌, String, Bool, true, false, Option, none, some, List, [], ◌∷◌, str_eq, refl, ◌∙◌,
  inl, inr, Bool-cases, ◌&&◌, ltb,
}
use skarbiec.Runtime.Audit.{
  Extra, Entry, Line, blank, damaged, parsed, Host, closed_op, epoch_op, segment_name,
}
use skarbiec.Runtime.Audit.Report.{
  Walk, Found, when_bad, epoch_link, epoch_started, started, linked_or, epoch_members, segment_link,
  epoch_line, link, digest_check, digest_result, complete_line, incomplete_line, entry_line,
  walk_line, walk_lines, walk_closed, walk_segments, all_blank, or_null,
}

-- Which lines the digest scan covers does not change.
pub when_bad-window :
    (b : Bool) (f : Found) (w : Walk) → (when_bad b f w).digests_from ≡ w.digests_from
when_bad-window true f w = refl
when_bad-window false f w = refl

pub segment_link-window :
    (name : String) (n : ℕ) (at op : String) (x : Extra) (opens : Bool) (w : Walk)
    → (segment_link name n at op x opens w).digests_from ≡ w.digests_from
unfolding segment_link
segment_link-window name n at op x false w = when_bad-window (str_eq op closed_op) _ w
segment_link-window name n at op x true w = elim (Bool-cases (str_eq op closed_op)) [
  | inl e ↦ rw (segment_link, e) (when_bad-window _ _ w)
  | inr e ↦ rw (segment_link, e) refl
]

pub started-window :
    (bad : Found) (w : Walk) (valid : Bool) → (started bad w valid).1.digests_from ≡ w.digests_from
started-window bad w true = refl
started-window bad w false = refl

pub epoch_started-window :
    (host : Host) (name : String) (n : ℕ) (at op p : String) (w : Walk)
    (m : Option (String × (String × String)))
    → (epoch_started host name n at op p w m).1.digests_from ≡ w.digests_from
epoch_started-window host name n at op p w none = refl
epoch_started-window host name n at op p w (some m) = started-window _ w _

pub epoch_link-window :
    (host : Host) (name : String) (n : ℕ) (at op p : String) (x : Extra) (w : Walk)
    → (epoch_link host name n at op p x w).1.digests_from ≡ w.digests_from
unfolding epoch_link epoch_line
epoch_link-window host name n at op p x w = elim (Bool-cases (str_eq op epoch_op)) [
  | inl e ↦ rw (epoch_link, e) (epoch_started-window host name n at op p w (epoch_members x))
  | inr e ↦ rw (epoch_link, e) refl
]

pub linked_or-window :
    (bad : Found) (same : Bool) (e : Bool × Walk)
    → (linked_or bad same e).digests_from ≡ e.1.digests_from
linked_or-window bad true (b, u) = refl
linked_or-window bad false (true, u) = refl
linked_or-window bad false (false, u) = refl

pub link-window :
    (host : Host) (name : String) (n : ℕ) (at op p : String) (x : Extra) (w : Walk)
    → (link host name n at op p x w).digests_from ≡ w.digests_from
unfolding link
link-window host name n at op p x w =
    linked_or-window _ _ (epoch_link host name n at op p x w)
    ∙ epoch_link-window host name n at op p x w

pub damaged-window :
    (host : Host) (name : String) (n : ℕ) (opens : Bool) (w : Walk)
    → (walk_line host name n damaged opens w).digests_from ≡ w.digests_from
unfolding walk_line
damaged-window host name n true w = refl
damaged-window host name n false w = refl

pub incomplete_line-window :
    (name : String) (n : ℕ) (at op hash : Option String) (opens : Bool) (w : Walk)
    → (incomplete_line name n at op hash opens w).digests_from ≡ w.digests_from
unfolding incomplete_line
incomplete_line-window name n at op hash true w = refl
incomplete_line-window name n at op hash false w = refl

pub digest_result-window :
    (bad : Found) (w : Walk) (covered matches : Bool)
    → (digest_result bad w covered matches).digests_from ≡ w.digests_from
digest_result-window bad w false matches = refl
digest_result-window bad w true true = refl
digest_result-window bad w true false = refl

pub complete_line-window :
    (host : Host) (name : String) (n position : ℕ) (at op p r : String) (x : Extra) (opens : Bool)
    (w : Walk)
    → (complete_line host name n position at op p r x opens w).digests_from ≡ w.digests_from
unfolding complete_line digest_check
complete_line-window host name n position at op p r x opens w =
    digest_result-window _ (link host name n at op p x (segment_link name n at op x opens w)) _ _
    ∙ link-window host name n at op p x (segment_link name n at op x opens w)
    ∙ segment_link-window name n at op x opens w

pub entry_line-window :
    (host : Host) (name : String) (n position : ℕ) (e : Entry) (opens : Bool) (w : Walk)
    → (entry_line host name n position e opens w).digests_from ≡ w.digests_from
unfolding entry_line
entry_line-window host name n position e opens w = fields e.at e.op e.prev e.hash e.extra
  where
    fields :
        (at op prev hash : Option String) (x : Option Extra)
        → (entry_line host name n position
            (record { at = at; op = op; prev = prev; hash = hash; extra = x })
            opens
            w).digests_from
          ≡ w.digests_from
    fields none op prev hash x = incomplete_line-window name n none op hash opens w
    fields (some at) none prev hash x = incomplete_line-window name n (some at) none hash opens w
    fields (some at) (some op) none hash x =
        incomplete_line-window name n (some at) (some op) hash opens w
    fields (some at) (some op) (some prev) none x =
        incomplete_line-window name n (some at) (some op) none opens w
    fields (some at) (some op) (some prev) (some hash) x =
        complete_line-window host name n position at op prev hash (or_null x) opens w

pub walk_lines-window :
    (host : Host) (name : String) (n : ℕ) (opens : Bool) (ls : List Line) (w : Walk)
    → (walk_lines host name n opens ls w).digests_from ≡ w.digests_from
unfolding walk_lines walk_line
walk_lines-window host name n opens [] w = refl
walk_lines-window host name n opens (blank ∷ ls) w =
    walk_lines-window host name (n + 1) (opens && true) ls w
walk_lines-window host name n opens (damaged ∷ ls) w =
    walk_lines-window host name (n + 1) (opens && false) ls _ ∙ damaged-window host name n opens w
walk_lines-window host name n opens (parsed x ∷ ls) w =
    walk_lines-window host name (n + 1) (opens && false) ls _
    ∙ entry_line-window host name n w.position x opens
        (record w { position = w.position + 1; entries = w.entries + 1 })

pub walk_closed-window :
    (host : Host) (i : ℕ) (ls : List Line) (w : Walk)
    → (walk_closed host i ls w).digests_from ≡ w.digests_from
unfolding walk_closed
walk_closed-window host i ls w =
    when_bad-window (all_blank ls) _ (walk_lines host (segment_name i) 1 (ltb 0 i) ls w)
    ∙ walk_lines-window host (segment_name i) 1 (ltb 0 i) ls w

pub walk_segments-window :
    (host : Host) (i : ℕ) (files : List (List Line)) (w : Walk)
    → (walk_segments host i files w).digests_from ≡ w.digests_from
unfolding walk_segments
walk_segments-window host i [] w = refl
walk_segments-window host i (ls ∷ more) w =
    walk_segments-window host (suc i) more (walk_closed host i ls w)
    ∙ walk_closed-window host i ls w
