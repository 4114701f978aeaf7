-- ===== src/Runtime/Audit/Report/Lines.antt =====
-- One line of the journal: what it means that the report finds nothing wrong with it.
use skarbiec.Prelude.{
  ℕ, ◌≡◌, ◌≢◌, String, Bool, true, false, Option, none, some, List, [], ◌∷◌, ◌++◌, str_eq, refl,
  ◌∙◌, sym, ap, arith, ◌⊎◌, inl, inr, eq_iff, if◌then◌else◌,
}
use mathlib.Core.Path.{subst}
use skarbiec.Prelude.Text.{same_text}
use skarbiec.Runtime.Audit.{Extra, Entry, damaged, Host, closed_op, epoch_op, digest_input}
use skarbiec.Runtime.Audit.Report.{
  Walk, Found, when_bad, found, segment, epoch_link, epoch_started, started, linked_or,
  epoch_members, segment_link, wrong_closing, last_closing, epoch_line, link, digest_check, digest,
  digest_result, in_window, complete_line, incomplete_line, entry_line, walk_line, or_null,
}
use skarbiec.Runtime.Audit.Report.Window.{segment_link-window, link-window}

-- A line that holds its own hash and names the hash before it, or starts an epoch.
pub record Sound (host : Host) (previous : Option String) (e : Entry) : Type 0 where
  pub at : String
  pub op : String
  pub prev : String
  pub hash : String
  pub has_at : e.at ≡ some at
  pub has_op : e.op ≡ some op
  pub has_prev : e.prev ≡ some prev
  pub has_hash : e.hash ≡ some hash
  pub digested : hash ≡ host.sha256_hex (digest_input host prev at op (or_null e.extra))
  pub linked : (previous ≡ some prev) ⊎ (op ≡ epoch_op)

pub snoc-ne-nil : {A B : Type 0} (xs : List A) (x : A) → xs ++ x ∷ [] ≡ [] → B
snoc-ne-nil [] x e = absurd cc
snoc-ne-nil (y ∷ xs) x e = absurd cc

pub snoc_ne : {A : Type 0} (xs : List A) (x : A) → xs ++ x ∷ [] ≢ []
snoc_ne xs x e = snoc-ne-nil xs x e

-- A step that found nothing.
pub record Quiet (w w' : Walk) : Type 0 where
  pub none_before : w.faults ≡ []
  pub same_window : w'.digests_from ≡ w.digests_from

pub when_bad-eq :
    (b : Bool) (f : Found) (w : Walk) → (when_bad b f w).faults ≡ [] → when_bad b f w ≡ w
when_bad-eq true f w e = snoc-ne-nil w.faults f e
when_bad-eq false f w e = refl

pub segment_link-eq :
    (name : String) (n : ℕ) (at op : String) (x : Extra) (opens : Bool) (w : Walk)
    → (segment_link name n at op x opens w).faults ≡ []
    → segment_link name n at op x opens w ≡ w
unfolding segment_link
segment_link-eq name n at op x false w e = when_bad-eq (str_eq op closed_op) _ w e
segment_link-eq name n at op x true w e = ground (
  arith,
  e,
  snoc_ne w.faults,
  when_bad-eq (wrong_closing x (last_closing w.closing) w.previous_hash)
      (found name n (some at) (some op) segment) w,
)

pub record Linking (previous : Option String) (op prev : String) (w w' : Walk) : Type 0 where
  pub quiet : Quiet w w'
  pub same_hash : w'.previous_hash ≡ w.previous_hash
  pub linked : (previous ≡ some prev) ⊎ (op ≡ epoch_op)

-- What an epoch start leaves, where nothing is wrong with it.
pub record Started (w : Walk) (e : Bool × Walk) : Type 0 where
  pub none_before : w.faults ≡ []
  pub same_window : e.1.digests_from ≡ w.digests_from
  pub same_hash : e.1.previous_hash ≡ w.previous_hash

pub started-Started :
    (bad : Found) (w : Walk) (valid : Bool)
    → (started bad w valid).1.faults ≡ []
    → Started w (started bad w valid)
started-Started bad w true e = record { none_before = e; same_window = refl; same_hash = refl }
started-Started bad w false e = snoc-ne-nil w.faults bad e

pub epoch_started-Started :
    (host : Host) (name : String) (n : ℕ) (at op p : String) (w : Walk)
    (m : Option (String × (String × String)))
    → (epoch_started host name n at op p w m).1.faults ≡ []
    → Started w (epoch_started host name n at op p w m)
epoch_started-Started host name n at op p w none e = snoc-ne-nil w.faults _ e
epoch_started-Started host name n at op p w (some m) e = started-Started _ w _ e

pub epoch_link-Started :
    (host : Host) (name : String) (n : ℕ) (at op p : String) (x : Extra) (w : Walk)
    → (epoch_link host name n at op p x w).1.faults ≡ []
    → Started w (epoch_link host name n at op p x w)
      × (((epoch_link host name n at op p x w).0 ≡ true) → op ≡ epoch_op)
unfolding epoch_link epoch_line
epoch_link-Started host name n at op p x w e = examined (str_eq op epoch_op) refl e
  where
    examined :
        (b : Bool)
        → str_eq op epoch_op ≡ b
        → (if b then epoch_started host name n at op p w (epoch_members x) else (false, w)).1.faults
          ≡ []
        → Started w
            (if b then epoch_started host name n at op p w (epoch_members x) else (false, w))
          × (((if b then epoch_started host name n at op p w (epoch_members x) else (false, w)).0
                ≡ true)
              → op ≡ epoch_op)
    examined true b e = (
      epoch_started-Started host name n at op p w (epoch_members x) e,
      λ t. (eq_iff op epoch_op).0 b,
    )
    examined false b e =
        (record { none_before = e; same_window = refl; same_hash = refl }, λ t. absurd cc)

-- Either the hash is the one before, or an epoch starts.
pub linked_or-cases :
    (bad : Found) (same : Bool) (e : Bool × Walk)
    → (linked_or bad same e).faults ≡ []
    → (e.1.faults ≡ [])
      × ((same ≡ true) ⊎ (e.0 ≡ true))
      × ((linked_or bad same e).previous_hash ≡ e.1.previous_hash)
      × ((linked_or bad same e).digests_from ≡ e.1.digests_from)
linked_or-cases bad true (b, u) h = (h, inl refl, refl, refl)
linked_or-cases bad false (true, u) h = (h, inr refl, refl, refl)
linked_or-cases bad false (false, u) h = snoc-ne-nil u.faults bad h

pub same_text_eq : (o : Option String) (s : String) → same_text o (some s) ≡ true → o ≡ some s
same_text_eq none s h = absurd cc
same_text_eq (some t) s h = ap (λ (u : String). some u) ((eq_iff t s).0 h)

pub link-Linking :
    (host : Host) (name : String) (n : ℕ) (at op p : String) (x : Extra) (w : Walk)
    → (link host name n at op p x w).faults ≡ []
    → Linking w.previous_hash op p w (link host name n at op p x w)
unfolding link
link-Linking host name n at op p x w e =
    let cases =
      linked_or-cases _ (same_text w.previous_hash (some p)) (epoch_link host name n at op p x w)
        e in
    let s = epoch_link-Started host name n at op p x w cases.0 in
    record {
      quiet = record { none_before = s.0.none_before; same_window = cases.3 ∙ s.0.same_window };
      same_hash = cases.2 ∙ s.0.same_hash;
      linked = elim cases.1 [
        | inl t ↦ inl (same_text_eq w.previous_hash p t)
        | inr t ↦ inr (s.1 t)
      ];
    }

pub digest_result-cases :
    (bad : Found) (w : Walk) (matches : Bool)
    → (digest_result bad w true matches).faults ≡ []
    → Quiet w (digest_result bad w true matches) × (matches ≡ true)
digest_result-cases bad w true e = (record { none_before = e; same_window = refl }, refl)
digest_result-cases bad w false e = snoc-ne-nil w.faults bad e

pub digest_check-Quiet :
    (host : Host) (name : String) (n position : ℕ) (at op p r : String) (x : Extra) (w : Walk)
    → w.digests_from ≡ none
    → (digest_check host name n position at op p r x w).faults ≡ []
    → Quiet w (digest_check host name n position at op p r x w)
      × (r ≡ host.sha256_hex (digest_input host p at op x))
unfolding digest_check
digest_check-Quiet host name n position at op p r x w d e =
    let window : in_window w.digests_from position ≡ true =
      ap (λ (o : Option ℕ). in_window o position) d in
    let cases =
      digest_result-cases (found name n (some at) (some op) digest) w
        (str_eq r (host.sha256_hex (digest_input host p at op x)))
        (ap
            (λ (b : Bool).
              (digest_result (found name n (some at) (some op) digest) w b
                (str_eq r (host.sha256_hex (digest_input host p at op x)))).faults)
            (sym window)
          ∙ e) in
    (
      subst
          (λ (b : Bool). Quiet w (
            digest_result (found name n (some at) (some op) digest) w b
              (str_eq r (host.sha256_hex (digest_input host p at op x)))))
          (sym window) cases.0,
      (eq_iff r (host.sha256_hex (digest_input host p at op x))).0 cases.1,
    )

-- A line with its four fields, in which nothing is wrong.
pub record Read (host : Host) (w w' : Walk) (at op p r : String) (x : Extra) : Type 0 where
  pub none_before : w.faults ≡ []
  pub same_window : w'.digests_from ≡ w.digests_from
  pub digested : r ≡ host.sha256_hex (digest_input host p at op x)
  pub linked : (w.previous_hash ≡ some p) ⊎ (op ≡ epoch_op)
  pub hash : w'.previous_hash ≡ some r

pub complete_line-Read :
    (host : Host) (name : String) (n position : ℕ) (at op p r : String) (x : Extra) (opens : Bool)
    (w : Walk)
    → w.digests_from ≡ none
    → (complete_line host name n position at op p r x opens w).faults ≡ []
    → Read host w (complete_line host name n position at op p r x opens w) at op p r x
unfolding complete_line
complete_line-Read host name n position at op p r x opens w d e =
    let w1 = segment_link name n at op x opens w in
    let w2 = link host name n at op p x w1 in
    let from1 = segment_link-window name n at op x opens w in
    let from2 = link-window host name n at op p x w1 ∙ from1 in
    let digest = digest_check-Quiet host name n position at op p r x w2 (from2 ∙ d) e in
    let linking = link-Linking host name n at op p x w1 digest.0.none_before in
    let same = segment_link-eq name n at op x opens w linking.quiet.none_before in
    record {
      none_before = sym (ap (λ (u : Walk). u.faults) same) ∙ linking.quiet.none_before;
      same_window = digest.0.same_window ∙ from2;
      digested = digest.1;
      linked =
          subst (λ (u : Walk). (u.previous_hash ≡ some p) ⊎ (op ≡ epoch_op)) same linking.linked;
      hash = refl;
    }

-- A line that misses a field is a fault.
pub incomplete_line-faulty :
    (name : String) (n : ℕ) (at op hash : Option String) (opens : Bool) (w : Walk) {B : Type 0}
    → (incomplete_line name n at op hash opens w).faults ≡ []
    → B
unfolding incomplete_line
incomplete_line-faulty name n at op hash true w e = snoc-ne-nil (w.faults ++ _ ∷ []) _ e
incomplete_line-faulty name n at op hash false w e = snoc-ne-nil w.faults _ e

pub damaged-faulty :
    (host : Host) (name : String) (n : ℕ) (opens : Bool) (w : Walk) {B : Type 0}
    → (walk_line host name n damaged opens w).faults ≡ []
    → B
unfolding walk_line
damaged-faulty host name n true w e = snoc-ne-nil (w.faults ++ _ ∷ []) _ e
damaged-faulty host name n false w e = snoc-ne-nil w.faults _ e

pub record Entered (host : Host) (w w' : Walk) (e : Entry) : Type 0 where
  pub none_before : w.faults ≡ []
  pub same_window : w'.digests_from ≡ w.digests_from
  pub sound : Sound host w.previous_hash e
  pub hash : w'.previous_hash ≡ e.hash

pub entry_line-Entered :
    (host : Host) (name : String) (n position : ℕ) (e : Entry) (opens : Bool) (w : Walk)
    → w.digests_from ≡ none
    → (entry_line host name n position e opens w).faults ≡ []
    → Entered host w (entry_line host name n position e opens w) e
unfolding entry_line
entry_line-Entered host name n position e opens w d f = fields e.at e.op e.prev e.hash e.extra f
  where
    fields :
        (at op prev hash : Option String) (x : Option Extra)
        → (entry_line host name n position
            (record { at = at; op = op; prev = prev; hash = hash; extra = x })
            opens
            w).faults
          ≡ []
        → Entered host w
            (entry_line host name n position
              (record { at = at; op = op; prev = prev; hash = hash; extra = x })
              opens
              w)
            (record { at = at; op = op; prev = prev; hash = hash; extra = x })
    fields none op prev hash x f = incomplete_line-faulty name n none op hash opens w f
    fields (some at) none prev hash x f =
        incomplete_line-faulty name n (some at) none hash opens w f
    fields (some at) (some op) none hash x f =
        incomplete_line-faulty name n (some at) (some op) hash opens w f
    fields (some at) (some op) (some prev) none x f =
        incomplete_line-faulty name n (some at) (some op) none opens w f
    fields (some at) (some op) (some prev) (some hash) x f =
        let read =
          complete_line-Read host name n position at op prev hash (or_null x) opens w d f in
        record {
          none_before = read.none_before;
          same_window = read.same_window;
          sound = record {
            at = at;
            op = op;
            prev = prev;
            hash = hash;
            has_at = refl;
            has_op = refl;
            has_prev = refl;
            has_hash = refl;
            digested = read.digested;
            linked = read.linked;
          };
          hash = read.hash;
        }
