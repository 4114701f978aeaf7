-- ===== src/Access/Request/File/Same.antt =====
-- When a request of the register asks what a filing asks, and the first one that does.
use skarbiec.Prelude.{
  String, true, false, ◌≡◌, refl, ap, ◌↔◌, Option, none, some, List, [], ◌∷◌, ◌++◌, arith,
  Bool-cases, inl, inr, eq_iff, All, and-eq-true,
}
use skarbiec.Prelude.Text.{same_text}
use skarbiec.Access.Capability.State.{is_text, is_text-true, is_text_self}
use skarbiec.Access.Request.Register.{AccessRequest, Form, capability, consumer, record_only}
use skarbiec.Access.Request.File.{Filing, same_question, find_same, name, same_form}

-- The same question, still open.
pub record IsSameQuestion (r : AccessRequest) (f : Filing) : Type 0 where
  pub pending : r.state ≡ some "pending"
  pub agent : r.requester.agent ≡ f.requester.agent
  pub kind : r.kind ≡ some (name f.kind)
  pub resource : r.resource ≡ some f.resource
  pub action : r.action ≡ some f.action
  pub form : r.grant.form ≡ f.grant.form
  pub purpose : r.grant.purpose ≡ f.grant.purpose
  pub target : r.grant.target ≡ f.grant.target
  pub consumer_name : r.grant.consumer ≡ f.grant.consumer

same_text_iff : (o p : Option String) → (same_text o p ≡ true) ↔ (o ≡ p)
same_text_iff none none = (λ e. refl, λ e. refl)
same_text_iff none (some t) = (λ e. absurd (ground (arith, e)), λ e. absurd (ground (arith, e)))
same_text_iff (some s) none = (λ e. absurd (ground (arith, e)), λ e. absurd (ground (arith, e)))
same_text_iff (some s) (some t) =
    (λ e. ap some ((eq_iff s t).0 e), λ e. (eq_iff s t).1 (ground (arith, e)))

same_form_iff : (o p : Option Form) → (same_form o p ≡ true) ↔ (o ≡ p)
same_form_iff none none = (λ e. refl, λ e. refl)
same_form_iff none (some capability) =
    (λ e. absurd (ground (arith, e)), λ e. absurd (ground (arith, e)))
same_form_iff none (some consumer) =
    (λ e. absurd (ground (arith, e)), λ e. absurd (ground (arith, e)))
same_form_iff none (some record_only) =
    (λ e. absurd (ground (arith, e)), λ e. absurd (ground (arith, e)))
same_form_iff (some capability) none =
    (λ e. absurd (ground (arith, e)), λ e. absurd (ground (arith, e)))
same_form_iff (some capability) (some capability) = (λ e. refl, λ e. refl)
same_form_iff (some capability) (some consumer) =
    (λ e. absurd (ground (arith, e)), λ e. absurd (ground (arith, e)))
same_form_iff (some capability) (some record_only) =
    (λ e. absurd (ground (arith, e)), λ e. absurd (ground (arith, e)))
same_form_iff (some consumer) none =
    (λ e. absurd (ground (arith, e)), λ e. absurd (ground (arith, e)))
same_form_iff (some consumer) (some capability) =
    (λ e. absurd (ground (arith, e)), λ e. absurd (ground (arith, e)))
same_form_iff (some consumer) (some consumer) = (λ e. refl, λ e. refl)
same_form_iff (some consumer) (some record_only) =
    (λ e. absurd (ground (arith, e)), λ e. absurd (ground (arith, e)))
same_form_iff (some record_only) none =
    (λ e. absurd (ground (arith, e)), λ e. absurd (ground (arith, e)))
same_form_iff (some record_only) (some capability) =
    (λ e. absurd (ground (arith, e)), λ e. absurd (ground (arith, e)))
same_form_iff (some record_only) (some consumer) =
    (λ e. absurd (ground (arith, e)), λ e. absurd (ground (arith, e)))
same_form_iff (some record_only) (some record_only) = (λ e. refl, λ e. refl)

is_text_iff : (word : String) (o : Option String) → (is_text word o ≡ true) ↔ (o ≡ some word)
is_text_iff word o = (is_text-true word o, λ e. rw e (is_text_self word))

same_question_iff :
    (r : AccessRequest) (f : Filing) → (same_question r f ≡ true) ↔ IsSameQuestion r f
unfolding same_question
same_question_iff r f = (
  λ e.
      let b0 = and-eq-true _ _ e in
      let b1 = and-eq-true _ _ b0.0 in
      let b2 = and-eq-true _ _ b1.0 in
      let b3 = and-eq-true _ _ b2.0 in
      let b4 = and-eq-true _ _ b3.0 in
      let b5 = and-eq-true _ _ b4.0 in
      let b6 = and-eq-true _ _ b5.0 in
      let b7 = and-eq-true _ _ b6.0 in
      record {
        pending = (is_text_iff "pending" r.state).0 b7.0;
        agent = (same_text_iff r.requester.agent f.requester.agent).0 b7.1;
        kind = (is_text_iff (name f.kind) r.kind).0 b6.1;
        resource = (is_text_iff f.resource r.resource).0 b5.1;
        action = (is_text_iff f.action r.action).0 b4.1;
        form = (same_form_iff r.grant.form f.grant.form).0 b3.1;
        purpose = (same_text_iff r.grant.purpose f.grant.purpose).0 b2.1;
        target = (same_text_iff r.grant.target f.grant.target).0 b1.1;
        consumer_name = (same_text_iff r.grant.consumer f.grant.consumer).0 b0.1;
      },
  λ s.
      rw
        (
          (is_text_iff "pending" r.state).1 s.pending,
          (same_text_iff r.requester.agent f.requester.agent).1 s.agent,
          (is_text_iff (name f.kind) r.kind).1 s.kind,
          (is_text_iff f.resource r.resource).1 s.resource,
          (is_text_iff f.action r.action).1 s.action,
          (same_form_iff r.grant.form f.grant.form).1 s.form,
          (same_text_iff r.grant.purpose f.grant.purpose).1 s.purpose,
          (same_text_iff r.grant.target f.grant.target).1 s.target,
          (same_text_iff r.grant.consumer f.grant.consumer).1 s.consumer_name,
        )
        refl,
)

differs : (r : AccessRequest) (f : Filing) → same_question r f ≡ false → ¬ IsSameQuestion r f
differs r f e s = ground (arith, e, (same_question_iff r f).1 s)

pub find_same-none :
    (f : Filing) (rs : List AccessRequest)
    → find_same f rs ≡ none
    → All (λ x. ¬ IsSameQuestion x f) rs
unfolding find_same
find_same-none f [] h = tt
find_same-none f (x ∷ rs) h = elim (Bool-cases (same_question x f)) [
  | inl same ↦ absurd (ground arith)
  | inr other ↦ (differs x f other, find_same-none f rs (ground arith))
]

pub find_same-some :
    (f : Filing) (rs : List AccessRequest) {r : AccessRequest}
    → find_same f rs ≡ some r
    → (earlier later : List AccessRequest) × (rs ≡ earlier ++ r ∷ later)
      × All (λ x. ¬ IsSameQuestion x f) earlier
      × IsSameQuestion r f
unfolding find_same
find_same-some f [] h = absurd (ground (arith, h))
find_same-some f (x ∷ rs) {r} h = elim (Bool-cases (same_question x f)) [
  | inl same ↦
      let here : x ≡ r = ground arith in
      (
        [],
        rs,
        ap (λ (y : AccessRequest). y ∷ rs) here,
        tt,
        (same_question_iff r f).0 (rw here at same),
      )
  | inr other ↦
      let rest = find_same-some f rs {r = r} (ground arith) in
      (
        x ∷ rest.0,
        rest.1,
        ap (λ (ys : List AccessRequest). x ∷ ys) rest.2,
        (differs x f other, rest.3),
        rest.4,
      )
]
