-- ===== src/Access/Grant/Rules/Target.antt =====
-- What the target of an accepted capability is, told without the tables of the actions.
use text.Mathlib.Text.{starts_with}
use skarbiec.Prelude.{
  String, Bool, true, false, ◌≡◌, ◌≢◌, refl, ◌⊎◌, inl, inr, Option, none, some, arith, ok, str_eq,
  eq_iff, is_some, Bool-cases, Option-cases,
}
use skarbiec.Prelude.Text.{same_text}
use skarbiec.Access.Grant.Action.{
  Action, acquire, read, stage, rotate, verify, revoke, share, trash, purge, admin, sync, enroll,
  donate, lifecycle, reseal, introspect, call, offer, request, needs_item, may_create,
  reaches_service, files_request, reads_context,
}
use skarbiec.Access.Grant.Rules.{Vault, Opened, check_target, target_exists, is_kind}

-- The actions whose own write creates what they name.
pub data CreatesTarget : Action → Type 0 where
  acquires : CreatesTarget acquire
  stages : CreatesTarget stage

-- The actions on an item as a whole, which has to be there.
pub data ActsOnItem : Action → Type 0 where
  shares : ActsOnItem share
  trashes : ActsOnItem trash
  purges : ActsOnItem purge
  administers : ActsOnItem admin
  reseals : ActsOnItem reseal

abbrev pub IsKind : String → Type 0
IsKind word = (word ≡ "secret") ⊎ ((word ≡ "device") ⊎ (word ≡ "membership"))

-- The item that an opened item is, with this field or room for it.
pub record IsThere (vault : Vault) (a : Action) (item field : String) : Type 0 where
  pub opened : Opened
  pub present : vault.has_item item ≡ true
  pub opens : vault.get_item item ≡ some opened
  pub has : (opened.has_field field ≡ true) ⊎ (CreatesTarget a × (opened.allows_field field ≡ true))

-- The coordinate that a new capability names: for a field, one that the item has or, if the action
-- creates it, may get; without a field, an item that is there if the action is on the whole item.
abbrev pub IsNamed : Vault → Action → String → Option String → Type 0
IsNamed vault a item none = (vault.has_item item ≡ true) ⊎ (¬ ActsOnItem a)
IsNamed vault a item (some field) =
    IsThere vault a item field ⊎ (CreatesTarget a × (vault.has_item item ≡ false))

-- A capability that was held before is kept as it is; a new one names no context unless it reads it,
-- and a role or a coordinate that is there.
abbrev pub IsItem : Vault → Action → String → Option String → Bool → Type 0
IsItem vault a item field held =
    (held ≡ true)
    ⊎ (((field ≢ some "context") ⊎ (a ≡ read))
        × ((starts_with item "role:" ≡ true) ⊎ IsNamed vault a item field))

-- A call reaches any service, a request names a kind and no field, and any other action a vault item.
abbrev pub HasTarget : Vault → Action → String → Option String → Bool → Type 0
HasTarget vault a item field held =
    (a ≡ call)
    ⊎ (((a ≡ request) × (field ≡ none) × IsKind item)
        ⊎ ((a ≢ call) × (a ≢ request) × IsItem vault a item field held))

reaches_service-call : (a : Action) → reaches_service a ≡ true → a ≡ call
unfolding reaches_service
reaches_service-call acquire h = absurd (ground (arith, h))
reaches_service-call read h = absurd (ground (arith, h))
reaches_service-call stage h = absurd (ground (arith, h))
reaches_service-call rotate h = absurd (ground (arith, h))
reaches_service-call verify h = absurd (ground (arith, h))
reaches_service-call revoke h = absurd (ground (arith, h))
reaches_service-call share h = absurd (ground (arith, h))
reaches_service-call trash h = absurd (ground (arith, h))
reaches_service-call purge h = absurd (ground (arith, h))
reaches_service-call admin h = absurd (ground (arith, h))
reaches_service-call sync h = absurd (ground (arith, h))
reaches_service-call enroll h = absurd (ground (arith, h))
reaches_service-call donate h = absurd (ground (arith, h))
reaches_service-call lifecycle h = absurd (ground (arith, h))
reaches_service-call reseal h = absurd (ground (arith, h))
reaches_service-call introspect h = absurd (ground (arith, h))
reaches_service-call call h = refl
reaches_service-call offer h = absurd (ground (arith, h))
reaches_service-call request h = absurd (ground (arith, h))

files_request-request : (a : Action) → files_request a ≡ true → a ≡ request
unfolding files_request
files_request-request acquire h = absurd (ground (arith, h))
files_request-request read h = absurd (ground (arith, h))
files_request-request stage h = absurd (ground (arith, h))
files_request-request rotate h = absurd (ground (arith, h))
files_request-request verify h = absurd (ground (arith, h))
files_request-request revoke h = absurd (ground (arith, h))
files_request-request share h = absurd (ground (arith, h))
files_request-request trash h = absurd (ground (arith, h))
files_request-request purge h = absurd (ground (arith, h))
files_request-request admin h = absurd (ground (arith, h))
files_request-request sync h = absurd (ground (arith, h))
files_request-request enroll h = absurd (ground (arith, h))
files_request-request donate h = absurd (ground (arith, h))
files_request-request lifecycle h = absurd (ground (arith, h))
files_request-request reseal h = absurd (ground (arith, h))
files_request-request introspect h = absurd (ground (arith, h))
files_request-request call h = absurd (ground (arith, h))
files_request-request offer h = absurd (ground (arith, h))
files_request-request request h = refl

reads_context-read : (a : Action) → reads_context a ≡ true → a ≡ read
unfolding reads_context
reads_context-read acquire h = absurd (ground (arith, h))
reads_context-read read h = refl
reads_context-read stage h = absurd (ground (arith, h))
reads_context-read rotate h = absurd (ground (arith, h))
reads_context-read verify h = absurd (ground (arith, h))
reads_context-read revoke h = absurd (ground (arith, h))
reads_context-read share h = absurd (ground (arith, h))
reads_context-read trash h = absurd (ground (arith, h))
reads_context-read purge h = absurd (ground (arith, h))
reads_context-read admin h = absurd (ground (arith, h))
reads_context-read sync h = absurd (ground (arith, h))
reads_context-read enroll h = absurd (ground (arith, h))
reads_context-read donate h = absurd (ground (arith, h))
reads_context-read lifecycle h = absurd (ground (arith, h))
reads_context-read reseal h = absurd (ground (arith, h))
reads_context-read introspect h = absurd (ground (arith, h))
reads_context-read call h = absurd (ground (arith, h))
reads_context-read offer h = absurd (ground (arith, h))
reads_context-read request h = absurd (ground (arith, h))

may_create-CreatesTarget : (a : Action) → may_create a ≡ true → CreatesTarget a
unfolding may_create
may_create-CreatesTarget acquire h = acquires
may_create-CreatesTarget read h = absurd (ground (arith, h))
may_create-CreatesTarget stage h = stages
may_create-CreatesTarget rotate h = absurd (ground (arith, h))
may_create-CreatesTarget verify h = absurd (ground (arith, h))
may_create-CreatesTarget revoke h = absurd (ground (arith, h))
may_create-CreatesTarget share h = absurd (ground (arith, h))
may_create-CreatesTarget trash h = absurd (ground (arith, h))
may_create-CreatesTarget purge h = absurd (ground (arith, h))
may_create-CreatesTarget admin h = absurd (ground (arith, h))
may_create-CreatesTarget sync h = absurd (ground (arith, h))
may_create-CreatesTarget enroll h = absurd (ground (arith, h))
may_create-CreatesTarget donate h = absurd (ground (arith, h))
may_create-CreatesTarget lifecycle h = absurd (ground (arith, h))
may_create-CreatesTarget reseal h = absurd (ground (arith, h))
may_create-CreatesTarget introspect h = absurd (ground (arith, h))
may_create-CreatesTarget call h = absurd (ground (arith, h))
may_create-CreatesTarget offer h = absurd (ground (arith, h))
may_create-CreatesTarget request h = absurd (ground (arith, h))

ActsOnItem-needs_item : (a : Action) → ActsOnItem a → needs_item a ≡ true
unfolding needs_item
ActsOnItem-needs_item a h = elim h as (λ k _. needs_item k ≡ true) [
  | shares ↦ refl
  | trashes ↦ refl
  | purges ↦ refl
  | administers ↦ refl
  | reseals ↦ refl
]

no_call : (a : Action) → reaches_service a ≡ false → a ≢ call
unfolding reaches_service
no_call a h e = ground (arith, rw e at h)

no_request : (a : Action) → files_request a ≡ false → a ≢ request
unfolding files_request
no_request a h e = ground (arith, rw e at h)

is_kind-IsKind : (word : String) → is_kind word ≡ true → IsKind word
is_kind-IsKind word h = elim (Bool-cases (str_eq word "secret")) [
  | inl e ↦ inl ((eq_iff word "secret").0 e)
  | inr n ↦ elim (Bool-cases (str_eq word "device")) [
    | inl e ↦ inr (inl ((eq_iff word "device").0 e))
    | inr m ↦ inr (inr ((eq_iff word "membership").0 (ground arith)))
  ]
]

target_exists-IsNamed :
    (vault : Vault) (a : Action) (item : String) (field : Option String)
    → target_exists vault a item field ≡ ok tt
    → IsNamed vault a item field
unfolding target_exists
target_exists-IsNamed vault a item none h = elim (Bool-cases (vault.has_item item)) [
  | inl there ↦ inl there
  | inr missing ↦ inr (λ on_item. ground (arith, ActsOnItem-needs_item a on_item))
]
target_exists-IsNamed vault a item (some field) h = elim (Bool-cases (vault.has_item item)) [
  | inr missing ↦ inr (may_create-CreatesTarget a (ground arith), missing)
  | inl there ↦ elim (Option-cases (vault.get_item item)) [
    | inl closed ↦ absurd (ground arith)
    | inr (opened, opens) ↦ elim (Bool-cases (opened.has_field field)) [
      | inl has ↦ inl (record { opened = opened; present = there; opens = opens; has = inl has })
      | inr lacks ↦ inl (record {
        opened = opened;
        present = there;
        opens = opens;
        has = inr (may_create-CreatesTarget a (ground arith), ground arith);
      })
    ]
  ]
]

pub no_field : (f : Option String) → is_some f ≡ false → f ≡ none
no_field none h = refl
no_field (some s) h = cc

same_text-context :
    (field : Option String) → same_text field (some "context") ≡ false → field ≢ some "context"
same_text-context none h e = ground (arith, e)
same_text-context (some f) h e = ground (arith, h, e, eq_iff f "context")

check_target-IsItem :
    (vault : Vault) (a : Action) (item : String) (field : Option String) (held : Bool)
    → reaches_service a ≡ false
    → files_request a ≡ false
    → check_target vault a item field held ≡ ok tt
    → IsItem vault a item field held
unfolding check_target
check_target-IsItem vault a item field true no_service no_kind h = inl refl
check_target-IsItem vault a item field false no_service no_kind h =
    let context : (field ≢ some "context") ⊎ (a ≡ read) =
      elim (Bool-cases (same_text field (some "context"))) [
        | inr other ↦ inl (same_text-context field other)
        | inl is_context ↦ inr (reads_context-read a (ground arith))
      ] in
    elim (Bool-cases (starts_with item "role:")) [
      | inl role ↦ inr (context, inl role)
      | inr plain ↦ inr (context, inr (target_exists-IsNamed vault a item field (ground arith)))
    ]

pub check_target-HasTarget :
    (vault : Vault) (a : Action) (item : String) (field : Option String) (held : Bool)
    → check_target vault a item field held ≡ ok tt
    → HasTarget vault a item field held
unfolding check_target
check_target-HasTarget vault a item field held h = elim (Bool-cases (reaches_service a)) [
  | inl service ↦ inl (reaches_service-call a service)
  | inr no_service ↦ elim (Bool-cases (files_request a)) [
    | inl files ↦ inr (
        inl (
          files_request-request a files,
          no_field field (ground arith),
          is_kind-IsKind item (ground arith),
        ))
    | inr no_kind ↦ inr (
        inr (
          no_call a no_service,
          no_request a no_kind,
          check_target-IsItem vault a item field held no_service no_kind h,
        ))
  ]
]
