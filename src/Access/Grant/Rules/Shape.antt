-- ===== src/Access/Grant/Rules/Shape.antt =====
-- Whether an accepted capability names a field and a role, told without the tables of the actions.
use text.Mathlib.Text.{starts_with}
use skarbiec.Prelude.{
  String, true, false, not, ◌≡◌, refl, ◌⊎◌, inl, inr, Option, none, some, arith, is_some,
  Bool-cases, ◌||◌,
}
use skarbiec.Access.Grant.Action
use skarbiec.Access.Grant.Action.{
  Action, acquire, read, stage, rotate, verify, revoke, share, trash, purge, admin, sync, enroll,
  donate, lifecycle, reseal, introspect, call, offer, request, needs_field, forbids_field,
}
use skarbiec.Access.Grant.Rules.Target.{no_field}

-- The actions on one field, which they name.
pub data ActsOnField : Action → Type 0 where
  acquires : ActsOnField acquire
  stages : ActsOnField stage
  rotates : ActsOnField rotate
  verifies : ActsOnField verify

-- The actions that name no field.
pub data NamesNoField : Action → Type 0 where
  marks : NamesNoField lifecycle
  reseals : NamesNoField reseal
  asks : NamesNoField request

-- The actions that find an item by its role.
pub data FindsRole : Action → Type 0 where
  acquires : FindsRole acquire
  reads : FindsRole read
  stages : FindsRole stage

ActsOnField-needs_field : (a : Action) → ActsOnField a → needs_field a ≡ true
unfolding needs_field
ActsOnField-needs_field a h = elim h as (λ k _. needs_field k ≡ true) [
  | acquires ↦ refl
  | stages ↦ refl
  | rotates ↦ refl
  | verifies ↦ refl
]

NamesNoField-forbids_field : (a : Action) → NamesNoField a → forbids_field a ≡ true
unfolding forbids_field
NamesNoField-forbids_field a h = elim h as (λ k _. forbids_field k ≡ true) [
  | marks ↦ refl
  | reseals ↦ refl
  | asks ↦ refl
]

names_role-FindsRole : (a : Action) → Action.names_role a ≡ true → FindsRole a
unfolding Action.names_role
names_role-FindsRole acquire h = acquires
names_role-FindsRole read h = reads
names_role-FindsRole stage h = stages
names_role-FindsRole rotate h = absurd (ground (arith, h))
names_role-FindsRole verify h = absurd (ground (arith, h))
names_role-FindsRole revoke h = absurd (ground (arith, h))
names_role-FindsRole share h = absurd (ground (arith, h))
names_role-FindsRole trash h = absurd (ground (arith, h))
names_role-FindsRole purge h = absurd (ground (arith, h))
names_role-FindsRole admin h = absurd (ground (arith, h))
names_role-FindsRole sync h = absurd (ground (arith, h))
names_role-FindsRole enroll h = absurd (ground (arith, h))
names_role-FindsRole donate h = absurd (ground (arith, h))
names_role-FindsRole lifecycle h = absurd (ground (arith, h))
names_role-FindsRole reseal h = absurd (ground (arith, h))
names_role-FindsRole introspect h = absurd (ground (arith, h))
names_role-FindsRole call h = absurd (ground (arith, h))
names_role-FindsRole offer h = absurd (ground (arith, h))
names_role-FindsRole request h = absurd (ground (arith, h))

-- A field is named where the action is on one, and none where it takes none.
pub record IsShaped (a : Action) (item : String) (field : Option String) : Type 0 where
  pub field_named : (¬ ActsOnField a) ⊎ ((f : String) × (field ≡ some f))
  pub no_field_named : (¬ NamesNoField a) ⊎ (field ≡ none)
  pub role : (starts_with item "role:" ≡ false) ⊎ FindsRole a

a_field : (f : Option String) → is_some f ≡ true → (s : String) × (f ≡ some s)
a_field none h = absurd (ground (arith, h))
a_field (some s) h = (s, refl)

-- The three guards of a capability's shape.
pub guards-IsShaped :
    (a : Action) (item : String) (field : Option String)
    → (not (needs_field a) || is_some field) ≡ true
    → (not (forbids_field a) || not (is_some field)) ≡ true
    → (not (starts_with item "role:") || Action.names_role a) ≡ true
    → IsShaped a item field
guards-IsShaped a item field g1 g2 g3 = record {
  field_named = elim (Bool-cases (is_some field)) [
    | inl named ↦ inr (a_field field named)
    | inr unnamed ↦ inl (λ on. ground (arith, g1, unnamed, ActsOnField-needs_field a on))
  ];
  no_field_named = elim (Bool-cases (is_some field)) [
    | inr unnamed ↦ inr (no_field field unnamed)
    | inl named ↦ inl (λ on. ground (arith, g2, named, NamesNoField-forbids_field a on))
  ];
  role = elim (Bool-cases (starts_with item "role:")) [
    | inr plain ↦ inl plain
    | inl by_role ↦ inr (names_role-FindsRole a (ground arith))
  ];
}
