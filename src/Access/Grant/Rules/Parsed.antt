-- ===== src/Access/Grant/Rules/Parsed.antt =====
-- What the capabilities of an accepted grant look like.
use mathlib.Core.Path.{subst}
use skarbiec.Prelude.{
  ℕ, map, String, true, false, ◌≡◌, refl, ap, sym, ◌∙◌, Option, some, List, [], ◌∷◌, ◌++◌, arith,
  All, append_nil, append_snoc, ok, inl, inr, Result-cases, Option-cases,
}
use skarbiec.Prelude.Text.{codes, split, split_once}
use skarbiec.Access.Grant.{Capability}
use skarbiec.Access.Grant.Action.{Action, parse, as_str, as_str-parse}
use skarbiec.Access.Grant.Rules.{
  Vault, exact_resource, field_ok, contains, parse_one, parse_all, parse_capabilities, checked,
  capability_of, item_of, field_of, check_target,
}
use skarbiec.Access.Grant.Rules.Target.{HasTarget, check_target-HasTarget}
use skarbiec.Access.Grant.Rules.Shape.{IsShaped, guards-IsShaped}
use skarbiec.Access.Grant.Rules.Spelled.{
  capability_codes, field_codes, joined, joined-split, split_once-codes,
}

-- One capability as its action allows it.
pub record IsAllowed (vault : Vault) (preserved : List Capability) (c : Capability) : Type 0 where
  pub a : Action
  pub action : c.action ≡ some (as_str a)
  pub item : String
  pub names_item : c.item ≡ some item
  pub exact_item : exact_resource item ≡ true
  pub exact_field : field_ok a c.field ≡ true
  pub shaped : IsShaped a item c.field
  pub target : HasTarget vault a item c.field (contains preserved c)

pub record IsParsed (vault : Vault) (preserved kept : List Capability) (c : Capability)
    : Type 0 where
  pub allowed : IsAllowed vault preserved c
  pub new : contains kept c ≡ false

checked-capability :
    (vault : Vault) (preserved kept : List Capability) (name : String) (a : Action) (item : String)
    (field : Option String) {c : Capability}
    → checked vault preserved kept name a item field ≡ ok c
    → capability_of name item field ≡ c
unfolding checked
checked-capability vault preserved kept name a item field {c} h =
    elim (Result-cases
      (check_target vault a item field (contains preserved (capability_of name item field)))) [
        | inr (e, bad) ↦ absurd (ground arith)
        | inl (u, there) ↦ ground arith
      ]

target_codes :
    (target : String)
    → codes (item_of target (split_once b'#' target))
        ++ field_codes (field_of (split_once b'#' target))
      ≡ codes target
target_codes target = elim (Option-cases (split_once b'#' target)) [
  | inl whole ↦ rw whole (append_nil (codes target))
  | inr ((item, field), parts) ↦
      rw parts (sym (split_once-codes b'#' target {a = item} {b = field} parts))
]

-- A capability is written as the text that it was parsed from.
parse_one-codes :
    (vault : Vault) (preserved kept : List Capability) (encoded : String) {c : Capability}
    → parse_one vault preserved kept encoded ≡ ok c
    → capability_codes c ≡ codes encoded
unfolding parse_one checked
parse_one-codes vault preserved kept encoded {c} h = elim (Option-cases (split_once b':' encoded)) [
  | inl no_colon ↦ absurd (ground arith)
  | inr ((name, target), parts) ↦ elim (Option-cases (parse name)) [
    | inl unknown ↦ absurd (ground arith)
    | inr (a, means) ↦
        let made =
          checked-capability vault preserved kept name a (item_of target (split_once b'#' target))
            (field_of (split_once b'#' target)) {c = c} (ground arith) in
        ap capability_codes (sym made)
        ∙ ap (λ (xs : List ℕ). codes name ++ b':' ∷ xs) (target_codes target)
        ∙ sym (split_once-codes b':' encoded {a = name} {b = target} parts)
  ]
]

checked-IsParsed :
    (vault : Vault) (preserved kept : List Capability) (name : String) (a : Action) (item : String)
    (field : Option String) {c : Capability}
    → as_str a ≡ name
    → checked vault preserved kept name a item field ≡ ok c
    → IsParsed vault preserved kept c
unfolding checked
checked-IsParsed vault preserved kept name a item field {c} spelled h =
    elim (Result-cases
      (check_target vault a item field (contains preserved (capability_of name item field)))) [
        | inr (e, bad) ↦ absurd (ground arith)
        | inl (u, there) ↦
            let made : capability_of name item field ≡ c = ground arith in
            subst (IsParsed vault preserved kept) made (record {
              allowed = record {
                a = a;
                action = ap some (sym spelled);
                item = item;
                names_item = refl;
                exact_item = ground arith;
                exact_field = ground arith;
                shaped = guards-IsShaped a item field (ground arith) (ground arith) (ground arith);
                target =
                    check_target-HasTarget vault a item field
                      (contains preserved (capability_of name item field)) there;
              };
              new = ground arith;
            })
      ]

parse_one-IsParsed :
    (vault : Vault) (preserved kept : List Capability) (encoded : String) {c : Capability}
    → parse_one vault preserved kept encoded ≡ ok c
    → IsParsed vault preserved kept c
unfolding parse_one
parse_one-IsParsed vault preserved kept encoded {c} h =
    elim (Option-cases (split_once b':' encoded)) [
      | inl no_colon ↦ absurd (ground arith)
      | inr ((name, target), parts) ↦ elim (Option-cases (parse name)) [
        | inl unknown ↦ absurd (ground arith)
        | inr (a, means) ↦
            checked-IsParsed vault preserved kept name a (item_of target (split_once b'#' target))
              (field_of (split_once b'#' target)) (as_str-parse name means) (ground arith)
      ]
    ]

-- No two capabilities of a list are the same.
abbrev pub AllDiffer : List Capability → List Capability → Type 0
AllDiffer before [] = Unit
AllDiffer before (c ∷ cs) = (contains before c ≡ false) × AllDiffer (before ++ c ∷ []) cs

parse_all-IsAllowed :
    (vault : Vault) (preserved kept : List Capability) (encoded : List String)
    {cs : List Capability}
    → parse_all vault preserved kept encoded ≡ ok cs
    → (new : List Capability) × (cs ≡ kept ++ new)
      × (All (IsAllowed vault preserved) new × AllDiffer kept new)
      × (map capability_codes new ≡ map codes encoded)
unfolding parse_all
parse_all-IsAllowed vault preserved kept [] {cs} h =
    ([], ground (arith, append_nil kept), (tt, tt), refl)
parse_all-IsAllowed vault preserved kept (e ∷ es) {cs} h =
    elim (Result-cases (parse_one vault preserved kept e)) [
      | inr (e, bad) ↦ absurd (ground arith)
      | inl (c, parsed) ↦
          let p = parse_one-IsParsed vault preserved kept e parsed in
          let (new, whole, (allowed, differ), written) =
            parse_all-IsAllowed vault preserved (kept ++ c ∷ []) es {cs = cs} (ground arith) in
          (
            c ∷ new,
            whole ∙ append_snoc kept c new,
            ((p.allowed, allowed), (p.new, differ)),
            rw (parse_one-codes vault preserved kept e parsed, written) refl,
          )
    ]

-- The capabilities of an accepted grant are what its text says, in its order: written as
-- `action:item[#field]` with commas between them they are the text again. Each is as its action
-- allows: a known action, an exact resource and field, a field where the action needs one and none
-- where it forbids it, a role only where the action resolves one. A call reaches a service, a
-- request names a kind and no field; any other names, unless it was held before, no context but to
-- read it, and a role, a field that its item has, or may get where the action creates it, or
-- without a field an item that is there if the action is on the whole item. No two are the same.
pub parse_capabilities-IsAllowed :
    (vault : Vault) (raw : String) (preserved : List Capability) {cs : List Capability}
    → parse_capabilities vault raw preserved ≡ ok cs
    → (joined (map capability_codes cs) ≡ codes raw)
      × All (IsAllowed vault preserved) cs
      × AllDiffer [] cs
unfolding parse_capabilities
parse_capabilities-IsAllowed vault raw preserved {cs} h =
    let (new, whole, both, written) =
      parse_all-IsAllowed vault preserved [] (split b',' raw) {cs = cs} (ground arith) in
    (
      ap (λ (xs : List Capability). joined (map capability_codes xs)) whole
          ∙ ap joined written
          ∙ joined-split raw,
      subst (λ (x : List Capability). All (IsAllowed vault preserved) x) (sym whole) both.0,
      subst (λ (x : List Capability). AllDiffer [] x) (sym whole) both.1,
    )
