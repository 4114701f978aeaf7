-- ===== src/Access/Grant/Runs.antt =====
-- Grants that are parsed, and the theorems at them.
use skarbiec.Prelude.{map, true, false, ◌≡◌, refl, some, List, [], ◌∷◌, All, ok, err}
use skarbiec.Prelude.Text.{codes, split, split_once}
use skarbiec.Access.Grant.{Capability}
use skarbiec.Access.Grant.Action.{
  as_str, find_named, parse, needs_field, forbids_field, names_role, may_create, needs_item,
  reaches_service, files_request, reads_context, call, as_str-parse,
}
use skarbiec.Access.Grant.Rules.{
  Vault, exact_component, exact_resource, exact_route, target_exists, check_target, checked,
  parse_one, parse_all, parse_capabilities, not_exact, duplicate, field_required, not_a_role,
}
use skarbiec.Access.Grant.Rules.Spelled.{capability_codes, joined}
use skarbiec.Access.Grant.Rules.Parsed.{IsAllowed, AllDiffer, parse_capabilities-IsAllowed}

-- All that a run computes with.
counter : Unit {0}
unfolding split split_once as_str find_named parse needs_field forbids_field names_role may_create
    needs_item reaches_service files_request reads_context exact_component exact_resource
    exact_route target_exists check_target checked parse_one parse_all parse_capabilities
counter = tt

abbrev vault : Vault
vault = record {
  has_item = λ item. true;
  get_item = λ item. some (record { has_field = λ field. true; allows_field = λ field. false });
}

abbrev wanted : List Capability
wanted =
    record { action = some "read"; item = some "mail"; field = some "password" }
    ∷ record { action = some "call"; item = some "brama"; field = some "chat/primary" }
    ∷ record { action = some "acquire"; item = some "role:mail"; field = some "token" }
    ∷ []

accepted :
    parse_capabilities vault "read:mail#password,call:brama#chat/primary,acquire:role:mail#token" []
    ≡ ok wanted
unfolding counter
accepted = refl

twice : parse_capabilities vault "read:mail,read:mail" [] ≡ err duplicate
unfolding counter
twice = refl

outside : parse_capabilities vault "call:brama#chat/../admin" [] ≡ err not_exact
unfolding counter
outside = refl

fieldless : parse_capabilities vault "stage:mail" [] ≡ err field_required
unfolding counter
fieldless = refl

shared_role : parse_capabilities vault "share:role:mail" [] ≡ err not_a_role
unfolding counter
shared_role = refl

parse_capabilities-IsAllowed_example :
    (joined (map capability_codes wanted)
      ≡ codes "read:mail#password,call:brama#chat/primary,acquire:role:mail#token")
    × All (IsAllowed vault []) wanted
    × AllDiffer [] wanted
parse_capabilities-IsAllowed_example =
    parse_capabilities-IsAllowed vault
      "read:mail#password,call:brama#chat/primary,acquire:role:mail#token" [] accepted

parsed_call : parse "call" ≡ some call
unfolding counter
parsed_call = refl

as_str-parse_example : as_str call ≡ "call"
as_str-parse_example = as_str-parse "call" parsed_call
