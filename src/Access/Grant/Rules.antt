-- ===== src/Access/Grant/Rules.antt =====
-- Parsing the capabilities that a grant declares (src/access/grant/rules/capabilities.rs,
-- validation.rs).
pub mod Target
pub mod Shape
pub mod Spelled
pub mod Parsed
use text.Mathlib.Text.{starts_with}
use skarbiec.Prelude.{
  ℕ, String, Bool, true, false, not, ◌&&◌, ◌||◌, Option, none, some, List, [], ◌∷◌, ◌++◌, leb, ◌==◌,
  str_eq, if◌then◌else◌, any, all, is_some, Result, ok, err, ◌>>=◌, ◌>>◌, guard, or_fail,
}
use skarbiec.Prelude.Text.{codes, split, split_once, same_text, is_whitespace}
use skarbiec.Access.Grant.{Capability}
use skarbiec.Access.Grant.Action
use skarbiec.Access.Grant.Action.{
  Action, parse, needs_field, forbids_field, may_create, needs_item, reaches_service, files_request,
  reads_context,
}

pub data Refusal : Type 0 where
  empty no_target no_action not_exact field_required field_forbidden not_a_role duplicate : Refusal
  kind_only no_kind context_is_metadata missing_item missing_field unreadable : Refusal

-- An opened item: the fields it has, and those that its schema allows.
pub record Opened : Type 0 where
  pub has_field : String → Bool
  pub allows_field : String → Bool

-- The vault's items: which are there, and what opening one gives.
pub record Vault : Type 0 where
  pub has_item : String → Bool
  pub get_item : String → Option Opened

abbrev is_alphanumeric : ℕ → Bool
is_alphanumeric c = leb b'0' c && leb c b'9' || leb b'a' c && leb c b'z' || leb b'A' c && leb c b'Z'

abbrev in_component : ℕ → Bool
in_component c = is_alphanumeric c || c == b'.' || c == b'_' || c == b'-'

unfoldable pub exact_component : String → Bool
exact_component s = not (str_eq s "") && all in_component (codes s)

unfoldable pub exact_resource : String → Bool
exact_resource s =
    not (str_eq s "") && all (λ c. in_component c || c == b':' || c == b'/') (codes s)

-- A route within a service: exact components joined by `/`, none of them `..`.
unfoldable pub exact_route : String → Bool
exact_route s =
    not (str_eq s "")
    && all exact_component (split b'/' s)
    && not (any (λ component. str_eq component "..") (split b'/' s))

abbrev field_ok : Action → Option String → Bool
field_ok a none = true
field_ok a (some field) = if reaches_service a then exact_route field else exact_component field

abbrev item_of : String → Option (String × String) → String
item_of target none = target
item_of target (some p) = p.0

abbrev field_of : Option (String × String) → Option String
field_of none = none
field_of (some p) = some p.1

abbrev same_capability : Capability → Capability → Bool
same_capability c d =
    same_text c.action d.action && same_text c.item d.item && same_text c.field d.field

abbrev pub contains : List Capability → Capability → Bool
contains cs c = any (same_capability c) cs

abbrev is_kind : String → Bool
is_kind word = str_eq word "secret" || str_eq word "device" || str_eq word "membership"

-- Whether what a new capability names is there, or may be created.
unfoldable pub target_exists : Vault → Action → String → Option String → Result Refusal (Unit {0})
target_exists vault a item none = guard (not (needs_item a) || vault.has_item item) missing_item
target_exists vault a item (some field) =
    let named = (do
      opened ← or_fail (vault.get_item item) unreadable
      guard (opened.has_field field || may_create a && opened.allows_field field) missing_field) in
    if vault.has_item item then named else guard (may_create a) missing_item

unfoldable pub check_target :
    Vault → Action → String → Option String → Bool → Result Refusal (Unit {0})
check_target vault a item field preserved =
    let of_kind = (do guard (not (is_some field)) kind_only; guard (is_kind item) no_kind) in
    let of_item = (do
      guard (preserved || not (same_text field (some "context")) || reads_context a)
          context_is_metadata
      if preserved || starts_with item "role:" then ok tt else target_exists vault a item field) in
    if reaches_service a then ok tt else if files_request a then of_kind else of_item

abbrev capability_of : String → String → Option String → Capability
capability_of action item field = record { action = some action; item = some item; field = field }

-- One capability, beside those parsed before it.
unfoldable pub checked :
    Vault
    → List Capability
    → List Capability
    → String
    → Action
    → String
    → Option String
    → Result Refusal Capability
checked vault preserved kept action_name a item field = do
  guard (exact_resource item && field_ok a field) not_exact
  guard (not (needs_field a) || is_some field) field_required
  guard (not (forbids_field a) || not (is_some field)) field_forbidden
  guard (not (starts_with item "role:") || Action.names_role a) not_a_role
  let c = capability_of action_name item field
  guard (not (contains kept c)) duplicate
  check_target vault a item field (contains preserved c)
  ok c

-- One `action:item[#field]`.
unfoldable pub parse_one :
    Vault → List Capability → List Capability → String → Result Refusal Capability
parse_one vault preserved kept encoded = do
  (action_name, target) ← or_fail (split_once b':' encoded) no_target
  a ← or_fail (parse action_name) no_action
  let parts = split_once b'#' target
  checked vault preserved kept action_name a (item_of target parts) (field_of parts)

unfoldable pub parse_all :
    Vault → List Capability → List Capability → List String → Result Refusal (List Capability)
parse_all vault preserved kept [] = ok kept
parse_all vault preserved kept (encoded ∷ rest) = do
  c ← parse_one vault preserved kept encoded
  parse_all vault preserved (kept ++ c ∷ []) rest

unfoldable pub parse_capabilities :
    Vault → String → List Capability → Result Refusal (List Capability)
parse_capabilities vault raw preserved = do
  guard (not (all is_whitespace (codes raw))) empty
  parse_all vault preserved [] (split b',' raw)
