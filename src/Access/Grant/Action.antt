-- ===== src/Access/Grant/Action.antt =====
-- The actions a capability may name, and what each may target (src/access/actions.rs).
use skarbiec.Prelude.{
  String, Bool, true, false, ◌≡◌, refl, Option, none, some, List, [], ◌∷◌, arith, str_eq, eq_iff,
  if◌then◌else◌, Bool-cases, inl, inr,
}

pub data Action : Type 0 where
  acquire read stage rotate verify revoke share trash purge admin : Action
  sync enroll donate lifecycle reseal introspect call offer request : Action

-- The action's name, as a capability spells it.
unfoldable pub as_str : Action → String
as_str acquire = "acquire"
as_str read = "read"
as_str stage = "stage"
as_str rotate = "rotate"
as_str verify = "verify"
as_str revoke = "revoke"
as_str share = "share"
as_str trash = "trash"
as_str purge = "purge"
as_str admin = "admin"
as_str sync = "sync"
as_str enroll = "enroll"
as_str donate = "donate"
as_str lifecycle = "lifecycle"
as_str reseal = "reseal"
as_str introspect = "introspect"
as_str call = "call"
as_str offer = "offer"
as_str request = "request"

abbrev every_action : List Action
every_action =
    acquire ∷ read ∷ stage ∷ rotate ∷ verify ∷ revoke ∷ share ∷ trash ∷ purge ∷ admin ∷ sync
    ∷ enroll ∷ donate ∷ lifecycle ∷ reseal ∷ introspect ∷ call ∷ offer ∷ request ∷ []

unfoldable pub find_named : String → List Action → Option Action
find_named word [] = none
find_named word (a ∷ more) =
    let rest = find_named word more in if str_eq (as_str a) word then some a else rest

-- The action a name means.
unfoldable pub parse : String → Option Action
parse word = find_named word every_action

-- Writes or acquires one value, so it names exactly one field.
unfoldable pub needs_field : Action → Bool
needs_field acquire = true
needs_field read = false
needs_field stage = true
needs_field rotate = true
needs_field verify = true
needs_field revoke = false
needs_field share = false
needs_field trash = false
needs_field purge = false
needs_field admin = false
needs_field sync = false
needs_field enroll = false
needs_field donate = false
needs_field lifecycle = false
needs_field reseal = false
needs_field introspect = false
needs_field call = false
needs_field offer = false
needs_field request = false

-- Acts on a whole item, or names a request kind, so it names no field.
unfoldable pub forbids_field : Action → Bool
forbids_field acquire = false
forbids_field read = false
forbids_field stage = false
forbids_field rotate = false
forbids_field verify = false
forbids_field revoke = false
forbids_field share = false
forbids_field trash = false
forbids_field purge = false
forbids_field admin = false
forbids_field sync = false
forbids_field enroll = false
forbids_field donate = false
forbids_field lifecycle = true
forbids_field reseal = true
forbids_field introspect = false
forbids_field call = false
forbids_field offer = false
forbids_field request = true

-- Resolves a `role:` coordinate.
unfoldable pub names_role : Action → Bool
names_role acquire = true
names_role read = true
names_role stage = true
names_role rotate = false
names_role verify = false
names_role revoke = false
names_role share = false
names_role trash = false
names_role purge = false
names_role admin = false
names_role sync = false
names_role enroll = false
names_role donate = false
names_role lifecycle = false
names_role reseal = false
names_role introspect = false
names_role call = false
names_role offer = false
names_role request = false

-- May name an item or field that its own write creates.
unfoldable pub may_create : Action → Bool
may_create acquire = true
may_create read = false
may_create stage = true
may_create rotate = false
may_create verify = false
may_create revoke = false
may_create share = false
may_create trash = false
may_create purge = false
may_create admin = false
may_create sync = false
may_create enroll = false
may_create donate = false
may_create lifecycle = false
may_create reseal = false
may_create introspect = false
may_create call = false
may_create offer = false
may_create request = false

-- Acts on an existing item as a whole.
unfoldable pub needs_item : Action → Bool
needs_item acquire = false
needs_item read = false
needs_item stage = false
needs_item rotate = false
needs_item verify = false
needs_item revoke = false
needs_item share = true
needs_item trash = true
needs_item purge = true
needs_item admin = true
needs_item sync = false
needs_item enroll = false
needs_item donate = false
needs_item lifecycle = false
needs_item reseal = true
needs_item introspect = false
needs_item call = false
needs_item offer = false
needs_item request = false

-- Reaches a service: its target is a service and a route.
unfoldable pub reaches_service : Action → Bool
reaches_service acquire = false
reaches_service read = false
reaches_service stage = false
reaches_service rotate = false
reaches_service verify = false
reaches_service revoke = false
reaches_service share = false
reaches_service trash = false
reaches_service purge = false
reaches_service admin = false
reaches_service sync = false
reaches_service enroll = false
reaches_service donate = false
reaches_service lifecycle = false
reaches_service reseal = false
reaches_service introspect = false
reaches_service call = true
reaches_service offer = false
reaches_service request = false

-- Names a kind of access request.
unfoldable pub files_request : Action → Bool
files_request acquire = false
files_request read = false
files_request stage = false
files_request rotate = false
files_request verify = false
files_request revoke = false
files_request share = false
files_request trash = false
files_request purge = false
files_request admin = false
files_request sync = false
files_request enroll = false
files_request donate = false
files_request lifecycle = false
files_request reseal = false
files_request introspect = false
files_request call = false
files_request offer = false
files_request request = true

-- May name an item's context.
unfoldable pub reads_context : Action → Bool
reads_context acquire = false
reads_context read = true
reads_context stage = false
reads_context rotate = false
reads_context verify = false
reads_context revoke = false
reads_context share = false
reads_context trash = false
reads_context purge = false
reads_context admin = false
reads_context sync = false
reads_context enroll = false
reads_context donate = false
reads_context lifecycle = false
reads_context reseal = false
reads_context introspect = false
reads_context call = false
reads_context offer = false
reads_context request = false

find_named-as_str :
    (word : String) (more : List Action) {a : Action}
    → find_named word more ≡ some a
    → as_str a ≡ word
unfolding find_named
find_named-as_str word [] h = cc
find_named-as_str word (b ∷ more) {a} h = elim (Bool-cases (str_eq (as_str b) word)) [
  | inl here ↦ ground (arith, (eq_iff (as_str b) word).0 here)
  | inr past ↦ find_named-as_str word more {a = a} (ground arith)
]

-- A name is parsed as the action that is spelled so.
pub as_str-parse : (word : String) {a : Action} → parse word ≡ some a → as_str a ≡ word
unfolding parse
as_str-parse word h = find_named-as_str word every_action h

pub parse-as_str : (a : Action) → parse (as_str a) ≡ some a
unfolding parse find_named as_str
parse-as_str acquire = refl
parse-as_str read = refl
parse-as_str stage = refl
parse-as_str rotate = refl
parse-as_str verify = refl
parse-as_str revoke = refl
parse-as_str share = refl
parse-as_str trash = refl
parse-as_str purge = refl
parse-as_str admin = refl
parse-as_str sync = refl
parse-as_str enroll = refl
parse-as_str donate = refl
parse-as_str lifecycle = refl
parse-as_str reseal = refl
parse-as_str introspect = refl
parse-as_str call = refl
parse-as_str offer = refl
parse-as_str request = refl
