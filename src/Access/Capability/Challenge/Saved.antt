-- ===== src/Access/Capability/Challenge/Saved.antt =====
-- What `capability challenge` saves, and for whom.
use Prim.Native.Char.{Char, code}
use Prim.Native.String
use text.Mathlib.Text.{starts_with}
use text.Mathlib.TextLemmas.{nil-append, cons-append}
use skarbiec.Prelude.{
  ℕ, String, true, false, ◌||◌, ◌≡◌, refl, ap, ◌∙◌, some, List, [], ◌∷◌, ◌++◌, ◌==◌, str_eq, all,
  map, arith, if◌then◌else◌, Result, ok, err, or_fail, Result-cases, Option-cases, Bool-cases, inl,
  inr,
}
use skarbiec.Prelude.Text.{codes, trim}
use skarbiec.Prelude.Dict.{Dict}
use skarbiec.Access.Capability.State.{Record, State, is_text, is_text-true}
use skarbiec.Access.Capability.Journal.{Disk, load_state}
use skarbiec.Access.Capability.Request.{challenge_item, dash, dashed}
use skarbiec.Access.Capability.Redeem.{Env, read_value, refuse}
use skarbiec.Access.Capability.Request.{unreadable}
use skarbiec.Access.Capability.Challenge.{
  Refusal, Input, Calls, SetItem, authorizes, is_digit, code_item, store_code, challenge_put,
}

-- `/` and `:` become `-`.
abbrev pub item_code : ℕ → ℕ
item_code c = if c == b'/' || c == b':' then b'-' else c

-- A capability that the state holds names the resource.
pub record IsAuthorized (resource : String) (held : Dict Record) : Type 0 where
  pub before : Dict Record
  pub id : String
  pub r : Record
  pub after : Dict Record
  pub listed : held ≡ before ++ (id, r) ∷ after
  pub names : r.resource ≡ some resource

-- What was saved: the trimmed input, some digits, under the challenge that a capability names, in the
-- field and the item from which a redemption of that resource reads its value.
pub record IsStored (input : Input) (args : List String) (d : Disk) (saved : SetItem) : Type 0 where
  pub resource : String
  pub one : args ≡ resource ∷ []
  pub challenge : starts_with resource "challenge:" ≡ true
  pub raw : String
  pub given : input.stdin ≡ some raw
  pub some_code : str_eq (trim raw) "" ≡ false
  pub digits : all is_digit (codes (trim raw)) ≡ true
  pub s : State
  pub d1 : Disk
  pub loaded : load_state input.now d ≡ ok (s, d1)
  pub authorized : IsAuthorized resource s.capabilities
  pub item : codes saved.item ≡ codes "capability-challenge-" ++ map item_code (codes resource)
  pub fields : saved.fields ≡ ("value", trim raw) ∷ []
  pub read_there :
      (env : Env)
      → read_value env resource ≡ or_fail (env.item_field saved.item "value") (refuse unreadable)

authorizes-IsAuthorized :
    (resource : String) (m : Dict Record) → authorizes resource m ≡ true → IsAuthorized resource m
unfolding authorizes
authorizes-IsAuthorized resource [] h = absurd (ground (arith, h))
authorizes-IsAuthorized resource ((id, r) ∷ m) h = elim (Bool-cases (is_text resource r.resource)) [
  | inl here ↦ record {
    before = [];
    id = id;
    r = r;
    after = m;
    listed = refl;
    names = is_text-true resource r.resource here;
  }
  | inr past ↦
      let i = authorizes-IsAuthorized resource m (ground arith) in
      record {
        before = (id, r) ∷ i.before;
        id = i.id;
        r = i.r;
        after = i.after;
        listed = ap (λ (x : Dict Record). (id, r) ∷ x) i.listed;
        names = i.names;
      }
]

codes-append : (s t : String) → codes (String.◌++◌ s t) ≡ codes s ++ codes t
codes-append String.[] t = rw nil-append refl
codes-append (String.◌∷◌ c s) t =
    rw cons-append (ap (λ (xs : List ℕ). code c ∷ xs) (codes-append s t))

code-dash : (c : Char) → code (dash c) ≡ item_code (code c)
code-dash c = elim (Bool-cases (code c == b'/' || code c == b':')) [
  | inl e ↦ rw e refl
  | inr n ↦ rw n refl
]

codes-dashed : (s : String) → codes (dashed s) ≡ map item_code (codes s)
unfolding dashed
codes-dashed String.[] = refl
codes-dashed (String.◌∷◌ c s) = rw (code-dash c, codes-dashed s) refl

codes-challenge_item :
    (resource : String)
    → codes (challenge_item resource)
      ≡ codes "capability-challenge-" ++ map item_code (codes resource)
unfolding challenge_item
codes-challenge_item resource =
    codes-append "capability-challenge-" (dashed resource)
    ∙ ap (λ (xs : List ℕ). codes "capability-challenge-" ++ xs) (codes-dashed resource)

code_item-IsStored :
    (input : Input) (resource : String) (d : Disk) {d' : Disk} {saved : SetItem}
    → code_item input resource d ≡ ok (d', saved)
    → IsStored input (resource ∷ []) d saved
unfolding code_item read_value
code_item-IsStored input resource d {d'} {saved} h = elim (Option-cases input.stdin) [
  | inl unread_input ↦ elim (Result-cases (load_state input.now d)) [
    | inr (e, bad) ↦ absurd (ground arith)
    | inl ((s, d1), loaded) ↦ absurd (ground arith)
  ]
  | inr (raw, given) ↦ elim (Result-cases (load_state input.now d)) [
    | inr (e, bad) ↦ absurd (ground arith)
    | inl ((s, d1), loaded) ↦
        let challenge : starts_with resource "challenge:" ≡ true = ground arith in
        let named : saved.item ≡ challenge_item resource = ground arith in
        record {
          resource = resource;
          one = refl;
          challenge = challenge;
          raw = raw;
          given = given;
          some_code = ground arith;
          digits = ground arith;
          s = s;
          d1 = d1;
          loaded = loaded;
          authorized = authorizes-IsAuthorized resource s.capabilities (ground arith);
          item = ap codes named ∙ codes-challenge_item resource;
          fields = ground arith;
          read_there = λ env. rw (challenge, named) refl;
        }
  ]
]

store_code-saved :
    (calls : Calls) (result : Result Refusal (Disk × SetItem)) {saved : SetItem}
    → (store_code calls result).1 ≡ some saved
    → (d' : Disk) × (result ≡ ok (d', saved))
unfolding store_code
store_code-saved calls (err e) h = absurd (ground (arith, h))
store_code-saved calls (ok (d, item)) h = (d, ground arith)

-- Whatever the vault's calls and the audit do, an item is saved only for one challenge resource that
-- a capability of the loaded state names, and only with the trimmed input, which is digits and not
-- empty, as its one field `value`. The item's name is the resource with `/` and `:` as `-` behind
-- "capability-challenge-", and it is the item and field that a redemption of the resource reads.
pub challenge_put-IsStored :
    (input : Input) (calls : Calls) (args : List String) (d : Disk) {saved : SetItem}
    → (challenge_put input calls args d).1 ≡ some saved
    → IsStored input args d saved
unfolding challenge_put
challenge_put-IsStored input calls [] d h = absurd (ground (arith, h))
challenge_put-IsStored input calls (resource ∷ []) d h =
    code_item-IsStored input resource d (store_code-saved calls (code_item input resource d) h).1
challenge_put-IsStored input calls (resource ∷ other ∷ more) d h = absurd (ground (arith, h))
