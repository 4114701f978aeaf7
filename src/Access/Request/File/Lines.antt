-- ===== src/Access/Request/File/Lines.antt =====
-- What `Filing::from_flags` lets through.
use mathlib.Core.Path.{subst}
use skarbiec.Prelude.{
  String, true, ◌≡◌, sym, inl, inr, Option, none, some, arith, ok, Result-cases, Option-cases,
  is_some,
}
use skarbiec.Access.Capability.State.{is_text}
use skarbiec.Access.Capability.Request.{exact_token}
use skarbiec.Access.Request.Register.{NamedGrant}
use skarbiec.Access.Request.File.{
  Kind, Flags, Env, Filing, from_flags, grant_of, is_line, required, is_bounded, named, optional,
  decider_of,
}
use skarbiec.Access.Request.File.Filed.{HasGrant, grant_of-HasGrant, required-is_line}

-- A filing that was taken: who asks, what, why and who decides are stated, each in one line, and
-- the grant is the one that the kind allows.
pub record IsFiled (env : Env) (flags : Flags) (via : String) (f : Filing) : Type 0 where
  pub agent : (a : String) × (f.requester.agent ≡ some a) × (is_line a ≡ true)
  pub kind : (word : String) × (flags.kind ≡ some word) × (named word ≡ some f.kind)
  pub action : is_line f.action ≡ true
  pub resource : is_line f.resource ≡ true
  pub reason : is_line f.reason ≡ true
  pub decider : exact_token f.decider ≡ true
  pub grant : HasGrant env f.kind f.action f.resource f.grant f.item
  pub via_surface : f.via ≡ via

required-given :
    (flag : Option String) {value : String} → required flag ≡ ok value → flag ≡ some value
required-given none h = cc
required-given (some raw) h = ground arith

abbrev filing :
    Kind
    → String
    → Option String
    → Option String
    → Option String
    → String
    → String
    → String
    → Flags
    → NamedGrant
    → Option String
    → String
    → Filing
filing kind agent harness host person action resource reason flags grant item via = record {
  requester = record { agent = some agent; harness = harness; host = host; person = person };
  kind = kind;
  resource = resource;
  action = action;
  reason = reason;
  decider = decider_of flags.decider;
  dual_control = is_text "true" flags.dual_control;
  item = item;
  grant = grant;
  via = via;
}

-- A filing is taken only with its agent, action, resource and reason in one line each, a decider
-- that is an exact token, and a grant as its kind allows: a secret names a bounded capability for
-- reading the item its resource resolves to, with a lifetime and uses of at least one, or an exact
-- consumer name; a device or membership names none.
pub from_flags-IsFiled :
    (env : Env) (flags : Flags) (via : String) {f : Filing}
    → from_flags env flags via ≡ ok f
    → IsFiled env flags via f
unfolding from_flags
from_flags-IsFiled env flags via {f} h = elim (Result-cases (required flags.kind)) [
  | inr (e, bad) ↦ absurd (ground arith)
  | inl (word, e1) ↦ elim (Option-cases (named word)) [
    | inl unknown ↦ absurd (ground arith)
    | inr (kind, e2) ↦ elim (Result-cases (required flags.action)) [
      | inr (e, bad) ↦ absurd (ground arith)
      | inl (action, e3) ↦ elim (Result-cases (required flags.resource)) [
        | inr (e, bad) ↦ absurd (ground arith)
        | inl (resource, e4) ↦
            elim (Result-cases (
              grant_of env flags kind (is_bounded flags) (is_some flags.for_consumer) action
                resource)) [
                  | inr (e, bad) ↦ absurd (ground arith)
                  | inl ((grant, item), e5) ↦ elim (Result-cases (required flags.agent)) [
                    | inr (e, bad) ↦ absurd (ground arith)
                    | inl (agent, e6) ↦ elim (Result-cases (optional flags.harness)) [
                      | inr (e, bad) ↦ absurd (ground arith)
                      | inl (harness, e7) ↦ elim (Result-cases (optional flags.host)) [
                        | inr (e, bad) ↦ absurd (ground arith)
                        | inl (host, e8) ↦ elim (Result-cases (optional flags.person)) [
                          | inr (e, bad) ↦ absurd (ground arith)
                          | inl (person, e9) ↦ elim (Result-cases (required flags.reason)) [
                            | inr (e, bad) ↦ absurd (ground arith)
                            | inl (reason, e10) ↦
                                let whole : f
                                    ≡ filing kind agent harness host person action resource reason
                                        flags grant item via =
                                  ground arith in
                                record {
                                  agent = (agent, ground arith, required-is_line flags.agent e6);
                                  kind = (word, required-given flags.kind e1, ground arith);
                                  action = ground (arith, required-is_line flags.action e3);
                                  resource = ground (arith, required-is_line flags.resource e4);
                                  reason = ground (arith, required-is_line flags.reason e10);
                                  decider = ground arith;
                                  grant =
                                      subst
                                        (λ (x : Filing).
                                          HasGrant env x.kind x.action x.resource x.grant x.item)
                                        (sym whole)
                                        (grant_of-HasGrant env flags kind (is_bounded flags)
                                          (is_some flags.for_consumer) action resource e5);
                                  via_surface = ground arith;
                                }
                          ]
                        ]
                      ]
                    ]
                  ]
                ]
      ]
    ]
  ]
]
