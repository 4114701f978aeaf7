-- ===== src/Access/Capability/Runs/Codes.antt =====
-- A run of a challenge: the capability is issued, the code stored.
use skarbiec.Prelude.{true, false, ◌≡◌, refl, some, [], ◌∷◌, ok}
use skarbiec.Prelude.Text.{trim, trim_start, trim_end}
use skarbiec.Access.Capability.Journal.{Entry, Disk}
use skarbiec.Access.Capability.Challenge.{
  Input, Calls, SetItem, challenge_put, store_code, code_item, authorizes,
}
use skarbiec.Access.Capability.Challenge.Saved.{IsStored, challenge_put-IsStored}
use skarbiec.Access.Capability.Runs.{broker, id, issued_record}

codes_office : Unit {0}
unfolding broker trim trim_start trim_end challenge_put store_code code_item authorizes
codes_office = tt

abbrev named_disk : Disk
named_disk = record {
  journal =
      Entry.capability id (some (record issued_record { resource = some "challenge:apple/x" }))
      ∷ [];
  torn = false;
}

abbrev input : Input
input = record { now = 200; stdin = some " 123456\n" }

abbrev calls : Calls
calls = record { opens = true; sets = true; saves = true; audits = true }

abbrev code_note : SetItem
code_note = record {
  item = "capability-challenge-challenge-apple-x";
  item_type = "note";
  schema = "skarbiec.item.v2";
  kind = "note";
  fields = ("value", "123456") ∷ [];
  links = [];
  tags = "challenge" ∷ [];
}

stored_once :
    challenge_put input calls ("challenge:apple/x" ∷ []) named_disk
    ≡ (ok named_disk, some code_note)
unfolding codes_office
stored_once = refl

saved_once : (challenge_put input calls ("challenge:apple/x" ∷ []) named_disk).1 ≡ some code_note
unfolding codes_office
saved_once = refl

challenge_put-IsStored_example : IsStored input ("challenge:apple/x" ∷ []) named_disk code_note
challenge_put-IsStored_example =
    challenge_put-IsStored input calls ("challenge:apple/x" ∷ []) named_disk saved_once
