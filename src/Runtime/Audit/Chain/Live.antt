-- ===== src/Runtime/Audit/Chain/Live.antt =====
-- On a journal that was reached, an append succeeds.
use skarbiec.Prelude.{
  ℕ, ◌≤◌, ◌≡◌, String, Bool, true, false, Option, none, some, List, [], ◌∷◌, length, refl, ◌∙◌, ap,
  arith, ok, leb,
}
use skarbiec.Runtime.Audit.{Extra, Line, Journal, Host, written, digest_input}
use skarbiec.Runtime.Audit.Append.{
  write_entry, append_line, close_old, finish_interrupted_close, rotate_if_due, append_sync,
  began_before,
}
use skarbiec.Runtime.Audit.Chain.{IsChained}
use skarbiec.Runtime.Audit.Chain.Appends.{Closed-IsLast}
use skarbiec.Runtime.Audit.Chain.Steps.{
  closed_and_named, already_open, nothing_closed, interrupted, closes, nothing_open,
  finish_interrupted_close-IsReady,
}
use skarbiec.Runtime.Audit.Chain.Reach.{
  Reach, Reach-IsChained, tail_hash-IsReady, rotate_if_due-IsReady,
}

-- Closing what a stop left open needs the closed files to be countable, and closes none itself.
finishes :
    (host : Host) (at : String) (files : List (List Line)) (f : Option (List Line))
    → IsChained host (record { closed = files; open_file = f })
    → leb (length files) 1000000 ≡ true
    → (j : Journal) × (finish_interrupted_close host at (record { closed = files; open_file = f })
        ≡ ok j)
      × (j.closed ≡ files)
unfolding write_entry append_line
finishes host at files (some ls) h few = (_, already_open host at files ls h, refl)
finishes host at [] none h few = (_, nothing_closed host at, refl)
finishes host at (ls ∷ more) none h few =
    let last =
      Closed-IsLast host 0 (length (ls ∷ more)) none h.last ls more String.[] h.tail (omega arith)
        h.closed in
    (_, interrupted host at (ls ∷ more) last.segment h.tail last.is last.ends few, refl)

closes_if_old :
    (host : Host) (clock : ℕ → String) (old : Bool) (files : List (List Line))
    (f : Option (List Line))
    → IsChained host (record { closed = files; open_file = f })
    → leb (length files) 1000000 ≡ true
    → (j : Journal) × (close_old host clock old (record { closed = files; open_file = f }) ≡ ok j)
closes_if_old host clock false files f h few = (_, refl)
closes_if_old host clock true files none h few = (
  record { closed = files; open_file = none },
  rw (nothing_open host (clock 1) "the open segment began on an earlier UTC day" files) refl,
)
closes_if_old host clock true files (some ls) h few = (
  closed_and_named host (clock 1) "the open segment began on an earlier UTC day" files ls h,
  rw (closes host (clock 1) "the open segment began on an earlier UTC day" files ls h few) refl,
)

rotates :
    (host : Host) (clock : ℕ → String) (today : String) (j : Journal)
    → IsChained host j
    → leb (length j.closed) 1000000 ≡ true
    → (j' : Journal) × (rotate_if_due host clock today j ≡ ok j')
unfolding rotate_if_due
rotates host clock today j h few =
    let first = finishes host (clock 0) j.closed j.open_file h few in
    let ready = finish_interrupted_close-IsReady host (clock 0) j first.0 h first.1 in
    let old =
      closes_if_old host clock (began_before first.0.open_file today) first.0.closed
        first.0.open_file ready.chained
        (ap (λ (files : List (List Line)). leb (length files) 1000000) first.2 ∙ few) in
    (old.0, rw (first.1) (old.1))

-- The entry is the last line of the journal that the append leaves.
pub append_sync-succeeds :
    (host : Host) (clock : ℕ → String) (today op : String) (x : Extra) (j : Journal)
    → Reach host j
    → length j.closed ≤ 1000000
    → (before : Journal) × (prev : String) × (append_sync host clock today op x j
        ≡ ok (
            append_line before (
              written
                (clock 2)
                op
                prev
                x
                (host.sha256_hex (digest_input host prev (clock 2) op x)))))
unfolding append_sync write_entry
append_sync-succeeds host clock today op x j r few =
    let chained = Reach-IsChained host j r in
    let before = rotates host clock today j chained (ground (arith, few)) in
    let ready = rotate_if_due-IsReady host clock today j before.0 chained before.1 in
    (before.0, ready.chained.hash, rw (before.1) (rw (tail_hash-IsReady host before.0 ready) refl))
