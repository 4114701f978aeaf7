-- ===== src/Runtime/Audit/Chain/Appends.antt =====
-- Every operation that changes the journal keeps it chained.
use mathlib.Core.Path.{subst}
use skarbiec.Prelude.{
  ℕ, suc, ◌+◌, ◌-◌, ◌<◌, ◌≡◌, String, Option, none, some, List, [], ◌∷◌, ◌++◌, length, refl, ◌∙◌,
  sym, ap, arith, ok,
}
use skarbiec.Runtime.Audit.{
  Extra, Line, Host, closed_op, written, file_bytes, segment_name, last_line, last_hash_of,
  last_segment, hash_of,
}
use skarbiec.Runtime.Audit.Chain.{Plain, Lines, File, Closed}

-- A file's last line, and its hash.
record EndsWith (ls : List Line) (q : String) : Type 0 where
  line : Line
  is : last_line ls ≡ some line
  hash : hash_of line ≡ ok (some q)

written_last :
    (at op p q : String) (x : Extra) (ls : List Line)
    → last_line ls ≡ none
    → EndsWith (written at op p x q ∷ ls) q
unfolding last_line
written_last at op p q x ls e = record { line = written at op p x q; is = rw e refl; hash = refl }

EndsWith-cons :
    (at op p r q : String) (x : Extra) (ls : List Line)
    → EndsWith ls q
    → EndsWith (written at op p x r ∷ ls) q
unfolding last_line
EndsWith-cons at op p r q x ls h = record { line = h.line; is = rw h.is refl; hash = h.hash }

-- One line with the hash `r`, and the lines after it.
after_line :
    (host : Host) (at op p r q : String) (x : Extra) (ls : List Line)
    → Lines host r ls q
    → EndsWith (written at op p x r ∷ ls) q
unfolding Lines last_line
after_line host at op p r q x [] h =
    subst (λ (s : String). EndsWith (written at op p x r ∷ []) s) h
      (written_last at op p r x [] refl)
after_line host at op p r q x (l ∷ ls) h =
    EndsWith-cons at op p r q x (l ∷ ls)
      (rw h.1.is (after_line host h.1.at h.1.op r h.0 q h.1.extra ls h.2))

File-EndsWith :
    (host : Host) (c : Option (String × ℕ)) (ls : List Line) (p q : String)
    → 0 < length ls
    → File host c p ls q
    → EndsWith ls q
unfolding File Lines
File-EndsWith host none [] p q n h = absurd (omega arith)
File-EndsWith host none (l ∷ ls) p q n h =
    rw h.1.is (after_line host h.1.at h.1.op p h.0 q h.1.extra ls h.2)
File-EndsWith host (some c) [] p q n h = absurd h
File-EndsWith host (some c) (l ∷ ls) p q n h =
    rw h.1.is (after_line host h.1.at closed_op p h.0 q h.1.extra ls h.2)

pub File-last_hash_of :
    (host : Host) (c : Option (String × ℕ)) (ls : List Line) (p q : String)
    → 0 < length ls
    → File host c p ls q
    → last_hash_of ls ≡ ok (some q)
unfolding last_hash_of
File-last_hash_of host c ls p q n h =
    let e = File-EndsWith host c ls p q n h in rw (last_hash_of, e.is) e.hash

Lines-snoc :
    (host : Host) (ls : List Line) (l : Line) (p q r : String)
    → Lines host p ls q
    → Plain host q l r
    → Lines host p (ls ++ l ∷ []) r
unfolding Lines
Lines-snoc host [] l p q r h f = (r, subst (λ (s : String). Plain host s l r) (sym h) f, refl)
Lines-snoc host (k ∷ ls) l p q r h f = (h.0, h.1, Lines-snoc host ls l h.0 q r h.2 f)

pub File-snoc :
    (host : Host) (c : Option (String × ℕ)) (ls : List Line) (l : Line) (p q r : String)
    → File host c p ls q
    → Plain host q l r
    → File host c p (ls ++ l ∷ []) r
unfolding File
File-snoc host none ls l p q r h f = Lines-snoc host ls l p q r h f
File-snoc host (some c) [] l p q r h f = absurd h
File-snoc host (some c) (k ∷ ls) l p q r h f = (h.0, h.1, Lines-snoc host ls l h.0 q r h.2 f)

-- One more closed file, with the number `n`.
pub Closed-snoc :
    (host : Host) (i n : ℕ) (c c' : Option (String × ℕ)) (files : List (List Line)) (ls : List Line)
    (p q r : String)
    → length files + i ≡ n
    → Closed host i c p files c' q
    → 0 < length ls
    → File host c' q ls r
    → Closed host i c p (files ++ ls ∷ []) (some (segment_name n, file_bytes host ls)) r
unfolding Closed
Closed-snoc host i n c c' [] ls p q r e h m f = (
  r,
  m,
  subst (λ (s : String). File host c s ls r) (sym h.1)
      (subst (λ (o : Option (String × ℕ)). File host o q ls r) (sym h.0) f),
  (ap (λ (k : ℕ). some (segment_name k, file_bytes host ls)) (numbered i n e), refl),
)
  where
    numbered : (i n : ℕ) → 0 + i ≡ n → i ≡ n
    numbered i n e = omega arith
Closed-snoc host i n c c' (ks ∷ files) ls p q r e h m f =
    (h.0, h.1, h.2, Closed-snoc host (suc i) n _ c' files ls h.0 q r (omega (arith, e)) h.3 m f)

-- What the last closed file is; `n` is how many there are, with those before the first.
pub record IsLast (host : Host) (files : List (List Line)) (n : ℕ) (c : Option (String × ℕ))
    (q : String) : Type 0 where
  pub segment : List Line
  pub is : last_segment files ≡ some segment
  pub ends : last_hash_of segment ≡ ok (some q)
  pub named : c ≡ some (segment_name (n - 1), file_bytes host segment)

pub Closed-IsLast :
    (host : Host) (i n : ℕ) (c c' : Option (String × ℕ)) (ls : List Line) (files : List (List Line))
    (p q : String)
    → length (ls ∷ files) + i ≡ n
    → Closed host i c p (ls ∷ files) c' q
    → IsLast host (ls ∷ files) n c' q
unfolding Closed last_segment
Closed-IsLast host i n c c' ls [] p q e h = record {
  segment = ls;
  is = refl;
  ends = File-last_hash_of host c ls p h.0 h.1 h.2 ∙ ap (λ (s : String). ok (some s)) h.3.1;
  named = sym h.3.0 ∙ ap (λ (k : ℕ). some (segment_name k, file_bytes host ls)) (numbered i n e);
}
  where
    numbered : (i n : ℕ) → 1 + i ≡ n → i ≡ n - 1
    numbered i n e = omega arith
Closed-IsLast host i n c c' ls (ks ∷ files) p q e h =
    let last = Closed-IsLast host (suc i) n _ c' ks files h.0 q (omega (arith, e)) h.3 in
    record { segment = last.segment; is = rw last.is refl; ends = last.ends; named = last.named }
