-- ===== src/Runtime/Audit/Chain.antt =====
-- What a journal that Skarbiec wrote itself looks like: every line is chained onto the one before
-- it, and every file but the first begins with the line that closes the file before.
pub mod Walks
pub mod Appends
pub mod Steps
pub mod Reach
pub mod Live
pub mod Grows
use skarbiec.Prelude.{
  ℕ, zero, suc, ◌+◌, ◌<◌, ◌≡◌, String, Bool, true, false, Option, none, some, List, [], ◌∷◌, ◌++◌,
  length, str_eq, refl, ◌∙◌,
}
use skarbiec.Runtime.Audit.{
  Extra, Line, Journal, Host, closed_op, epoch_op, digest_input, written, file_bytes, segment_name,
}

-- A line that `append` wrote after the hash `p`, and its hash.
pub record Plain (host : Host) (p : String) (l : Line) (r : String) : Type 0 where
  pub at : String
  pub op : String
  pub extra : Extra
  pub not_closed : str_eq op closed_op ≡ false
  pub not_epoch : str_eq op epoch_op ≡ false
  pub is : l ≡ written at op p extra r
  pub hashed : r ≡ host.sha256_hex (digest_input host p at op extra)

-- The line that closes the file `c`, which ends with the hash `p`.
pub record Opening (host : Host) (c : String × ℕ) (p : String) (l : Line) (r : String)
    : Type 0 where
  pub at : String
  pub extra : Extra
  pub names : extra.segment ≡ some c.0
  pub holds : extra.bytes ≡ some c.1
  pub ends : extra.last_hash ≡ some p
  pub is : l ≡ written at closed_op p extra r
  pub hashed : r ≡ host.sha256_hex (digest_input host p at closed_op extra)

unfoldable pub Lines : Host → String → List Line → String → Type 0
Lines host p [] q = p ≡ q
Lines host p (l ∷ ls) q = (r : String) × Plain host p l r × Lines host r ls q

-- A file after the closed file `c`, if there is one.
unfoldable pub File : Host → Option (String × ℕ) → String → List Line → String → Type 0
File host none p ls q = Lines host p ls q
File host (some c) p [] q = ⊥
File host (some c) p (l ∷ ls) q = (r : String) × Opening host c p l r × Lines host r ls q

-- The closed files from the one with number `i` on, and what the file after them must name.
unfoldable pub Closed :
    Host
    → ℕ
    → Option (String × ℕ)
    → String
    → List (List Line)
    → Option (String × ℕ)
    → String
    → Type 0
Closed host i c p [] c' q = (c ≡ c') × (p ≡ q)
Closed host i c p (ls ∷ more) c' q =
    (r : String) × (0 < length ls)
    × File host c p ls r
    × Closed host (suc i) (some (segment_name i, file_bytes host ls)) r more c' q

-- The open file: absent, or not empty and ending with the hash that the next line chains onto.
unfoldable pub Open : Host → Option (String × ℕ) → String → Option (List Line) → String → Type 0
Open host c p none q = p ≡ q
Open host c p (some ls) q = (0 < length ls) × File host c p ls q

pub record IsChained (host : Host) (j : Journal) : Type 0 where
  pub last : Option (String × ℕ)
  pub tail : String
  pub hash : String
  pub closed : Closed host 0 none String.[] j.closed last tail
  pub open_file : Open host last tail j.open_file hash
