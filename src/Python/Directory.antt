-- ===== src/Python/Directory.antt =====
-- A directory of state files, one to an id: the list is in the order in which `glob` finds them.
use clarityos.Prelude.{
  String, ◌≡◌, refl, Option, none, some, List, [], ◌∷◌, arith, ◌==◌, ==_iff, string_eq,
  if◌then◌else◌,
}

abbrev pub Directory : Type 0 → Type 0
Directory V = List (String × V)

abbrev pub files : {V : Type 0} → Directory V → List V
files [] = []
files ((k, v) ∷ d) = v ∷ files d

module _ {V : Type 0} where
  unfoldable pub read : String → Directory V → Option V
  read k [] = none
  read k ((j, v) ∷ d) = if j == k then some v else read k d

  unfoldable pub write : String → V → Directory V → Directory V
  write k v [] = (k, v) ∷ []
  write k v ((j, w) ∷ d) = if j == k then (k, v) ∷ d else (j, w) ∷ write k v d

  unfoldable pub unlink : String → Directory V → Directory V
  unlink k [] = []
  unlink k ((j, w) ∷ d) = let rest = unlink k d in if j == k then rest else (j, w) ∷ rest

  pub read-write :
      (j k : String) (v : V) (d : Directory V)
      → read j (write k v d) ≡ (if k == j then some v else read j d)
  unfolding read write
  read-write j k v [] = refl
  read-write j k v ((i, w) ∷ d) =
      ground (arith, ==_iff k j, ==_iff i k, ==_iff i j, read-write j k v d)

  pub read-unlink :
      (j k : String) (d : Directory V) → read j (unlink k d) ≡ (if k == j then none else read j d)
  unfolding read unlink
  read-unlink j k [] = ground arith
  read-unlink j k ((i, w) ∷ d) =
      ground (arith, ==_iff k j, ==_iff i k, ==_iff i j, read-unlink j k d)

pub ruleset directory_laws = (read-write, read-unlink)
