-- ===== src/Python/Files.antt =====
-- What holds of every file of a directory, and what the operations keep of it.
use clarityos.Prelude.{
  String, ◌≡◌, refl, sym, ap, none, some, [], ◌∷◌, arith, ◌==◌, ==_iff, ==_refl, string_eq, In, inl,
  inr, subst, Bool-cases,
}
use clarityos.Python.Directory.{Directory, files, read, write, unlink, read-write, read-unlink}

-- No two files have one name.
abbrev pub IsDirectory : {V : Type 0} → Directory V → Type 0
IsDirectory [] = Unit
IsDirectory ((k, v) ∷ d) = (read k d ≡ none) × IsDirectory d

abbrev pub AllFiles : {V : Type 0} → (String → V → Type 0) → Directory V → Type 0
AllFiles P [] = Unit
AllFiles P ((k, v) ∷ d) = P k v × AllFiles P d

module _ {V : Type 0} where
  pub write-IsDirectory :
      (k : String) (v : V) (d : Directory V) → IsDirectory d → IsDirectory (write k v d)
  unfolding read write
  write-IsDirectory k v [] h = (refl, tt)
  write-IsDirectory k v ((j, w) ∷ d) h =
      ground (arith, ==_iff j k, ==_iff k j, read-write j k v d, write-IsDirectory k v d)

  pub unlink-IsDirectory : (k : String) (d : Directory V) → IsDirectory d → IsDirectory (unlink k d)
  unfolding read unlink
  unlink-IsDirectory k [] h = tt
  unlink-IsDirectory k ((j, w) ∷ d) h =
      ground (arith, ==_iff j k, ==_iff k j, read-unlink j k d, unlink-IsDirectory k d)

  pub In-files :
      (v : V) (d : Directory V)
      → IsDirectory d
      → In v (files d)
      → (k : String) × (read k d ≡ some v)
  unfolding read
  In-files v [] h m = absurd m
  In-files v ((j, w) ∷ d) h (inl e) = (j, rw (==_refl j) (ap some (sym e)))
  In-files v ((j, w) ∷ d) h (inr m) =
      let (k, found) = In-files v d h.1 m in
      (
        k,
        elim (Bool-cases (j == k)) [
          | inl e ↦ absurd (cc ((==_iff j k).0 e, h.0, found))
          | inr e ↦ rw e found
        ],
      )

  pub read-In : (k : String) (v : V) (d : Directory V) → read k d ≡ some v → In v (files d)
  unfolding read
  read-In k v [] h = cc
  read-In k v ((j, w) ∷ d) h = ground (arith, read-In k v d)

module _ {V : Type 0} (P : String → V → Type 0) where
  pub AllFiles-read :
      (k : String) (v : V) (d : Directory V) → AllFiles P d → read k d ≡ some v → P k v
  unfolding read
  AllFiles-read k v [] h e = cc
  AllFiles-read k v ((j, w) ∷ d) h e = elim (Bool-cases (j == k)) [
    | inl same ↦
        subst (λ i. P i v) ((==_iff j k).0 same) (subst (P j) (some-inj (rw same at e)) h.0)
    | inr other ↦ AllFiles-read k v d h.1 (rw other at e)
  ]
    where
      some-inj : {a b : V} → some a ≡ some b → a ≡ b
      some-inj q = cc

  pub AllFiles-write :
      (k : String) (v : V) (d : Directory V) → AllFiles P d → P k v → AllFiles P (write k v d)
  unfolding write
  AllFiles-write k v [] h p = (p, tt)
  AllFiles-write k v ((j, w) ∷ d) h p = elim (Bool-cases (j == k)) [
    | inl e ↦ rw e (p, h.1)
    | inr e ↦ rw e (h.0, AllFiles-write k v d h.1 p)
  ]

  pub AllFiles-unlink : (k : String) (d : Directory V) → AllFiles P d → AllFiles P (unlink k d)
  unfolding unlink
  AllFiles-unlink k [] h = tt
  AllFiles-unlink k ((j, w) ∷ d) h = elim (Bool-cases (j == k)) [
    | inl e ↦ rw e (AllFiles-unlink k d h.1)
    | inr e ↦ rw e (h.0, AllFiles-unlink k d h.1)
  ]
