-- ===== src/Testnet/Paths.antt =====
-- Paths of files, and the directory that a file lies in.
use nexus_node.Common.{
  true, false, [], ◌∷◌, ◌++◌, ◌≡◌, refl, ap, arith, Bool-cases, inl, inr, length,
}
use nexus_node.Common.Text.{Bytes, bytes_eq, bytes_eq_sound, bytes_eq_refl, has_prefix}
use nexus_node.Testnet.Disk.{FilePath, path_eq, base, dir, rel, starts_up}

abbrev pub in_dir : FilePath → Bytes → FilePath
in_dir p name = p ++ (name ∷ [])

pub path_eq_sound : (p q : FilePath) → path_eq p q ≡ true → p ≡ q
unfolding path_eq
path_eq_sound [] [] h = refl
path_eq_sound [] (b ∷ q) h = cc
path_eq_sound (a ∷ p) [] h = cc
path_eq_sound (a ∷ p) (b ∷ q) h = elim (Bool-cases (bytes_eq a b)) [
  | inl e ↦
      let rest : path_eq p q ≡ true = rw e at h in
      let same = path_eq_sound p q rest in let name = bytes_eq_sound a b e in cc
  | inr e ↦ let bad : false ≡ true = rw e at h in cc
]

pub base-in_dir : (p : FilePath) (name : Bytes) → base (in_dir p name) ≡ name
unfolding base
base-in_dir [] name = refl
base-in_dir (a ∷ []) name = refl
base-in_dir (a ∷ (b ∷ p)) name = base-in_dir (b ∷ p) name

pub dir-in_dir : (p : FilePath) (name : Bytes) → dir (in_dir p name) ≡ p
unfolding dir
dir-in_dir [] name = refl
dir-in_dir (a ∷ []) name = refl
dir-in_dir (a ∷ (b ∷ p)) name = ap (λ q. a ∷ q) (dir-in_dir (b ∷ p) name)

-- A file lies in its own directory,
pub rel-own : (p : FilePath) (name : Bytes) → rel p (in_dir p name) ≡ name ∷ []
unfolding rel
rel-own [] name = refl
rel-own (a ∷ p) name = rw (bytes_eq_refl a) (rel-own p name)

-- and in no other one as deep.
pub inside_own :
    (p q : FilePath) (name : Bytes)
    → length p ≡ length q
    → starts_up (rel q (in_dir p name)) ≡ false
    → p ≡ q
unfolding rel starts_up has_prefix
inside_own [] [] name e h = refl
inside_own [] (b ∷ q) name e h = ground arith
inside_own (a ∷ p) [] name e h = ground arith
inside_own (a ∷ p) (b ∷ q) name e h = elim (Bool-cases (bytes_eq b a)) [
  | inl same ↦
      let rest : starts_up (rel q (in_dir p name)) ≡ false = rw same at h in
      let tail = inside_own p q name (omega arith) rest in let head = bytes_eq_sound b a same in cc
  | inr other ↦ let bad : true ≡ false = rw other at h in cc
]
