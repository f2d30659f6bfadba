-- ===== src/Testnet/Copies.antt =====
-- The copying of one genesis transaction.
use nexus_node.Common.{
  true, false, not, List, [], ◌∷◌, Option, some, ◌≡◌, refl, sym, ap, ◌∙◌, arith, Bool-cases, inl,
  inr, length,
}
use nexus_node.Common.Text.{Bytes, codes, bytes_eq_refl, has_prefix}
use nexus_node.Upgrades.Api.{Out, done}
use nexus_node.Testnet.Disk.{
  FilePath, Disk, path_eq, has_dir, lookup, base, dir, create, read_file, found, copy_file, rel,
  starts_up, is_sub_dir,
}
use nexus_node.Testnet.Collect.{copy_unless_inside}
use nexus_node.Testnet.Paths.{in_dir, path_eq_sound, base-in_dir, dir-in_dir, rel-own, inside_own}

-- What a step of the copying promises: it goes well, makes no directory, and keeps the files that
-- hold what their name decides.
pub record Keeps (content : Bytes → Option Bytes) (d : Disk) (r : Out Unit × Disk) : Type 0 where
  pub went_well : r.0 ≡ done tt
  pub same_dirs : r.1.directories ≡ d.directories
  pub keeps :
      (p : FilePath) (text : Bytes)
      → content (base p) ≡ some text
      → lookup p d.files ≡ some text
      → lookup p r.1.files ≡ some text

lookup-other :
    (p q : FilePath) (c : Bytes) (fs : List (FilePath × Bytes))
    → path_eq q p ≡ false
    → lookup p ((q, c) ∷ fs) ≡ lookup p fs
unfolding lookup
lookup-other p q c fs h = rw h refl

lookup-here :
    (p : FilePath) (c : Bytes) (fs : List (FilePath × Bytes))
    → path_eq p p ≡ true
    → lookup p ((p, c) ∷ fs) ≡ some c
unfolding lookup
lookup-here p c fs h = rw h refl

path_eq_refl : (p : FilePath) → path_eq p p ≡ true
unfolding path_eq
path_eq_refl [] = refl
path_eq_refl (a ∷ p) = rw (bytes_eq_refl a, path_eq_refl p) refl

-- The copying of a file into a directory that it does not lie in.
copy_file-effect :
    (owner dst : FilePath) (name text : Bytes) (d : Disk)
    → path_eq (in_dir dst name) (in_dir owner name) ≡ false
    → has_dir dst d.directories ≡ true
    → lookup (in_dir owner name) d.files ≡ some text
    → copy_file (in_dir owner name) dst d
      ≡ (done tt, record d { files = (in_dir dst name, text) ∷ ((in_dir dst name, []) ∷ d.files) })
unfolding copy_file read_file create found
copy_file-effect owner dst name text d other made held =
    let again = lookup-other (in_dir owner name) (in_dir dst name) [] d.files other ∙ held in
    rw held (
      rw (base-in_dir owner name)
        (rw (dir-in_dir dst name) (rw made (rw again (rw (dir-in_dir dst name) (rw made refl))))))

-- A file that lies elsewhere has another path in the directory.
elsewhere :
    (owner dst : FilePath) (name : Bytes)
    → has_prefix name (codes "..") ≡ false
    → is_sub_dir (in_dir owner name) dst ≡ false
    → path_eq (in_dir dst name) (in_dir owner name) ≡ false
unfolding is_sub_dir starts_up
elsewhere owner dst name plain outside =
    elim (Bool-cases (path_eq (in_dir dst name) (in_dir owner name))) [
      | inl e ↦
          let same = path_eq_sound (in_dir dst name) (in_dir owner name) e in
          let dirs : dst ≡ owner =
            sym (dir-in_dir dst name) ∙ (ap dir same ∙ dir-in_dir owner name) in
          let own : not (starts_up (rel dst (in_dir dst name))) ≡ true =
            rw (rel-own dst name) (rw plain refl) in
          let bad : not (starts_up (rel dst (in_dir owner name))) ≡ true =
            ap (λ q. not (starts_up (rel dst (in_dir q name)))) (sym dirs) ∙ own in
          cc
      | inr e ↦ e
    ]

new_file-keeps :
    (content : Bytes → Option Bytes) (q : FilePath) (text : Bytes) (d : Disk)
    → content (base q) ≡ some text
    → (p : FilePath) (held : Bytes) → content (base p) ≡ some held
    → lookup p d.files ≡ some held
    → lookup p ((q, text) ∷ ((q, []) ∷ d.files)) ≡ some held
new_file-keeps content q text d known p held kp stored = elim (Bool-cases (path_eq q p)) [
  | inl e ↦
      let same = path_eq_sound q p e in
      let texts : text ≡ held = ground (arith, known, kp, ap (λ t. content (base t)) same) in
      rw (sym same) (rw (sym texts) (lookup-here q text ((q, []) ∷ d.files) (path_eq_refl q)))
  | inr e ↦ lookup-other p q text ((q, []) ∷ d.files) e ∙ (lookup-other p q [] d.files e ∙ stored)
]

module _ (content : Bytes → Option Bytes) where
  -- The step, and the file that it leaves in place.
  abbrev pub Places : Disk → Out Unit × Disk → FilePath → Bytes → Type 0
  Places d r q text = Keeps content d r × (lookup q r.1.files ≡ some text)

  pub step-Places :
      (owner dst : FilePath) (name text : Bytes) (d : Disk)
      → length owner ≡ length dst
      → has_prefix name (codes "..") ≡ false
      → content name ≡ some text
      → lookup (in_dir owner name) d.files ≡ some text
      → has_dir dst d.directories ≡ true
      → Places d (copy_unless_inside dst (in_dir owner name) d) (in_dir dst name) text
  unfolding copy_unless_inside is_sub_dir
  step-Places owner dst name text d deep plain known held made =
      elim (Bool-cases (is_sub_dir (in_dir owner name) dst)) [
        | inl e ↦
            let up : starts_up (rel dst (in_dir owner name)) ≡ false = ground arith in
            let own = inside_own owner dst name deep up in
            rw e (
              record { went_well = refl; same_dirs = refl; keeps = λ p t k l. l },
              ap (λ q. lookup (in_dir q name) d.files) (sym own) ∙ held,
            )
        | inr e ↦
            let other = elsewhere owner dst name plain e in
            rw e (
              rw (copy_file-effect owner dst name text d other made held) (
                record {
                  went_well = refl;
                  same_dirs = refl;
                  keeps =
                      new_file-keeps content (in_dir dst name) text d
                        (ap content (base-in_dir dst name) ∙ known);
                },
                lookup-here (in_dir dst name) text ((in_dir dst name, []) ∷ d.files)
                    (path_eq_refl (in_dir dst name)),
              ))
      ]
