-- ===== src/Testnet/Everywhere.antt =====
-- Every node gets every genesis transaction.
use nexus_node.Common.{
  ℕ, zero, suc, ◌+◌, ◌<◌, true, false, List, [], ◌∷◌, Option, some, ◌≡◌, refl, sym, ap, ◌∙◌, All,
  arith, inl, inr, length, length-append,
}
use nexus_node.Common.Text.{Bytes, codes, has_prefix}
use nexus_node.Upgrades.Api.{App, Out, done, ◌>>◌}
use nexus_node.Testnet.Disk.{FilePath, Disk, has_dir, lookup}
use nexus_node.Testnet.Args.{Args}
use nexus_node.Testnet.Nodes.{gentxs_dir}
use nexus_node.Testnet.Collect.{copy_unless_inside, copy_into, copy_gentxs}
use nexus_node.Testnet.Paths.{in_dir, base-in_dir}
use mathlib.Core.Path.{subst}
use nexus_node.Common.{map, ◌≤◌, ◌⊎◌}
use nexus_node.Testnet.Copies.{Keeps, step-Places}

-- A genesis transaction: the directory that it was written to, its name and its text.
pub record Gentx : Type 0 where
  pub owner : FilePath
  pub name : Bytes
  pub text : Bytes

abbrev pub file_of : Gentx → FilePath
file_of x = in_dir x.owner x.name

-- Its text is the one that the name stands for, its directory is as deep as a node's, and its name
-- does not lead out of a directory.
abbrev pub Named : (Bytes → Option Bytes) → ℕ → Gentx → Type 0
Named content depth x =
    (content x.name ≡ some x.text)
    × (length x.owner ≡ depth)
    × (has_prefix x.name (codes "..") ≡ false)

module _ (content : Bytes → Option Bytes) where
  then_Keeps :
      (m n : App Disk Unit) (d : Disk)
      → Keeps content d (m d)
      → Keeps content (m d).1 (n (m d).1)
      → Keeps content d ((m >> n) d)
  then_Keeps m n d a b = rw a.went_well (record {
    went_well = b.went_well;
    same_dirs = b.same_dirs ∙ a.same_dirs;
    keeps = λ p t k l. b.keeps p t k (a.keeps p t k l);
  })

  -- What is in place stays in place.
  all_kept :
      (d : Disk) (r : Out Unit × Disk) (dst : Gentx → FilePath)
      → Keeps content d r
      → (xs : List Gentx) → All (λ x. content x.name ≡ some x.text) xs
      → All (λ x. lookup (in_dir (dst x) x.name) d.files ≡ some x.text) xs
      → All (λ x. lookup (in_dir (dst x) x.name) r.1.files ≡ some x.text) xs
  all_kept d r dst k [] n h = tt
  all_kept d r dst k (x ∷ xs) (n, ns) (h, hs) = (
    k.keeps (in_dir (dst x) x.name) x.text (ap content (base-in_dir (dst x) x.name) ∙ n) h,
    all_kept d r dst k xs ns hs,
  )

  known_all :
      (depth : ℕ) (xs : List Gentx)
      → All (Named content depth) xs
      → All (λ x. content x.name ≡ some x.text) xs
  known_all depth [] h = tt
  known_all depth (x ∷ xs) ((k, _, _), hs) = (k, known_all depth xs hs)

  copy_into-all :
      (dst : FilePath) (xs : List Gentx) (d : Disk)
      → All (Named content (length dst)) xs
      → All (λ x. lookup (file_of x) d.files ≡ some x.text) xs
      → has_dir dst d.directories ≡ true
      → Keeps content d (copy_into dst (map file_of xs) d)
        × All
            (λ x.
              lookup (in_dir dst x.name) (copy_into dst (map file_of xs) d).1.files ≡ some x.text)
            xs
  unfolding copy_into
  copy_into-all dst [] d n h made =
      (record { went_well = refl; same_dirs = refl; keeps = λ p t k l. l }, tt)
  copy_into-all dst (x ∷ xs) d ((k, deep, plain), ns) (h, hs) made =
      let (one, placed) = step-Places content x.owner dst x.name x.text d deep plain k h made in
      let d1 = (copy_unless_inside dst (file_of x) d).1 in
      let later =
        all_kept d (copy_unless_inside dst (file_of x) d) (λ y. y.owner) one xs
          (known_all (length dst) xs ns) hs in
      let (two, rest) = copy_into-all dst xs d1 ns later (rw one.same_dirs made) in
      let step : (copy_unless_inside dst (file_of x) >> copy_into dst (map file_of xs)) d
          ≡ copy_into dst (map file_of xs) d1 =
        rw one.went_well refl in
      (
        then_Keeps (copy_unless_inside dst (file_of x)) (copy_into dst (map file_of xs)) d one two,
        subst
            (λ (r : Out Unit × Disk).
              All (λ y. lookup (in_dir dst y.name) r.1.files ≡ some y.text) (x ∷ xs))
            (sym step)
            (
              two.keeps (in_dir dst x.name) x.text (ap content (base-in_dir dst x.name) ∙ k) placed,
              rest,
            ),
      )

-- The directories of all nodes are as deep.
gentxs_dir-depth : (args : Args) (i : ℕ) → length (gentxs_dir args i) ≡ length args.output_dir + 3
gentxs_dir-depth args i = omega (arith, length-append args.output_dir _)

first_or_later : (i j : ℕ) → i ≤ j → (j ≡ i) ⊎ (suc i ≤ j)
first_or_later i j h = omega arith

module _ (content : Bytes → Option Bytes) (args : Args) (xs : List Gentx)
    (named : All (Named content (length args.output_dir + 3)) xs) where
  -- Every transaction in the directory of the j-th node.
  abbrev pub InPlace : ℕ → Disk → Type 0
  InPlace j d = All (λ x. lookup (in_dir (gentxs_dir args j) x.name) d.files ≡ some x.text) xs

  copies_at :
      (i : ℕ) (d : Disk)
      → All (λ x. lookup (file_of x) d.files ≡ some x.text) xs
      → has_dir (gentxs_dir args i) d.directories ≡ true
      → Keeps content d (copy_into (gentxs_dir args i) (map file_of xs) d)
        × InPlace i (copy_into (gentxs_dir args i) (map file_of xs) d).1
  copies_at i d h made =
      copy_into-all content (gentxs_dir args i) xs d
        (subst (λ n. All (Named content n) xs) (sym (gentxs_dir-depth args i)) named) h made

  pub copy_gentxs-all :
      (i n : ℕ) (d : Disk)
      → All (λ x. lookup (file_of x) d.files ≡ some x.text) xs
      → ((j : ℕ) → i ≤ j → j < i + n → has_dir (gentxs_dir args j) d.directories ≡ true)
      → Keeps content d (copy_gentxs args (map file_of xs) i n d)
        × ((j : ℕ) → i ≤ j → j < i + n → InPlace j (copy_gentxs args (map file_of xs) i n d).1)
  unfolding copy_gentxs
  copy_gentxs-all i zero d h made = (
    record { went_well = refl; same_dirs = refl; keeps = λ p t k l. l },
    λ j low high. absurd (omega arith),
  )
  copy_gentxs-all i (suc n) d h made =
      let files = map file_of xs in
      let (one, placed) = copies_at i d h (made i (omega arith) (omega arith)) in
      let known = known_all content (length args.output_dir + 3) xs named in
      let r = copy_into (gentxs_dir args i) files d in
      let later = all_kept content d r (λ x. x.owner) one xs known h in
      let (two, rest) =
        copy_gentxs-all (suc i) n r.1 later
          (λ j low high. rw one.same_dirs (made j (omega arith) (omega arith))) in
      let r2 = copy_gentxs args files (suc i) n r.1 in
      (
        then_Keeps content (copy_into (gentxs_dir args i) files) (copy_gentxs args files (suc i) n)
            d one two,
        λ j low high. rw one.went_well (elim (first_or_later i j low) [
          | inl e ↦
              subst (λ k. InPlace k r2.1) (sym e)
                (all_kept content r.1 r2 (λ x. gentxs_dir args i) two xs known placed)
          | inr above ↦ rest j above (omega arith)
        ]),
      )

  -- The transactions have texts that their names decide, their directories are as deep as those of
  -- the nodes, and no name starts with two dots. Where each is stored and every node has its
  -- directory, the copying goes well, and afterwards the directory of every node holds every
  -- transaction, its text unchanged.
  pub copy_gentxs-everywhere :
      (n : ℕ) (d : Disk)
      → All (λ x. lookup (file_of x) d.files ≡ some x.text) xs
      → ((j : ℕ) → j < n → has_dir (gentxs_dir args j) d.directories ≡ true)
      → let after = copy_gentxs args (map file_of xs) 0 n d in
        (after.0 ≡ done tt)
        × ((j : ℕ)
            → j < n
            → All (λ x. lookup (in_dir (gentxs_dir args j) x.name) after.1.files ≡ some x.text) xs)
  copy_gentxs-everywhere n d h made =
      let (k, all) = copy_gentxs-all 0 n d h (λ j low high. made j (omega arith)) in
      (k.went_well, λ j high. all j (omega arith) (omega arith))
