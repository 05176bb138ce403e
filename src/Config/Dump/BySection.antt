-- ===== src/Config/Dump/BySection.antt =====
-- The patches of `DumpFile`, one file after the other, in each section.
use aimrt_comm.Base.{
  String, ◌≡◌, ap, ◌∙◌, true, false, List, [], ◌∷◌, if◌then◌else◌, Bool-cases, inl, inr,
}
use aimrt_comm.Base.Outcome.{Outcome, ok, ◌>>=◌, >>=-eq-ok, ok-injective}
use aimrt_comm.Config.Yaml.{Kind, Yaml}
use aimrt_comm.Config.Merge.Map.{is_undefined}
use aimrt_comm.Config.Items.{Handler}
use aimrt_comm.Config.Sections.{when_defined}
use aimrt_comm.Config.Sections.Patching.{patch_aimrt_node}
use aimrt_comm.Config.Sections.Acts.{Section, Handled, patched_sections, patch_aimrt_node-Acts}
use aimrt_comm.Config.Dump.Chain.{patched_by}

module _ (y : Yaml) where
  open y use {Node, kind, field}

  -- the patches of one section; a file without an `aimrte` node has none
  unfoldable pub section_by : Handler y → String → List Node → Node → Outcome Node
  section_by handler k [] n = ok n
  section_by handler k (patch ∷ patches) n =
      let rest = section_by handler k patches n in
      let acted = handler n (field (field patch "aimrte") k) >>= section_by handler k patches in
      if is_undefined y (field patch "aimrte") then rest else acted

  -- each section of the result is what its patches, one after the other, make of it
  abbrev pub Sectioned : List (Section y) → List Node → Node → Node → Type 0
  Sectioned [] patches n out = Unit {0}
  Sectioned ((k, h) ∷ ss) patches n out =
      (section_by h k patches (field n k) ≡ ok (field out k)) × Sectioned ss patches n out

  Sectioned-none : (ss : List (Section y)) (n out : Node) → n ≡ out → Sectioned ss [] n out
  unfolding section_by
  Sectioned-none [] n out h = tt
  Sectioned-none ((k, g) ∷ ss) n out h = (ap (λ m. ok (field m k)) h, Sectioned-none ss n out h)

  Sectioned-skip :
      (ss : List (Section y)) (patch : Node) (patches : List Node) (n out : Node)
      → is_undefined y (field patch "aimrte") ≡ true
      → Sectioned ss patches n out
      → Sectioned ss (patch ∷ patches) n out
  unfolding section_by
  Sectioned-skip [] patch patches n out u h = tt
  Sectioned-skip ((k, g) ∷ ss) patch patches n out u (first, rest) =
      (rw u first, Sectioned-skip ss patch patches n out u rest)

  Sectioned-step :
      (ss : List (Section y)) (patch : Node) (patches : List Node) (n mid out : Node)
      → is_undefined y (field patch "aimrte") ≡ false
      → Handled y ss n (field patch "aimrte") mid
      → Sectioned ss patches mid out
      → Sectioned ss (patch ∷ patches) n out
  unfolding section_by
  Sectioned-step [] patch patches n mid out u did h = tt
  Sectioned-step ((k, g) ∷ ss) patch patches n mid out u (now, later) (first, rest) = (
    rw u (ap (λ r. r >>= section_by g k patches) now ∙ first),
    Sectioned-step ss patch patches n mid out u later rest,
  )

  patch_undefined :
      (n ext out : Node) → is_undefined y ext ≡ true → patch_aimrt_node y n ext ≡ ok out → n ≡ out
  unfolding patch_aimrt_node when_defined
  patch_undefined n ext out u h = ok-injective (rw u at h)

  pub patched_by-Sectioned :
      (patches : List Node) (n out : Node)
      → kind n ≡ Kind.map
      → patched_by y patches n ≡ ok out
      → Sectioned (patched_sections y) patches n out
  unfolding patched_by
  patched_by-Sectioned [] n out h run = Sectioned-none (patched_sections y) n out (ok-injective run)
  patched_by-Sectioned (patch ∷ patches) n out h run =
      let (mid, one, rest) =
        >>=-eq-ok (patch_aimrt_node y n (field patch "aimrte")) (patched_by y patches) run in
      elim (Bool-cases (is_undefined y (field patch "aimrte"))) [
        | inl u ↦
            let same = patch_undefined n (field patch "aimrte") mid u one in
            Sectioned-skip (patched_sections y) patch patches n out u
              (patched_by-Sectioned patches n out h (ap (patched_by y patches) same ∙ rest))
        | inr u ↦
            let acts = patch_aimrt_node-Acts y n (field patch "aimrte") mid h u one in
            Sectioned-step (patched_sections y) patch patches n mid out u acts.handled
              (patched_by-Sectioned patches mid out acts.still_map rest)
      ]
