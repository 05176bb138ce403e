-- ===== src/Config/Merge/Map/Paths.antt =====
-- References as paths: reading after writing, two writes through one path, paths of maps.
use aimrt_comm.Base.{
  String, ◌≡◌, refl, ap, ◌∙◌, true, List, [], ◌∷◌, ◌++◌, if◌then◌else◌, str_eq_refl, arith,
  Bool-cases, inl, inr,
}
use aimrt_comm.Config.Yaml.{Kind, Yaml, is_map}
use aimrt_comm.Config.Merge.Map.{
  NodePath, at, over, touch, touch_fields, merge_field, merge_fields, is_undefined,
}

pub is_map→map : (k : Kind) → is_map k ≡ true → k ≡ Kind.map
is_map→map k h = ground arith

module _ (y : Yaml) where
  open y use {
    Node, kind, entries, field, set_field, field-set_field, set_field-set_field, kind-set_field,
  }

  -- every node on the way is a map
  abbrev pub IsMapPath : NodePath → Node → Type 0
  IsMapPath [] n = Unit
  IsMapPath (k ∷ p) n = (kind n ≡ Kind.map) × IsMapPath p (field n k)

  -- a change that leaves maps maps
  abbrev pub KeepsMaps : (Node → Node) → Type 0
  KeepsMaps f = (n : Node) → kind n ≡ Kind.map → kind (f n) ≡ Kind.map

  pub field-set_field_self :
      (n : Node) (k : String) (v : Node) → kind n ≡ Kind.map → field (set_field n k v) k ≡ v
  field-set_field_self n k v h = field-set_field n k k v h ∙ rw str_eq_refl refl

  pub at-over :
      (p : NodePath) (f : Node → Node) (n : Node)
      → IsMapPath p n
      → at y p (over y p f n) ≡ f (at y p n)
  unfolding at over
  at-over [] f n h = refl
  at-over (k ∷ p) f n h =
      ap (at y p) (field-set_field_self n k (over y p f (field n k)) h.0)
      ∙ at-over p f (field n k) h.1

  pub over-over :
      (p : NodePath) (g f : Node → Node) (n : Node)
      → IsMapPath p n
      → over y p g (over y p f n) ≡ over y p (λ m. g (f m)) n
  unfolding over
  over-over [] g f n h = refl
  over-over (k ∷ p) g f n h =
      ap (λ m. set_field (set_field n k (over y p f (field n k))) k (over y p g m))
        (field-set_field_self n k (over y p f (field n k)) h.0)
      ∙ set_field-set_field n k _ _ h.0
      ∙ ap (set_field n k) (over-over p g f (field n k) h.1)

  pub over-append :
      (p q : NodePath) (f : Node → Node) (n : Node) → over y (p ++ q) f n ≡ over y p (over y q f) n
  unfolding over
  over-append [] q f n = refl
  over-append (k ∷ p) q f n = ap (set_field n k) (over-append p q f (field n k))

  -- only the value at the node counts
  pub over_cong :
      (p : NodePath) (f g : Node → Node) (n : Node)
      → f (at y p n) ≡ g (at y p n)
      → over y p f n ≡ over y p g n
  unfolding at over
  over_cong [] f g n h = h
  over_cong (k ∷ p) f g n h = ap (set_field n k) (over_cong p f g (field n k) h)

  pub over-IsMapPath :
      (p : NodePath) (f : Node → Node) (n : Node) → IsMapPath p n → IsMapPath p (over y p f n)
  unfolding over
  over-IsMapPath [] f n h = tt
  over-IsMapPath (k ∷ p) f n h = (
    kind-set_field n k _ h.0,
    rw (field-set_field_self n k (over y p f (field n k)) h.0) (over-IsMapPath p f (field n k) h.1),
  )

  pub append-IsMapPath :
      (p : NodePath) (k : String) (n : Node)
      → IsMapPath p n
      → kind (at y p n) ≡ Kind.map
      → IsMapPath (p ++ k ∷ []) n
  unfolding at
  append-IsMapPath [] k n h e = (e, tt)
  append-IsMapPath (j ∷ p) k n h e = (h.0, append-IsMapPath p k (field n j) h.1 e)

  pub touch_fields-KeepsMaps : (es : List (String × Node)) → KeepsMaps (touch_fields y es)
  unfolding touch_fields touch
  touch_fields-KeepsMaps [] n h = h
  touch_fields-KeepsMaps ((k, e) ∷ es) n h = touch_fields-KeepsMaps es _ (kind-set_field n k _ h)

  pub merge_fields-KeepsMaps :
      (m : Node → Node → Node) (es : List (String × Node)) → KeepsMaps (merge_fields y m es)
  unfolding merge_fields merge_field
  merge_fields-KeepsMaps m [] n h = h
  merge_fields-KeepsMaps m ((k, e) ∷ es) n h = elim (Bool-cases (is_undefined y e)) [
    | inl u ↦ rw u (merge_fields-KeepsMaps m es n h)
    | inr d ↦ rw d (kind-set_field _ k _ (merge_fields-KeepsMaps m es n h))
  ]

  -- A field merged through a path one longer is the field merged at the shorter path.
  pub over-merge_field :
      (p : NodePath) (m : Node → Node → Node) (k : String) (e : Node) (g : Node → Node) (n : Node)
      → IsMapPath p n
      → (if is_undefined y e
          then over y p g n
          else over y (p ++ k ∷ []) (λ r. m r e) (over y p g n))
        ≡ over y p (λ r. merge_field y m k e (g r)) n
  unfolding merge_field over
  over-merge_field p m k e g n h = elim (Bool-cases (is_undefined y e)) [
    | inl u ↦ rw u refl
    | inr d ↦ rw d (over-append p (k ∷ []) (λ r. m r e) (over y p g n) ∙ over-over p _ g n h)
  ]
