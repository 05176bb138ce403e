-- ===== src/Config/Items/Keys.antt =====
-- The keys of a list before and after `MergeListNode`.
use aimrt_comm.Base.{
  String, ◌≡◌, refl, sym, ap, ◌∙◌, Bool, true, false, ◌||◌, ◌&&◌, List, [], ◌∷◌, ◌++◌, length, set,
  if◌then◌else◌, str_eq, str_eq→eq, arith, Bool-cases, inl, inr, filter, eq_iff,
}
use aimrt_comm.Base.Outcome.{Outcome, ok, ◌>>=◌, >>=-eq-ok}
use aimrt_comm.Config.Yaml.{Yaml}
use aimrt_comm.Config.Merge.Map.{is_undefined}
use aimrt_comm.Config.Items.{Handler, merge_item, merge_items, is_listed}
use aimrt_comm.Config.Items.Place.{Lacks, find_item-append, find_item-none, set-append}

abbrev pub elem : String → List String → Bool
elem j [] = false
elem j (k ∷ ks) = let rest = elem j ks in if str_eq k j then true else rest

-- the keys after the first loop: a new name goes to the end
abbrev pub add_keys : List String → List String → List String
add_keys ks [] = ks
add_keys ks (e ∷ es) = add_keys (if elem e ks then ks else ks ++ e ∷ []) es

elem-append : (j : String) (ks ls : List String) → elem j (ks ++ ls) ≡ elem j ks || elem j ls
elem-append j [] ls = refl
elem-append j (k ∷ ks) ls = ground (arith, elem-append j ks ls)

pub elem-add_keys :
    (j : String) (es ks : List String) → elem j (add_keys ks es) ≡ elem j ks || elem j es
elem-add_keys j [] ks = ground arith
elem-add_keys j (e ∷ es) ks = ground (
  arith,
  elem-add_keys j es (if elem e ks then ks else ks ++ e ∷ []),
  elem-append j ks (e ∷ []),
  eq_iff e j,
)

pub elem-filter :
    (p : String → Bool) (j : String) (ks : List String) → elem j (filter p ks) ≡ elem j ks && p j
unfolding filter
elem-filter p j [] = refl
elem-filter p j (k ∷ ks) = elim (Bool-cases (str_eq k j)) [
  | inl same ↦ elim (Bool-cases (p k)) [
    | inl kept ↦ rw (kept, same) (rw (← str_eq→eq k j same, kept) refl)
    | inr dropped ↦
        rw (dropped, same)
          (elem-filter p j ks ∙ rw (← str_eq→eq k j same, dropped) (and_false (elem k ks)))
  ]
  | inr other ↦ elim (Bool-cases (p k)) [
    | inl kept ↦ rw (kept, other) (elem-filter p j ks)
    | inr dropped ↦ rw (dropped, other) (elem-filter p j ks)
  ]
]
  where
    and_false : (b : Bool) → (b && false) ≡ false
    and_false b = ground arith

module _ (y : Yaml) (key : y.Node → Outcome String) where
  open y use {Node}

  unfoldable pub keys_of : List Node → Outcome (List String)
  keys_of [] = ok []
  keys_of (x ∷ xs) = do k ← key x; ks ← keys_of xs; ok (k ∷ ks)

  -- a list cut at the first element of a name
  record Cut (name : String) (xs : List Node) : Type 0 where
    before : List Node
    at : Node
    after : List Node
    cut : xs ≡ before ++ at ∷ after
    lacks : Lacks y key name before
    named : key at ≡ ok name

  pub keys_of-cons :
      (x : Node) (xs : List Node) (ks : List String)
      → keys_of (x ∷ xs) ≡ ok ks
      → (k : String) × (ls : List String) × (key x ≡ ok k) × (keys_of xs ≡ ok ls) × (ks ≡ k ∷ ls)
  unfolding keys_of
  keys_of-cons x xs ks e =
      let (k, first, rest) = >>=-eq-ok (key x) (λ k. keys_of xs >>= λ ks. ok (k ∷ ks)) e in
      let (ls, second, same) = >>=-eq-ok (keys_of xs) (λ ks. ok (k ∷ ks)) rest in
      (k, ls, first, second, cc)

  Cut-at :
      (name : String) (xs : List Node) (ks : List String)
      → keys_of xs ≡ ok ks
      → elem name ks ≡ true
      → Cut name xs
  unfolding keys_of
  Cut-at name [] ks e h = absurd (cc)
  Cut-at name (x ∷ xs) ks e h =
      let (k, ls, first, second, same) = keys_of-cons x xs ks e in
      elim (Bool-cases (str_eq k name)) [
        | inl found ↦ record {
          before = [];
          at = x;
          after = xs;
          cut = refl;
          lacks = tt;
          named = first ∙ ap ok (str_eq→eq k name found);
        }
        | inr other ↦
            let c = Cut-at name xs ls second (rw (same, other) at h) in
            record {
              before = x ∷ c.before;
              at = c.at;
              after = c.after;
              cut = ap (λ l. x ∷ l) c.cut;
              lacks = ((k, first, other), c.lacks);
              named = c.named;
            }
      ]

  Lacks-all :
      (name : String) (xs : List Node) (ks : List String)
      → keys_of xs ≡ ok ks
      → elem name ks ≡ false
      → Lacks y key name xs
  Lacks-all name [] ks e h = tt
  Lacks-all name (x ∷ xs) ks e h =
      let (k, ls, first, second, same) = keys_of-cons x xs ks e in
      elim (Bool-cases (str_eq k name)) [
        | inl found ↦ (let clash : ◌≡◌ {A = Bool} true false = rw (same, found) at h in absurd (cc))
        | inr other ↦ ((k, first, other), Lacks-all name xs ls second (rw (same, other) at h))
      ]

  keys_of-replace :
      (before after : List Node) (r c : Node)
      → key c ≡ key r
      → keys_of (before ++ c ∷ after) ≡ keys_of (before ++ r ∷ after)
  unfolding keys_of
  keys_of-replace [] after r c h = rw h refl
  keys_of-replace (b ∷ before) after r c h = rw (keys_of-replace before after r c h) refl

  pub keys_of-nil : (ks : List String) → keys_of [] ≡ ok ks → [] ≡ ks
  unfolding keys_of
  keys_of-nil ks e = cc

  pub keys_of-append :
      (xs ys : List Node) (ks ls : List String)
      → keys_of xs ≡ ok ks
      → keys_of ys ≡ ok ls
      → keys_of (xs ++ ys) ≡ ok (ks ++ ls)
  unfolding keys_of
  keys_of-append [] ys ks ls e f = f ∙ ap (λ l. ok (l ++ ls)) (keys_of-nil ks e)
  keys_of-append (x ∷ xs) ys ks ls e f =
      let (k, ms, first, second, same) = keys_of-cons x xs ks e in
      rw (first, keys_of-append xs ys ms ls second f, same) refl

  pub is_listed-eq-elem :
      (name : String) (xs : List Node) (ks : List String)
      → keys_of xs ≡ ok ks
      → is_listed y key name xs ≡ ok (elem name ks)
  unfolding is_listed
  is_listed-eq-elem name [] ks e = ap (λ l. ok (elem name l)) (keys_of-nil ks e)
  is_listed-eq-elem name (x ∷ xs) ks e =
      let (k, ls, first, second, same) = keys_of-cons x xs ks e in
      rw (first, same, is_listed-eq-elem name xs ls second) (if_ok (str_eq k name) (elem name ls))
    where
      if_ok : (a b : Bool) → (if a then ok true else ok b) ≡ ok (if a then true else b)
      if_ok a b = ground arith

  -- The handler gives an element of the key of this external element a new value of the same key.
  abbrev pub KeepsKey : Handler y → Node → Type 0
  KeepsKey handler e =
      (r c : Node) (name : String)
      → key r ≡ ok name
      → key e ≡ ok name
      → handler r e ≡ ok c
      → key c ≡ ok name

  abbrev pub AllKeep : Handler y → List Node → Type 0
  AllKeep handler [] = Unit
  AllKeep handler (e ∷ es) = KeepsKey handler e × AllKeep handler es

  -- what has a key is a defined node
  abbrev pub KeyedIsDefined : Type 0
  KeyedIsDefined = (r : Node) (name : String) → key r ≡ ok name → is_undefined y r ≡ false

  module _ (handler : Handler y) (defined : KeyedIsDefined) where
    merge_item-present :
        (e : Node) (name : String) (before : List Node) (r : Node) (after ys : List Node)
        (ks : List String)
        → KeepsKey handler e
        → key e ≡ ok name
        → Lacks y key name before
        → key r ≡ ok name
        → keys_of (before ++ r ∷ after) ≡ ok ks
        → merge_item y handler key (before ++ r ∷ after) e ≡ ok ys
        → keys_of ys ≡ ok ks
    unfolding merge_item
    merge_item-present e name before r after ys ks keeps named lacks has keyed run =
        let (c, handled, written) =
          >>=-eq-ok (handler r e) (λ c. ok (set (before ++ r ∷ after) (length before) c))
            (rw (named, find_item-append y key name before r after lacks has, defined r name has) at
              run) in
        let same_key : key c ≡ key r = keeps r c name has named handled ∙ sym has in
        ap keys_of (sym (ok_list _ ys written) ∙ set-append before after r c)
        ∙ keys_of-replace before after r c same_key
        ∙ keyed
      where
        ok_list : (a b : List Node) → ok a ≡ ok b → a ≡ b
        ok_list a b h = cc

    merge_item-absent :
        (e : Node) (name : String) (xs ys : List Node) (ks : List String)
        → key e ≡ ok name
        → Lacks y key name xs
        → keys_of xs ≡ ok ks
        → merge_item y handler key xs e ≡ ok ys
        → keys_of ys ≡ ok (ks ++ name ∷ [])
    unfolding merge_item
    merge_item-absent e name xs ys ks named lacks keyed run =
        ap keys_of (
          sym (ok_list _ ys (rw (named, find_item-none y key name xs lacks, y.kind-absent) at run)))
        ∙ keys_of-append xs (e ∷ []) ks (name ∷ []) keyed (one named)
      where
        ok_list : (a b : List Node) → ok a ≡ ok b → a ≡ b
        ok_list a b h = cc

        one : key e ≡ ok name → keys_of (e ∷ []) ≡ ok (name ∷ [])
        one h = unfold keys_of in rw h refl

    -- One round of the first loop of `MergeListNode`: the name of the external element goes to the
    -- end of the keys unless it is among them.
    pub keys_of-merge_item :
        (e : Node) (name : String) (xs ys : List Node) (ks : List String)
        → KeepsKey handler e
        → key e ≡ ok name
        → keys_of xs ≡ ok ks
        → merge_item y handler key xs e ≡ ok ys
        → keys_of ys ≡ ok (if elem name ks then ks else ks ++ name ∷ [])
    keys_of-merge_item e name xs ys ks keeps named keyed run = elim (Bool-cases (elem name ks)) [
      | inl found ↦
          let c = Cut-at name xs ks keyed found in
          rw found (
            merge_item-present e name c.before c.at c.after ys ks keeps named c.lacks c.named
              (ap keys_of (sym c.cut) ∙ keyed) (rw c.cut at run))
      | inr other ↦
          rw other
            (merge_item-absent e name xs ys ks named (Lacks-all name xs ks keyed other) keyed run)
    ]

    pub keys_of-merge_items :
        (es xs ys : List Node) (ns ks : List String)
        → AllKeep handler es
        → keys_of es ≡ ok ns
        → keys_of xs ≡ ok ks
        → merge_items y handler key xs es ≡ ok ys
        → keys_of ys ≡ ok (add_keys ks ns)
    unfolding merge_items
    keys_of-merge_items [] xs ys ns ks keeps named keyed run =
        ap keys_of (sym (ok_list xs ys run))
        ∙ keyed
        ∙ ap (λ l. ok (add_keys ks l)) (keys_of-nil ns named)
      where
        ok_list : (a b : List Node) → ok a ≡ ok b → a ≡ b
        ok_list a b h = cc
    keys_of-merge_items (e ∷ es) xs ys ns ks (keeps, all) named keyed run =
        let (n, ms, first, second, same) = keys_of-cons e es ns named in
        let (zs, one, rest) =
          >>=-eq-ok (merge_item y handler key xs e) (λ zs. merge_items y handler key zs es) run in
        rw same (
          keys_of-merge_items es zs ys ms _ all second
            (keys_of-merge_item e n xs zs ks keeps first keyed one) rest)
