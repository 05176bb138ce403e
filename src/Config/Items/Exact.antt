-- ===== src/Config/Items/Exact.antt =====
-- `MergeListNode` leaves exactly the external names.
use aimrt_comm.Base.{
  String, ◌≡◌, refl, sym, ap, ◌∙◌, Bool, ◌||◌, ◌&&◌, List, [], ◌∷◌, ◌++◌, if◌then◌else◌, arith,
  Bool-cases, inl, inr, filter,
}
use mathlib.Core.List.{append-nil, append_assoc}
use aimrt_comm.Base.Outcome.{ok-injective, Outcome, ok, ◌>>=◌, >>=-eq-ok}
use aimrt_comm.Config.Yaml.{Kind, Yaml}
use aimrt_comm.Config.Items.{
  Handler, field_key, merge_items, remove_unlisted, merge_list, merge_map_handler,
}
use aimrt_comm.Config.Items.Keys.{
  elem, add_keys, elem-add_keys, elem-filter, keys_of, keys_of-cons, keys_of-nil, keys_of-append,
  is_listed-eq-elem, AllKeep, KeyedIsDefined, keys_of-merge_items,
}
use aimrt_comm.Config.Items.OneKey.{AllOneKey, AllOneKey-AllKeep}

module _ (y : Yaml) where
  open y use {Node, kind, items, set_items, items-set_items}

  keys_of-remove_unlisted :
      (key : Node → Outcome String) (ext : List Node) (ns : List String) (xs kept ys : List Node)
      (ks ls : List String)
      → keys_of y key ext ≡ ok ns
      → keys_of y key xs ≡ ok ks
      → keys_of y key kept ≡ ok ls
      → remove_unlisted y key ext kept xs ≡ ok ys
      → keys_of y key ys ≡ ok (ls ++ filter (λ k. elem k ns) ks)
  unfolding remove_unlisted filter
  keys_of-remove_unlisted key ext ns [] kept ys ks ls en ek el run =
      rw (← ok-injective run, ← keys_of-nil y key ks ek, append-nil) el
  keys_of-remove_unlisted key ext ns (x ∷ xs) kept ys ks ls en ek el run =
      let (k, ms, first, second, same) = keys_of-cons y key x xs ks ek in
      let seen : remove_unlisted y key ext (if elem k ns then kept ++ x ∷ [] else kept) xs ≡ ok ys =
        rw (first, is_listed-eq-elem y key k ext ns en) at run in
      elim (Bool-cases (elem k ns)) [
        | inl listed ↦
            rw (same, listed)
              (keys_of-remove_unlisted key ext ns xs (kept ++ x ∷ []) ys ms (ls ++ k ∷ []) en second
                  (keys_of-append y key kept (x ∷ []) ls (k ∷ []) el (one first))
                  (rw listed at seen)
                ∙ ap ok (append_assoc ls (k ∷ []) (filter (λ j. elem j ns) ms)))
        | inr dropped ↦
            rw (same, dropped)
              (keys_of-remove_unlisted key ext ns xs kept ys ms ls en second el
                (rw dropped at seen))
      ]
    where
      one : {k : String} → key x ≡ ok k → keys_of y key (x ∷ []) ≡ ok (k ∷ [])
      one h = unfold keys_of in rw h refl

  keys_of-merge_list_by :
      (handler : Handler y) (id_key : String) (res ext out : Node) (ks ns : List String)
      → AllKeep y (field_key y id_key) handler (items ext)
      → KeyedIsDefined y (field_key y id_key)
      → kind res ≡ Kind.sequence
      → kind ext ≡ Kind.sequence
      → keys_of y (field_key y id_key) (items res) ≡ ok ks
      → keys_of y (field_key y id_key) (items ext) ≡ ok ns
      → merge_list y handler id_key res ext ≡ ok out
      → (keys_of y (field_key y id_key) (items out) ≡ ok (filter (λ k. elem k ns) (add_keys ks ns)))
        × ((j : String) → elem j (filter (λ k. elem k ns) (add_keys ks ns)) ≡ elem j ns)
  unfolding merge_list
  keys_of-merge_list_by handler id_key res ext out ks ns keeps defined res_seq ext_seq ek en run =
      let key = field_key y id_key in
      let (merged, first, rest) =
        >>=-eq-ok (merge_items y handler key (items res) (items ext))
          (λ m. remove_unlisted y key (items ext) [] m >>= λ xs. ok (set_items res xs))
          (rw (res_seq, ext_seq) at run) in
      let (xs, second, last) =
        >>=-eq-ok (remove_unlisted y key (items ext) [] merged) (λ xs. ok (set_items res xs))
          rest in
      let merged_keys =
        keys_of-merge_items y key handler defined (items ext) (items res) merged ns ks keeps en ek
          first in
      (
        ap (λ n. keys_of y key (items n)) (sym (ok-injective last))
            ∙ ap (keys_of y key) (items-set_items res xs res_seq)
            ∙ keys_of-remove_unlisted key (items ext) ns merged [] xs (add_keys ks ns) [] en
                merged_keys (unfold keys_of in refl) second,
        λ j.
            elem-filter (λ k. elem k ns) j (add_keys ks ns)
            ∙ rw elem-add_keys (or_and (elem j ks) (elem j ns)),
      )
    where
      or_and : (a b : Bool) → ((a || b) && b) ≡ b
      or_and a b = ground arith

  -- Merging two sequences whose elements are known by a key, where it succeeds and each external
  -- element is a map with one entry of the key, a scalar: the keys of the result are the internal ones
  -- that the external list has too, in their order, and then the external ones that are new, in theirs;
  -- so a name is in the result exactly if it is in the external list. An element that is in both lists
  -- is merged as a map. It is assumed that what has a key is neither undefined nor null.
  pub keys_of-merge_list :
      (id_key : String) (res ext out : Node) (ks ns : List String)
      → AllOneKey y id_key (items ext)
      → KeyedIsDefined y (field_key y id_key)
      → kind res ≡ Kind.sequence
      → kind ext ≡ Kind.sequence
      → keys_of y (field_key y id_key) (items res) ≡ ok ks
      → keys_of y (field_key y id_key) (items ext) ≡ ok ns
      → merge_list y (merge_map_handler y) id_key res ext ≡ ok out
      → (keys_of y (field_key y id_key) (items out) ≡ ok (filter (λ k. elem k ns) (add_keys ks ns)))
        × ((j : String) → elem j (filter (λ k. elem k ns) (add_keys ks ns)) ≡ elem j ns)
  keys_of-merge_list id_key res ext out ks ns one =
      keys_of-merge_list_by (merge_map_handler y) id_key res ext out ks ns
        (AllOneKey-AllKeep y id_key (items ext) one)
