-- ===== src/Database/Wrap/Layout.antt =====
-- The layout: what is written is read back, and a file that was cut short is refused.
use aimrt_comm.Base.{
  ℕ, zero, suc, ◌+◌, ◌<◌, ◌≡◌, refl, sym, ap, ◌∙◌, ◌⊎◌, inl, inr, Bool, true, false, not, Option,
  none, some, List, [], ◌∷◌, ◌++◌, length, if◌then◌else◌, Bool-cases, arith,
}
use mathlib.Core.Path.{subst}
use mathlib.Core.List.{append_assoc, append-nil}
use aimrt_comm.Database.Bytes.{Bytes, read_exactly, read_exactly-append}
use aimrt_comm.Database.Wrap.{
  WrapBlob, is_valid, WriteResult, write, write_fields, fields_of, next_field, read_wrap,
}
use aimrt_comm.Database.Wrap.Writer.{Appended, write_loop-Appended}

-- every field has its size, and the magic is right
pub record IsSized (blob : WrapBlob) : Type 0 where
  pub magic_valid : is_valid blob.magic ≡ true
  pub magic_size : length blob.magic ≡ 8
  pub salt_size : length blob.salt ≡ 16
  pub iv_size : length blob.iv ≡ 12
  pub tag_size : length blob.tag ≡ 16
  pub ct_size : length blob.ct ≡ 32
  pub noise_size : length blob.noise ≡ 16

abbrev pub joined : List Bytes → Bytes
joined [] = []
joined (field ∷ fields) = field ++ joined fields

write-Appended :
    (answers : List WriteResult) (left file out : Bytes) (rest : List WriteResult) (result : Bool)
    → write answers left file ≡ some (result, out, rest)
    → Appended left file out result
unfolding write
write-Appended answers [] file out rest result h = record {
  written = [];
  missing = [];
  whole = refl;
  file_is = cc (append-nil file);
  complete = λ e. refl;
}
write-Appended answers (b ∷ left) file out rest result h =
    write_loop-Appended answers (b ∷ left) file out rest result h

Appended-before :
    {field after file file' out : Bytes} {result : Bool}
    → Appended field file file' true
    → Appended after file' out result
    → Appended (field ++ after) file out result
Appended-before {field} {after} {file} {file'} {out} {result} a b =
    let all : a.written ≡ field =
      sym (append-nil a.written) ∙ ap (λ l. a.written ++ l) (sym (a.complete refl)) ∙ a.whole in
    record {
      written = field ++ b.written;
      missing = b.missing;
      whole = append_assoc field b.written b.missing ∙ ap (λ l. field ++ l) b.whole;
      file_is =
          b.file_is
          ∙ ap (λ l. l ++ b.written) (a.file_is ∙ ap (λ l. file ++ l) all)
          ∙ append_assoc file field b.written;
      complete = b.complete;
    }

Appended-cut :
    {field file out : Bytes} {result : Bool} (after : Bytes)
    → Appended field file out false
    → false ≡ result
    → Appended (field ++ after) file out result
Appended-cut {field} {file} {out} {result} after a h = record {
  written = a.written;
  missing = a.missing ++ after;
  whole = sym (append_assoc a.written a.missing after) ∙ ap (λ l. l ++ after) a.whole;
  file_is = a.file_is;
  complete = λ e. absurd (false_ne_true (h ∙ e));
}
  where
    false_ne_true : false ≡ true → ⊥
    false_ne_true e = cc

pub write_fields-Appended :
    (answers : List WriteResult) (fields : List Bytes) (file out : Bytes) (rest : List WriteResult)
    (result : Bool)
    → write_fields answers fields file ≡ some (result, out, rest)
    → Appended (joined fields) file out result
unfolding write_fields
write_fields-Appended answers [] file out rest result h = record {
  written = [];
  missing = [];
  whole = refl;
  file_is = cc (append-nil file);
  complete = λ e. refl;
}
write_fields-Appended answers (field ∷ fields) file out rest result h =
    by_write (write answers field file) refl
      (λ answers' file' k. write_fields-Appended answers' fields file' out rest result k) h
  where
    none_ne_some :
        {x : Bool × Bytes × List WriteResult}
        → ◌≡◌ {A = Option (Bool × Bytes × List WriteResult)} none (some x)
        → ⊥
    none_ne_some e = cc

    by_write :
        (w : Option (Bool × Bytes × List WriteResult))
        → write answers field file ≡ w
        → ((answers' : List WriteResult) (file' : Bytes)
            → write_fields answers' fields file' ≡ some (result, out, rest)
            → Appended (joined fields) file' out result)
        → ◌≡◌ {A = Option (Bool × Bytes × List WriteResult)}
            (elim w [
              | none ↦ none
              | some (r, file', answers') ↦ elim r [
                | true ↦ write_fields answers' fields file'
                | false ↦ some (false, file', answers')
              ]
            ])
            (some (result, out, rest))
        → Appended (field ++ joined fields) file out result
    by_write none e rec k = absurd (none_ne_some k)
    by_write (some (true, file', answers')) e rec k =
        Appended-before (write-Appended answers field file file' answers' true e)
          (rec answers' file' k)
    by_write (some (false, file', answers')) e rec k =
        let out_is : file' ≡ out = cc in
        Appended-cut (joined fields)
          (subst (λ o. Appended field file o false) out_is
            (write-Appended answers field file file' answers' false e))
          (cc)

length-read_exactly :
    (n : ℕ) (bytes got rest : Bytes)
    → read_exactly n bytes ≡ some (got, rest)
    → length bytes ≡ n + length rest
unfolding read_exactly
length-read_exactly zero bytes got rest h =
    let e : bytes ≡ rest = cc in ap {B = ℕ} length e ∙ omega arith
length-read_exactly (suc n) [] got rest h = cc
length-read_exactly (suc n) (b ∷ bytes) got rest h =
    by_read (read_exactly n bytes) refl (λ g r k. length-read_exactly n bytes g r k) h
  where
    by_read :
        (r : Option (Bytes × Bytes))
        → read_exactly n bytes ≡ r
        → ((g r : Bytes) → read_exactly n bytes ≡ some (g, r) → length bytes ≡ n + length r)
        → ◌≡◌ {A = Option (Bytes × Bytes)}
            (elim r [ none ↦ none | some (g, rest') ↦ some (b ∷ g, rest') ])
            (some (got, rest))
        → suc (length bytes) ≡ suc n + length rest
    by_read none e rec k = cc
    by_read (some (g, r)) e rec k =
        let same : r ≡ rest = cc in omega (arith, rec g r e, ap {B = ℕ} length same)

next_field-none :
    (size : ℕ) (file : Bytes) (next : Bytes → Bytes → Option WrapBlob)
    → ((field rest : Bytes) → length file ≡ size + length rest → next field rest ≡ none)
    → next_field size file next ≡ none
next_field-none size file next h = by_read (read_exactly size file) refl
  where
    by_read :
        (r : Option (Bytes × Bytes)) → read_exactly size file ≡ r → next_field size file next ≡ none
    by_read none e = rw (e, next_field) refl
    by_read (some (field, rest)) e =
        rw (e, next_field) (h field rest (length-read_exactly size file field rest e))

-- A file of fewer bytes than the layout has is refused.
pub read_wrap-short : (file : Bytes) → length file < 100 → read_wrap file ≡ none
unfolding read_wrap
read_wrap-short file short = next_field-none 8 file _ λ magic file1 h1.
    by_magic (Bool-cases (is_valid magic)) (
      next_field-none 16 file1 _ λ salt file2 h2. next_field-none 12 file2 _ λ iv file3 h3.
        next_field-none 16 file3 _ λ tag file4 h4.
          next_field-none 32 file4 _
            λ ct file5 h5. next_field-none 16 file5 _ λ noise file6 h6. absurd (omega arith))
  where
    by_magic :
        {b : Bool} {rest : Option WrapBlob}
        → (b ≡ true) ⊎ (b ≡ false)
        → rest ≡ none
        → (if not b then none else rest) ≡ none
    by_magic (inl e) h = rw e h
    by_magic (inr e) h = rw e refl

next_field-append :
    (size : ℕ) (field rest : Bytes) (next : Bytes → Bytes → Option WrapBlob)
    → length field ≡ size
    → next_field size (field ++ rest) next ≡ next field rest
next_field-append size field rest next h =
    rw (read_exactly-append size field rest h, next_field) refl

pub read_wrap-joined :
    (blob : WrapBlob) → IsSized blob → read_wrap (joined (fields_of blob)) ≡ some blob
unfolding read_wrap
read_wrap-joined blob sized =
    next_field-append 8 blob.magic _ _ sized.magic_size
    ∙ valid_next sized.magic_valid
    ∙ next_field-append 16 blob.salt _ _ sized.salt_size
    ∙ next_field-append 12 blob.iv _ _ sized.iv_size
    ∙ next_field-append 16 blob.tag _ _ sized.tag_size
    ∙ next_field-append 32 blob.ct _ _ sized.ct_size
    ∙ next_field-append 16 blob.noise _ _ sized.noise_size
  where
    valid_next :
        {b : Bool} {next : Option WrapBlob} → b ≡ true → (if not b then none else next) ≡ next
    valid_next e = rw e refl
