-- ===== src/Database/Wrap/Writer.antt =====
-- The writer: partial writes, signals and errors.
use aimrt_comm.Base.{
  ℕ, zero, suc, ◌+◌, ◌-◌, ◌≤◌, ◌≡◌, refl, ap, ◌∙◌, Bool, true, Option, none, some, List, [], ◌∷◌,
  ◌++◌, length, arith,
}
use mathlib.Core.List.{append_assoc, append-nil}
use aimrt_comm.Database.Bytes.{Bytes, take, drop, take-append-drop}
use aimrt_comm.Database.Wrap.{WriteResult, wrote, interrupted, failed, write_loop}

-- how many of the answers take a byte or more, up to the first error
abbrev pub progress : List WriteResult → ℕ
progress [] = 0
progress (wrote zero ∷ answers) = progress answers
progress (wrote (suc n) ∷ answers) = suc (progress answers)
progress (interrupted ∷ answers) = progress answers
progress (failed ∷ answers) = 0

length-drop : (n : ℕ) (xs : Bytes) → length (drop n xs) ≡ length xs - n
length-drop zero xs = omega arith
length-drop (suc n) [] = omega arith
length-drop (suc n) (x ∷ xs) = omega (arith, length-drop n xs)

-- what a run of the loop has put into the file: everything, or the beginning, where it fails
pub record Appended (left file out : Bytes) (result : Bool) : Type 0 where
  pub written : Bytes
  pub missing : Bytes
  pub whole : written ++ missing ≡ left
  pub file_is : out ≡ file ++ written
  pub complete : result ≡ true → missing ≡ []

-- However the writes are cut up and interrupted: the file has what it had and then the bytes that
-- were given, all of them where the result is true and a first part of them where it is false.
pub write_loop-Appended :
    (answers : List WriteResult) (left file out : Bytes) (rest : List WriteResult) (result : Bool)
    → write_loop answers left file ≡ some (result, out, rest)
    → Appended left file out result
unfolding write_loop
write_loop-Appended answers [] file out rest result h = record {
  written = [];
  missing = [];
  whole = refl;
  file_is = cc (append-nil file);
  complete = λ e. refl;
}
write_loop-Appended [] (b ∷ left) file out rest result h = absurd (none_ne_some h)
  where
    none_ne_some :
        {x : Bool × Bytes × List WriteResult}
        → ◌≡◌ {A = Option (Bool × Bytes × List WriteResult)} none (some x)
        → ⊥
    none_ne_some e = cc
write_loop-Appended (wrote n ∷ answers) (b ∷ left) file out rest result h =
    let a =
      write_loop-Appended answers (drop n (b ∷ left)) (file ++ take n (b ∷ left)) out rest result
        h in
    record {
      written = take n (b ∷ left) ++ a.written;
      missing = a.missing;
      whole =
          append_assoc (take n (b ∷ left)) a.written a.missing
          ∙ ap (λ l. take n (b ∷ left) ++ l) a.whole
          ∙ take-append-drop n (b ∷ left);
      file_is = a.file_is ∙ append_assoc file (take n (b ∷ left)) a.written;
      complete = a.complete;
    }
write_loop-Appended (interrupted ∷ answers) (b ∷ left) file out rest result h =
    write_loop-Appended answers (b ∷ left) file out rest result h
write_loop-Appended (failed ∷ answers) (b ∷ left) file out rest result h = record {
  written = [];
  missing = b ∷ left;
  whole = refl;
  file_is = cc (append-nil file);
  complete = λ e. cc;
}

-- The loop ends with success when as many answers take a byte as there are bytes, before any error
-- and with any number of signals between; each of the bytes needs one of these answers at most.
pub write_loop-progress :
    (answers : List WriteResult) (left file : Bytes)
    → length left ≤ progress answers
    → (rest : List WriteResult) × (write_loop answers left file ≡ some (true, file ++ left, rest))
      × (progress answers ≤ progress rest + length left)
unfolding write_loop
write_loop-progress answers [] file h = (answers, rw append-nil refl, omega arith)
write_loop-progress [] (b ∷ left) file h = absurd (omega arith)
write_loop-progress (wrote zero ∷ answers) (b ∷ left) file h =
    let (rest, done, more) = write_loop-progress answers (b ∷ left) (file ++ []) h in
    (rest, done ∙ ap (λ l. some (true, l ++ b ∷ left, rest)) (append-nil file), more)
write_loop-progress (wrote (suc n) ∷ answers) (b ∷ left) file h =
    let (rest, done, more) =
      write_loop-progress answers (drop n left) (file ++ b ∷ take n left)
        (omega (arith, length-drop n left)) in
    (
      rest,
      done
          ∙ ap (λ l. some (true, l, rest))
              (append_assoc file (b ∷ take n left) (drop n left)
                ∙ ap (λ l. file ++ b ∷ l) (take-append-drop n left)),
      omega (arith, length-drop n left),
    )
write_loop-progress (interrupted ∷ answers) (b ∷ left) file h =
    write_loop-progress answers (b ∷ left) file h
write_loop-progress (failed ∷ answers) (b ∷ left) file h = absurd (omega arith)
