-- ===== src/Database/Sql/Statements/Literal.antt =====
-- Default values as SQL literals.
use aimrt_comm.Base.{
  ℕ, suc, ◌+◌, ◌<◌, length, length-append, Bool-cases, inl, inr, ◌≡◌, ◌≢◌, refl, Bool, true, false,
  ◌==◌, Option, none, some, [], ◌∷◌, ◌++◌, if◌then◌else◌, arith,
}
use aimrt_comm.Base.Fallible.{◌>>=◌, passed}
use aimrt_comm.Utils.Text.{Text}
use aimrt_comm.Database.Sql.Statements.{quoted}

-- the text of a literal after its opening quote: it ends with a quote that stands alone, and two quotes
-- are one of the text; the rest must be empty
unfoldable pub literal_rest : Text → Option Text
literal_rest [] = none
literal_rest (c ∷ []) = if c == b'\'' then some [] else none
literal_rest (c ∷ d ∷ s) =
    let longer = literal_rest (d ∷ s) >>= λ t. some (c ∷ t) in
    let doubled = literal_rest s >>= λ t. some (c ∷ t) in
    if c == b'\'' then (if d == b'\'' then doubled else none) else longer

unfoldable pub literal_text : Text → Option Text
unfolding literal_rest
literal_text [] = none
literal_text (c ∷ s) = let rest = literal_rest s in if c == b'\'' then rest else none

unfoldable pub has_quote : Text → Bool
has_quote [] = false
has_quote (c ∷ s) = let rest = has_quote s in if c == b'\'' then true else rest

abbrev quotes : Text → ℕ
quotes [] = 0
quotes (c ∷ s) = let rest = quotes s in if c == b'\'' then suc rest else rest

some_same : {x y : Text} → some x ≡ some y → x ≡ y
some_same h = cc

-- each quote of the text is two of the literal
length-literal_rest : (s t : Text) → literal_rest s ≡ some t → length s ≡ length t + quotes t + 1
unfolding literal_rest
length-literal_rest [] t h = cc
length-literal_rest (c ∷ []) t h = elim (Bool-cases (c == b'\'')) [
  | inl quote ↦ (let h' = rw quote at h in rw (← some_same h') (omega arith))
  | inr other ↦ let h' = rw other at h in cc
]
length-literal_rest (c ∷ d ∷ s) t h = elim (Bool-cases (c == b'\'')) [
  | inl quote ↦ elim (Bool-cases (d == b'\'')) [
    | inl doubled ↦
        (let h' = rw (quote, doubled) at h in
          let (r, read, made) = passed (literal_rest s) (λ t. some (c ∷ t)) h' in
          rw (← some_same made) (rw quote (omega (arith, length-literal_rest s r read))))
    | inr other ↦ let h' = rw (quote, other) at h in cc
  ]
  | inr plain ↦
      (let h' = rw plain at h in
        let (r, read, made) = passed (literal_rest (d ∷ s)) (λ t. some (c ∷ t)) h' in
        rw (← some_same made) (rw plain (omega (arith, length-literal_rest (d ∷ s) r read))))
]

literal_rest-plain : (v : Text) → has_quote v ≡ false → literal_rest (v ++ b'\'' ∷ []) ≡ some v
unfolding literal_rest has_quote
literal_rest-plain [] h = refl
literal_rest-plain (c ∷ []) h = ground arith
literal_rest-plain (c ∷ d ∷ s) h = ground (arith, literal_rest-plain (d ∷ s))

has_quote-quotes : (v : Text) → has_quote v ≡ true → 0 < quotes v
unfolding has_quote
has_quote-quotes [] h = cc
has_quote-quotes (c ∷ s) h = ground (arith, has_quote-quotes s)

-- The default value that `set_default_value` stores is the SQL literal of the given text exactly if
-- the text has no quote: quotes are not doubled.
pub literal_text-quoted :
    (v : Text)
    → (has_quote v ≡ false → literal_text (quoted v) ≡ some v)
      × (has_quote v ≡ true → literal_text (quoted v) ≢ some v)
unfolding literal_text quoted has_quote
literal_text-quoted [] = ((λ h. refl), (λ h. cc))
literal_text-quoted (c ∷ s) = (
  (λ h. literal_rest-plain (c ∷ s) h),
  (λ h read. absurd (
      omega (
        arith,
        length-literal_rest (c ∷ (s ++ b'\'' ∷ [])) (c ∷ s) read,
        has_quote-quotes (c ∷ s) h,
        length-append s (b'\'' ∷ []),
      ))),
)
