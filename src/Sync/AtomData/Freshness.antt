-- ===== src/Sync/AtomData/Freshness.antt =====
-- When the data of an `AtomData` is there, and who gets it.
use aimrt_comm.Base.{
  ℕ, ◌+◌, ◌-◌, ◌%◌, ◌^◌, ◌≤◌, ◌<◌, ◌≡◌, ◌≢◌, refl, true, false, ◌==◌, leb, ◌||◌, if◌then◌else◌,
  arith,
}
use aimrt_comm.Sync.AtomData.{AtomData, set, has_data, finish_get, get_and_clear}

elapsed : (t n : ℕ) → t ≤ n → n < 2 ^ 64 → (n + 2 ^ 64 - t) % 2 ^ 64 ≡ n - t
elapsed t n le small = omega arith

backwards : (t n : ℕ) → n < t → t < 2 ^ 64 → (n + 2 ^ 64 - t) % 2 ^ 64 ≡ n + 2 ^ 64 - t
backwards t n lt small = omega arith

module _ {A : Type 0} where
  -- A value that was set is there as long as no timeout is set or the time since does not exceed
  -- it; taking it then returns it and leaves nothing to take.
  pub get_and_clear-set :
      (d : AtomData A) (a b c : A) (set_time now later : ℕ)
      → set_time ≤ now
      → now < 2 ^ 64
      → let fresh = d.timeout == 0 || leb (now - set_time) d.timeout in
        let (got, out, d') = get_and_clear now b (set set_time a d) in
        (got ≡ fresh)
        × (out ≡ (if fresh then a else b))
        × ((get_and_clear later c d').0
            ≡ (if fresh then false else has_data later (set set_time a d)))
  unfolding get_and_clear set
  get_and_clear-set d a b c set_time now later le small =
      ground (arith, elapsed set_time now le small)

  has_data-taken : (now : ℕ) (d : AtomData A) → has_data now (record d { has = false }) ≡ false
  unfolding has_data
  has_data-taken now d = ground arith

  -- Two callers of `GetAndClear` on an object that has data at both times: where the second tests after
  -- the first has taken the value, it fails and its argument stays as it was; where both test before
  -- either takes, both succeed and both get the one value. Either way the object is left without data.
  pub get_and_clear_race :
      (d : AtomData A) (a b : A) (now now' : ℕ)
      → has_data now d ≡ true
      → has_data now' d ≡ true
      → let (got, out, d') = get_and_clear now a d in
        let (late, out_late, left) = get_and_clear now' b d' in
        let (first, out_first, e') = finish_get (has_data now d) a d in
        let (second, out_second, e'') = finish_get (has_data now' d) b e' in
        ((got ≡ true) × (out ≡ d.obj) × (late ≡ false) × (out_late ≡ b))
        × ((first ≡ true) × (out_first ≡ d.obj) × (second ≡ true) × (out_second ≡ d.obj))
        × ((t : ℕ) → (has_data t left ≡ false) × (has_data t e'' ≡ false))
  unfolding get_and_clear finish_get
  get_and_clear_race d a b now now' h h' =
      rw (h, h', has_data-taken now' d)
        (
          (refl, refl, refl, refl),
          (refl, refl, refl, refl),
          (λ t. (has_data-taken t d, has_data-taken t d)),
        )

  -- With the clock set back behind the time of the last value, the value counts as expired.
  pub has_data_after_clock_back :
      (d : AtomData A) (now : ℕ)
      → d.timeout ≢ 0
      → now < d.last_recv_time
      → d.last_recv_time < 2 ^ 63
      → d.timeout < 2 ^ 63
      → has_data now d ≡ false
  unfolding has_data
  has_data_after_clock_back d now set lt small short =
      ground (arith, backwards d.last_recv_time now lt)
