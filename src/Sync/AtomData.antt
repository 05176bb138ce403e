-- ===== src/Sync/AtomData.antt =====
-- `sync::AtomData` (src/sync/atom_data.h). Each part that runs under one lock is a function; the
-- time, in milliseconds, is an argument. `uint64_t` arithmetic wraps.
pub mod Freshness
use aimrt_comm.Base.{ℕ, ◌+◌, ◌-◌, ◌%◌, ◌^◌, Bool, true, false, ◌==◌, not, ltb, if◌then◌else◌}

module _ (A : Type 0) where
  pub record AtomData : Type 0 where
    pub obj : A
    pub has : Bool
    pub timeout : ℕ
    pub last_recv_time : ℕ

module _ {A : Type 0} where
  -- the constructor; `obj` starts as the default value of the type
  unfoldable pub create : A → ℕ → AtomData A
  create default timeout = record {
    obj = default;
    has = false;
    timeout = timeout;
    last_recv_time = 0;
  }

  unfoldable pub set : ℕ → A → AtomData A → AtomData A
  set now a d =
      let stamped = if not (d.timeout == 0) then record d { last_recv_time = now } else d in
      record stamped { obj = a; has = true }

  unfoldable pub get : A → AtomData A → A
  get default d = if d.has then d.obj else default

  -- `now_timestemp - last_recv_time_ > timeout_`, in `uint64_t`
  unfoldable pub expired : ℕ → AtomData A → Bool
  expired now d = ltb d.timeout ((now + 2 ^ 64 - d.last_recv_time) % 2 ^ 64)

  unfoldable pub has_data : ℕ → AtomData A → Bool
  unfolding expired
  has_data now d = if not (d.timeout == 0) then (if expired now d then false else d.has) else d.has

  -- `GetAndClear` is two critical sections: the test `Has()`, and this, on the test's result
  unfoldable pub finish_get : Bool → A → AtomData A → Bool × A × AtomData A
  finish_get res a d = if not res then (false, a, d) else (true, d.obj, record d { has = false })

  -- `GetAndClear` with nothing in between: the result, the output argument and the object
  unfoldable pub get_and_clear : ℕ → A → AtomData A → Bool × A × AtomData A
  unfolding has_data finish_get
  get_and_clear now a d = finish_get (has_data now d) a d

  unfoldable pub clear : AtomData A → AtomData A
  clear d = record d { has = false }
