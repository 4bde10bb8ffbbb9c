-- ===== src/Sync/Mutex.antt =====
-- src/locks.cc: `class pthreadMutexLock` and `class cxxMutexLock`, which pass their calls on to a
-- mutex of the system. The mutex, its states `M` and its calls are parameters.
use lomp.Prelude.{ℕ, ◌≡◌, ◌↔◌, inl, inr, Bool, true, not, ◌==◌, arith, Bool-cases}

module _ {ℓ} {M : Type ℓ} where
  -- `pthread_mutex_trylock` returns a number, which is converted to `bool`.
  unfoldable pub pthread_try_lock : (mutex_trylock : M → M × ℕ) → M → M × Bool
  pthread_try_lock mutex_trylock m = ((mutex_trylock m).0, not ((mutex_trylock m).1 == 0))

  -- `std::mutex::try_lock` returns a `bool`.
  unfoldable pub cxx_try_lock : (try_lock : M → M × Bool) → M → M × Bool
  cxx_try_lock try_lock m = try_lock m

  -- `pthread_mutex_trylock` is documented to return 0 exactly where it has acquired the mutex;
  -- `acquired before after` says whether it has. The lock's `try_lock` then answers true exactly where
  -- the mutex was not acquired.
  pub pthread_try_lock-inverted :
      (mutex_trylock : M → M × ℕ) (acquired : M → M → Bool)
      → ((m : M) → ((mutex_trylock m).1 ≡ 0) ↔ (acquired m (mutex_trylock m).0 ≡ true))
      → (m : M)
      → (pthread_try_lock mutex_trylock m).1 ≡ not (acquired m (pthread_try_lock mutex_trylock m).0)
  unfolding pthread_try_lock
  pthread_try_lock-inverted mutex_trylock acquired documented m =
      elim (Bool-cases (acquired m (mutex_trylock m).0)) [
        | inl yes_taken ↦ ground (arith, documented m)
        | inr not_taken ↦ ground (arith, documented m)
      ]
