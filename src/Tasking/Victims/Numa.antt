-- ===== src/Tasking/Victims/Numa.antt =====
-- The victims of `NumaStealStask`, src/tasking.cc.
use lomp.Prelude.{
  ℕ, zero, suc, ◌+◌, ◌%◌, ◌≡◌, ◌≢◌, sym, ap, ◌∙◌, ◌⊎◌, inl, inr, arith, List, [], ◌∷◌, ◌++◌, Option,
  none, some, false, Bool-cases, Option-cases, ◌==◌,
}
use lomp.Tasking.Victims.{Pools, domain_victims, numa_victims, numa_steal}
use lomp.Tasking.Victims.Found.{Counted, Stolen, Among, steal_loop-Outcome}

-- The thread `v` runs on a core other than `my_core`.
abbrev pub Elsewhere : (thread_for_core : ℕ → Option ℕ) (my_core v : ℕ) → Type 0
Elsewhere thread_for_core my_core v = (c : ℕ) × (c ≢ my_core) × (thread_for_core c ≡ some v)

Among-append : (x : ℕ) (xs ys : List ℕ) → Among x (xs ++ ys) → Among x xs ⊎ Among x ys
Among-append x [] ys a = inr a
Among-append x (y ∷ xs) ys (inl e) = inl (inl e)
Among-append x (y ∷ xs) ys (inr a) = elim (Among-append x xs ys a) [
  | inl b ↦ inl (inr b)
  | inr b ↦ inr b
]

module _ (tfc : ℕ → Option ℕ) (cores_for_domain : ℕ → List ℕ) (my_core : ℕ) where
  domain_victims-Elsewhere :
      (cores : List ℕ) (v : ℕ)
      → Among v (domain_victims tfc my_core cores)
      → Elsewhere tfc my_core v
  unfolding domain_victims
  domain_victims-Elsewhere [] v a = elim a [ ]
  domain_victims-Elsewhere (c ∷ cores) v a = elim (Bool-cases (my_core == c)) [
    | inl own ↦ domain_victims-Elsewhere cores v (rw own at a)
    | inr other ↦ elim (Option-cases (tfc c)) [
      | inl idle ↦ domain_victims-Elsewhere cores v (rw (other, idle) at a)
      | inr (u, runs) ↦ elim (here_or_later u other runs a) [
        | inl e ↦ (c, ground arith, runs ∙ ap some (sym e))
        | inr b ↦ domain_victims-Elsewhere cores v b
      ]
    ]
  ]
    where
      here_or_later :
          (u : ℕ)
          → (my_core == c) ≡ false
          → tfc c ≡ some u
          → Among v (domain_victims tfc my_core (c ∷ cores))
          → (v ≡ u) ⊎ Among v (domain_victims tfc my_core cores)
      here_or_later u other runs b = rw (other, runs) at b

  numa_victims-Elsewhere :
      (domains my_domain domain rounds v : ℕ)
      → Among v (numa_victims tfc cores_for_domain domains my_core my_domain domain rounds)
      → Elsewhere tfc my_core v
  unfolding numa_victims
  numa_victims-Elsewhere domains my_domain domain zero v a = elim a [ ]
  numa_victims-Elsewhere domains my_domain domain (suc rounds) v a =
      elim (Among-append v
        (domain_victims tfc my_core (cores_for_domain ((my_domain + domain) % domains))) _ a) [
          | inl b ↦ domain_victims-Elsewhere _ v b
          | inr b ↦ numa_victims-Elsewhere domains my_domain (domain + 1) rounds v b
        ]

  -- A thread on the core `my_core` that steals by NUMA domains, in a team
  -- whose pools' counters agree with what the pools hold, takes the oldest task of the pool of
  -- a thread on another core and changes no other pool, or finds no task and changes nothing.
  pub numa_steal-Elsewhere :
      (domain_of_core : ℕ → ℕ) (domains : ℕ) (pools : Pools)
      → Counted pools
      → ((numa_steal tfc cores_for_domain domain_of_core domains (some my_core) pools).1 ≡ none)
          × ((numa_steal tfc cores_for_domain domain_of_core domains (some my_core) pools).0
              ≡ pools)
        ⊎ ((v : ℕ) × (t : ℕ) × ((numa_steal tfc cores_for_domain domain_of_core domains
                (some my_core)
                pools).1
              ≡ some t)
            × Elsewhere tfc my_core v
            × Stolen pools
                (numa_steal tfc cores_for_domain domain_of_core domains (some my_core) pools).0
                v
                t)
  unfolding numa_steal
  numa_steal-Elsewhere domain_of_core domains pools counted =
      elim (steal_loop-Outcome
        (numa_victims tfc cores_for_domain domains my_core (domain_of_core my_core) 0 domains) pools
        counted) [
          | inl (nothing, kept, all) ↦ inl (nothing, kept)
          | inr (v, t, got, among, st) ↦
              inr (v, t, got, numa_victims-Elsewhere domains _ 0 domains v among, st)
        ]
