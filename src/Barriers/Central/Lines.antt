-- ===== src/Barriers/Central/Lines.antt =====
-- src/barrier_impl.cc: `class LBWBroadcast`, as a way to broadcast: each flag and the body beside it
-- are for `lbw` threads, in one cache line.
pub mod Waking
use lomp.Prelude.{
  ℕ, ◌+◌, ◌-◌, ◌*◌, ◌/◌, ◌%◌, ◌≤◌, ◌<◌, ◌≡◌, ◌≢◌, ◌↔◌, ◌∙◌, ap, refl, sym, subst, arith, Bool, true,
  Option, none, some, ltb, ◌==◌, if◌then◌else◌, update, ℕ_discrete,
}
use native.Mathlib.Nat.{le-div_iff_mul-le, div-add-mod'}
use lomp.Barriers.Central.Interface.{Broadcast}
use lomp.Barriers.Central.Naive.{complement}

-- `go_flags` as the `Flag` and the `OutlinedBody` of each line.
pub record LbwBroadcast : Type 0 where
  pub flags : ℕ → ℕ
  pub outlined_body : ℕ → Option ℕ
  pub next_values : ℕ → ℕ

abbrev pub new_broadcast : (garbage : ℕ → Option ℕ) → LbwBroadcast
new_broadcast garbage = record {
  flags = λ _. 0;
  outlined_body = garbage;
  next_values = λ _. complement 0;
}

-- What thread `me` looks for, and what the root as `me` stores.
abbrev pub next_value : (lbw me : ℕ) → LbwBroadcast → ℕ
next_value lbw me s = if lbw == 1 then complement 0 else s.next_values me

abbrev pub flip : (lbw me : ℕ) → LbwBroadcast → LbwBroadcast
flip lbw me s = record s {
  next_values =
      if lbw == 1 then s.next_values else update s.next_values me (complement (s.next_values me));
}

abbrev pub store_body : (line : ℕ) → Option ℕ → LbwBroadcast → LbwBroadcast
store_body line none s = s
store_body line (some body) s = record s { outlined_body = update s.outlined_body line (some body) }

-- The accesses of `wakeUp`, two for each line: its body, where there is one, and its flag.
abbrev pub store : (lbw k : ℕ) → Option ℕ → LbwBroadcast → LbwBroadcast
store lbw k args s =
    if k % 2 == 0
    then store_body (k / 2) args s
    else record s { flags = update s.flags (k / 2) (next_value lbw 0 s) }

abbrev pub awake : (lbw me : ℕ) → LbwBroadcast → Bool
awake lbw me s = s.flags (me / lbw) == next_value lbw me s

-- What `wait` does after its loop.
abbrev pub take : (lbw me : ℕ) → LbwBroadcast → LbwBroadcast
take lbw me s = flip lbw me (record s { flags = if lbw == 1 then update s.flags me 0 else s.flags })

abbrev pub slot : (lbw me : ℕ) → ℕ
slot lbw me = 2 * (me / lbw) + 1

abbrev pub lines : (lbw n : ℕ) → ℕ
lines lbw n = (n + lbw - 1) / lbw
