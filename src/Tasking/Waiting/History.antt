-- ===== src/Tasking/Waiting/History.antt =====
-- What a run of threads that use `TaskWait`, `TaskgroupBegin` and `TaskgroupEnd` of src/tasking.cc has
-- behind it.
use lomp.Prelude.{ℕ, Bool, true, false, Option, none, some, List, [], ◌∷◌, update}
use lomp.Tasking.Waiting.{
  Team, Step, allocates, prepares, invokes, completes, frees, resumes, ends_wait, begins_group,
  ends_group, Reach, start, then_step,
}

-- `closed` tells the taskgroups whose `TaskgroupEnd` has returned, `opened` the taskgroups that a thread
-- has begun and not ended, the innermost first, and `waited` the threads whose `TaskWait` has returned,
-- each with the state in which it did.
pub record History : Type 0 where
  pub closed : ℕ → Bool
  pub opened : ℕ → List ℕ
  pub waited : List (ℕ × Team)

abbrev pub nothing_done : History
nothing_done = record { closed = λ _. false; opened = λ _. []; waited = [] }

abbrev pub close : Option ℕ → (ℕ → Bool) → ℕ → Bool
close none closed = closed
close (some g) closed = update closed g true

abbrev pub inner_ended : List ℕ → List ℕ
inner_ended [] = []
inner_ended (g ∷ l) = l

unfoldable pub log : {s t : Team} → Step s t → History → History
log (allocates thread) h = h
log (prepares thread t s' lt same e) h = h
log (invokes thread t lt) h = h
log (completes t l r s' is e) h = h
log (frees t) h = h
log (resumes thread previous known) h = h
log {s = s} (ends_wait thread over) h = record h { waited = (thread, s) ∷ h.waited }
log {s = s} (begins_group thread) h = record h {
  opened = update h.opened thread (s.taskgroups ∷ h.opened thread);
}
log {s = s} (ends_group thread over) h = record h {
  closed = close (s.store.current_group thread) h.closed;
  opened = update h.opened thread (inner_ended (h.opened thread));
}

unfoldable pub history : {s : Team} → Reach s → History
history start = nothing_done
history (then_step r st) = log st (history r)
