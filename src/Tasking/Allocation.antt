-- ===== src/Tasking/Allocation.antt =====
-- src/tasking.cc and src/entrypoints.cc: the memory of a task, which holds its descriptor, what the
-- compiler appends to the closure in it, and the variables that it shares, in this order. The sizes
-- of the structs are the compiler's and so parameters.
use lomp.Prelude.{
  ℕ, ◌+◌, ◌-◌, ◌≤◌, ◌<◌, ◌≡◌, refl, arith, Option, none, some, ◌==◌, if◌then◌else◌, ltb,
}

-- `sizeof(TaskDescriptor)`, of its `Closure`, of its `metadata`, and the offset of the closure in it.
pub record Layout : Type 0 where
  pub descriptor_size : ℕ
  pub closure_size : ℕ
  pub metadata_size : ℕ
  pub closure_offset : ℕ

-- What the language promises of a struct of these two members, the second of which needs no stricter
-- alignment than the first: they lie in it one after the other with nothing between them.
pub record Laid (l : Layout) : Type 0 where
  pub metadata_first : l.closure_offset ≡ l.metadata_size
  pub closure_within : l.closure_offset + l.closure_size ≤ l.descriptor_size

unfoldable pub compute_alloc_size : Layout → (size_of_task_closure size_of_shareds : ℕ) → ℕ
compute_alloc_size l size_of_task_closure size_of_shareds =
    let alloc_diff : ℕ = l.descriptor_size - l.closure_size in
    (if ltb l.closure_size size_of_task_closure then size_of_task_closure else l.closure_size)
    + size_of_shareds
    + alloc_diff

-- Where `InitializeTaskDescriptor` puts `closure.data`, from the address of the task; `none` is the
-- null pointer.
unfoldable pub data_offset : Layout → (size_of_task_closure size_of_shareds : ℕ) → Option ℕ
data_offset l size_of_task_closure size_of_shareds =
    if ltb 0 size_of_shareds then some (l.metadata_size + size_of_task_closure) else none

unfoldable pub task_to_closure : Layout → (task : ℕ) → ℕ
task_to_closure l task = task + l.closure_offset

unfoldable pub closure_to_task : Layout → (closure : ℕ) → ℕ
closure_to_task l closure = closure - l.closure_offset

-- `__kmpc_omp_task_alloc`: the closure it returns, the size that it has asked for and where the shared
-- variables are, or a fatal error. The allocator's answer is `task`.
pub record Allocated : Type 0 where
  pub closure : ℕ
  pub size : ℕ
  pub shareds : Option ℕ

unfoldable pub omp_task_alloc :
    Layout → (task flags size_of_task_closure size_of_shareds : ℕ) → Option Allocated
omp_task_alloc l task flags size_of_task_closure size_of_shareds =
    if flags == 1
    then some (record {
      closure = task_to_closure l task;
      size = compute_alloc_size l size_of_task_closure size_of_shareds;
      shareds = data_offset l size_of_task_closure size_of_shareds;
    })
    else none

-- `GOMP_task`, up to where it copies the task's data.
unfoldable pub gomp_task : Layout → (task argsz flags : ℕ) → Option Allocated
gomp_task l task argsz flags =
    if flags == 0 then omp_task_alloc l task 0 l.descriptor_size argsz else none

-- With the flags that the entry point takes, a closure of any size and variables to share: the
-- memory asked for holds the whole descriptor, which the runtime writes, and the variables, which lie
-- behind the compiler's closure; and the entry points that take the closure find the task from it.
pub omp_task_alloc-Fits :
    (l : Layout) (task size_of_task_closure size_of_shareds : ℕ)
    → Laid l
    → 0 < size_of_shareds
    → (a : Allocated) × (offset : ℕ) × (omp_task_alloc l task 1 size_of_task_closure size_of_shareds
        ≡ some a)
      × (a.shareds ≡ some offset)
      × (l.closure_offset + size_of_task_closure ≤ offset)
      × (offset + size_of_shareds ≤ a.size)
      × (l.descriptor_size ≤ a.size)
      × (closure_to_task l a.closure ≡ task)
unfolding omp_task_alloc compute_alloc_size data_offset task_to_closure closure_to_task
omp_task_alloc-Fits l task closure shareds laid some_shared = (
  record {
    closure = task_to_closure l task;
    size = compute_alloc_size l closure shareds;
    shareds = data_offset l closure shareds;
  },
  l.metadata_size + closure,
  refl,
  ground arith,
  omega (arith, laid.metadata_first),
  ground (arith, laid.metadata_first, laid.closure_within),
  ground (arith, laid.closure_within),
  omega arith,
)

-- The entry point for GCC's tasks ends in a fatal error, whatever it is called with, since it asks for
-- the task with flags that the other entry point does not take.
pub gomp_task_fatal : (l : Layout) (task argsz flags : ℕ) → gomp_task l task argsz flags ≡ none
unfolding gomp_task omp_task_alloc
gomp_task_fatal l task argsz flags = ground arith
