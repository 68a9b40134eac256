-- ===== src/Watcher/Debounce.antt =====
-- `_should_process` of vcs/workers/local/local_watcher.py, with times in whole ticks.
use context_os.Base.{
  ℕ, ◌+◌, ◌≤◌, Bool, true, false, List, [], ◌∷◌, ◌==◌, list_eq, nat_eq, ltb, leb, Bool-cases, inl,
  inr, if◌then◌else◌, ◌≡◌, refl, arith, list_beq_iff,
}
use context_os.Base.Text.{Str}

-- `last_event`, a dict from paths to times.
abbrev pub Times : Type 0
Times = List (Str × ℕ)

-- `last_event.get(path, 0)`
unfoldable pub get : Times → Str → ℕ
get [] path = 0
get ((p, t) ∷ times) path = if p == path then t else get times path

-- `last_event[path] = now`
unfoldable pub set : Times → Str → ℕ → Times
set [] path now = (path, now) ∷ []
set ((p, t) ∷ times) path now = if p == path then (p, now) ∷ times else (p, t) ∷ set times path now

-- `now - last < debounce` is written without a subtraction, which the source makes on numbers
-- that may be negative.
unfoldable pub should_process : ℕ → Str → ℕ → Times → Bool × Times
unfolding get set
should_process debounce path now times =
    if ltb now (get times path + debounce) then (false, times) else (true, set times path now)

pub get-set :
    (times : Times) (path other : Str) (now : ℕ)
    → get (set times path now) other ≡ (if path == other then now else get times other)
unfolding get set
get-set [] path other now = refl
get-set ((p, t) ∷ times) path other now = ground (
  arith,
  get-set times path other now,
  list_beq_iff p path,
  list_beq_iff p other,
  list_beq_iff path other,
)

-- The events of a watch in turn; the result holds those that were let through, in order.
unfoldable pub process_all : ℕ → List (Str × ℕ) → Times → List (Str × ℕ)
unfolding should_process
process_all debounce [] times = []
process_all debounce ((path, now) ∷ events) times =
    let (passed, times') = should_process debounce path now times in
    let rest = process_all debounce events times' in if passed then (path, now) ∷ rest else rest

-- The times of one path's events.
unfoldable pub of_path : Str → List (Str × ℕ) → List ℕ
of_path path [] = []
of_path path ((p, t) ∷ events) = if p == path then t ∷ of_path path events else of_path path events

-- The specification for one path: a time passes if it is at least `debounce` after the last one
-- that passed.
unfoldable pub greedy : ℕ → ℕ → List ℕ → List ℕ
greedy debounce last [] = []
greedy debounce last (t ∷ ts) =
    if leb (last + debounce) t then t ∷ greedy debounce t ts else greedy debounce last ts

-- Each time comes at least `debounce` after the one before, the first after `last`.
abbrev pub AreSpaced : ℕ → ℕ → List ℕ → Type 0
AreSpaced debounce last [] = Unit
AreSpaced debounce last (t ∷ ts) = (last + debounce ≤ t) × AreSpaced debounce t ts

greedy-AreSpaced :
    (debounce last : ℕ) (ts : List ℕ) → AreSpaced debounce last (greedy debounce last ts)
unfolding greedy
greedy-AreSpaced debounce last [] = tt
greedy-AreSpaced debounce last (t ∷ ts) = elim (Bool-cases (leb (last + debounce) t)) [
  | inl late ↦ rw late (ground arith, greedy-AreSpaced debounce t ts)
  | inr early ↦ rw early (greedy-AreSpaced debounce last ts)
]

of_path-process_all :
    (debounce : ℕ) (path : Str) (events : List (Str × ℕ)) (times : Times)
    → of_path path (process_all debounce events times)
      ≡ greedy debounce (get times path) (of_path path events)
unfolding process_all of_path greedy
of_path-process_all debounce path [] times = refl
of_path-process_all debounce path ((p, now) ∷ events) times = ground (
  arith,
  of_path-process_all debounce path events times,
  of_path-process_all debounce path events (set times p now),
  get-set times p path now,
  list_beq_iff p path,
)

-- For every path, and whatever the other paths do and the clock shows: the events of the path
-- that are let through are those of the greedy specification, and they are at least the
-- debounce interval apart.
pub process_all-of_path :
    (debounce : ℕ) (path : Str) (events : List (Str × ℕ)) (times : Times)
    → (of_path path (process_all debounce events times)
        ≡ greedy debounce (get times path) (of_path path events))
      × AreSpaced debounce (get times path) (of_path path (process_all debounce events times))
process_all-of_path debounce path events times =
    let e = of_path-process_all debounce path events times in
    (e, rw e (greedy-AreSpaced debounce (get times path) (of_path path events)))
