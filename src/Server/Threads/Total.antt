-- ===== src/Server/Threads/Total.antt =====
-- Sums over the threads, and predicates on all of them, when a thread is added or moves on.
use sneso_ip.Common.{
  ℕ, zero, suc, ◌+◌, ◌<◌, ◌≡◌, ◌≢◌, refl, sym, ◌∙◌, List, [], ◌∷◌, ◌++◌, arith, length, get_or, set,
  All,
}
use sneso_ip.Server.Threads.{Thread, created, numbered, counting, talking, leaving, ended}

module _ (weight : Thread → ℕ) where
  abbrev pub total : List Thread → ℕ
  total [] = 0
  total (t ∷ ts) = weight t + total ts

  pub total-append : (ts us : List Thread) → total (ts ++ us) ≡ total ts + total us
  total-append [] us = omega arith
  total-append (t ∷ ts) us = omega (arith, total-append ts us)

  total-set :
      (ts : List Thread) (i : ℕ) (u : Thread)
      → i < length ts
      → total (set ts i u) + weight (get_or ts i ended) ≡ total ts + weight u
  total-set [] i u h = absurd (omega arith)
  total-set (t ∷ ts) zero u h = omega arith
  total-set (t ∷ ts) (suc i) u h = omega (arith, total-set ts i u (omega arith))

in_range : (ts : List Thread) (i : ℕ) → get_or ts i ended ≢ ended → i < length ts
in_range [] i h = absurd (h refl)
in_range (u ∷ ts) zero h = omega arith
in_range (u ∷ ts) (suc i) h = omega (arith, in_range ts i h)

-- The thread `t`, which has not ended, becomes `u`.
pub total_moved :
    (weight : Thread → ℕ) (ts : List Thread) (i : ℕ) (t u : Thread)
    → get_or ts i ended ≡ t
    → t ≢ ended
    → total weight (set ts i u) + weight t ≡ total weight ts + weight u
total_moved weight ts i t u e ne =
    rw (← e) (total-set weight ts i u (in_range ts i (λ q. ne (sym e ∙ q))))

module _ (P : Thread → Type 0) where
  pub All-set : (ts : List Thread) (i : ℕ) (u : Thread) → All P ts → P u → All P (set ts i u)
  All-set [] i u h p = tt
  All-set (t ∷ ts) zero u h p = (p, h.1)
  All-set (t ∷ ts) (suc i) u h p = (h.0, All-set ts i u h.1 p)

  pub All-get : (ts : List Thread) (i : ℕ) → All P ts → P ended → P (get_or ts i ended)
  All-get [] i h p = p
  All-get (t ∷ ts) zero h p = h.0
  All-get (t ∷ ts) (suc i) h p = All-get ts i h.1 p

-- The threads that have counted themselves in and not out, those that have yet to count themselves
-- in, and those that have read the counter and have yet to write it.
abbrev pub talks : Thread → ℕ
talks created = 0
talks (numbered c) = 0
talks (counting c n) = 0
talks (talking c) = 1
talks (leaving n) = 1
talks ended = 0

abbrev pub waits : Thread → ℕ
waits created = 1
waits (numbered c) = 1
waits (counting c n) = 1
waits (talking c) = 0
waits (leaving n) = 0
waits ended = 0

abbrev pub counted : List Thread → ℕ
counted = total talks

abbrev pub waiting : List Thread → ℕ
waiting = total waits

abbrev pub updates : Thread → ℕ
updates created = 0
updates (numbered c) = 0
updates (counting c n) = 1
updates (talking c) = 0
updates (leaving n) = 1
updates ended = 0

abbrev pub updating : List Thread → ℕ
updating = total updates
