-- ===== src/Sched/Lottery/Draw.antt =====
-- The walks of the lottery on the list that the queue stands for.
use demo_os.Base.{
  ℕ, zero, suc, ◌+◌, ◌-◌, ◌<◌, ◌≤◌, ◌≡◌, refl, ap, ◌∙◌, true, false, ◌==◌, ltb, some, List, [], ◌∷◌,
  ◌++◌, arith, last_or, length, Bool-cases, inl, inr,
}
use demo_os.Process.{Ptr, null, Store}
use demo_os.Queue.Chain.{Seg}
use demo_os.Sched.Lottery.{effective_tickets, count_tickets, find_winner}

-- The tickets of a list of processes.
unfoldable pub tickets_of : Store → List Ptr → ℕ
tickets_of h [] = 0
tickets_of h (x ∷ xs) = effective_tickets (h x) + tickets_of h xs

-- The first walk adds the tickets of the whole queue.
pub count_tickets-sum :
    (fuel : ℕ) (h : Store) (p : Ptr) (xs : List Ptr) (total : ℕ)
    → Seg h p xs null
    → length xs < fuel
    → count_tickets fuel h p total ≡ some (total + tickets_of h xs)
unfolding count_tickets tickets_of
count_tickets-sum zero h p xs total s l = elim l [ ]
count_tickets-sum (suc fuel) h p [] total s l = rw s (ap some (omega arith))
count_tickets-sum (suc fuel) h p (x ∷ xs) total s l =
    let not_null : (x == null) ≡ false = ground (arith, s.1) in
    rw (s.0, not_null)
      (count_tickets-sum fuel h (h x).next_ready xs (total + effective_tickets (h x)) s.2
          (omega arith)
        ∙ ap some (omega arith))

find_winner_from :
    (fuel : ℕ) (h : Store) (winner counter : ℕ) (previous p : Ptr) (front : List Ptr) (x : Ptr)
    (back : List Ptr)
    → Seg h p (front ++ (x ∷ back)) null
    → length front < fuel
    → counter + tickets_of h front ≤ winner
    → winner < counter + tickets_of h front + effective_tickets (h x)
    → find_winner fuel h winner counter previous p ≡ some (last_or previous front, x)
unfolding find_winner tickets_of
find_winner_from zero h winner counter previous p front x back s l lo hi = elim l [ ]
find_winner_from (suc fuel) h winner counter previous p [] x back s l lo hi =
    let not_null : (x == null) ≡ false = ground (arith, s.1) in
    let wins : ltb winner (counter + effective_tickets (h x)) ≡ true = ground arith in
    rw (s.0, not_null, wins)
find_winner_from (suc fuel) h winner counter previous p (y ∷ front) x back s l lo hi =
    let not_null : (y == null) ≡ false = ground (arith, s.1) in
    let loses : ltb winner (counter + effective_tickets (h y)) ≡ false = ground arith in
    rw (s.0, not_null, loses)
      (find_winner_from fuel h winner (counter + effective_tickets (h y)) y (h y).next_ready front x
        back s.2 (omega arith) (omega arith) (omega arith))

-- In a linked queue with fewer processes than the fuel, a process wins with every ticket from
-- the sum of the tickets before it up to, not including, that sum plus its own; the walk also
-- returns its predecessor.
pub find_winner-holder :
    (h : Store) (p : Ptr) (front : List Ptr) (x : Ptr) (back : List Ptr) (fuel winner : ℕ)
    → Seg h p (front ++ (x ∷ back)) null
    → length front < fuel
    → tickets_of h front ≤ winner
    → winner < tickets_of h front + effective_tickets (h x)
    → find_winner fuel h winner 0 null p ≡ some (last_or null front, x)
find_winner-holder h p front x back fuel winner s l lo hi =
    find_winner_from fuel h winner 0 null p front x back s l (omega arith) (omega arith)

-- Every ticket below the total has a holder.
pub record Holder (h : Store) (winner : ℕ) (xs : List Ptr) : Type 0 where
  pub front : List Ptr
  pub x : Ptr
  pub back : List Ptr
  pub parts : xs ≡ front ++ (x ∷ back)
  pub above : tickets_of h front ≤ winner
  pub below : winner < tickets_of h front + effective_tickets (h x)

pub find-Holder :
    (h : Store) (winner : ℕ) (xs : List Ptr) → winner < tickets_of h xs → Holder h winner xs
unfolding tickets_of
find-Holder h winner [] l = elim l [ ]
find-Holder h winner (x ∷ xs) l = elim (Bool-cases (ltb winner (effective_tickets (h x)))) [
  | inl wins ↦ record {
    front = [];
    x = x;
    back = xs;
    parts = refl;
    above = omega arith;
    below = ground arith;
  }
  | inr loses ↦
      let rest = find-Holder h (winner - effective_tickets (h x)) xs (ground arith) in
      record {
        front = x ∷ rest.front;
        x = rest.x;
        back = rest.back;
        parts = ap (λ ys. x ∷ ys) rest.parts;
        above = ground (arith, rest.above);
        below = ground (arith, rest.below);
      }
]
