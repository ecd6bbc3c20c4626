-- ===== src/Queue/Chain.antt =====
-- What a queue stands for: the list of the distinct PCBs that its links lead through.
use demo_os.Base.{
  ◌≡◌, ◌≢◌, ◌∙◌, refl, List, [], ◌∷◌, ◌++◌, arith, ◌∈◌, last_or, last_or-mem, Distinct, ne_of_mem,
  sym,
}
use demo_os.Process.{Ptr, null, Store}
use demo_os.Queue.{ProcessQueue}

-- From `p` the `next_ready` links lead through the nodes `xs` to `stop`.
abbrev pub Seg : Store → Ptr → List Ptr → Ptr → Type 0
Seg h p [] stop = p ≡ stop
Seg h p (x ∷ xs) stop = (p ≡ x) × (x ≢ null) × Seg h (h x).next_ready xs stop

-- The queue holds the processes `xs`, first to last.
pub record IsQueue (h : Store) (q : ProcessQueue) (xs : List Ptr) : Type 0 where
  pub chain : Seg h q.head xs null
  pub tail : q.tail ≡ last_or null xs
  pub distinct : Distinct xs

-- Only the links of the chain's own nodes matter.
pub Seg-frame :
    (h g : Store) (p : Ptr) (xs : List Ptr) (stop : Ptr)
    → ((a : Ptr) → a ∈ xs → (g a).next_ready ≡ (h a).next_ready)
    → Seg h p xs stop
    → Seg g p xs stop
Seg-frame h g p [] stop same c = c
Seg-frame h g p (x ∷ xs) stop same c = (
  c.0,
  c.1,
  rw (same x (ground arith))
      (Seg-frame h g (h x).next_ready xs stop (λ a i. same a (ground arith)) c.2),
)

pub IsQueue-frame :
    {h : Store} (g : Store) {q : ProcessQueue} {xs : List Ptr}
    → ((a : Ptr) → a ∈ xs → (g a).next_ready ≡ (h a).next_ready)
    → IsQueue h q xs
    → IsQueue g q xs
IsQueue-frame {h} g {q} {xs} same c = record {
  chain = Seg-frame h g q.head xs null same c.chain;
  tail = c.tail;
  distinct = c.distinct;
}

pub Seg-append :
    (h : Store) (p : Ptr) (xs : List Ptr) (q : Ptr) (ys : List Ptr) (stop : Ptr)
    → Seg h p xs q
    → Seg h q ys stop
    → Seg h p (xs ++ ys) stop
Seg-append h p [] q ys stop c d = rw c d
Seg-append h p (x ∷ xs) q ys stop c d = (c.0, c.1, Seg-append h (h x).next_ready xs q ys stop c.2 d)

-- A chain through `x ∷ xs` may be cut behind these nodes.
pub Seg-split :
    (h : Store) (p x : Ptr) (xs ys : List Ptr) (stop : Ptr)
    → Seg h p (x ∷ (xs ++ ys)) stop
    → Seg h p (x ∷ xs) (h (last_or x xs)).next_ready × Seg h (h (last_or x xs)).next_ready ys stop
Seg-split h p x [] ys stop c = ((c.0, c.1, refl), c.2)
Seg-split h p x (y ∷ xs) ys stop c =
    let rest = Seg-split h (h x).next_ready y xs ys stop c.2 in ((c.0, c.1, rest.0), rest.1)

-- Moving the last link moves the end.
pub Seg-relink :
    (h g : Store) (p x : Ptr) (xs : List Ptr) (stop stop' : Ptr)
    → Distinct (x ∷ xs)
    → ((a : Ptr) → a ∈ x ∷ xs → a ≢ last_or x xs → (g a).next_ready ≡ (h a).next_ready)
    → (g (last_or x xs)).next_ready ≡ stop'
    → Seg h p (x ∷ xs) stop
    → Seg g p (x ∷ xs) stop'
Seg-relink h g p x [] stop stop' d same end c = (c.0, c.1, end)
Seg-relink h g p x (y ∷ xs) stop stop' d same end c =
    let apart : x ≢ last_or y xs =
      λ e. ne_of_mem (last_or y xs) x (y ∷ xs) (last_or-mem y xs) d.0 (sym e) in
    (
      c.0,
      c.1,
      rw (same x (ground arith) apart) (
          Seg-relink h g (h x).next_ready y xs stop stop' d.1 (λ a i ne. same a (ground arith) ne)
            end c.2),
    )

-- The nodes of a chain are not NULL.
pub ne-null_of_mem :
    (h : Store) (p : Ptr) (xs : List Ptr) (stop a : Ptr) → Seg h p xs stop → a ∈ xs → a ≢ null
ne-null_of_mem h p [] stop a c i = cc
ne-null_of_mem h p (x ∷ xs) stop a c i = ground (arith, ne-null_of_mem h (h x).next_ready xs stop a)

-- The links determine the list.
pub Seg-unique :
    (h : Store) (p : Ptr) (xs ys : List Ptr) → Seg h p xs null → Seg h p ys null → xs ≡ ys
Seg-unique h p [] [] c d = refl
Seg-unique h p [] (y ∷ ys) c d = absurd (d.1 (sym d.0 ∙ c))
Seg-unique h p (x ∷ xs) [] c d = absurd (c.1 (sym c.0 ∙ d))
Seg-unique h p (x ∷ xs) (y ∷ ys) c d =
    let same : x ≡ y = sym c.0 ∙ d.0 in
    rw (same, Seg-unique h (h y).next_ready xs ys (rw same at c.2) d.2) refl

pub IsQueue-unique :
    {h : Store} {q : ProcessQueue} {xs ys : List Ptr} → IsQueue h q xs → IsQueue h q ys → xs ≡ ys
IsQueue-unique {h} {q} {xs} {ys} c d = Seg-unique h q.head xs ys c.chain d.chain
