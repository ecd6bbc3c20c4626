-- ===== src/System/Returned.antt =====
-- A result, if there is one.
use demo_os.Base.{Option, none, some, ◌≡◌, ◌>>=◌, Returns, returns}

abbrev pub IfReturned {ℓ κ} : {A : Type ℓ} → (A → Type κ) → Option A → Type κ
IfReturned P none = Unit
IfReturned P (some a) = P a

pub IfReturned-Returns {ℓ κ} :
    {A : Type ℓ} {P : A → Type κ} {m : Option A} → Returns P m → IfReturned P m
IfReturned-Returns (returns p) = p

pub IfReturned-bind {ℓ κ ι υ} :
    {A : Type ℓ} {B : Type κ} (P : A → Type ι) (Q : B → Type υ) (m : Option A) (f : A → Option B)
    → IfReturned P m
    → ((a : A) → P a → IfReturned Q (f a))
    → IfReturned Q (m >>= f)
IfReturned-bind P Q none f p next = tt
IfReturned-bind P Q (some a) f p next = next a p

pub IfReturned-some {ℓ κ} :
    {A : Type ℓ} (P : A → Type κ) {m : Option A} {a : A} → IfReturned P m → m ≡ some a → P a
IfReturned-some P r e = rw e at r
