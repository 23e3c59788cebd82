-- ===== src/Base/Partial.antt =====
-- The option monad: `none` is an access that the source does not check, a vector read or written
-- out of range or the front of an empty queue (undefined behaviour in C++).
use Prim.Native.Nat.{ℕ, zero, suc, ◌+◌, ◌≤◌, ◌<◌}
use mathlib.Core.Path.{◌≡◌, refl, subst}
use native.Mathlib.Omega.{arith}
use mathlib.Core.Option.{Option, none, some}

infixl 5 ◌>>=◌
abbrev pub ◌>>=◌ {ℓ κ} : {A : Type ℓ} {B : Type κ} → Option A → (A → Option B) → Option B
none >>= f = none
some a >>= f = f a

-- Inversion of a successful bind.
pub >>=-eq-some {ℓ κ} :
    {A : Type ℓ} {B : Type κ} (m : Option A) (f : A → Option B) {b : B}
    → (m >>= f) ≡ some b
    → (a : A) × (m ≡ some a) × (f a ≡ some b)
>>=-eq-some none f h = cc
>>=-eq-some (some a) f h = (a, refl, h)

-- `for (i = start; i < start + n; i++) s = body(i, s)`
unfoldable pub for {ℓ} : {S : Type ℓ} → ℕ → ℕ → (ℕ → S → Option S) → S → Option S
for zero i body s = some s
for (suc n) i body s = body i s >>= λ s'. for n (suc i) body s'

-- A loop whose body never fails under an invariant ends, with the invariant at the last index.
pub for_total {ℓ κ} :
    {S : Type ℓ} (P : ℕ → S → Type κ) (body : ℕ → S → Option S) (start stop : ℕ)
    → ((i : ℕ) (s : S)
        → start ≤ i
        → i < stop
        → P i s
        → (s' : S) × (body i s ≡ some s') × P (suc i) s')
    → (n i : ℕ) (s : S) → start ≤ i
    → i + n ≡ stop
    → P i s
    → (s' : S) × (for n i body s ≡ some s') × P stop s'
unfolding for
for_total P body start stop keep zero i s lo h p = (s, refl, subst (λ k. P k s) (omega arith) p)
for_total P body start stop keep (suc n) i s lo h p =
    let step = keep i s lo (omega arith) p in
    let rest =
      for_total P body start stop keep n (suc i) step.0 (omega arith) (omega arith) step.2 in
    (rest.0, rw step.1 rest.1, rest.2)
