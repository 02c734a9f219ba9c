-- ===== src/Base.antt =====
-- What the modules share: library names, tests on numbers, writes to arrays, and results of calls.
pub use Prim.Native.Nat.{ℕ, zero, suc, ◌+◌, ◌-◌, ◌*◌, ◌/◌, ◌%◌, ◌^◌, ◌≤◌, ◌<◌}
pub use mathlib.Core.Path.{◌≡◌, refl, sym, ap, ◌∙◌}
pub use mathlib.Core.Logic.{◌≢◌, ◌↔◌, ◌⊎◌, inl, inr}
pub use mathlib.Core.Bool.{Bool, true, false, ◌&&◌, ◌||◌, not}
pub use mathlib.Core.Option.{Option, none, some}
pub use mathlib.Core.List.{List, [], ◌∷◌, ◌++◌}
pub use native.Mathlib.Omega.{arith}
unfoldable pub use native.Mathlib.Decide.{ℕ_discrete}
use Prim.Native.Nat.{compare, Ordering}

abbrev pub ltb : ℕ → ℕ → Bool
ltb a b = elim (compare a b) [ Ordering.lt ↦ true | _ ↦ false ]

abbrev pub leb : ℕ → ℕ → Bool
leb a b = elim (compare a b) [ Ordering.gt ↦ false | _ ↦ true ]

infix 50 ◌==◌
abbrev pub ◌==◌ : ℕ → ℕ → Bool
a == b = elim (compare a b) [ Ordering.eq ↦ true | _ ↦ false ]

infix 1 if◌then◌else◌
abbrev pub if◌then◌else◌ {ℓ} : {A : Type ℓ} → Bool → A → A → A
if true then x else y = x
if false then x else y = y

pub Bool-cases : (b : Bool) → (b ≡ true) ⊎ (b ≡ false)
Bool-cases true = inl refl
Bool-cases false = inr refl

module _ {ℓ} {A : Type ℓ} where
  abbrev pub length : List A → ℕ
  length [] = 0
  length (_ ∷ xs) = suc (length xs)

  -- `f[a] = v`
  abbrev pub update : (ℕ → A) → ℕ → A → ℕ → A
  update f a v b = if a == b then v else f b

  pub update_self : (f : ℕ → A) (a : ℕ) (v : A) → update f a v a ≡ v
  update_self f a v = ground arith

  pub update_other : (f : ℕ → A) (a b : ℕ) (v : A) → a ≢ b → update f a v b ≡ f b
  update_other f a b v h = ground arith

-- 1 where the two are the same address, and 0 elsewhere
abbrev pub one_if : ℕ → ℕ → ℕ
one_if a b = if a == b then 1 else 0

-- ssm_error_t, less the codes that a platform adds
pub data Error : Type 0 where
  internal_error exhausted_act_queue exhausted_event_queue exhausted_memory : Error
  exhausted_priority not_ready invalid_time invalid_memory platform_error : Error

-- How a call ends: with the new state, by SSM_THROW, which does not return, or, in the model alone,
-- because a loop was given too few rounds.
pub data Result {ℓ} (A : Type ℓ) : Type ℓ where
  ok : A → Result A
  throw : Error → Result A
  out_of_fuel : Result A

infixl 5 ◌>>=◌
abbrev pub ◌>>=◌ {ℓ κ} : {A : Type ℓ} {B : Type κ} → Result A → (A → Result B) → Result B
ok a >>= f = f a
throw e >>= f = throw e
out_of_fuel >>= f = out_of_fuel

-- two calls after a first one may be grouped
pub regroup :
    {S T U : Type 0} (first : Result S) (next : S → Result T) (last : T → Result U)
    → ((first >>= next) >>= last) ≡ (first >>= (λ s. next s >>= last))
regroup (throw e) next last = refl
regroup out_of_fuel next last = refl
regroup (ok s) next last = refl

-- SSM_ASSERT
abbrev pub assert {ℓ} : {A : Type ℓ} → Bool → Result A → Result A
assert true rest = rest
assert false rest = throw Error.internal_error
