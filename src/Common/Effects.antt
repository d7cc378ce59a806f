-- ===== src/Common/Effects.antt =====
-- Code that changes state and may throw. The state that a throw leaves behind is kept, so that a
-- handler continues from it, as `catch` does.
use Prim.Native.String.{String}
use mathlib.Core.Path.{◌≡◌, refl}
use mathlib.Core.Logic.{◌⊎◌, inl, inr}
use mathlib.Core.Bool.{Bool}
use mathlib.Core.Option.{Option}

-- The fields that the code reads of a thrown object: `instanceof Error`, `instanceof
-- ValidationError`, a string `code`, a string `driverError.code`, `constructor.name`, `message`.
pub record ErrorFields : Type 0 where
  pub is_error : Bool
  pub is_validation : Bool
  pub code : Option String
  pub driver_code : Option String
  pub constructor_name : String
  pub message : String

-- A thrown value: a string, number or the like (by its `String(err)`), or an object.
pub data Thrown : Type 0 where
  primitive : String → Thrown
  object : ErrorFields → Thrown

pub data Run (S A : Type 0) : Type 0 where
  returned : A → S → Run S A
  threw : Thrown → S → Run S A

abbrev pub Prog : Type 0 → Type 0 → Type 0
Prog S A = S → Run S A

infixl 5 ◌>>=◌ ◌>>◌
abbrev pub ◌>>=◌ : {S A B : Type 0} → Prog S A → (A → Prog S B) → Prog S B
◌>>=◌ m k s = elim (m s) [ returned a s' ↦ k a s' | threw e s' ↦ threw e s' ]

abbrev pub ◌>>◌ : {S A B : Type 0} → Prog S A → Prog S B → Prog S B
m >> k = m >>= λ _. k

abbrev pub pure : {S A : Type 0} → A → Prog S A
pure a s = returned a s

abbrev pub throw : {S A : Type 0} → Thrown → Prog S A
throw e s = threw e s

-- `try { m } catch (e) { h(e) }`.
abbrev pub try_catch : {S A : Type 0} → Prog S A → (Thrown → Prog S A) → Prog S A
try_catch m h s = elim (m s) [ returned a s' ↦ returned a s' | threw e s' ↦ h e s' ]

-- The outcome of a call into a library or a service: the value it gives, or what it throws.
pub data Reply (A : Type 0) : Type 0 where
  gives : A → Reply A
  fails : Thrown → Reply A

abbrev pub await : {S A : Type 0} → Reply A → Prog S A
await (gives a) s = returned a s
await (fails e) s = threw e s

abbrev pub final_state : {S A : Type 0} → Run S A → S
final_state (returned a s) = s
final_state (threw e s) = s

-- `try { m } finally { r }`: what `r` throws replaces what `m` gave.
abbrev pub finally : {S A : Type 0} → Prog S A → Prog S (Unit {0}) → Prog S A
finally m r s = elim (m s) [
  | returned a s' ↦ elim (r s') [ returned _ s'' ↦ returned a s'' | threw e s'' ↦ threw e s'' ]
  | threw e s' ↦ elim (r s') [ returned _ s'' ↦ threw e s'' | threw e' s'' ↦ threw e' s'' ]
]

pub Reply-cases :
    {A : Type 0} (r : Reply A) → ((a : A) × (r ≡ gives a)) ⊎ ((e : Thrown) × (r ≡ fails e))
Reply-cases (gives a) = inl (a, refl)
Reply-cases (fails e) = inr (e, refl)
